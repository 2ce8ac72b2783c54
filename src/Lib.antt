-- ===== src/Lib.antt =====
-- RadixKV, a key-value server that speaks the Redis protocol: its pieces between the bytes of a
-- connection and the entries of the store.
--
-- Bytes arrive in chunks. A `StreamByteBuffer` (src/byte-buffer.ts, ByteBuffer.antt) gathers them,
-- and a `RespParser` (src/resp-parser.ts, Resp/Parser.antt) reads values off it; the serializer
-- (src/resp-serializer.ts, Resp/Serializer.antt) writes values. The command handler
-- (src/command-handler.ts, Commands/) runs a value as a command on the `StorageEngine`
-- (src/storage-engine.ts, Storage/) and appends an entry to the log (src/aof-logger.ts,
-- Aof/Logger.antt), which Aof/Flush.antt brings to the file. A connection (src/connection.ts,
-- Connection.antt) takes the chunks of its socket in their order and writes the replies; the server
-- (src/server.ts, Server.antt) keeps the connections. In a cluster the coordinator
-- (src/cluster/cluster-coordinator.ts, Cluster/) reads the keys of a command (Request.antt), finds
-- their shards (Coordinator.antt), sends messages to the workers that have them (Router.antt), and
-- settles its calls when they reply; a worker (src/cluster/worker-thread.ts, Cluster/Worker.antt)
-- runs the messages on its own engine; Cluster/Rpc.antt puts the two together, and
-- Cluster/Router/ReadBack.antt follows two commands through them. Cluster/Console.antt is the
-- coordinator's command line. The collector (src/telemetry/telemetry-collector.ts, Telemetry.antt)
-- counts the commands. The ring (src/cluster/consistent-hash.ts, Cluster/ConsistentHash.antt) says
-- which node has a key, and locks (src/cluster/atomic-lock.ts, Cluster/AtomicLock.antt) order the
-- transactions on several shards. At a start the log is replayed (src/aof-recovery.ts,
-- Aof/Recovery.antt). Cold entries become BSON documents (src/bson-encoder.ts, Bson.antt).
--
-- State. Each class is a record with the class's fields, and each method a function from the old
-- record to the new one beside its result; a call that throws is `err`, without the record: what the
-- parser is after a throw is left open, and Connection.antt takes any parser there. Names are the
-- source's, in snake case. ByteBuffer: `append`, `read_bytes`, `find_crlf` and the others, one for
-- each method. Parser: `execute` is `feed` and then `loop`, which repeats `turn`; a turn is
-- `bulk_turn` or `header_turn`, the two halves of the loop's body. Storage/Engine.antt: `set_key`
-- (`set`), `get`, `del`, `check_memory_and_evict`, `evict_one_lru`; Storage/Numbers.antt: `incr`,
-- `ttl`; Storage/Sweep.antt: `run_active_ttl_cycle`; Storage/Views.antt: `get_stats`, `sample_keys`,
-- `get_cold_entries`, `clear`. The nodes of the LRU list, which the source shares between the map
-- and the list, are named by their keys.
--
-- Numbers are unbounded: the offsets of the source stay below 2^53 under its own limits, and its
-- integers are `bigint`s; those that the BSON codec writes have their widths, and a number of
-- JavaScript is a parameter there. Strings are lists of UTF-16 code units; UTF-8 is a parameter, `Utf8`, of
-- which the laws on ASCII are asked, and `ascii_codec` meets them. `toUpperCase` is a parameter,
-- `UpperCase`, likewise. The clock, the heap in use, the random draws and the hash of the ring are
-- arguments.
--
-- Fuel. `loop` has one more than the unread bytes, and each turn reads at least two. `print_digits`
-- has one more than its number. `search_loop` has one more than the entries of the ring, and each
-- turn narrows its window. `sweep_loop` has one more than the keys that have an expiry, which
-- Storage/SweepEnds.antt shows to be enough; Resp/Parser/Ended.antt shows it of `loop`.
--
-- Interleavings. What may happen to a connection, a server or a collector is a type of events, and a
-- list of events is a run; a chunk's commands are turns of their own, between which other events may
-- come. The coordinator and its workers are a step relation, in which any message may arrive next.
-- Effects are values: what a connection asks of its socket is the list that its calls return.
--
-- Not modelled: sockets, worker threads, files, timers, HTTP, the dashboard, the loop of the BSON
-- codec's `decode` and the database of cold entries, the advisor's remote service; the pointers of
-- the LRU list; the rounding of large numbers to doubles.
pub mod Prelude
pub mod Types
pub mod Result
pub mod ByteBuffer
pub mod Resp
pub mod Storage
pub mod Aof
pub mod Commands
pub mod Connection
pub mod Server
pub mod Telemetry
pub mod Cluster
pub mod Bson
