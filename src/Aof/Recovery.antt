-- ===== src/Aof/Recovery.antt =====
-- src/aof-recovery.ts: the replay of a log. The file is the list of the chunks that its reads return,
-- none of them empty; the readings of the clock are one for each command.
use radix_kv.Prelude.{List, [], if◌then◌else◌, length, ltb, none, ℕ, ◌&&◌, ◌+◌, ◌∷◌}
use radix_kv.Prelude.Text.{Bytes, Utf8}
use radix_kv.Types.{Exception, RespValue}
use radix_kv.Result.{Result, ok, ◌>>=◌}
use radix_kv.Resp.Parser.{RespParser, is_incomplete}
use radix_kv.Resp.Parser
use radix_kv.Storage.Engine.{Readings, StorageEngine}
use radix_kv.Commands.Arguments.{UpperCase}
use radix_kv.Commands.Handlers.{Context}
use radix_kv.Commands.Handlers

-- `CommandHandler.execute(val, engine)` without a log; its reply is dropped.
unfoldable pub replay_one :
    ⦃u : Utf8⦄ → ⦃c : UpperCase⦄ → Readings → RespValue → StorageEngine → StorageEngine
replay_one r val e = (Handlers.execute r val (record { engine = e; aof = none })).1.engine

-- `at n` is what the `n`-th command reads from outside.
unfoldable pub replay_values :
    ⦃u : Utf8⦄
    → ⦃c : UpperCase⦄ → (ℕ → Readings)
    → ℕ
    → List RespValue
    → StorageEngine
    → StorageEngine
replay_values at n [] e = e
replay_values at n (val ∷ vals) e = replay_values at (n + 1) vals (replay_one (at n) val e)

pub record Replay : Type 0 where
  pub parser : RespParser
  pub engine : StorageEngine
  pub total_bytes_read : ℕ
  pub commands_replayed : ℕ

unfoldable pub replay_chunk :
    ⦃u : Utf8⦄ → ⦃c : UpperCase⦄ → (ℕ → Readings) → Bytes → Replay → Result Exception Replay
replay_chunk at chunk s = do
  (vals, p) ← Parser.execute s.parser chunk
  ok (record {
    parser = p;
    engine = replay_values at s.commands_replayed vals s.engine;
    total_bytes_read = s.total_bytes_read + length chunk;
    commands_replayed = s.commands_replayed + length vals;
  })

unfoldable pub replay_chunks :
    ⦃u : Utf8⦄ → ⦃c : UpperCase⦄ → (ℕ → Readings) → List Bytes → Replay → Result Exception Replay
replay_chunks at [] s = ok s
replay_chunks at (chunk ∷ chunks) s = do s' ← replay_chunk at chunk s; replay_chunks at chunks s'

-- The number of bytes that the file keeps, beside the replay: an incomplete end is cut off.
unfoldable pub valid_size : Replay → ℕ
valid_size s =
    if is_incomplete s.parser && ltb s.parser.last_completed_offset s.total_bytes_read
    then s.parser.last_completed_offset
    else s.total_bytes_read

unfoldable pub restore :
    ⦃u : Utf8⦄
    → ⦃c : UpperCase⦄ → (ℕ → Readings)
    → RespParser
    → List Bytes
    → StorageEngine
    → Result Exception (ℕ × Replay)
restore at parser chunks e = do
  s ←
      replay_chunks at chunks
        (record { parser = parser; engine = e; total_bytes_read = 0; commands_replayed = 0 })
  ok (valid_size s, s)
