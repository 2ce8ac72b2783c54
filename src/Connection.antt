-- ===== src/Connection.antt =====
-- src/connection.ts: the life of a client's connection. The socket is seen by what the connection asks of
-- it; the chunks wait in a queue, and a chunk that is under way is a batch, which waits at each command.
pub mod Phases
pub mod Taken
pub mod Silence
pub mod Batches
pub mod Answers
pub mod Errors
mod Tests
use radix_kv.Prelude.{
  Bool, List, Option, [], false, if◌then◌else◌, none, not, some, true, ◌&&◌, ◌++◌, ◌||◌, ◌∷◌,
}
use radix_kv.Prelude.Text.{Bytes, JsString, Utf8}
use radix_kv.Types.{CommandExecutionResult, Exception, RespValue}
use radix_kv.Result.{Result, ok, err}
use radix_kv.Resp.Parser.{RespParser}
use radix_kv.Resp.Parser
use radix_kv.Storage.Engine.{Readings}
use radix_kv.Commands.Arguments.{UpperCase}
use radix_kv.Commands.Handlers.{Context}
use radix_kv.Commands.Handlers

-- What ends a chunk early: the parser throws, or a command's promise rejects. The reply's text says which.
pub data Failure : Type 0 where
  thrown : Exception → Failure
  rejected : JsString → Failure

-- What a connection asks of its socket, and what its listeners hear. `uncaught` is the exception that an
-- `error` event raises where nothing listens to it.
pub data Effect : Type 0 where
  write_reply : Bytes → Effect
  write_error : Failure → Effect
  end_socket destroy_socket pause_socket resume_socket : Effect
  emit_protocol_error : Failure → Effect
  emit_timeout emit_error emit_close uncaught : Effect

-- The loop of `processChunk`: the values that are left, and the replies so far.
pub record Batch : Type 0 where
  pub values : List RespValue
  pub responses : List Bytes

-- `chunks` and `batch` are the `processingQueue`. `has_listeners` tells whether the listeners that the
-- server has put on the connection are still there.
pub record Connection : Type 0 where
  pub parser : RespParser
  pub is_closing : Bool
  pub is_destroyed : Bool
  pub is_draining : Bool
  pub chunks : List Bytes
  pub batch : Option Batch
  pub has_listeners : Bool

-- The constructor. The parser is the one of the server's options.
unfoldable pub new_connection : RespParser → Connection
new_connection p = record {
  parser = p;
  is_closing = false;
  is_destroyed = false;
  is_draining = false;
  chunks = [];
  batch = none;
  has_listeners = true;
}

unfoldable pub is_shut : Connection → Bool
is_shut c = c.is_closing || c.is_destroyed

-- What a call asks for, and the connection after it.
abbrev pub Turned : Type 0
Turned = List Effect × Connection

-- `emit`, of a connection with these listeners.
unfoldable pub emit : Effect → Connection → List Effect
emit event c = if c.has_listeners then event ∷ [] else []

unfoldable pub handle_data : Bytes → Connection → Connection
handle_data chunk c = if is_shut c then c else record c { chunks = c.chunks ++ (chunk ∷ []) }

unfoldable pub cleanup : Connection → Connection
cleanup c = record c { parser = Parser.reset c.parser; has_listeners = false }

unfoldable pub destroy : Connection → Turned
destroy c =
    if c.is_destroyed
    then ([], c)
    else (destroy_socket ∷ [], cleanup (record c { is_destroyed = true; is_closing = true }))

unfoldable pub graceful_close : Connection → Turned
graceful_close c = if is_shut c then ([], c) else (end_socket ∷ [], record c { is_closing = true })

-- What the socket says: whether it is destroyed, whether its buffer takes more, and whether a write
-- throws.
pub record SocketReadings : Type 0 where
  pub is_socket_destroyed : Bool
  pub can_accept_more : Bool
  pub write_throws : Bool

unfoldable pub write : SocketReadings → Bytes → Connection → Turned
write w data_ c =
    if c.is_destroyed || w.is_socket_destroyed
    then ([], c)
    else if not w.can_accept_more && not c.is_draining
    then (write_reply data_ ∷ (pause_socket ∷ []), record c { is_draining = true })
    else (write_reply data_ ∷ [], c)

unfoldable pub handle_drain : Connection → Turned
handle_drain c =
    let drained : Connection = record c { is_draining = false } in
    if is_shut c then ([], drained) else (resume_socket ∷ [], drained)

-- The connection is destroyed when the error is written, which is a call of `destroy` of its own.
unfoldable pub handle_parsing_error : SocketReadings → Failure → Connection → Turned
handle_parsing_error w failure c =
    if is_shut c
    then ([], c)
    else if w.write_throws
    then (let (effects, c') = destroy c in (effects ++ emit (emit_protocol_error failure) c', c'))
    else (write_error failure ∷ emit (emit_protocol_error failure) c, c)

unfoldable pub handle_timeout : Connection → Turned
handle_timeout c = let (effects, c') = graceful_close c in (emit emit_timeout c ++ effects, c')

-- `listened` tells whether an `error` event of the connection has a listener. The exception that is
-- raised where it has none ends the call.
unfoldable pub handle_socket_error : (listened : Bool) → Connection → Turned
handle_socket_error listened c =
    if listened && c.has_listeners
    then (let (effects, c') = destroy c in (emit_error ∷ effects, c'))
    else (uncaught ∷ [], c)

unfoldable pub handle_end : Connection → Turned
handle_end c = graceful_close c

unfoldable pub handle_close : Connection → Turned
handle_close c = let c' = cleanup c in (emit emit_close c', c')

-- `processChunk` behind the parser, up to the first command. `broken` is the parser after a throw.
unfoldable pub after_parse :
    SocketReadings
    → RespParser
    → Result Exception (List RespValue × RespParser)
    → Connection
    → Turned
after_parse w broken (err e) c = handle_parsing_error w (thrown e) (record c { parser = broken })
after_parse w broken (ok ([], p)) c = ([], record c { parser = p })
after_parse w broken (ok (v ∷ vs, p)) c =
    ([], record c { parser = p; batch = some (record { values = v ∷ vs; responses = [] }) })

unfoldable pub parse_chunk : ⦃u : Utf8⦄ → SocketReadings → RespParser → Bytes → Connection → Turned
parse_chunk w broken chunk c =
    if is_shut c then ([], c) else after_parse w broken (Parser.execute c.parser chunk) c

-- The chunk at the front of the queue, once the chunk before it is done.
unfoldable pub next_chunk :
    ⦃u : Utf8⦄ → SocketReadings → RespParser → List Bytes → Connection → Turned
next_chunk w broken [] c = ([], c)
next_chunk w broken (chunk ∷ rest) c = parse_chunk w broken chunk (record c { chunks = rest })

unfoldable pub start_chunk : ⦃u : Utf8⦄ → SocketReadings → RespParser → Connection → Turned
start_chunk w broken c = elim c.batch [ some b ↦ ([], c) | none ↦ next_chunk w broken c.chunks c ]

abbrev pub concat_bytes : List Bytes → Bytes
concat_bytes [] = []
concat_bytes (b ∷ bs) = b ++ concat_bytes bs

-- `processChunk` after its loop.
unfoldable pub finish_batch : SocketReadings → List Bytes → (terminate : Bool) → Connection → Turned
finish_batch w responses terminate c =
    let (effects, c') = write w (concat_bytes responses) (record c { batch = none }) in
    if terminate
    then (let (more, c'') = graceful_close c' in (effects ++ more, c''))
    else (effects, c')

-- What follows the command whose result this is; `rest` are the values behind it.
unfoldable pub after_command :
    SocketReadings
    → List RespValue
    → List Bytes
    → Result JsString CommandExecutionResult
    → Connection
    → Turned
after_command w rest responses (err message) c =
    handle_parsing_error w (rejected message) (record c { batch = none })
after_command w [] responses (ok result) c =
    finish_batch w (responses ++ (result.response ∷ [])) result.should_close c
after_command w (v ∷ vs) responses (ok result) c =
    let all = responses ++ (result.response ∷ []) in
    if result.should_close
    then finish_batch w all true c
    else ([], record c { batch = some (record { values = v ∷ vs; responses = all }) })

-- The next command of the batch, up to the next one. The engine and the log are the server's.
unfoldable pub run_values :
    ⦃u : Utf8⦄
    → ⦃k : UpperCase⦄ → SocketReadings
    → Readings
    → List RespValue
    → List Bytes
    → Connection
    → Context
    → Turned × Context
run_values w r [] responses c x = (([], c), x)
run_values w r (v ∷ vs) responses c x =
    let (result, x') = Handlers.execute r v x in (after_command w vs responses result c, x')

unfoldable pub run_command :
    ⦃u : Utf8⦄
    → ⦃k : UpperCase⦄ → SocketReadings
    → Readings
    → Connection
    → Context
    → Turned × Context
run_command w r c x = elim c.batch [
  | none ↦ (([], c), x)
  | some b ↦ run_values w r b.values b.responses c x
]

-- What may happen to a connection, in any order: its socket's events, the end of the write of an error,
-- the calls of the server, and the turns of its queue.
pub data Event : Type 0 where
  data_event : Bytes → Event
  drain_event timeout_event end_event close_event : Event
  error_event : (listened : Bool) → Event
  error_written close_call destroy_call : Event
  chunk_turn : SocketReadings → RespParser → Event
  command_turn : SocketReadings → Readings → Event

unfoldable pub react :
    ⦃u : Utf8⦄ → ⦃k : UpperCase⦄ → Event → Connection → Context → Turned × Context
react (data_event chunk) c x = (([], handle_data chunk c), x)
react drain_event c x = (handle_drain c, x)
react timeout_event c x = (handle_timeout c, x)
react end_event c x = (handle_end c, x)
react close_event c x = (handle_close c, x)
react (error_event listened) c x = (handle_socket_error listened c, x)
react error_written c x = (destroy c, x)
react close_call c x = (graceful_close c, x)
react destroy_call c x = (destroy c, x)
react (chunk_turn w broken) c x = (start_chunk w broken c, x)
react (command_turn w r) c x = run_command w r c x

unfoldable pub live :
    ⦃u : Utf8⦄ → ⦃k : UpperCase⦄ → List Event → Connection → Context → Turned × Context
live [] c x = (([], c), x)
live (e ∷ es) c x =
    let ((first, c'), x') = react e c x in
    let ((others, c''), x'') = live es c' x' in ((first ++ others, c''), x'')
