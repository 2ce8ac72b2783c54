-- ===== src/Server.antt =====
-- src/server.ts: the server's set of connections. Listening and the log's files are input and output.
pub mod Counting
mod Tests
use radix_kv.Prelude.{Bool, List, [], false, if◌then◌else◌, length, true, ℕ, ◌++◌, ◌+◌, ◌==◌, ◌∷◌}
use radix_kv.Prelude.Text.{Utf8}
use radix_kv.Resp.Parser.{RespParser}
use radix_kv.Commands.Arguments.{UpperCase}
use radix_kv.Commands.Handlers.{Context}
use radix_kv.Connection.{
  Connection, Effect, Event, destroy_socket, emit_close, emit_error, emit_protocol_error,
  emit_timeout, end_socket, graceful_close, new_connection, pause_socket, react, resume_socket,
  uncaught, write_error, write_reply,
}
use radix_kv.Connection

-- The connections with their ids, in the order of the set. The engine and the log are a `Context`.
pub record RespServer : Type 0 where
  pub connections : List (ℕ × Connection)
  pub is_shutting_down : Bool
  pub total_connections_accepted : ℕ
  pub connection_id_counter : ℕ

pub record ServerMetrics : Type 0 where
  pub total_accepted : ℕ
  pub active_connections : ℕ

unfoldable pub new_server : RespServer
new_server = record {
  connections = [];
  is_shutting_down = false;
  total_connections_accepted = 0;
  connection_id_counter = 0;
}

-- `p` is the new connection's parser. A socket that comes too late is destroyed at once.
unfoldable pub handle_new_connection : RespParser → RespServer → RespServer
handle_new_connection p s =
    if s.is_shutting_down
    then s
    else let id = s.connection_id_counter + 1 in
      record s {
        connections = s.connections ++ ((id, new_connection p) ∷ []);
        total_connections_accepted = s.total_connections_accepted + 1;
        connection_id_counter = id;
      }

unfoldable pub get_metrics : RespServer → ServerMetrics
get_metrics s = record {
  total_accepted = s.total_connections_accepted;
  active_connections = length s.connections;
}

-- The server listens to the `close` of a connection.
unfoldable pub hears_close : List Effect → Bool
hears_close [] = false
hears_close (emit_close ∷ es) = true
hears_close (write_reply b ∷ es) = hears_close es
hears_close (write_error f ∷ es) = hears_close es
hears_close (end_socket ∷ es) = hears_close es
hears_close (destroy_socket ∷ es) = hears_close es
hears_close (pause_socket ∷ es) = hears_close es
hears_close (resume_socket ∷ es) = hears_close es
hears_close (emit_protocol_error f ∷ es) = hears_close es
hears_close (emit_timeout ∷ es) = hears_close es
hears_close (emit_error ∷ es) = hears_close es
hears_close (uncaught ∷ es) = hears_close es

-- What happens to the connection with this id; the server deletes it when it hears that it is closed.
unfoldable pub at_connection :
    ⦃u : Utf8⦄
    → ⦃k : UpperCase⦄ → ℕ
    → Event
    → List (ℕ × Connection)
    → Context
    → List (ℕ × Connection) × Context
at_connection id e [] x = ([], x)
at_connection id e ((i, c) ∷ cs) x =
    let ((effects, c'), here_x) = react e c x in
    let (rest, there_x) = at_connection id e cs x in
    if i == id
    then (if hears_close effects then cs else (i, c') ∷ cs, here_x)
    else ((i, c) ∷ rest, there_x)

unfoldable pub close_all : List (ℕ × Connection) → List (ℕ × Connection)
close_all [] = []
close_all ((i, c) ∷ cs) = (i, (graceful_close c).1) ∷ close_all cs

-- `stop` up to the end of the log, and from there on.
unfoldable pub begin_stop : RespServer → RespServer
begin_stop s = if s.is_shutting_down then s else record s { is_shutting_down = true }

unfoldable pub close_connections : RespServer → RespServer
close_connections s = record s { connections = close_all s.connections }

-- The timer of `stop`, which destroys the connections that are left.
unfoldable pub force_stop : RespServer → RespServer
force_stop s = record s { connections = [] }

-- What happens to a server until that timer runs out.
pub data ServerEvent : Type 0 where
  connected : RespParser → ServerEvent
  at_id : ℕ → Event → ServerEvent
  stop_called log_closed : ServerEvent

unfoldable pub serve_one :
    ⦃u : Utf8⦄ → ⦃k : UpperCase⦄ → ServerEvent → RespServer → Context → RespServer × Context
serve_one (connected p) s x = (handle_new_connection p s, x)
serve_one (at_id id e) s x =
    let (connections, x') = at_connection id e s.connections x in
    (record s { connections = connections }, x')
serve_one stop_called s x = (begin_stop s, x)
serve_one log_closed s x = (close_connections s, x)

unfoldable pub serve :
    ⦃u : Utf8⦄ → ⦃k : UpperCase⦄ → List ServerEvent → RespServer → Context → RespServer × Context
serve [] s x = (s, x)
serve (e ∷ es) s x = let (s', x') = serve_one e s x in serve es s' x'
