-- ===== src/Server/Counting.antt =====
-- src/server.ts, src/connection.ts: the set of connections and the two numbers of the metrics.
use radix_kv.Prelude.{
  Bool, Bool-cases, List, Option-cases, [], ap, arith, false, inl, inr, length, length-append, none,
  refl, suc, true, ℕ, ◌++◌, ◌+◌, ◌==◌, ◌∙◌, ◌∷◌, ◌≡◌,
}
use radix_kv.Prelude.Text.{Bytes, JsString, Utf8}
use radix_kv.Types.{CommandExecutionResult, Exception, RespValue}
use radix_kv.Result.{Result, ok, err}
use radix_kv.Resp.Parser.{RespParser}
use radix_kv.Resp.Parser
use radix_kv.Storage.Engine.{Readings}
use radix_kv.Commands.Arguments.{UpperCase}
use radix_kv.Commands.Handlers.{Context}
use radix_kv.Commands.Handlers
use radix_kv.Connection.{
  Connection, Effect, Event, Failure, SocketReadings, Turned, after_command, after_parse,
  chunk_turn, cleanup, close_call, close_event, command_turn, concat_bytes, data_event, destroy,
  destroy_call, destroy_socket, drain_event, emit, emit_close, emit_error, emit_protocol_error,
  emit_timeout, end_event, end_socket, error_event, error_written, finish_batch, graceful_close,
  handle_close, handle_drain, handle_end, handle_parsing_error, handle_socket_error, handle_timeout,
  is_shut, new_connection, next_chunk, parse_chunk, pause_socket, react, rejected, resume_socket,
  run_command, run_values, start_chunk, thrown, timeout_event, uncaught, write_error, write_reply,
}
use radix_kv.Connection
use radix_kv.Server.{
  RespServer, ServerEvent, at_connection, at_id, begin_stop, close_all, close_connections,
  connected, get_metrics, handle_new_connection, hears_close, log_closed, new_server, serve,
  serve_one, stop_called,
}

abbrev Unheard : Turned → Type 0
Unheard t = hears_close t.0 ≡ false

hears_close-append :
    (es fs : List Effect)
    → hears_close es ≡ false
    → hears_close fs ≡ false
    → hears_close (es ++ fs) ≡ false
unfolding hears_close
hears_close-append [] fs h k = k
hears_close-append (emit_close ∷ es) fs h k = h
hears_close-append (write_reply b ∷ es) fs h k = hears_close-append es fs h k
hears_close-append (write_error f ∷ es) fs h k = hears_close-append es fs h k
hears_close-append (end_socket ∷ es) fs h k = hears_close-append es fs h k
hears_close-append (destroy_socket ∷ es) fs h k = hears_close-append es fs h k
hears_close-append (pause_socket ∷ es) fs h k = hears_close-append es fs h k
hears_close-append (resume_socket ∷ es) fs h k = hears_close-append es fs h k
hears_close-append (emit_protocol_error f ∷ es) fs h k = hears_close-append es fs h k
hears_close-append (emit_timeout ∷ es) fs h k = hears_close-append es fs h k
hears_close-append (emit_error ∷ es) fs h k = hears_close-append es fs h k
hears_close-append (uncaught ∷ es) fs h k = hears_close-append es fs h k

graceful_close-Unheard : (c : Connection) → Unheard (graceful_close c)
unfolding graceful_close is_shut hears_close
graceful_close-Unheard c = ground arith

destroy-Unheard : (c : Connection) → Unheard (destroy c)
unfolding destroy hears_close
destroy-Unheard c = ground arith

handle_drain-Unheard : (c : Connection) → Unheard (handle_drain c)
unfolding handle_drain is_shut hears_close
handle_drain-Unheard c = ground arith

handle_timeout-Unheard : (c : Connection) → Unheard (handle_timeout c)
unfolding handle_timeout graceful_close emit is_shut hears_close
handle_timeout-Unheard c = ground arith

handle_socket_error-Unheard :
    (listened : Bool) (c : Connection) → Unheard (handle_socket_error listened c)
unfolding handle_socket_error destroy hears_close
handle_socket_error-Unheard listened c = ground arith

-- The listeners are gone before the connection says that it is closed.
handle_close-Unheard : (c : Connection) → Unheard (handle_close c)
unfolding handle_close emit cleanup hears_close
handle_close-Unheard c = refl

handle_parsing_error-Unheard :
    (w : SocketReadings) (f : Failure) (c : Connection) → Unheard (handle_parsing_error w f c)
unfolding handle_parsing_error is_shut destroy cleanup emit hears_close
handle_parsing_error-Unheard w f c = ground arith

write-Unheard : (w : SocketReadings) (b : Bytes) (c : Connection) → Unheard (Connection.write w b c)
unfolding Connection.write hears_close
write-Unheard w b c = ground arith

after_parse-Unheard :
    (w : SocketReadings) (broken : RespParser) (r : Result Exception (List RespValue × RespParser))
    (c : Connection)
    → Unheard (after_parse w broken r c)
unfolding after_parse hears_close
after_parse-Unheard w broken (err e) c =
    handle_parsing_error-Unheard w (thrown e) (record c { parser = broken })
after_parse-Unheard w broken (ok ([], p)) c = refl
after_parse-Unheard w broken (ok (v ∷ vs, p)) c = refl

module _ ⦃u : Utf8⦄ (w : SocketReadings) (broken : RespParser) where
  parse_chunk-Unheard : (b : Bytes) (c : Connection) → Unheard (parse_chunk w broken b c)
  unfolding parse_chunk hears_close
  parse_chunk-Unheard b c = elim (Bool-cases (is_shut c)) [
    | inl shut ↦ rw (shut, parse_chunk) refl
    | inr unshut ↦
        rw (unshut, parse_chunk) (after_parse-Unheard w broken (Parser.execute c.parser b) c)
  ]

  next_chunk-Unheard : (bs : List Bytes) (c : Connection) → Unheard (next_chunk w broken bs c)
  unfolding next_chunk hears_close
  next_chunk-Unheard [] c = refl
  next_chunk-Unheard (b ∷ bs) c = parse_chunk-Unheard b (record c { chunks = bs })

  start_chunk-Unheard : (c : Connection) → Unheard (start_chunk w broken c)
  unfolding start_chunk hears_close
  start_chunk-Unheard c = elim (Option-cases c.batch) [
    | inl idle ↦ rw (idle, start_chunk) (next_chunk-Unheard c.chunks c)
    | inr (b, busy) ↦ rw (busy, start_chunk) refl
  ]

finish_batch-Unheard :
    (w : SocketReadings) (rs : List Bytes) (terminate : Bool) (c : Connection)
    → Unheard (finish_batch w rs terminate c)
unfolding finish_batch
finish_batch-Unheard w rs false c = write-Unheard w (concat_bytes rs) (record c { batch = none })
finish_batch-Unheard w rs true c =
    hears_close-append _ _ (write-Unheard w (concat_bytes rs) (record c { batch = none }))
      (graceful_close-Unheard (Connection.write w (concat_bytes rs) (record c { batch = none })).1)

after_command-Unheard :
    (w : SocketReadings) (vs : List RespValue) (rs : List Bytes)
    (result : Result JsString CommandExecutionResult) (c : Connection)
    → Unheard (after_command w vs rs result c)
unfolding after_command hears_close
after_command-Unheard w vs rs (err message) c =
    handle_parsing_error-Unheard w (rejected message) (record c { batch = none })
after_command-Unheard w [] rs (ok result) c =
    finish_batch-Unheard w (rs ++ (result.response ∷ [])) result.should_close c
after_command-Unheard w (v ∷ vs) rs (ok result) c = elim (Bool-cases result.should_close) [
  | inl closes ↦
      rw (closes, after_command) (finish_batch-Unheard w (rs ++ (result.response ∷ [])) true c)
  | inr goes_on ↦ rw (goes_on, after_command) refl
]

length-close_all : (cs : List (ℕ × Connection)) → length (close_all cs) ≡ length cs
unfolding close_all
length-close_all [] = refl
length-close_all ((i, c) ∷ cs) = ap suc (length-close_all cs)

module _ ⦃u : Utf8⦄ ⦃k : UpperCase⦄ where
  run_values-Unheard :
      (w : SocketReadings) (r : Readings) (vs : List RespValue) (rs : List Bytes) (c : Connection)
      (x : Context)
      → Unheard (run_values w r vs rs c x).0
  unfolding run_values hears_close
  run_values-Unheard w r [] rs c x = refl
  run_values-Unheard w r (v ∷ vs) rs c x =
      after_command-Unheard w vs rs (Handlers.execute r v x).0 c

  run_command-Unheard :
      (w : SocketReadings) (r : Readings) (c : Connection) (x : Context)
      → Unheard (run_command w r c x).0
  unfolding run_command hears_close
  run_command-Unheard w r c x = elim (Option-cases c.batch) [
    | inl idle ↦ rw (idle, run_command) refl
    | inr (b, busy) ↦ rw (busy, run_command) (run_values-Unheard w r b.values b.responses c x)
  ]

  react-Unheard : (e : Event) (c : Connection) (x : Context) → Unheard (react e c x).0
  unfolding react handle_end hears_close
  react-Unheard (data_event chunk) c x = refl
  react-Unheard drain_event c x = handle_drain-Unheard c
  react-Unheard timeout_event c x = handle_timeout-Unheard c
  react-Unheard end_event c x = graceful_close-Unheard c
  react-Unheard close_event c x = handle_close-Unheard c
  react-Unheard (error_event listened) c x = handle_socket_error-Unheard listened c
  react-Unheard error_written c x = destroy-Unheard c
  react-Unheard close_call c x = graceful_close-Unheard c
  react-Unheard destroy_call c x = destroy-Unheard c
  react-Unheard (chunk_turn w broken) c x = start_chunk-Unheard w broken c
  react-Unheard (command_turn w r) c x = run_command-Unheard w r c x

  length-at_connection :
      (id : ℕ) (e : Event) (cs : List (ℕ × Connection)) (x : Context)
      → length (at_connection id e cs x).0 ≡ length cs
  unfolding at_connection
  length-at_connection id e [] x = refl
  length-at_connection id e ((i, c) ∷ cs) x = elim (Bool-cases (i == id)) [
    | inl same ↦ rw (same, at_connection) (rw (react-Unheard e c x, at_connection) refl)
    | inr other ↦ rw (other, at_connection) (ap suc (length-at_connection id e cs x))
  ]

  length-serve_one :
      (e : ServerEvent) (s : RespServer) (x : Context)
      → length s.connections ≡ s.total_connections_accepted
      → length (serve_one e s x).0.connections ≡ (serve_one e s x).0.total_connections_accepted
  unfolding serve_one handle_new_connection begin_stop close_connections
  length-serve_one (connected p) s x h = elim (Bool-cases s.is_shutting_down) [
    | inl down ↦ rw (down, handle_new_connection) h
    | inr up ↦
        rw (up, handle_new_connection)
          (omega (
            arith,
            length-append s.connections ((s.connection_id_counter + 1, new_connection p) ∷ []),
            h,
          ))
  ]
  length-serve_one (at_id id e) s x h = length-at_connection id e s.connections x ∙ h
  length-serve_one stop_called s x h = ground (arith, h)
  length-serve_one log_closed s x h = length-close_all s.connections ∙ h

  length-serve :
      (es : List ServerEvent) (s : RespServer) (x : Context)
      → length s.connections ≡ s.total_connections_accepted
      → length (serve es s x).0.connections ≡ (serve es s x).0.total_connections_accepted
  unfolding serve
  length-serve [] s x h = h
  length-serve (e ∷ es) s x h =
      length-serve es (serve_one e s x).0 (serve_one e s x).1 (length-serve_one e s x h)

  -- Whatever happens to a new server and to its connections until the timer of `stop` runs out, and in
  -- whatever order: the number of active connections that it reports is the number of all that it has
  -- accepted. A connection takes its listeners off before it says that it is closed, so that the server
  -- never deletes one.
  pub get_metrics-serve :
      (es : List ServerEvent) (x : Context)
      → (get_metrics (serve es new_server x).0).active_connections
        ≡ (get_metrics (serve es new_server x).0).total_accepted
  unfolding get_metrics new_server
  get_metrics-serve es x = length-serve es new_server x refl
