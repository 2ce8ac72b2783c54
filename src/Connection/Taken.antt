-- ===== src/Connection/Taken.antt =====
-- src/connection.ts: what the socket takes of all that is asked of it.
use radix_kv.Prelude.{
  Bool, Bool-cases, List, Option-cases, [], arith, false, inl, inr, is_some, none, not, refl, some,
  true, ◌&&◌, ◌++◌, ◌∷◌, ◌≡◌,
}
use radix_kv.Prelude.Text.{Bytes, JsString, Utf8}
use radix_kv.Types.{CommandExecutionResult, Exception, RespValue}
use radix_kv.Result.{Result, ok, err}
use radix_kv.Resp.Parser
use radix_kv.Resp.Parser.{RespParser}
use radix_kv.Storage.Engine.{Readings}
use radix_kv.Commands.Arguments.{UpperCase}
use radix_kv.Commands.Handlers.{Context}
use radix_kv.Commands.Handlers
use radix_kv.Connection.{
  Batch, Connection, Event, Failure, SocketReadings, after_command, after_parse, chunk_turn,
  cleanup, close_call, close_event, command_turn, data_event, destroy, destroy_call, drain_event,
  end_event, error_event, error_written, finish_batch, graceful_close, handle_close, handle_data,
  handle_drain, handle_end, handle_parsing_error, handle_socket_error, handle_timeout, is_shut,
  live, next_chunk, parse_chunk, react, rejected, run_command, run_values, start_chunk, thrown,
  timeout_event,
}
use radix_kv.Connection.Batches.{finish_batch-batch, handle_parsing_error-batch}
use radix_kv.Connection.Phases.{
  Taken, destroy-Taken, graceful_close-Taken, handle_close-Taken, handle_data-Taken,
  handle_drain-Taken, handle_socket_error-Taken, handle_timeout-Taken, is_ended, phase_of,
  run_phase, run_phase-append, run_values-Taken, start_chunk-Taken,
}

-- No batch is under way behind the end of the socket.
abbrev pub Idle : Connection → Type 0
Idle c = (is_ended c && is_some c.batch) ≡ false

-- No batch is under way, or the connection is destroyed.
abbrev pub Endable : Connection → Type 0
Endable c = (not c.is_destroyed && is_some c.batch) ≡ false

Idle-of_none : (c : Connection) → c.batch ≡ none → Idle c
Idle-of_none c h = rw h (ground arith)

Idle-of_unended : (c : Connection) → is_ended c ≡ false → Idle c
Idle-of_unended c h = ground (arith, h)

graceful_close-Idle : (c : Connection) → Idle c → Endable c → Idle (graceful_close c).1
unfolding graceful_close is_shut is_ended
graceful_close-Idle c h k = ground (arith, h, k)

destroy-Idle : (c : Connection) → Idle c → Idle (destroy c).1
unfolding destroy cleanup is_ended
destroy-Idle c h = ground (arith, h)

handle_drain-Idle : (c : Connection) → Idle c → Idle (handle_drain c).1
unfolding handle_drain is_shut is_ended
handle_drain-Idle c h = ground (arith, h)

handle_data-Idle : (b : Bytes) (c : Connection) → Idle c → Idle (handle_data b c)
unfolding handle_data is_shut is_ended
handle_data-Idle b c h = ground (arith, h)

handle_socket_error-Idle :
    (listened : Bool) (c : Connection) → Idle c → Idle (handle_socket_error listened c).1
unfolding handle_socket_error destroy cleanup is_ended
handle_socket_error-Idle listened c h = ground (arith, h)

handle_parsing_error-Idle :
    (w : SocketReadings) (f : Failure) (c : Connection)
    → Idle c
    → Idle (handle_parsing_error w f c).1
unfolding handle_parsing_error is_shut destroy cleanup is_ended
handle_parsing_error-Idle w f c h = ground (arith, h)

-- A chunk is parsed only where the connection is not shut.
after_parse-Idle :
    (w : SocketReadings) (broken : RespParser) (r : Result Exception (List RespValue × RespParser))
    (c : Connection)
    → is_shut c ≡ false
    → Idle (after_parse w broken r c).1
unfolding after_parse is_shut is_ended
after_parse-Idle w broken (err e) c h =
    handle_parsing_error-Idle w (thrown e) (record c { parser = broken }) (ground (arith, h))
after_parse-Idle w broken (ok ([], p)) c h = ground (arith, h)
after_parse-Idle w broken (ok (v ∷ vs, p)) c h = ground (arith, h)

module _ ⦃u : Utf8⦄ (w : SocketReadings) (broken : RespParser) where
  parse_chunk-Idle : (b : Bytes) (c : Connection) → Idle c → Idle (parse_chunk w broken b c).1
  unfolding parse_chunk
  parse_chunk-Idle b c h = elim (Bool-cases (is_shut c)) [
    | inl shut ↦ rw (shut, parse_chunk) h
    | inr unshut ↦
        rw (unshut, parse_chunk) (after_parse-Idle w broken (Parser.execute c.parser b) c unshut)
  ]

  next_chunk-Idle : (bs : List Bytes) (c : Connection) → Idle c → Idle (next_chunk w broken bs c).1
  unfolding next_chunk is_ended
  next_chunk-Idle [] c h = h
  next_chunk-Idle (b ∷ bs) c h = parse_chunk-Idle b (record c { chunks = bs }) h

  start_chunk-Idle : (c : Connection) → Idle c → Idle (start_chunk w broken c).1
  unfolding start_chunk
  start_chunk-Idle c h = elim (Option-cases c.batch) [
    | inl idle ↦ rw (idle, start_chunk) (next_chunk-Idle c.chunks c h)
    | inr (b, busy) ↦ rw (busy, start_chunk) h
  ]

after_command-Idle :
    (w : SocketReadings) (vs : List RespValue) (rs : List Bytes)
    (result : Result JsString CommandExecutionResult) (c : Connection)
    → is_ended c ≡ false
    → Idle (after_command w vs rs result c).1
unfolding after_command is_ended
after_command-Idle w vs rs (err message) c h =
    Idle-of_none (handle_parsing_error w (rejected message) (record c { batch = none })).1
      (handle_parsing_error-batch w (rejected message) (record c { batch = none }))
after_command-Idle w [] rs (ok result) c h =
    Idle-of_none (finish_batch w (rs ++ (result.response ∷ [])) result.should_close c).1
      (finish_batch-batch w (rs ++ (result.response ∷ [])) result.should_close c)
after_command-Idle w (v ∷ vs) rs (ok result) c h = elim (Bool-cases result.should_close) [
  | inl closes ↦
      rw (closes, after_command)
        (Idle-of_none (finish_batch w (rs ++ (result.response ∷ [])) true c).1
          (finish_batch-batch w (rs ++ (result.response ∷ [])) true c))
  | inr goes_on ↦ rw (goes_on, after_command) (ground (arith, h))
]

-- The end of the connection comes only where no batch is under way.
abbrev pub Patient : Event → Connection → Type 0
Patient timeout_event c = Endable c
Patient end_event c = Endable c
Patient close_call c = Endable c
Patient (data_event chunk) c = Unit
Patient drain_event c = Unit
Patient close_event c = Unit
Patient (error_event listened) c = Unit
Patient error_written c = Unit
Patient destroy_call c = Unit
Patient (chunk_turn w broken) c = Unit
Patient (command_turn w r) c = Unit

module _ ⦃u : Utf8⦄ ⦃k : UpperCase⦄ where
  busy_unended : (c : Connection) {b : Batch} → c.batch ≡ some b → Idle c → is_ended c ≡ false
  busy_unended c q h = ground (arith, q, h)

  run_command-Taken :
      (w : SocketReadings) (r : Readings) (c : Connection) (x : Context)
      → Idle c
      → Taken c (run_command w r c x).0
  unfolding run_command run_phase phase_of
  run_command-Taken w r c x h = elim (Option-cases c.batch) [
    | inl idle ↦ rw (idle, run_command) refl
    | inr (b, busy) ↦
        rw (busy, run_command)
          (run_values-Taken w r b.values b.responses c x (busy_unended c busy h))
  ]

  run_values-Idle :
      (w : SocketReadings) (r : Readings) (vs : List RespValue) (rs : List Bytes) (c : Connection)
      (x : Context)
      → is_ended c ≡ false
      → Idle (run_values w r vs rs c x).0.1
  unfolding run_values
  run_values-Idle w r [] rs c x h = Idle-of_unended c h
  run_values-Idle w r (v ∷ vs) rs c x h = after_command-Idle w vs rs (Handlers.execute r v x).0 c h

  run_command-Idle :
      (w : SocketReadings) (r : Readings) (c : Connection) (x : Context)
      → Idle c
      → Idle (run_command w r c x).0.1
  unfolding run_command
  run_command-Idle w r c x h = elim (Option-cases c.batch) [
    | inl idle ↦ rw (idle, run_command) h
    | inr (b, busy) ↦
        rw (busy, run_command)
          (run_values-Idle w r b.values b.responses c x (busy_unended c busy h))
  ]

  pub react-Taken : (e : Event) (c : Connection) (x : Context) → Idle c → Taken c (react e c x).0
  unfolding react handle_end
  react-Taken (data_event chunk) c x h = handle_data-Taken chunk c
  react-Taken drain_event c x h = handle_drain-Taken c
  react-Taken timeout_event c x h = handle_timeout-Taken c
  react-Taken end_event c x h = graceful_close-Taken c
  react-Taken close_event c x h = handle_close-Taken c
  react-Taken (error_event listened) c x h = handle_socket_error-Taken listened c
  react-Taken error_written c x h = destroy-Taken c
  react-Taken close_call c x h = graceful_close-Taken c
  react-Taken destroy_call c x h = destroy-Taken c
  react-Taken (chunk_turn w broken) c x h = start_chunk-Taken w broken c
  react-Taken (command_turn w r) c x h = run_command-Taken w r c x h

  react-Idle :
      (e : Event) (c : Connection) (x : Context) → Idle c → Patient e c → Idle (react e c x).0.1
  unfolding react handle_end handle_timeout handle_close cleanup is_ended
  react-Idle (data_event chunk) c x h p = handle_data-Idle chunk c h
  react-Idle drain_event c x h p = handle_drain-Idle c h
  react-Idle timeout_event c x h p = graceful_close-Idle c h p
  react-Idle end_event c x h p = graceful_close-Idle c h p
  react-Idle close_event c x h p = h
  react-Idle (error_event listened) c x h p = handle_socket_error-Idle listened c h
  react-Idle error_written c x h p = destroy-Idle c h
  react-Idle close_call c x h p = graceful_close-Idle c h p
  react-Idle destroy_call c x h p = destroy-Idle c h
  react-Idle (chunk_turn w broken) c x h p = start_chunk-Idle w broken c h
  react-Idle (command_turn w r) c x h p = run_command-Idle w r c x h

  -- Every event of the run is patient.
  abbrev pub AllPatient : List Event → Connection → Context → Type 0
  AllPatient [] c x = Unit
  AllPatient (e ∷ es) c x = Patient e c × AllPatient es (react e c x).0.1 (react e c x).1

  -- Whatever happens to a connection, and in whatever order, as long as no timeout, `end` of the client or
  -- call of `gracefulClose` comes while a batch is under way: its socket takes all that the connection asks
  -- of it, as `after_effect` says. There is at most one `end` and one `destroy`, nothing but a `destroy`
  -- behind an `end`, and nothing at all behind a `destroy`; and the two flags tell the phase.
  pub live-Taken :
      (es : List Event) (c : Connection) (x : Context)
      → Idle c
      → AllPatient es c x
      → Taken c (live es c x).0
  unfolding live
  live-Taken [] c x h p = unfold run_phase in refl
  live-Taken (e ∷ es) c x h p =
      let t = react e c x in
      run_phase-append t.0.0 _ _ _ _ (react-Taken e c x h)
        (live-Taken es t.0.1 t.1 (react-Idle e c x h p.0) p.1)
