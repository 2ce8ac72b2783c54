-- ===== src/Connection/Phases.antt =====
-- src/connection.ts: what a connection asks of its socket, and what its socket takes.
use radix_kv.Prelude.{
  Bool, Bool-cases, List, Option, Option-cases, [], arith, false, if◌then◌else◌, inl, inr, none,
  not, refl, some, sym, true, ◌&&◌, ◌++◌, ◌∙◌, ◌∷◌, ◌≡◌,
}
use radix_kv.Prelude.Text.{Bytes, JsString, Utf8}
use radix_kv.Types.{CommandExecutionResult, Exception, RespValue}
use radix_kv.Result.{Result, ok, err}
use radix_kv.Resp.Parser.{RespParser}
use radix_kv.Resp.Parser
use radix_kv.Storage.Engine.{Readings}
use radix_kv.Commands.Arguments.{UpperCase}
use radix_kv.Commands.Handlers.{Context}
use radix_kv.Commands.Handlers
use radix_kv.Connection.{
  Connection, Effect, Failure, SocketReadings, Turned, after_command, after_parse, cleanup,
  concat_bytes, destroy, destroy_socket, emit, emit_close, emit_error, emit_protocol_error,
  emit_timeout, end_socket, finish_batch, graceful_close, handle_close, handle_data, handle_drain,
  handle_parsing_error, handle_socket_error, handle_timeout, is_shut, next_chunk, parse_chunk,
  pause_socket, rejected, resume_socket, run_values, start_chunk, thrown, uncaught, write,
  write_error, write_reply,
}

-- A socket that is open, that has been ended by the connection, or that has been destroyed by it.
pub data Phase : Type 0 where
  opened ended gone : Phase

-- The phase after a request to the socket; `none` where the socket does not take it. Behind `end` Node takes
-- no write any more: it raises an error on the socket.
unfoldable pub after_effect : Phase → Effect → Option Phase
after_effect opened (write_reply b) = some opened
after_effect opened (write_error f) = some opened
after_effect opened end_socket = some ended
after_effect opened destroy_socket = some gone
after_effect opened pause_socket = some opened
after_effect opened resume_socket = some opened
after_effect ended (write_reply b) = none
after_effect ended (write_error f) = none
after_effect ended end_socket = none
after_effect ended destroy_socket = some gone
after_effect ended pause_socket = none
after_effect ended resume_socket = none
after_effect gone (write_reply b) = none
after_effect gone (write_error f) = none
after_effect gone end_socket = none
after_effect gone destroy_socket = none
after_effect gone pause_socket = none
after_effect gone resume_socket = none
after_effect p (emit_protocol_error f) = some p
after_effect p emit_timeout = some p
after_effect p emit_error = some p
after_effect p emit_close = some p
after_effect p uncaught = some p

unfoldable pub run_phase : Phase → List Effect → Option Phase
run_phase p [] = some p
run_phase p (e ∷ es) = elim (after_effect p e) [ none ↦ none | some q ↦ run_phase q es ]

unfoldable pub phase_of : Connection → Phase
phase_of c = if c.is_destroyed then gone else if c.is_closing then ended else opened

-- The requests are taken in their order, from the phase of a connection to that of another.
abbrev pub Taken : Connection → Turned → Type 0
Taken c t = run_phase (phase_of c) t.0 ≡ some (phase_of t.1)

-- The connection has ended its socket, and not destroyed it.
unfoldable pub is_ended : Connection → Bool
is_ended c = c.is_closing && not c.is_destroyed

pub graceful_close-Taken : (c : Connection) → Taken c (graceful_close c)
unfolding graceful_close is_shut phase_of run_phase after_effect
graceful_close-Taken c = ground arith

pub destroy-Taken : (c : Connection) → Taken c (destroy c)
unfolding destroy phase_of run_phase after_effect cleanup
destroy-Taken c = ground arith

pub handle_drain-Taken : (c : Connection) → Taken c (handle_drain c)
unfolding handle_drain is_shut phase_of run_phase after_effect
handle_drain-Taken c = ground arith

write-Taken :
    (w : SocketReadings) (b : Bytes) (c : Connection) → is_ended c ≡ false → Taken c (write w b c)
unfolding write phase_of run_phase after_effect is_ended
write-Taken w b c h = ground (arith, h)

pub run_phase-append :
    (es fs : List Effect) (p q r : Phase)
    → run_phase p es ≡ some q
    → run_phase q fs ≡ some r
    → run_phase p (es ++ fs) ≡ some r
unfolding run_phase
run_phase-append [] fs p q r h k = ground (arith, h, k)
run_phase-append (e ∷ es) fs p q r h k = elim (Option-cases (after_effect p e)) [
  | inl none_is ↦ absurd (ground (arith, none_is, h))
  | inr (p', is) ↦
      rw (is, run_phase) (run_phase-append es fs p' q r (sym (rw (is, run_phase) refl) ∙ h) k)
]

emit-Taken :
    (event : Effect) (c : Connection)
    → ((p : Phase) → after_effect p event ≡ some p)
    → (p : Phase) → run_phase p (emit event c) ≡ some p
unfolding emit run_phase
emit-Taken event c h p = elim (Bool-cases c.has_listeners) [
  | inl heard ↦ rw heard (rw (h p, run_phase) refl)
  | inr unheard ↦ rw unheard refl
]

emit_protocol_error-same :
    (f : Failure) (p : Phase) → after_effect p (emit_protocol_error f) ≡ some p
unfolding after_effect
emit_protocol_error-same f opened = refl
emit_protocol_error-same f ended = refl
emit_protocol_error-same f gone = refl

emit_timeout-same : (p : Phase) → after_effect p emit_timeout ≡ some p
unfolding after_effect
emit_timeout-same opened = refl
emit_timeout-same ended = refl
emit_timeout-same gone = refl

emit_close-same : (p : Phase) → after_effect p emit_close ≡ some p
unfolding after_effect
emit_close-same opened = refl
emit_close-same ended = refl
emit_close-same gone = refl

pub handle_timeout-Taken : (c : Connection) → Taken c (handle_timeout c)
unfolding handle_timeout
handle_timeout-Taken c =
    run_phase-append (emit emit_timeout c) (graceful_close c).0 _ _ _
      (emit-Taken emit_timeout c emit_timeout-same (phase_of c)) (graceful_close-Taken c)

pub handle_close-Taken : (c : Connection) → Taken c (handle_close c)
unfolding handle_close cleanup emit run_phase phase_of
handle_close-Taken c = refl

pub handle_socket_error-Taken :
    (listened : Bool) (c : Connection) → Taken c (handle_socket_error listened c)
unfolding handle_socket_error destroy phase_of run_phase after_effect cleanup
handle_socket_error-Taken listened c = ground arith

pub handle_data-Taken : (b : Bytes) (c : Connection) → Taken c ([], handle_data b c)
unfolding handle_data is_shut phase_of run_phase
handle_data-Taken b c = ground arith

handle_parsing_error-Taken :
    (w : SocketReadings) (f : Failure) (c : Connection) → Taken c (handle_parsing_error w f c)
unfolding handle_parsing_error is_shut phase_of run_phase after_effect destroy cleanup emit
handle_parsing_error-Taken w f c = ground arith

after_parse-Taken :
    (w : SocketReadings) (broken : RespParser) (r : Result Exception (List RespValue × RespParser))
    (c : Connection)
    → Taken c (after_parse w broken r c)
unfolding after_parse phase_of run_phase
after_parse-Taken w broken (err e) c =
    handle_parsing_error-Taken w (thrown e) (record c { parser = broken })
after_parse-Taken w broken (ok ([], p)) c = refl
after_parse-Taken w broken (ok (v ∷ vs, p)) c = refl

module _ ⦃u : Utf8⦄ (w : SocketReadings) (broken : RespParser) where
  parse_chunk-Taken : (b : Bytes) (c : Connection) → Taken c (parse_chunk w broken b c)
  unfolding parse_chunk phase_of run_phase
  parse_chunk-Taken b c = elim (Bool-cases (is_shut c)) [
    | inl shut ↦ rw (shut, parse_chunk) refl
    | inr unshut ↦
        rw (unshut, parse_chunk) (after_parse-Taken w broken (Parser.execute c.parser b) c)
  ]

  next_chunk-Taken : (bs : List Bytes) (c : Connection) → Taken c (next_chunk w broken bs c)
  unfolding next_chunk phase_of run_phase
  next_chunk-Taken [] c = refl
  next_chunk-Taken (b ∷ bs) c = parse_chunk-Taken b (record c { chunks = bs })

  pub start_chunk-Taken : (c : Connection) → Taken c (start_chunk w broken c)
  unfolding start_chunk phase_of run_phase
  start_chunk-Taken c = elim (Option-cases c.batch) [
    | inl idle ↦ rw (idle, start_chunk) (next_chunk-Taken c.chunks c)
    | inr (b, busy) ↦ rw (busy, start_chunk) refl
  ]

finish_batch-Taken :
    (w : SocketReadings) (rs : List Bytes) (terminate : Bool) (c : Connection)
    → is_ended c ≡ false
    → Taken c (finish_batch w rs terminate c)
unfolding finish_batch phase_of is_ended
finish_batch-Taken w rs false c h = write-Taken w (concat_bytes rs) (record c { batch = none }) h
finish_batch-Taken w rs true c h =
    let written = write w (concat_bytes rs) (record c { batch = none }) in
    run_phase-append written.0 _ _ _ _
      (write-Taken w (concat_bytes rs) (record c { batch = none }) h)
      (graceful_close-Taken written.1)

after_command-Taken :
    (w : SocketReadings) (vs : List RespValue) (rs : List Bytes)
    (result : Result JsString CommandExecutionResult) (c : Connection)
    → is_ended c ≡ false
    → Taken c (after_command w vs rs result c)
unfolding after_command phase_of run_phase
after_command-Taken w vs rs (err message) c h =
    handle_parsing_error-Taken w (rejected message) (record c { batch = none })
after_command-Taken w [] rs (ok result) c h =
    finish_batch-Taken w (rs ++ (result.response ∷ [])) result.should_close c h
after_command-Taken w (v ∷ vs) rs (ok result) c h = elim (Bool-cases result.should_close) [
  | inl closes ↦
      rw (closes, after_command) (finish_batch-Taken w (rs ++ (result.response ∷ [])) true c h)
  | inr goes_on ↦ rw (goes_on, after_command) refl
]

module _ ⦃u : Utf8⦄ ⦃k : UpperCase⦄ where
  pub run_values-Taken :
      (w : SocketReadings) (r : Readings) (vs : List RespValue) (rs : List Bytes) (c : Connection)
      (x : Context)
      → is_ended c ≡ false
      → Taken c (run_values w r vs rs c x).0
  unfolding run_values run_phase
  run_values-Taken w r [] rs c x h = refl
  run_values-Taken w r (v ∷ vs) rs c x h =
      after_command-Taken w vs rs (Handlers.execute r v x).0 c h
