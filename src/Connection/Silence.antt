-- ===== src/Connection/Silence.antt =====
-- src/connection.ts: a connection that is destroyed leaves its socket alone.
use radix_kv.Prelude.{
  All, All-append, Bool, Bool-cases, List, [], arith, false, if◌then◌else◌, inl, inr, refl, some,
  subst, sym, true, ◌∙◌, ◌∷◌, ◌≡◌, ◌≢◌,
}
use radix_kv.Prelude.Text.{Utf8}
use radix_kv.Commands.Arguments.{UpperCase}
use radix_kv.Commands.Handlers.{Context}
use radix_kv.Connection.{
  Connection, Effect, Event, destroy_socket, emit_close, emit_error, emit_protocol_error,
  emit_timeout, end_socket, live, pause_socket, react, resume_socket, uncaught, write_error,
  write_reply,
}
use radix_kv.Connection.Phases.{
  Phase, after_effect, ended, gone, is_ended, opened, phase_of, run_phase,
}
use radix_kv.Connection.Taken.{Idle, react-Taken}

-- What is asked of the socket, beside what the listeners hear.
unfoldable pub asks_socket : Effect → Bool
asks_socket (write_reply b) = true
asks_socket (write_error f) = true
asks_socket end_socket = true
asks_socket destroy_socket = true
asks_socket pause_socket = true
asks_socket resume_socket = true
asks_socket (emit_protocol_error f) = false
asks_socket emit_timeout = false
asks_socket emit_error = false
asks_socket emit_close = false
asks_socket uncaught = false

-- The requests that a destroyed socket takes are none, and it stays destroyed.
run_phase-gone :
    (es : List Effect) (q : Phase)
    → run_phase gone es ≡ some q
    → All (λ e. asks_socket e ≡ false) es × (q ≡ gone)
unfolding run_phase after_effect asks_socket
run_phase-gone [] q h = (tt, ground (arith, h))
run_phase-gone (write_reply b ∷ es) q h = absurd (ground (arith, h))
run_phase-gone (write_error f ∷ es) q h = absurd (ground (arith, h))
run_phase-gone (end_socket ∷ es) q h = absurd (ground (arith, h))
run_phase-gone (destroy_socket ∷ es) q h = absurd (ground (arith, h))
run_phase-gone (pause_socket ∷ es) q h = absurd (ground (arith, h))
run_phase-gone (resume_socket ∷ es) q h = absurd (ground (arith, h))
run_phase-gone (emit_protocol_error f ∷ es) q h =
    let (a, e) = run_phase-gone es q h in ((refl, a), e)
run_phase-gone (emit_timeout ∷ es) q h = let (a, e) = run_phase-gone es q h in ((refl, a), e)
run_phase-gone (emit_error ∷ es) q h = let (a, e) = run_phase-gone es q h in ((refl, a), e)
run_phase-gone (emit_close ∷ es) q h = let (a, e) = run_phase-gone es q h in ((refl, a), e)
run_phase-gone (uncaught ∷ es) q h = let (a, e) = run_phase-gone es q h in ((refl, a), e)

phase_of-gone : (c : Connection) → c.is_destroyed ≡ true → phase_of c ≡ gone
unfolding phase_of
phase_of-gone c h = ground (arith, h)

destroyed_of_gone : (c : Connection) → phase_of c ≡ gone → c.is_destroyed ≡ true
unfolding phase_of
destroyed_of_gone c h = elim (Bool-cases c.is_destroyed) [
  | inl d ↦ d
  | inr n ↦ absurd (not_gone c.is_closing (sym (rw (n, phase_of) refl) ∙ h))
]
  where
    not_gone : (b : Bool) → (if b then ended else opened) ≢ gone
    not_gone true h = ground arith
    not_gone false h = ground arith

destroyed-Idle : (c : Connection) → c.is_destroyed ≡ true → Idle c
unfolding is_ended
destroyed-Idle c h = ground (arith, h)

module _ ⦃u : Utf8⦄ ⦃k : UpperCase⦄ where
  react-silent :
      (e : Event) (c : Connection) (x : Context)
      → c.is_destroyed ≡ true
      → All (λ f. asks_socket f ≡ false) (react e c x).0.0 × ((react e c x).0.1.is_destroyed ≡ true)
  react-silent e c x h =
      let t = react e c x in
      let (silent, q) = run_phase-gone t.0.0 (phase_of t.0.1) (
        subst (λ (p : Phase). run_phase p t.0.0 ≡ some (phase_of t.0.1)) (phase_of-gone c h)
          (react-Taken e c x (destroyed-Idle c h))) in
      (silent, destroyed_of_gone t.0.1 q)

  -- A connection that is destroyed asks nothing more of its socket and stays destroyed, whatever happens to
  -- it and in whatever order.
  pub live-silent :
      (es : List Event) (c : Connection) (x : Context)
      → c.is_destroyed ≡ true
      → All (λ e. asks_socket e ≡ false) (live es c x).0.0 × ((live es c x).0.1.is_destroyed ≡ true)
  unfolding live
  live-silent [] c x h = (tt, h)
  live-silent (e ∷ es) c x h =
      let t = react e c x in
      let (first, still) = react-silent e c x h in
      let (others, end) = live-silent es t.0.1 t.1 still in
      (All-append (λ f. asks_socket f ≡ false) t.0.0 _ first others, end)
