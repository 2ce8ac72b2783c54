-- ===== src/Resp/Parser/Fragments.antt =====
-- src/resp-parser.ts: one call of `execute` on two chunks, beside a call on each.
mod Stable
use radix_kv.Prelude.{
  List, ap, append_assoc, arith, length, length-append, subst, sym, ◌++◌, ◌+◌, ◌∙◌, ◌≡◌, ◌≤◌,
}
use radix_kv.Prelude.Text.{Bytes, Utf8}
use radix_kv.Types.{Exception, ParserOptions, RespValue}
use radix_kv.Result.{Result, err, ok}
use radix_kv.ByteBuffer.{readable_bytes}
use radix_kv.ByteBuffer.Window.{IsValid, length-contents}
use radix_kv.Resp.Parser.Refine.{Executed, execute-Executed, view}
use radix_kv.Resp.Parser.{RespParser, execute}
use radix_kv.Resp.Parser.Machine.{
  Machine, NotLonger, Run, emit_first, fed, spec_run, spec_run-NotLonger,
}
use radix_kv.Resp.Parser.Fragments.Stable.{resume, spec_run-fed}

-- What a caller sees of a call of `execute`: the values, and the state as the specification has it.
abbrev pub observe : Result Exception (List RespValue × RespParser) → Run
observe (err e) = err e
observe (ok (vals, p)) = ok (vals, view p)

-- A second chunk, fed to what the first call left.
abbrev pub then_execute : ⦃u : Utf8⦄ → Result Exception (List RespValue × RespParser) → Bytes → Run
then_execute (err e) c = err e
then_execute (ok (vals, p)) c = emit_first vals (observe (execute p c))

module _ ⦃u : Utf8⦄ where
  pub observe-execute :
      (p : RespParser) (c : Bytes)
      → IsValid p.buffer
      → readable_bytes p.buffer + length c ≤ p.buffer.max_capacity
      → observe (execute p c) ≡ spec_run p.options (fed (view p) c)
  observe-execute p c v fits = go (execute p c) (execute-Executed p c v fits)
    where
      go :
          (r : Result Exception (List RespValue × RespParser))
          → Executed p c r
          → observe r ≡ spec_run p.options (fed (view p) c)
      go (err e) h = sym h
      go (ok (vals, p')) h = sym h.0

  unread : (q : RespParser) → IsValid q.buffer → length (view q).input ≡ readable_bytes q.buffer
  unfolding view
  unread q v = length-contents q.buffer v

  -- What a call leaves unread and the second chunk fit into the buffer.
  room :
      (p p' : RespParser) (a b : Bytes) (vals : List RespValue)
      → IsValid p.buffer
      → readable_bytes p.buffer + length (a ++ b) ≤ p.buffer.max_capacity
      → Executed p a (ok (vals, p'))
      → readable_bytes p'.buffer + length b ≤ p'.buffer.max_capacity
  room p p' a b vals v fits h =
      let shorter : length (view p').input ≤ length (view p).input + length a = omega (
        arith,
        subst (NotLonger (fed (view p) a)) h.0 (spec_run-NotLonger p.options (fed (view p) a)),
        length-append (view p).input a,
      ) in
      omega (arith, fits, shorter, unread p' h.1, unread p v, h.4, length-append a b)

  observe-then_execute :
      (p : RespParser) (a b : Bytes)
      → IsValid p.buffer
      → readable_bytes p.buffer + length (a ++ b) ≤ p.buffer.max_capacity
      → observe (execute p (a ++ b)) ≡ then_execute (execute p a) b
  observe-then_execute p a b v fits =
      observe-execute p (a ++ b) v fits
      ∙ ap (spec_run p.options) (whole (view p))
      ∙ spec_run-fed p.options b (fed (view p) a)
      ∙ second (execute p a) (execute-Executed p a v (omega (arith, length-append a b)))
    where
      whole : (m : Machine) → fed m (a ++ b) ≡ fed (fed m a) b
      whole m = ap (λ (x : Bytes). record m { input = x }) (sym (append_assoc m.input a b))

      second :
          (r : Result Exception (List RespValue × RespParser))
          → Executed p a r
          → resume p.options b (spec_run p.options (fed (view p) a)) ≡ then_execute r b
      second (err e) h = rw h
      second (ok (vals, p')) h = rw h.0 (
          ap (emit_first vals) (
            ap (λ (o : ParserOptions). spec_run o (fed (view p') b)) (sym h.2)
            ∙ sym (observe-execute p' b h.1 (room p p' a b vals v fits h))))

  -- The call on both chunks, beside the call on the second that came behind values: its error, or its values
  -- behind those and its parser, but for `last_completed_offset`.
  abbrev pub JoinsSecond :
      List RespValue
      → Result Exception (List RespValue × RespParser)
      → Result Exception (List RespValue × RespParser)
      → Type 0
  JoinsSecond vals (err e) whole = whole ≡ err e
  JoinsSecond vals (ok (more, q)) whole =
      (last : RespParser) × (whole ≡ ok (vals ++ more, last))
      × (view last ≡ view q)
      × IsValid last.buffer
      × (last.options ≡ q.options)
      × (last.total_bytes_processed ≡ q.total_bytes_processed)
      × (last.buffer.max_capacity ≡ q.buffer.max_capacity)

  abbrev pub Joins :
      Bytes
      → Result Exception (List RespValue × RespParser)
      → Result Exception (List RespValue × RespParser)
      → Type 0
  Joins b (err e) whole = whole ≡ err e
  Joins b (ok (vals, q)) whole = JoinsSecond vals (execute q b) whole

  observe-err :
      (r : Result Exception (List RespValue × RespParser)) (e : Exception)
      → observe r ≡ err e
      → r ≡ err e
  observe-err (err e') e h = ap (λ x. elim x [ err e ↦ err e | ok v ↦ err e' ]) h
  observe-err (ok (vals, p)) e h = absurd (ground (arith, h))

  observed-JoinsSecond :
      (p q : RespParser) (a b : Bytes) (vals : List RespValue)
      (second whole : Result Exception (List RespValue × RespParser))
      → observe whole ≡ emit_first vals (observe second)
      → Executed p a (ok (vals, q))
      → Executed q b second
      → Executed p (a ++ b) whole
      → JoinsSecond vals second whole
  observed-JoinsSecond p q a b vals (err e) whole h first second all = observe-err whole e h
  observed-JoinsSecond p q a b vals (ok (more, q')) (err e) h first second all =
      absurd (ground (arith, h))
  observed-JoinsSecond p q a b vals (ok (more, q')) (ok (outs, last)) h first second all = (
    last,
    ap (λ x. ok (x, last)) (ap (λ (x : Run). elim x [ err e ↦ outs | ok v ↦ v.0 ]) h),
    ap (λ (x : Run). elim x [ err e ↦ view last | ok v ↦ v.1 ]) h,
    all.1,
    all.2 ∙ sym first.2 ∙ sym second.2,
    omega (arith, all.3, first.3, second.3, length-append a b),
    all.4 ∙ sym first.4 ∙ sym second.4,
  )

  -- While the bytes of two chunks fit into the buffer behind the unread ones, one call on both does what two
  -- calls do. If neither of the two throws, the one call returns the values of both, and its parser has the
  -- same open arrays, pending length, unread bytes, options and count of bytes as theirs. If one of the two
  -- throws, the one call throws the same error: where that is the second, the values that the first call has
  -- returned are not returned by the one call.
  pub execute-append :
      (p : RespParser) (a b : Bytes)
      → IsValid p.buffer
      → readable_bytes p.buffer + length (a ++ b) ≤ p.buffer.max_capacity
      → Joins b (execute p a) (execute p (a ++ b))
  execute-append p a b v fits =
      joined (execute p a) (execute-Executed p a v (omega (arith, length-append a b)))
        (observe-then_execute p a b v fits)
    where
      joined :
          (r : Result Exception (List RespValue × RespParser))
          → Executed p a r
          → observe (execute p (a ++ b)) ≡ then_execute r b
          → Joins b r (execute p (a ++ b))
      joined (err e) h same = observe-err (execute p (a ++ b)) e same
      joined (ok (vals, q)) h same =
          observed-JoinsSecond p q a b vals (execute q b) (execute p (a ++ b)) same h
            (execute-Executed q b h.1 (room p q a b vals v fits h))
            (execute-Executed p (a ++ b) v fits)
