-- ===== src/Resp/Parser/Fragments/Stable.antt =====
-- src/resp-parser.ts: a turn that does not wait is the same on more input, and so is a run.
use radix_kv.Prelude.{
  Bool-cases, List, Option, Option-cases, ap, append_assoc, arith, drop, drop-append, false,
  get_elem?-append_left, inl, inr, length, length-append, le→ltb-false, ltb, ltb-false→le, ltb→lt,
  lt→ltb, ne→==_false, none, refl, some, suc, sym, take, take-append, true, zero, ℕ, ◌++◌, ◌+◌, ◌-◌,
  ◌<◌, ◌==◌, ◌∙◌, ◌≡◌, ◌≤◌,
}
use radix_kv.Prelude.Text.{Bytes, Utf8, decode}
use radix_kv.Types.{Exception, ParserOptions, RespValue}
use radix_kv.Result.{Result, err, ok}
use radix_kv.ByteBuffer.Search.{crlf_at, crlf_at-append, crlf_at-append_limit, crlf_at-bounds}
use radix_kv.Resp.Parser.{Header, Turn, apply_header, parse_header}
use radix_kv.Resp.Parser.Machine.{
  Machine, Run, Shorter, after, and_then, emit_first, emit_first-nil, fed, spec_bulk, spec_header,
  spec_line, spec_loop, spec_loop-fuel, spec_run, spec_turn, spec_turn-Shorter,
}

-- What a turn on more input may be, given the turn on less: a wait may turn into anything.
abbrev Stable : Bytes → Turn Machine → Turn Machine → Type 0
Stable c (err e) r = r ≡ err e
Stable c (ok none) r = Unit
Stable c (ok (some (m', out))) r = r ≡ ok (some (fed m' c, out))

module _ ⦃u : Utf8⦄ (o : ParserOptions) (c : Bytes) where
  spec_bulk-Stable : (m : Machine) (n : ℕ) → Stable c (spec_bulk m n) (spec_bulk (fed m c) n)
  unfolding spec_bulk
  spec_bulk-Stable m n = elim (Bool-cases (ltb (length m.input) (n + 2))) [
    | inl few ↦ rw few tt
    | inr enough ↦
        let h : n + 2 ≤ length m.input = ltb-false→le _ _ enough in
        let longer : ltb (length (m.input ++ c)) (n + 2) ≡ false =
          le→ltb-false _ _ (omega (arith, length-append m.input c)) in
        rw
          (
            enough,
            longer,
            get_elem?-append_left m.input c n (omega arith),
            get_elem?-append_left m.input c (n + 1) (omega arith),
            take-append n m.input c (omega arith),
            drop-append (n + 2) m.input c h,
          )
          (ground arith)
  ]

  spec_line-Stable :
      (m : Machine) (i : ℕ)
      → i + 1 < length m.input
      → Stable c (spec_line o m i) (spec_line o (fed m c) i)
  unfolding spec_line
  spec_line-Stable m i h =
      rw (take-append i m.input c (omega arith), spec_line)
        (by_header (parse_header o (length m.stack) (decode (take i m.input)))
          (drop (i + 2) (m.input ++ c)) (drop-append (i + 2) m.input c (omega arith)))
    where
      by_header :
          (r : Result Exception Header) (rest : Bytes)
          → rest ≡ drop (i + 2) m.input ++ c
          → Stable c
              (elim r [
                | err e ↦ err e
                | ok h ↦ ok (after (drop (i + 2) m.input) (apply_header m.stack h))
              ])
              (elim r [ err e ↦ err e | ok h ↦ ok (after rest (apply_header m.stack h)) ])
      by_header (err e) rest p = refl
      by_header (ok h) rest p = rw p

  spec_header-Stable : (m : Machine) → Stable c (spec_header o m) (spec_header o (fed m c))
  unfolding spec_header
  spec_header-Stable m = elim (Option-cases (crlf_at (o.max_inline_length - 1) m.input)) [
    | inl gone ↦ elim (Bool-cases (ltb o.max_inline_length (length m.input))) [
      | inl long ↦
          let h : o.max_inline_length < length m.input = ltb→lt _ _ long in
          let longer : ltb o.max_inline_length (length (m.input ++ c)) ≡ true =
            lt→ltb _ _ (omega (arith, length-append m.input c)) in
          let still : crlf_at (o.max_inline_length - 1) (m.input ++ c) ≡ none =
            crlf_at-append_limit _ m.input c (omega arith) ∙ gone in
          rw (gone, long, still, longer, spec_header) refl
      | inr short ↦ rw (gone, short, spec_header) tt
    ]
    | inr (i, found) ↦
        rw (found, crlf_at-append _ m.input c found, spec_header)
          (spec_line-Stable m i (crlf_at-bounds _ m.input found).1)
  ]

  spec_turn-Stable : (m : Machine) → Stable c (spec_turn o m) (spec_turn o (fed m c))
  unfolding spec_turn
  spec_turn-Stable m = elim (Bool-cases (length m.input == 0)) [
    | inl done ↦ rw done tt
    | inr more ↦
        let longer : (length (m.input ++ c) == 0) ≡ false =
          ne→==_false _ 0 (ground (arith, length-append m.input c)) in
        rw (more, longer) (by_pending m.pending)
  ]
    where
      by_pending :
          (p : Option ℕ)
          → Stable c
              (elim p [ some n ↦ spec_bulk m n | none ↦ spec_header o m ])
              (elim p [ some n ↦ spec_bulk (fed m c) n | none ↦ spec_header o (fed m c) ])
      by_pending none = spec_header-Stable m
      by_pending (some n) = spec_bulk-Stable m n

  -- A run that goes on with the bytes `c` where another stopped.
  abbrev pub resume : Run → Run
  resume (err e) = err e
  resume (ok (outs, m)) = emit_first outs (spec_run o (fed m c))

  resume-emit_first :
      (out : List RespValue) (r : Run) → resume (emit_first out r) ≡ emit_first out (resume r)
  resume-emit_first out (err e) = refl
  resume-emit_first out (ok (outs, m)) = assoc (spec_run o (fed m c))
    where
      assoc : (r : Run) → emit_first (out ++ outs) r ≡ emit_first out (emit_first outs r)
      assoc (err e) = refl
      assoc (ok (more, last)) =
          ap (λ (l : List RespValue). ok (l, last)) (append_assoc out outs more)

  spec_loop-fed :
      (f : ℕ) (m : Machine)
      → length m.input + length c < f
      → spec_loop o f (fed m c) ≡ resume (spec_loop o f m)
  unfolding spec_loop spec_run
  spec_loop-fed zero m h = absurd (omega arith)
  spec_loop-fed (suc f) m h =
      by_turn (spec_turn o m) (spec_turn o (fed m c)) (spec_turn-Shorter o m) (spec_turn-Stable m)
        (spec_loop-fuel o (suc f) (length (m.input ++ c) + 1) (fed m c)
          (omega (arith, length-append m.input c)) (omega arith))
        (λ m' s. spec_loop-fed f m' (omega arith))
    where
      by_turn :
          (t t' : Turn Machine)
          → Shorter m t
          → Stable c t t'
          → and_then (fed m c) t' (spec_loop o f) ≡ spec_run o (fed m c)
          → ((m' : Machine)
              → length m'.input + 2 ≤ length m.input
              → spec_loop o f (fed m' c) ≡ resume (spec_loop o f m'))
          → and_then (fed m c) t' (spec_loop o f) ≡ resume (and_then m t (spec_loop o f))
      by_turn (err e) t' s h fuel ih = rw h
      by_turn (ok none) t' s h fuel ih = fuel ∙ sym (emit_first-nil (spec_run o (fed m c)))
      by_turn (ok (some (m', out))) t' s h fuel ih =
          rw h (ap (emit_first out) (ih m' s) ∙ sym (resume-emit_first out (spec_loop o f m')))

  -- A run over more bytes is the run over the first of them, resumed with the others.
  pub spec_run-fed : (m : Machine) → spec_run o (fed m c) ≡ resume (spec_run o m)
  unfolding spec_run
  spec_run-fed m =
      spec_loop-fed (length (m.input ++ c) + 1) m (omega (arith, length-append m.input c))
      ∙ ap resume (
          spec_loop-fuel o (length (m.input ++ c) + 1) (length m.input + 1) m
            (omega (arith, length-append m.input c)) (omega arith))
