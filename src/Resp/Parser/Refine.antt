-- ===== src/Resp/Parser/Refine.antt =====
-- src/resp-parser.ts: `execute` runs the specification on the unread bytes.
mod Turns
unfoldable pub use Turns.{view}
use Turns.{Follows, Refines, turn-Refines, appended}
use radix_kv.Prelude.{
  ==_iff, Bool-cases, List, [], ap, append-nil, append_assoc, arith, eq-nil_of_length, inl, inr,
  length, none, refl, some, subst, suc, sym, zero, ℕ, ◌++◌, ◌+◌, ◌==◌, ◌∙◌, ◌≡◌, ◌≤◌,
}
use radix_kv.Prelude.Text.{Bytes, Utf8}
use radix_kv.Types.{Exception, ParserOptions, RespValue}
use radix_kv.Result.{Result, err, ok}
use radix_kv.ByteBuffer
use radix_kv.ByteBuffer.{StreamByteBuffer, readable_bytes}
use radix_kv.ByteBuffer.Window.{IsValid, contents, length-contents}
use radix_kv.ByteBuffer.Append.{Appended, append-Appended}
use radix_kv.ByteBuffer.Reading.{
  Consumed, BytesRead, read_bytes-BytesRead, Advanced, advance-Advanced, peek_byte_at-eq-get_elem?,
  LineRead, read_line_at_crlf-LineRead,
}
use radix_kv.ByteBuffer.Search.{crlf_at, crlf_at-bounds, find_crlf-eq-crlf_at}
use radix_kv.Resp.Parser.{RespParser, Turn, execute, feed, loop, turn}
use radix_kv.Resp.Parser.Machine.{
  Machine, Run, and_then, emit_first, fed, spec_loop, spec_run, spec_turn,
}

-- What a call that started with the given results returns, beside the run of the specification.
abbrev pub Ran :
    RespParser → List RespValue → Result Exception (List RespValue × RespParser) → Run → Type 0
Ran p results (err e) r = r ≡ err e
Ran p results (ok (vals, p')) r =
    (outs : List RespValue) × (vals ≡ results ++ outs)
    × (r ≡ ok (outs, view p'))
    × IsValid p'.buffer
    × (p'.options ≡ p.options)
    × (p'.total_bytes_processed ≡ p.total_bytes_processed)
    × (p'.buffer.max_capacity ≡ p.buffer.max_capacity)

-- A run that goes on from `p'` with the values of one turn already out.
Ran-next :
    (p p' : RespParser) (results out : List RespValue)
    (l : Result Exception (List RespValue × RespParser)) (r : Run)
    → Follows p p' out
    → Ran p' (results ++ out) l r
    → Ran p results l (emit_first out r)
Ran-next p p' results out (err e) r f h = rw h
Ran-next p p' results out (ok (vals, last)) r f (outs, e, run, v, o, t, l) = (
  out ++ outs,
  e ∙ append_assoc results out outs,
  rw run,
  v,
  o ∙ f.options,
  t ∙ f.total,
  l ∙ f.limit,
)

module _ ⦃u : Utf8⦄ where
  loop-Ran :
      (fuel : ℕ) (p : RespParser) (results : List RespValue) (o : ParserOptions)
      → p.options ≡ o
      → IsValid p.buffer
      → Ran p results (loop fuel p results) (spec_loop o fuel (view p))
  unfolding loop spec_loop
  loop-Ran zero p results o e v = ([], sym (append-nil results), refl, v, refl, refl, refl)
  loop-Ran (suc fuel) p results o e v =
      by_turn (turn p) (spec_turn o (view p))
        (subst (λ o'. Refines p (turn p) (spec_turn o' (view p))) e (turn-Refines p v))
        (λ p' vals e' v'. loop-Ran fuel p' vals o e' v')
    where
      by_turn :
          (t : Turn RespParser) (s : Turn Machine)
          → Refines p t s
          → ((p' : RespParser) (vals : List RespValue)
              → p'.options ≡ o
              → IsValid p'.buffer
              → Ran p' vals (loop fuel p' vals) (spec_loop o fuel (view p')))
          → Ran p results
              (elim t [
                | err e ↦ err e
                | ok none ↦ ok (results, p)
                | ok (some (p', out)) ↦ loop fuel p' (results ++ out)
              ])
              (and_then (view p) s (spec_loop o fuel))
      by_turn (err e) s h ih = rw h
      by_turn (ok none) s h ih = rw h ([], sym (append-nil results), refl, v, refl, refl, refl)
      by_turn (ok (some (p', out))) s h ih =
          rw h.0
            (Ran-next p p' results out _ _ h.1 (ih p' (results ++ out) (h.1.options ∙ e) h.1.valid))

  -- What `execute` returns on a chunk: the values of the specification's run over all unread bytes,
  -- and a parser that stands where that run stopped.
  abbrev pub Executed : RespParser → Bytes → Result Exception (List RespValue × RespParser) → Type 0
  Executed p chunk (err e) = spec_run p.options (fed (view p) chunk) ≡ err e
  Executed p chunk (ok (vals, p')) =
      (spec_run p.options (fed (view p) chunk) ≡ ok (vals, view p'))
      × IsValid p'.buffer
      × (p'.options ≡ p.options)
      × (p'.total_bytes_processed ≡ p.total_bytes_processed + length chunk)
      × (p'.buffer.max_capacity ≡ p.buffer.max_capacity)

  fed_parser :
      (p : RespParser) (chunk : Bytes)
      → IsValid p.buffer
      → readable_bytes p.buffer + length chunk ≤ p.buffer.max_capacity
      → (p' : RespParser) × (feed p chunk ≡ ok p')
        × (view p' ≡ fed (view p) chunk)
        × IsValid p'.buffer
        × (p'.options ≡ p.options)
        × (p'.total_bytes_processed ≡ p.total_bytes_processed + length chunk)
        × (p'.buffer.max_capacity ≡ p.buffer.max_capacity)
  unfolding feed view
  fed_parser p chunk v fits = elim (Bool-cases (length chunk == 0)) [
    | inl nothing ↦
        let e : chunk ≡ [] = eq-nil_of_length chunk ((==_iff _ _).0 nothing) in
        rw (nothing, e, append-nil) (p, refl, refl, v, refl, omega arith, refl)
    | inr more ↦
        let (b, e, v', c, l) = appended p.buffer chunk _ (append-Appended p.buffer chunk v) fits in
        (
          record p { buffer = b; total_bytes_processed = p.total_bytes_processed + length chunk },
          rw (more, e),
          rw c,
          v',
          refl,
          refl,
          l,
        )
  ]

  executed :
      (p p' : RespParser) (chunk : Bytes) (l : Result Exception (List RespValue × RespParser))
      → view p' ≡ fed (view p) chunk
      → p'.options ≡ p.options
      → p'.total_bytes_processed ≡ p.total_bytes_processed + length chunk
      → p'.buffer.max_capacity ≡ p.buffer.max_capacity
      → Ran p' [] l (spec_run p.options (view p'))
      → Executed p chunk l
  executed p p' chunk (err e) w o t l h = rw w at h
  executed p p' chunk (ok (vals, last)) w o t l (outs, same, r, v, o', t', l') = (
    ap (spec_run p.options) (sym w) ∙ r ∙ ap (λ (x : List RespValue). ok (x, view last)) (sym same),
    v,
    o' ∙ o,
    t' ∙ t,
    l' ∙ l,
  )

  whole_run :
      (p : RespParser) (o : ParserOptions)
      → p.options ≡ o
      → IsValid p.buffer
      → Ran p [] (loop (readable_bytes p.buffer + 1) p []) (spec_run o (view p))
  unfolding spec_run view
  whole_run p o e v =
      subst (λ n. Ran p [] (loop (readable_bytes p.buffer + 1) p []) (spec_loop o (n + 1) (view p)))
        (sym (length-contents p.buffer v)) (loop-Ran (readable_bytes p.buffer + 1) p [] o e v)

  pub execute-Executed :
      (p : RespParser) (chunk : Bytes)
      → IsValid p.buffer
      → readable_bytes p.buffer + length chunk ≤ p.buffer.max_capacity
      → Executed p chunk (execute p chunk)
  unfolding execute
  execute-Executed p chunk v fits =
      let (p', e, w, v', o, t, l) = fed_parser p chunk v fits in
      rw e (executed p p' chunk _ w o t l (whole_run p' p.options o v'))
