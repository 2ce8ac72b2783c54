-- ===== src/Resp/Parser/Refine/Turns.antt =====
-- src/resp-parser.ts: one turn of the loop of `execute` is a turn of the specification.
use radix_kv.Prelude.{
  Bool-cases, List, Option, Option-cases, [], ap, arith, drop, drop-drop, get_elem?, inl, inr,
  length, length-drop, ltb, ltb-false→le, none, refl, some, sym, take, ℕ, ◌++◌, ◌+◌, ◌-◌, ◌<◌, ◌==◌,
  ◌∙◌, ◌∷◌, ◌≡◌, ◌≤◌,
}
use radix_kv.Prelude.Text.{Bytes, JsString, Utf8, decode}
use radix_kv.Types.{Exception, RespValue}
use radix_kv.Result.{Result, err, ok, ◌>>=◌}
use radix_kv.ByteBuffer.{StreamByteBuffer, readable_bytes}
use radix_kv.ByteBuffer.Window.{IsValid, contents, length-contents}
use radix_kv.ByteBuffer.Append.{Appended}
use radix_kv.ByteBuffer.Reading.{
  Consumed, BytesRead, read_bytes-BytesRead, Advanced, advance-Advanced, peek_byte_at-eq-get_elem?,
  LineRead, read_line_at_crlf-LineRead,
}
use radix_kv.ByteBuffer.Search.{crlf_at, crlf_at-bounds, find_crlf-eq-crlf_at}
use radix_kv.Resp.Parser.{
  ArrayStack, Header, RespParser, Turn, apply_header, bulk_turn, emit_completed, header_turn,
  line_turn, missing_terminator, parse_header, take_payload, turn,
}
use radix_kv.Resp.Parser.Machine.{Machine, after, spec_bulk, spec_header, spec_line, spec_turn}

-- What the specification sees of a parser.
unfoldable pub view : RespParser → Machine
view p = record {
  stack = p.array_stack;
  pending = p.pending_bulk_length;
  input = contents p.buffer;
}

taken :
    (b : StreamByteBuffer) (n : ℕ) (r : Result Exception (Bytes × StreamByteBuffer))
    → BytesRead b n r
    → n ≤ length (contents b)
    → (b' : StreamByteBuffer) × (r ≡ ok (take n (contents b), b')) × Consumed n b b'
taken b n (ok (bs, b')) h k = (b', ap (λ (x : Bytes). ok (x, b')) h.1, h.2)
taken b n (err e) h k = absurd (omega (arith, h.0))

pub appended :
    (b : StreamByteBuffer) (chunk : Bytes) (r : Result Exception StreamByteBuffer)
    → Appended b chunk r
    → readable_bytes b + length chunk ≤ b.max_capacity
    → (b' : StreamByteBuffer) × (r ≡ ok b')
      × IsValid b'
      × (contents b' ≡ contents b ++ chunk)
      × (b'.max_capacity ≡ b.max_capacity)
appended b chunk (ok b') h k = (b', refl, h.0, h.1, h.2)
appended b chunk (err e) h k = absurd (omega (arith, h.1))

advanced :
    (b : StreamByteBuffer) (n : ℕ) (r : Result Exception StreamByteBuffer)
    → Advanced b n r
    → n ≤ length (contents b)
    → (b' : StreamByteBuffer) × (r ≡ ok b') × Consumed n b b'
advanced b n (ok b') h k = (b', refl, h.1)
advanced b n (err e) h k = absurd (omega (arith, h.0))

module _ ⦃u : Utf8⦄ where
  line_read :
      (b : StreamByteBuffer) (i : ℕ) (r : Result Exception (JsString × StreamByteBuffer))
      → LineRead b i r
      → i + 1 < length (contents b)
      → (b' : StreamByteBuffer) × (r ≡ ok (decode (take i (contents b)), b'))
        × Consumed (i + 2) b b'
  line_read b i (ok (line, b')) h k = (b', ap (λ (x : JsString). ok (x, b')) h.1, h.2)
  line_read b i (err e) h k = absurd (omega (arith, h.0))

take_payload_lem :
    (b : StreamByteBuffer) (n : ℕ)
    → IsValid b
    → n + 2 ≤ length (contents b)
    → (b' : StreamByteBuffer) × (take_payload b n ≡ ok (take n (contents b), b'))
      × Consumed (n + 2) b b'
unfolding take_payload
take_payload_lem b n v h =
    let (b1, e1, c1) = taken b n _ (read_bytes-BytesRead b n v) (omega arith) in
    let rest : length (contents b1) ≡ length (contents b) - n =
      ap length c1.rest ∙ length-drop n (contents b) in
    let (b2, e2, c2) = advanced b1 2 _ (advance-Advanced b1 2 c1.valid) (omega arith) in
    (
      b2,
      rw (e1, e2),
      record {
        valid = c2.valid;
        rest = c2.rest ∙ ap (drop 2) c1.rest ∙ drop-drop 2 n (contents b);
        limit = c2.limit ∙ c1.limit;
      },
    )

-- The offset that a completed value leaves behind.
abbrev offset_after : RespParser → List RespValue → ℕ → ℕ
offset_after p [] unread = p.last_completed_offset
offset_after p (v ∷ vs) unread = p.total_bytes_processed - unread

-- What a turn leaves: a valid buffer, the same options and count of bytes, and the offset of the
-- last completed value.
pub record Follows (p p' : RespParser) (out : List RespValue) : Type 0 where
  pub valid : IsValid p'.buffer
  pub options : p'.options ≡ p.options
  pub total : p'.total_bytes_processed ≡ p.total_bytes_processed
  pub limit : p'.buffer.max_capacity ≡ p.buffer.max_capacity
  pub offset : p'.last_completed_offset ≡ offset_after p out (readable_bytes p'.buffer)

abbrev pub Refines : RespParser → Turn RespParser → Turn Machine → Type 0
Refines p (err e) r = r ≡ err e
Refines p (ok none) r = r ≡ ok none
Refines p (ok (some (p', out))) r = (r ≡ ok (some (view p', out))) × Follows p p' out

-- Emitting refines, once the new parser stands.
emit_Refines :
    (p : RespParser) (b : StreamByteBuffer) (stack : ArrayStack) (pending : Option ℕ)
    (done : Option RespValue) (n : ℕ)
    → Consumed n p.buffer b
    → Refines p
        (ok (
          some (
            emit_completed
              (record p { buffer = b; array_stack = stack; pending_bulk_length = pending })
              done)))
        (ok (after (drop n (contents p.buffer)) (stack, pending, done)))
unfolding emit_completed view
emit_Refines p b stack pending none n c = (
  rw c.rest,
  record { valid = c.valid; options = refl; total = refl; limit = c.limit; offset = refl },
)
emit_Refines p b stack pending (some v) n c = (
  rw c.rest,
  record { valid = c.valid; options = refl; total = refl; limit = c.limit; offset = refl },
)

bulk_turn-Refines :
    (p : RespParser) (n : ℕ) → IsValid p.buffer → Refines p (bulk_turn p n) (spec_bulk (view p) n)
unfolding bulk_turn spec_bulk view
bulk_turn-Refines p n v =
    rw (sym (length-contents p.buffer v), peek_byte_at-eq-get_elem? p.buffer n v)
      (rw (peek_byte_at-eq-get_elem? p.buffer (n + 1) v)
        (elim (Bool-cases (ltb (length (contents p.buffer)) (n + 2))) [
          | inl few ↦ rw (few, spec_bulk) refl
          | inr enough ↦
              elim (Bool-cases (
                missing_terminator (get_elem? (contents p.buffer) n)
                  (get_elem? (contents p.buffer) (n + 1)))) [
                    | inl bad ↦ rw (enough, bad, spec_bulk) refl
                    | inr good ↦
                        let (b, e, c) = take_payload_lem p.buffer n v (ltb-false→le _ _ enough) in
                        rw (enough, good, e, spec_bulk) (emit_Refines p b _ _ _ (n + 2) c)
                  ]
        ]))

module _ ⦃u : Utf8⦄ where
  line_turn-Refines :
      (p : RespParser) (i : ℕ)
      → IsValid p.buffer
      → i + 1 < length (contents p.buffer)
      → Refines p (line_turn p (p.buffer.read_offset + i)) (spec_line p.options (view p) i)
  unfolding line_turn spec_line view
  line_turn-Refines p i v h =
      let (b, e, c) = line_read p.buffer i _ (read_line_at_crlf-LineRead p.buffer i v) h in
      rw e (
        by_header
          (parse_header p.options (length p.array_stack) (decode (take i (contents p.buffer)))) b c)
    where
      by_header :
          (r : Result Exception Header) (b : StreamByteBuffer)
          → Consumed (i + 2) p.buffer b
          → Refines p
              (r >>= λ h.
                let (stack, pending, done) = apply_header p.array_stack h in
                ok (
                  some (
                    emit_completed
                      (record p { buffer = b; array_stack = stack; pending_bulk_length = pending })
                      done)))
              (elim r [
                | err e ↦ err e
                | ok h ↦
                    ok (after (drop (i + 2) (contents p.buffer)) (apply_header p.array_stack h))
              ])
      by_header (err e) b c = refl
      by_header (ok h) b c = emit_Refines p b _ _ _ (i + 2) c

  header_turn-Refines :
      (p : RespParser)
      → IsValid p.buffer
      → Refines p (header_turn p) (spec_header p.options (view p))
  unfolding header_turn spec_header view
  header_turn-Refines p v =
      rw (find_crlf-eq-crlf_at p.buffer p.options.max_inline_length v, header_turn)
        (elim (Option-cases (crlf_at (p.options.max_inline_length - 1) (contents p.buffer))) [
          | inl gone ↦
              rw (gone, header_turn, spec_header) (ground (arith, length-contents p.buffer v))
          | inr (i, found) ↦
              rw (found, header_turn, spec_header)
                (line_turn-Refines p i v (crlf_at-bounds _ (contents p.buffer) found).1)
        ])

  pub turn-Refines :
      (p : RespParser) → IsValid p.buffer → Refines p (turn p) (spec_turn p.options (view p))
  unfolding turn spec_turn view
  turn-Refines p v =
      rw (sym (length-contents p.buffer v)) (elim (Bool-cases (length (contents p.buffer) == 0)) [
        | inl done ↦ rw (done, spec_turn) refl
        | inr more ↦ rw (more, spec_turn) (by_pending p.pending_bulk_length)
      ])
    where
      by_pending :
          (o : Option ℕ)
          → Refines p
              (elim o [ some n ↦ bulk_turn p n | none ↦ header_turn p ])
              (elim o [ some n ↦ spec_bulk (view p) n | none ↦ spec_header p.options (view p) ])
      by_pending none = header_turn-Refines p v
      by_pending (some n) = bulk_turn-Refines p n v
