-- ===== src/ByteBuffer/Reading.antt =====
-- src/byte-buffer.ts: the methods that look at unread bytes and take them from the front.
use radix_kv.Prelude.{
  ℕ, ◌+◌, ◌<◌, ◌≤◌, ◌≡◌, refl, ap, ◌∙◌, sym, Option, true, false, inl, inr, arith, length, take,
  drop, slice, get_elem?, ltb, leb, Bool-cases, slice-drop, slice-take, get_elem?-slice,
  get_elem?-eq-none, ◌||◌, length-slice, ltb→lt, ltb-false→le, leb→le, leb-false→lt,
}
use radix_kv.Prelude.Text.{Bytes, JsString, Utf8, decode}
use radix_kv.Types.{Exception, cannot_read, cannot_advance, crlf_out_of_bounds}
use radix_kv.Result.{Result, ok, err}
use radix_kv.ByteBuffer.{
  StreamByteBuffer, readable_bytes, check_auto_reset, read_bytes, advance, peek_byte_at, read_byte,
  read_line_at_crlf,
}
use radix_kv.ByteBuffer.Window.{
  IsValid, contents, slice-empty, length-contents, contents-check_auto_reset,
  check_auto_reset-IsValid,
}

-- `b'` is `b` without its first `n` unread bytes.
pub record Consumed (n : ℕ) (b b' : StreamByteBuffer) : Type 0 where
  pub valid : IsValid b'
  pub rest : contents b' ≡ drop n (contents b)
  pub limit : b'.max_capacity ≡ b.max_capacity

abbrev moved : ℕ → StreamByteBuffer → StreamByteBuffer
moved n b = check_auto_reset (record b { read_offset = b.read_offset + n })

moved-Consumed :
    (b : StreamByteBuffer) (n : ℕ) → IsValid b → n ≤ readable_bytes b → Consumed n b (moved n b)
moved-Consumed b n v h =
    let b' : StreamByteBuffer = record b { read_offset = b.read_offset + n } in
    let v' : IsValid b' = omega arith in
    record {
      valid = check_auto_reset-IsValid b' v';
      rest = contents-check_auto_reset b' v' ∙ unfold contents in slice-drop _ _ _ n;
      limit = unfold check_auto_reset in ground arith;
    }

abbrev pub BytesRead : StreamByteBuffer → ℕ → Result Exception (Bytes × StreamByteBuffer) → Type 0
BytesRead b n (ok (bs, b')) =
    (n ≤ length (contents b)) × (bs ≡ take n (contents b)) × Consumed n b b'
BytesRead b n (err e) = (length (contents b) < n) × (e ≡ cannot_read)

-- `readBytes` returns the first `n` unread bytes and leaves the others, exactly when there are `n`.
pub read_bytes-BytesRead :
    (b : StreamByteBuffer) (n : ℕ) → IsValid b → BytesRead b n (read_bytes b n)
unfolding read_bytes contents
read_bytes-BytesRead b n v = elim (Bool-cases (ltb (readable_bytes b) n)) [
  | inl few ↦ rw few (omega (arith, ltb→lt _ _ few, length-contents b v), refl)
  | inr enough ↦ rw enough (
    omega (arith, ltb-false→le _ _ enough, length-contents b v),
    slice-take b.buffer b.read_offset b.write_offset n (omega (arith, v, ltb-false→le _ _ enough)),
    moved-Consumed b n v (ltb-false→le _ _ enough),
  )
]

abbrev pub Advanced : StreamByteBuffer → ℕ → Result Exception StreamByteBuffer → Type 0
Advanced b n (ok b') = (n ≤ length (contents b)) × Consumed n b b'
Advanced b n (err e) = (length (contents b) < n) × (e ≡ cannot_advance)

-- `advance` drops the first `n` unread bytes, exactly when there are `n`.
pub advance-Advanced : (b : StreamByteBuffer) (n : ℕ) → IsValid b → Advanced b n (advance b n)
unfolding advance
advance-Advanced b n v = elim (Bool-cases (ltb b.write_offset (b.read_offset + n))) [
  | inl few ↦ rw few (omega (arith, v, ltb→lt _ _ few, length-contents b v), refl)
  | inr enough ↦ rw enough (
    omega (arith, v, ltb-false→le _ _ enough, length-contents b v),
    moved-Consumed b n v (omega (arith, v, ltb-false→le _ _ enough)),
  )
]

-- `peekByteAt` is the unread byte at that index, or -1 past the end.
pub peek_byte_at-eq-get_elem? :
    (b : StreamByteBuffer) (i : ℕ) → IsValid b → peek_byte_at b i ≡ get_elem? (contents b) i
unfolding peek_byte_at contents
peek_byte_at-eq-get_elem? b i v = ground (
  arith,
  get_elem?-slice b.buffer b.read_offset b.write_offset i,
  get_elem?-eq-none (slice b.buffer b.read_offset b.write_offset) i,
  length-slice b.buffer b.read_offset b.write_offset v.ordered v.within,
)

abbrev pub head_of : Bytes → Option ℕ
head_of bs = get_elem? bs 0

-- `readByte` takes the first unread byte, or returns -1 and changes nothing.
pub read_byte_lem :
    (b : StreamByteBuffer)
    → IsValid b
    → let (x, b') = read_byte b in (x ≡ head_of (contents b)) × Consumed 1 b b'
unfolding read_byte
read_byte_lem b v = elim (Bool-cases (leb b.write_offset b.read_offset)) [
  | inl nothing ↦ rw nothing (
    sym (get_elem?-eq-none (contents b) 0 (omega (arith, leb→le _ _ nothing, length-contents b v))),
    record {
      valid = v;
      rest =
          let e = slice-empty b.buffer b.read_offset b.write_offset (leb→le _ _ nothing) in
          unfold contents in rw e;
      limit = refl;
    },
  )
  | inr more ↦ rw more (
    ap (get_elem? b.buffer) {x = b.read_offset} {y = b.read_offset + 0} (omega arith)
        ∙ sym (
            unfold contents in
            get_elem?-slice b.buffer b.read_offset b.write_offset 0
              (omega (arith, leb-false→lt _ _ more))),
    moved-Consumed b 1 v (omega (arith, leb-false→lt _ _ more)),
  )
]

abbrev pub LineRead :
    ⦃u : Utf8⦄ → StreamByteBuffer → ℕ → Result Exception (JsString × StreamByteBuffer) → Type 0
LineRead b i (ok (line, b')) =
    (i + 1 < length (contents b)) × (line ≡ decode (take i (contents b))) × Consumed (i + 2) b b'
LineRead b i (err e) = (length (contents b) ≤ i + 1) × (e ≡ crlf_out_of_bounds)

-- `readLineAtCrlf` at the `i`-th unread byte decodes the `i` bytes before it and takes two more.
pub read_line_at_crlf-LineRead :
    ⦃u : Utf8⦄
    → (b : StreamByteBuffer) (i : ℕ) → IsValid b
    → LineRead b i (read_line_at_crlf b (b.read_offset + i))
unfolding read_line_at_crlf
read_line_at_crlf-LineRead b i v =
    elim (Bool-cases
      (ltb (b.read_offset + i) b.read_offset || leb b.write_offset (b.read_offset + i + 1))) [
        | inl bad ↦ rw bad (edge bad, refl)
        | inr good ↦ rw good (
          inside good,
          ap decode (
              unfold contents in
              slice-take b.buffer b.read_offset b.write_offset i
                (omega (arith, v, inside good, length-contents b v))),
          rw at_line_end
              (moved-Consumed b (i + 2) v (omega (arith, v, inside good, length-contents b v))),
        )
      ]
  where
    at_line_end : b.read_offset + i + 2 ≡ b.read_offset + (i + 2)
    at_line_end = omega arith

    edge :
        (ltb (b.read_offset + i) b.read_offset || leb b.write_offset (b.read_offset + i + 1)) ≡ true
        → length (contents b) ≤ i + 1
    edge h = ground (arith, length-contents b v)

    inside :
        (ltb (b.read_offset + i) b.read_offset || leb b.write_offset (b.read_offset + i + 1))
          ≡ false
        → i + 1 < length (contents b)
    inside h = ground (arith, length-contents b v)
