-- ===== src/Bson/Framing.antt =====
-- src/bson-encoder.ts: what `encode` writes is a frame that `decode` takes whole.
use radix_kv.Prelude.{
  [], ap, arith, length, length-append, ℕ, ◌%◌, ◌*◌, ◌++◌, ◌+◌, ◌/◌, ◌<◌, ◌∙◌, ◌∷◌, ◌≡◌, ◌≤◌,
}
use radix_kv.Prelude.Int.{pos}
use radix_kv.Prelude.Text.{Bytes, Utf8}
use radix_kv.Result.{ok, err, ◌>>=◌}
use radix_kv.Bson.{
  Document, Doubles, declared_length, encode_document, encode_entries, exceeds, frame, le_bytes,
  out_of_range, read_int32_le, signed_32, write_int,
}

read_int32_le-le_bytes :
    (n : ℕ) (rest : Bytes) → n < 2147483648 → read_int32_le (le_bytes 4 n ++ rest) ≡ ok (pos n)
unfolding read_int32_le le_bytes signed_32
read_int32_le-le_bytes n rest h =
    let whole : n % 256
          + 256 * (n / 256 % 256 + 256 * (n / 256 / 256 % 256 + 256 * (n / 256 / 256 / 256 % 256)))
        ≡ n =
      omega arith in
    ap (λ k. ok (signed_32 k)) whole ∙ ground arith

-- The bytes of the frame around the elements, where their number fits.
abbrev framed : Bytes → Bytes
framed payload = le_bytes 4 (4 + length payload + 1) ++ (payload ++ (0 ∷ []))

length-framed : (payload : Bytes) → length (framed payload) ≡ 4 + length payload + 1
unfolding le_bytes
length-framed payload = omega (arith, length-append payload (0 ∷ []))

frame_fits :
    (payload : Bytes) → 4 + length payload + 1 < 2147483648 → frame payload ≡ ok (framed payload)
unfolding frame write_int
frame_fits payload h = ground arith

declared_length-framed :
    (payload : Bytes)
    → 4 + length payload + 1 < 2147483648
    → declared_length (framed payload) ≡ ok (pos (length (framed payload)))
unfolding declared_length exceeds
declared_length-framed payload h =
    rw
      (
        length-framed payload,
        read_int32_le-le_bytes (4 + length payload + 1) (payload ++ (0 ∷ [])) h,
      )
      (ground arith)

frame_too_long :
    (payload : Bytes) → 2147483648 ≤ 4 + length payload + 1 → frame payload ≡ err out_of_range
unfolding frame write_int
frame_too_long payload h = ground arith

-- Where the elements of a document are written: if they are fewer than 2 ^ 31 - 5 bytes, `encode` returns
-- five bytes more than they have, which pass the two tests at the start of `decode`, and the length that
-- is read there is their number; if they are more, `encode` throws a `RangeError`.
pub declared_length-encode_document :
    {D : Type 0}
    → ⦃u : Utf8⦄ → ⦃d : Doubles D⦄ → (doc : Document D) (payload : Bytes)
    → encode_entries doc ≡ ok payload
    → (4 + length payload + 1 < 2147483648
        → (b : Bytes) × (encode_document doc ≡ ok b)
          × (length b ≡ length payload + 5)
          × (declared_length b ≡ ok (pos (length b))))
      × (2147483648 ≤ 4 + length payload + 1 → encode_document doc ≡ err out_of_range)
unfolding encode_document
declared_length-encode_document doc payload h = (
  λ fits. (
    framed payload,
    ap (λ r. r >>= frame) h ∙ frame_fits payload fits,
    omega (arith, length-framed payload),
    declared_length-framed payload fits,
  ),
  λ long. ap (λ r. r >>= frame) h ∙ frame_too_long payload long,
)
