-- ===== src/Bson.antt =====
-- src/bson-encoder.ts: `encode` and the elements of a document, and the tests at the start of `decode`.
pub mod Framing
pub mod Tests
use radix_kv.Prelude.{
  Bool, Option, [], false, if◌then◌else◌, leb, length, ltb, none, some, suc, zero, ℕ, ◌%◌, ◌*◌,
  ◌++◌, ◌+◌, ◌-◌, ◌/◌, ◌∷◌,
}
use radix_kv.Prelude.Int.{negsuc, pos, ℤ}
use radix_kv.Prelude.Text.{Bytes, JsString, Utf8, encode}
use radix_kv.Result.{◌>>=◌, Result, err, ok}
use radix_kv.Resp.Decimal.{print_nat}

-- The numbers of JavaScript: `as_integer` is the value of a number for which `Number.isInteger` holds,
-- `double_le` the bytes that `writeDoubleLE` writes.
pub record Doubles (D : Type 0) : Type 0 where
  pub as_integer : D → Option ℤ
  pub double_le : D → Bytes

pub data BsonError : Type 0 where
  out_of_range unsupported_type buffer_too_small length_exceeds : BsonError

-- A value by the branch that it takes. A date is its time, `none` for an invalid one; a document has its
-- entries in the order of `Object.entries`.
mutual
  pub data BsonValue (D : Type 0) : Type 0 where
    null_value : BsonValue D
    binary : Bytes → BsonValue D
    text : JsString → BsonValue D
    number : D → BsonValue D
    big_int : ℤ → BsonValue D
    boolean : Bool → BsonValue D
    date : Option ℤ → BsonValue D
    items : Items D → BsonValue D
    document : Document D → BsonValue D
    unsupported : BsonValue D

  pub data Document (D : Type 0) : Type 0 where
    empty : Document D
    entry : JsString → BsonValue D → Document D → Document D

  pub data Items (D : Type 0) : Type 0 where
    no_items : Items D
    item : BsonValue D → Items D → Items D

-- The low bytes of a number, the lowest first.
unfoldable pub le_bytes : ℕ → ℕ → Bytes
le_bytes zero n = []
le_bytes (suc k) n = (n % 256) ∷ le_bytes k (n / 256)

-- `writeInt32LE` and `writeBigInt64LE`: `half` is 2 ^ 31 or 2 ^ 63, and a value outside is a `RangeError`.
unfoldable pub write_int : (width half : ℕ) → ℤ → Result BsonError Bytes
write_int width half (pos n) = if ltb n half then ok (le_bytes width n) else err out_of_range
write_int width half (negsuc n) =
    if ltb n half then ok (le_bytes width (2 * half - 1 - n)) else err out_of_range

abbrev pub write_int32_le : ℤ → Result BsonError Bytes
write_int32_le = write_int 4 2147483648

abbrev pub write_int64_le : ℤ → Result BsonError Bytes
write_int64_le = write_int 8 9223372036854775808

-- The test for an `Int32`, and the value.
unfoldable pub int32_of : Option ℤ → Option ℤ
int32_of none = none
int32_of (some (pos n)) = if leb n 2147483647 then some (pos n) else none
int32_of (some (negsuc n)) = if ltb n 2147483648 then some (negsuc n) else none

-- `keyBuf`
unfoldable pub key_buf : ⦃u : Utf8⦄ → JsString → Bytes
key_buf key = encode (key ++ (0 ∷ []))

-- An element of this type, with this key before the bytes of its value.
unfoldable pub element : ⦃u : Utf8⦄ → ℕ → JsString → Bytes → Bytes
element type_byte key body = (type_byte ∷ key_buf key) ++ body

unfoldable pub encode_number :
    {D : Type 0} → ⦃u : Utf8⦄ → ⦃d : Doubles D⦄ → JsString → D → Result BsonError Bytes
encode_number ⦃u⦄ ⦃d⦄ key n = elim (int32_of (d.as_integer n)) [
  | some i ↦ write_int32_le i >>= λ num_buf. ok (element 16 key num_buf)
  | none ↦ ok (element 1 key (d.double_le n))
]

unfoldable pub encode_text : ⦃u : Utf8⦄ → JsString → JsString → Result BsonError Bytes
encode_text key val =
    let str_buf = encode val in
    write_int32_le (pos (length str_buf + 1)) >>= λ len_buf.
    ok (element 2 key (len_buf ++ (str_buf ++ (0 ∷ []))))

unfoldable pub encode_binary : ⦃u : Utf8⦄ → JsString → Bytes → Result BsonError Bytes
encode_binary key val =
    write_int32_le (pos (length val)) >>= λ len_buf. ok (element 5 key (len_buf ++ (0 ∷ val)))

-- `BigInt` of an invalid date throws a `RangeError`, too.
unfoldable pub encode_date : ⦃u : Utf8⦄ → JsString → Option ℤ → Result BsonError Bytes
encode_date key none = err out_of_range
encode_date key (some ms) = write_int64_le ms >>= λ date_buf. ok (element 9 key date_buf)

-- `encode`, from the concatenated elements on.
unfoldable pub frame : Bytes → Result BsonError Bytes
frame payload =
    write_int32_le (pos (4 + length payload + 1)) >>= λ head. ok (head ++ (payload ++ (0 ∷ [])))

-- An array is encoded as the document of its items under their indices.
unfoldable mutual
  pub encode_element :
      {D : Type 0} → ⦃u : Utf8⦄ → ⦃d : Doubles D⦄ → JsString → BsonValue D → Result BsonError Bytes
  encode_element key null_value = ok (element 10 key [])
  encode_element key (binary val) = encode_binary key val
  encode_element key (text val) = encode_text key val
  encode_element key (number val) = encode_number key val
  encode_element key (big_int val) = write_int64_le val >>= λ num_buf. ok (element 18 key num_buf)
  encode_element key (boolean val) = ok (element 8 key ((if val then 1 else 0) ∷ []))
  encode_element key (date val) = encode_date key val
  encode_element key (items vals) =
      encode_items 0 vals >>= frame >>= λ sub_doc. ok (element 4 key sub_doc)
  encode_element key (document val) =
      encode_entries val >>= frame >>= λ sub_doc. ok (element 3 key sub_doc)
  encode_element key unsupported = err unsupported_type

  pub encode_entries :
      {D : Type 0} → ⦃u : Utf8⦄ → ⦃d : Doubles D⦄ → Document D → Result BsonError Bytes
  encode_entries empty = ok []
  encode_entries (entry key val doc) =
      encode_element key val >>= λ b. encode_entries doc >>= λ bs. ok (b ++ bs)

  pub encode_items :
      {D : Type 0} → ⦃u : Utf8⦄ → ⦃d : Doubles D⦄ → ℕ → Items D → Result BsonError Bytes
  encode_items i no_items = ok []
  encode_items i (item val vals) =
      encode_element (print_nat i) val >>= λ b. encode_items (i + 1) vals >>= λ bs. ok (b ++ bs)

unfoldable pub encode_document :
    {D : Type 0} → ⦃u : Utf8⦄ → ⦃d : Doubles D⦄ → Document D → Result BsonError Bytes
encode_document doc = encode_entries doc >>= frame

-- `readInt32LE(0)`: four bytes, or a `RangeError`.
unfoldable pub signed_32 : ℕ → ℤ
signed_32 n = if ltb n 2147483648 then pos n else negsuc (4294967295 - n)

unfoldable pub read_int32_le : Bytes → Result BsonError ℤ
read_int32_le (a ∷ (b ∷ (c ∷ (e ∷ _)))) = ok (signed_32 (a + 256 * (b + 256 * (c + 256 * e))))
read_int32_le _ = err out_of_range

unfoldable pub exceeds : ℤ → ℕ → Bool
exceeds (pos n) size = ltb size n
exceeds (negsuc n) size = false

-- The length that `decode` goes by, once its two tests are passed.
unfoldable pub declared_length : Bytes → Result BsonError ℤ
declared_length buffer =
    if ltb (length buffer) 5
    then err buffer_too_small
    else read_int32_le buffer >>= λ total.
        if exceeds total (length buffer) then err length_exceeds else ok total
