-- ===== src/Bson/Tests.antt =====
-- src/bson-encoder.ts: runs. A number is an integer here, or `none` for what is no integer.
use radix_kv.Prelude.{Option, [], length, refl, some, true, ◌++◌, ◌+◌, ◌<◌, ◌∷◌, ◌≡◌, ◌≤◌}
use radix_kv.Prelude.Int.{negsuc, pos, ℤ}
use radix_kv.Prelude.Text.{Bytes, codes}
use radix_kv.Resp.Decimal.{print_digits, print_nat}
use radix_kv.Prelude.Ascii.{ascii_codec}
use radix_kv.Result.{ok, err}
use radix_kv.Bson.{
  Document, Doubles, big_int, boolean, declared_length, element, empty, encode_document,
  encode_element, encode_entries, encode_items, encode_number, encode_text, entry, frame, int32_of,
  item, items, key_buf, le_bytes, no_items, null_value, number, out_of_range, text, write_int,
}
use radix_kv.Bson.Framing.{declared_length-encode_document}

instance abbrev integers : Doubles (Option ℤ)
integers = record {
  as_integer = λ n. n;
  double_le = λ n. 0 ∷ (0 ∷ (0 ∷ (0 ∷ (0 ∷ (0 ∷ (0 ∷ (0 ∷ [])))))));
}

-- `{ a: 1, b: ["x", true], c: null, d: -2 }`
abbrev sample : Document (Option ℤ)
sample = entry (codes "a") (number (some (pos 1))) (
    entry (codes "b") (items (item (text (codes "x")) (item (boolean true) no_items)))
      (entry (codes "c") null_value (entry (codes "d") (big_int (negsuc 1)) empty)))

sample_bytes :
    encode_document sample
    ≡ ok (
        47
        ∷ (0
            ∷ (0
                ∷ (0
                    ∷ (16
                        ∷ (97
                            ∷ (0
                                ∷ (1
                                    ∷ (0
                                        ∷ (0
                                            ∷ (0
                                                ∷ (4
                                                    ∷ (98
                                                        ∷ (0
                                                            ∷ (18
                                                            ∷ (0
                                                            ∷ (0
                                                            ∷ (0
                                                            ∷ (2
                                                            ∷ (48
                                                            ∷ (0
                                                            ∷ (2
                                                            ∷ (0
                                                            ∷ (0
                                                            ∷ (0
                                                            ∷ (120
                                                            ∷ (0
                                                            ∷ (8
                                                            ∷ (49
                                                            ∷ (0
                                                            ∷ (1
                                                            ∷ (0
                                                            ∷ (10
                                                            ∷ (99
                                                            ∷ (0
                                                            ∷ (18
                                                            ∷ (100
                                                            ∷ (0
                                                            ∷ (254
                                                            ∷ (255
                                                            ∷ (255
                                                            ∷ (255
                                                            ∷ (255
                                                            ∷ (255 ∷ (255 ∷ (255 ∷ (0 ∷ []))))))))))
                                                            )))))))))))))))))))))))))))))))))))))
unfolding encode_document frame encode_entries encode_items encode_element encode_number encode_text
    element key_buf write_int le_bytes int32_of print_nat print_digits
sample_bytes = refl

-- `{ hello: "world" }`, the example of the format's specification.
abbrev hello_payload : Bytes
hello_payload = 2 ∷ (codes "hello" ++ (0 ∷ (6 ∷ (0 ∷ (0 ∷ (0 ∷ (codes "world" ++ (0 ∷ []))))))))

abbrev hello : Document (Option ℤ)
hello = entry (codes "hello") (text (codes "world")) empty

hello_world : encode_document hello ≡ ok (22 ∷ (0 ∷ (0 ∷ (0 ∷ (hello_payload ++ (0 ∷ []))))))
unfolding encode_document frame encode_entries encode_text element key_buf write_int le_bytes
hello_world = refl

hello-written : encode_entries hello ≡ ok hello_payload
unfolding encode_entries encode_text element key_buf write_int le_bytes
hello-written = refl

declared_length-encode_document_example :
    (4 + length hello_payload + 1 < 2147483648
      → (b : Bytes) × (encode_document hello ≡ ok b)
        × (length b ≡ length hello_payload + 5)
        × (declared_length b ≡ ok (pos (length b))))
    × (2147483648 ≤ 4 + length hello_payload + 1 → encode_document hello ≡ err out_of_range)
declared_length-encode_document_example =
    declared_length-encode_document hello hello_payload hello-written
