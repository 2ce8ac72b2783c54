-- ===== src/Resp/Serializer.antt =====
-- src/resp-serializer.ts
use radix_kv.Prelude.{Option, [], if◌then◌else◌, length, list_eq, none, some, ℕ, ◌++◌, ◌∷◌}
use radix_kv.Prelude.Int.{ℤ}
use radix_kv.Prelude.Text.{Bytes, JsString, Utf8, codes, encode}
use radix_kv.Types.{
  Elements, RespValue, array, bulk_string, cons, error, integer, nil, null_array, of_elements,
  simple_string,
}
use radix_kv.Resp.Decimal.{print_nat, to_string}

abbrev pub crlf : Bytes
crlf = 13 ∷ 10 ∷ []

unfoldable pub static_pong : Bytes
static_pong = codes "+PONG" ++ crlf

unfoldable pub static_ok : Bytes
static_ok = codes "+OK" ++ crlf

unfoldable pub null_bulk_string : Bytes
null_bulk_string = codes "$-1" ++ crlf

unfoldable pub null_array_bytes : Bytes
null_array_bytes = codes "*-1" ++ crlf

unfoldable pub empty_array : Bytes
empty_array = codes "*0" ++ crlf

-- A header line: the prefix, a text, and CRLF.
unfoldable pub header : ⦃u : Utf8⦄ → ℕ → JsString → Bytes
header prefix text = encode (prefix ∷ (text ++ crlf))

unfoldable pub simple_string_bytes : ⦃u : Utf8⦄ → JsString → Bytes
simple_string_bytes value =
    if list_eq value (codes "OK")
    then static_ok
    else if list_eq value (codes "PONG")
    then static_pong
    else header b'+' value

-- `error(message, prefix)`
unfoldable pub error_bytes : ⦃u : Utf8⦄ → JsString → JsString → Bytes
error_bytes message prefix = header b'-' (prefix ++ (32 ∷ message))

unfoldable pub raw_error : ⦃u : Utf8⦄ → JsString → Bytes
raw_error message = header b'-' message

unfoldable pub integer_bytes : ⦃u : Utf8⦄ → ℤ → Bytes
integer_bytes value = header b':' (to_string value)

-- Every caller gives a buffer or null.
unfoldable pub bulk_string_bytes : ⦃u : Utf8⦄ → Option Bytes → Bytes
bulk_string_bytes none = null_bulk_string
bulk_string_bytes (some payload) = header b'$' (print_nat (length payload)) ++ (payload ++ crlf)

unfoldable pub count_line : ⦃u : Utf8⦄ → Elements → Bytes
count_line vs = header b'*' (print_nat (length (of_elements vs)))

unfoldable mutual
  pub serialize : ⦃u : Utf8⦄ → RespValue → Bytes
  serialize (simple_string s) = simple_string_bytes s
  serialize (error s) = raw_error s
  serialize (integer n) = integer_bytes n
  serialize (bulk_string b) = bulk_string_bytes b
  serialize null_array = null_array_bytes
  serialize (array nil) = empty_array
  serialize (array (cons v vs)) = count_line (cons v vs) ++ (serialize v ++ serialize_all vs)

  -- The chunks of the elements, concatenated.
  pub serialize_all : ⦃u : Utf8⦄ → Elements → Bytes
  serialize_all nil = []
  serialize_all (cons v vs) = serialize v ++ serialize_all vs
