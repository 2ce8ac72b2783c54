-- ===== src/Commands/Arguments.antt =====
-- src/command-handler.ts: the arguments of a command, and what is read from them.
use radix_kv.Prelude.{
  All, Bool, List, Option, [], false, if◌then◌else◌, leb, map, none, some, ℕ, ◌&&◌, ◌-◌, ◌==◌, ◌∷◌,
  ◌≡◌,
}
use radix_kv.Prelude.Int.{pos, ℤ}
use radix_kv.Prelude.Text.{Bytes, IsAscii, JsString, Utf8, encode}
use radix_kv.Types.{
  RespValue, array, bulk_string, error, integer, null_array, of_elements, simple_string,
}
use radix_kv.Resp.Decimal.{is_digit, negated, read_unsigned, to_string}
use radix_kv.Storage.BigInt.{is_space, trim, trim_start}
use mathlib.Core.Option

-- `toUpperCase()`, of which the handlers rely on the ASCII letters.
abbrev pub upper_ascii : ℕ → ℕ
upper_ascii c = if leb 97 c && leb c 122 then c - 32 else c

pub record UpperCase : Type 0 where
  pub to_upper : JsString → JsString
  pub to_upper-ascii : (s : JsString) → All IsAscii s → to_upper s ≡ map upper_ascii s

-- A character that comes before a first word.
unfoldable pub add_char : ℕ → List JsString → List JsString
add_char c [] = (c ∷ []) ∷ []
add_char c (w ∷ ws) = (c ∷ w) ∷ ws

unfoldable pub starts_with_space : JsString → Bool
starts_with_space [] = false
starts_with_space (c ∷ s) = is_space c

-- `split(/\s+/)`
unfoldable pub split_spaces : JsString → List JsString
split_spaces [] = [] ∷ []
split_spaces (c ∷ s) =
    let rest = split_spaces s in
    if is_space c then (if starts_with_space s then rest else [] ∷ rest) else add_char c rest

-- The argument that an element of the array stands for.
unfoldable pub argument_of : ⦃u : Utf8⦄ → RespValue → Option Bytes
argument_of (bulk_string none) = some []
argument_of (bulk_string (some b)) = some b
argument_of (simple_string s) = some (encode s)
argument_of (integer n) = some (encode (to_string n))
argument_of (error s) = none
argument_of null_array = none
argument_of (array vs) = none

unfoldable pub arguments_of : ⦃u : Utf8⦄ → List RespValue → Option (List Bytes)
arguments_of [] = some []
arguments_of (v ∷ vs) = elim (argument_of v) [
  | none ↦ none
  | some a ↦ Option.map (λ (rest : List Bytes). a ∷ rest) (arguments_of vs)
]

unfoldable pub extract_command_arguments : ⦃u : Utf8⦄ → RespValue → Option (List Bytes)
extract_command_arguments null_array = none
extract_command_arguments (array vs) = arguments_of (of_elements vs)
extract_command_arguments (bulk_string none) = none
extract_command_arguments (bulk_string (some b)) = some (b ∷ [])
extract_command_arguments (simple_string s) = some (map encode (split_spaces (trim s)))
extract_command_arguments (error s) = none
extract_command_arguments (integer n) = none

-- The digits at the start of a text.
unfoldable pub digit_prefix : JsString → JsString
digit_prefix [] = []
digit_prefix (c ∷ s) = let rest = digit_prefix s in if is_digit c then c ∷ rest else []

-- `parseInt(text, 10)` behind white space; `none` is NaN. Rounding to a double is not modelled.
unfoldable pub parse_int_signed : JsString → Option ℤ
parse_int_signed [] = none
parse_int_signed (c ∷ s) =
    if c == b'-'
    then Option.map negated (read_unsigned (digit_prefix s))
    else if c == b'+'
    then Option.map pos (read_unsigned (digit_prefix s))
    else Option.map pos (read_unsigned (digit_prefix (c ∷ s)))

unfoldable pub parse_int : JsString → Option ℤ
parse_int s = parse_int_signed (trim_start s)
