-- ===== src/Storage/BigInt.antt =====
-- `text.trim()` and `BigInt(text)` of JavaScript, as `incr` of src/storage-engine.ts uses them.
use radix_kv.Prelude.{
  Bool, Option, [], if◌then◌else◌, leb, ltb, none, some, ℕ, ◌&&◌, ◌*◌, ◌+◌, ◌-◌, ◌==◌, ◌||◌, ◌∷◌,
}
use radix_kv.Prelude.Int.{pos, ℤ}
use radix_kv.Prelude.Text.{JsString}
use radix_kv.Resp.Decimal.{parse_integer}
use mathlib.Core.Option

-- The white space and the line terminators of ECMAScript.
unfoldable pub is_space : ℕ → Bool
is_space c =
    (leb 9 c && leb c 13)
    || (c == 32)
    || (c == 160)
    || (c == 5760)
    || (leb 8192 c && leb c 8202)
    || (c == 8232)
    || (c == 8233)
    || (c == 8239)
    || (c == 8287)
    || (c == 12288)
    || (c == 65279)

unfoldable pub trim_start : JsString → JsString
trim_start [] = []
trim_start (c ∷ s) = let rest = trim_start s in if is_space c then rest else c ∷ s

-- `c` in front of a text that has been trimmed at its end.
unfoldable pub keep_inner : ℕ → JsString → JsString
keep_inner c [] = if is_space c then [] else c ∷ []
keep_inner c (x ∷ s) = c ∷ (x ∷ s)

unfoldable pub trim_end : JsString → JsString
trim_end [] = []
trim_end (c ∷ s) = keep_inner c (trim_end s)

unfoldable pub trim : JsString → JsString
trim s = trim_start (trim_end s)

-- The value of a digit, in a base up to 16.
unfoldable pub digit_value : ℕ → ℕ → Option ℕ
digit_value base c =
    let v =
      if leb 48 c && leb c 57
      then c - 48
      else if leb 97 c && leb c 102
      then c - 87
      else if leb 65 c && leb c 70
      then c - 55
      else base in
    if ltb v base then some v else none

unfoldable pub read_base : ℕ → ℕ → JsString → Option ℕ
read_base base acc [] = some acc
read_base base acc (c ∷ s) = elim (digit_value base c) [
  | none ↦ none
  | some v ↦ read_base base (acc * base + v) s
]

unfoldable pub read_prefixed : ℕ → JsString → Option ℤ
read_prefixed base [] = none
read_prefixed base (c ∷ s) = Option.map pos (read_base base 0 (c ∷ s))

-- The base that a leading `0x`, `0o` or `0b` names.
unfoldable pub base_of : ℕ → Option ℕ
base_of c =
    if (c == b'x') || (c == b'X')
    then some 16
    else if (c == b'o') || (c == b'O')
    then some 8
    else if (c == b'b') || (c == b'B')
    then some 2
    else none

-- `BigInt` of a trimmed text: the empty text is zero, and `none` is its `SyntaxError`.
unfoldable pub big_int : JsString → Option ℤ
big_int [] = some (pos 0)
big_int (x ∷ []) = parse_integer (x ∷ [])
big_int (x ∷ (c ∷ s)) = elim (if x == 48 then base_of c else none) [
  | none ↦ parse_integer (x ∷ (c ∷ s))
  | some base ↦ read_prefixed base s
]
