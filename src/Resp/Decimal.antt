-- ===== src/Resp/Decimal.antt =====
-- Integers as text: `toString()` of a number or a bigint, the test by `INTEGER_REGEX` of
-- src/resp-parser.ts, and `BigInt(text)` on a text that passes it.
mod Tests
use radix_kv.Prelude.{
  All, All-imp, Bool, Option, [], ap, arith, false, if◌then◌else◌, leb, length, ltb, map,
  ne→==_false, none, refl, some, suc, true, zero, ℕ, ◌%◌, ◌&&◌, ◌*◌, ◌+◌, ◌-◌, ◌/◌, ◌<◌, ◌==◌, ◌∙◌,
  ◌∷◌, ◌≡◌, ◌≢◌, ◌≤◌,
}
use radix_kv.Prelude.Int.{ℤ, pos, negsuc}
use radix_kv.Prelude.Text.{JsString, IsAscii}
use mathlib.Core.Option
use native.Mathlib.Decide.{dec_lt}

abbrev pub IsDigit : ℕ → Type 0
IsDigit c = (48 ≤ c) × (c ≤ 57)

unfoldable pub is_digit : ℕ → Bool
is_digit c = leb 48 c && leb c 57

unfoldable pub all_digits : JsString → Bool
unfolding is_digit
all_digits [] = true
all_digits (c ∷ s) = is_digit c && all_digits s

-- The decimal digits of `n` in front of `acc`. Fuel above `n` is enough.
unfoldable pub print_digits : ℕ → ℕ → JsString → JsString
print_digits zero n acc = acc
print_digits (suc f) n acc = elim (ltb n 10) [
  | true ↦ (48 + n) ∷ acc
  | false ↦ print_digits f (n / 10) ((48 + n % 10) ∷ acc)
]

unfoldable pub print_nat : ℕ → JsString
unfolding print_digits
print_nat n = print_digits (suc n) n []

-- `value.toString()`
unfoldable pub to_string : ℤ → JsString
unfolding print_nat
to_string (pos n) = print_nat n
to_string (negsuc n) = 45 ∷ print_nat (suc n)

unfoldable pub read_digits : ℕ → JsString → ℕ
read_digits acc [] = acc
read_digits acc (c ∷ s) = read_digits (acc * 10 + (c - 48)) s

-- `[0-9]+`, and the number that it denotes.
unfoldable pub read_unsigned : JsString → Option ℕ
unfolding all_digits read_digits
read_unsigned [] = none
read_unsigned (c ∷ s) = if all_digits (c ∷ s) then some (read_digits 0 (c ∷ s)) else none

unfoldable pub negated : ℕ → ℤ
negated zero = pos 0
negated (suc n) = negsuc n

-- `none` for a text that `INTEGER_REGEX` refuses.
unfoldable pub parse_integer : JsString → Option ℤ
unfolding read_unsigned negated
parse_integer [] = none
parse_integer (c ∷ s) =
    if c == b'-'
    then Option.map negated (read_unsigned s)
    else if c == b'+'
    then Option.map pos (read_unsigned s)
    else Option.map pos (read_unsigned (c ∷ s))

module _ (f n : ℕ) (acc : JsString) where
  print_digits_low : n < 10 → print_digits (suc f) n acc ≡ (48 + n) ∷ acc
  unfolding print_digits
  print_digits_low h = ground arith

  print_digits_high :
      10 ≤ n → print_digits (suc f) n acc ≡ print_digits f (n / 10) ((48 + n % 10) ∷ acc)
  unfolding print_digits
  print_digits_high h = ground arith

print_digits-IsDigit :
    (f n : ℕ) (acc : JsString) → All IsDigit acc → All IsDigit (print_digits f n acc)
print_digits-IsDigit zero n acc h = unfold print_digits in h
print_digits-IsDigit (suc f) n acc h = elim (dec_lt n 10) [
  | yes low ↦ rw (print_digits_low f n acc low) (omega arith, h)
  | no high ↦
      rw (print_digits_high f n acc (omega arith))
        (print_digits-IsDigit f (n / 10) _ (omega arith, h))
]

read_digits-print_digits :
    (f n : ℕ) (acc : JsString) → n < f → read_digits 0 (print_digits f n acc) ≡ read_digits n acc
unfolding read_digits
read_digits-print_digits zero n acc h = absurd (omega arith)
read_digits-print_digits (suc f) n acc h = elim (dec_lt n 10) [
  | yes low ↦
      rw (print_digits_low f n acc low)
        (ap (λ k. read_digits k acc) {x = 0 * 10 + (48 + n - 48)} {y = n} (omega arith))
  | no high ↦ rw (print_digits_high f n acc (omega arith)) (
      read_digits-print_digits f (n / 10) ((48 + n % 10) ∷ acc) (omega arith)
      ∙ ap (λ k. read_digits k acc) {x = n / 10 * 10 + (48 + n % 10 - 48)} {y = n} (omega arith))
]

all_digits_of_IsDigit : (s : JsString) → All IsDigit s → all_digits s ≡ true
unfolding all_digits
all_digits_of_IsDigit [] h = refl
all_digits_of_IsDigit (c ∷ s) h = ground (arith, h.0, all_digits_of_IsDigit s h.1)

length-le-print_digits : (f n : ℕ) (acc : JsString) → length acc ≤ length (print_digits f n acc)
length-le-print_digits zero n acc = unfold print_digits in omega arith
length-le-print_digits (suc f) n acc = elim (dec_lt n 10) [
  | yes low ↦ rw (print_digits_low f n acc low) (omega arith)
  | no high ↦
      rw (print_digits_high f n acc (omega arith))
        (omega (arith, length-le-print_digits f (n / 10) ((48 + n % 10) ∷ acc)))
]

length-print_digits_pos : (f n : ℕ) (acc : JsString) → 0 < length (print_digits (suc f) n acc)
length-print_digits_pos f n acc = elim (dec_lt n 10) [
  | yes low ↦ rw (print_digits_low f n acc low) (omega arith)
  | no high ↦
      rw (print_digits_high f n acc (omega arith))
        (omega (arith, length-le-print_digits f (n / 10) ((48 + n % 10) ∷ acc)))
]

print_nat-ne-nil : (n : ℕ) → print_nat n ≢ []
unfolding print_nat
print_nat-ne-nil n h = absurd (omega (arith, length-print_digits_pos n n [], ap length h))

pub print_nat-IsDigit : (n : ℕ) → All IsDigit (print_nat n)
unfolding print_nat
print_nat-IsDigit n = print_digits-IsDigit (suc n) n [] tt

read_unsigned_of_IsDigit :
    (s : JsString) → All IsDigit s → s ≢ [] → read_unsigned s ≡ some (read_digits 0 s)
unfolding read_unsigned
read_unsigned_of_IsDigit [] h k = absurd (k refl)
read_unsigned_of_IsDigit (c ∷ s) h k = ground (arith, all_digits_of_IsDigit (c ∷ s) h)

pub read_unsigned-print_nat : (n : ℕ) → read_unsigned (print_nat n) ≡ some n
read_unsigned-print_nat n =
    read_unsigned_of_IsDigit (print_nat n) (print_nat-IsDigit n) (print_nat-ne-nil n)
    ∙ ap (λ (k : ℕ). some k)
        (unfold print_nat read_digits in read_digits-print_digits (suc n) n [] (omega arith))

-- A text of digits only is read as a number without sign.
parse_integer_of_IsDigit :
    (s : JsString) → All IsDigit s → parse_integer s ≡ Option.map pos (read_unsigned s)
unfolding parse_integer
parse_integer_of_IsDigit [] h = refl
parse_integer_of_IsDigit (c ∷ s) h =
    rw (ne→==_false c 45 (omega arith), ne→==_false c 43 (omega arith))

pub parse_integer-print_nat : (n : ℕ) → parse_integer (print_nat n) ≡ some (pos n)
parse_integer-print_nat n =
    parse_integer_of_IsDigit (print_nat n) (print_nat-IsDigit n) ∙ rw read_unsigned-print_nat

-- Every integer is read back from its text.
pub parse_integer-to_string : (n : ℤ) → parse_integer (to_string n) ≡ some n
parse_integer-to_string (pos n) = unfold to_string in parse_integer-print_nat n
parse_integer-to_string (negsuc n) =
    unfold to_string parse_integer negated in rw read_unsigned-print_nat

-- The text of an integer is ASCII and has no CR.
abbrev pub IsPlain : ℕ → Type 0
IsPlain c = (c ≢ 13) × IsAscii c

pub print_nat-IsPlain : (n : ℕ) → All IsPlain (print_nat n)
print_nat-IsPlain n =
    All-imp IsDigit IsPlain (print_nat n) (λ c h. (omega arith, omega arith)) (print_nat-IsDigit n)

pub to_string-IsPlain : (n : ℤ) → All IsPlain (to_string n)
unfolding to_string
to_string-IsPlain (pos n) = print_nat-IsPlain n
to_string-IsPlain (negsuc n) = ((omega arith, omega arith), print_nat-IsPlain (suc n))
