-- ===== src/Resp/Decimal/Tests.antt =====
-- Integers as text: runs and instances.
use radix_kv.Prelude.{refl, some, ◌≡◌}
use radix_kv.Prelude.Int.{negsuc}
use radix_kv.Prelude.Text.{codes}
use radix_kv.Resp.Decimal.{parse_integer, parse_integer-to_string, print_nat, to_string}

parse_integer-to_string_example : parse_integer (to_string (negsuc 41)) ≡ some (negsuc 41)
parse_integer-to_string_example = parse_integer-to_string (negsuc 41)

minus_42 : to_string (negsuc 41) ≡ codes "-42"
unfolding to_string print_nat
minus_42 = refl
