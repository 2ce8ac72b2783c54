-- ===== src/Types.antt =====
-- src/types.ts: the values of the protocol, and what the protocol code throws.
use radix_kv.Prelude.{Bool, List, Option, [], ap, refl, ℕ, ◌∷◌, ◌≡◌}
use radix_kv.Prelude.Int.{ℤ}
use radix_kv.Prelude.Text.{Bytes, JsString}

-- `Elements` is the `RespValue[]` of an array; `null_array` is the array whose value is null.
mutual
  pub data RespValue : Type 0 where
    simple_string : JsString → RespValue
    error : JsString → RespValue
    integer : ℤ → RespValue
    bulk_string : Option Bytes → RespValue
    null_array : RespValue
    array : Elements → RespValue

  pub data Elements : Type 0 where
    nil : Elements
    cons : RespValue → Elements → Elements

unfoldable pub to_elements : List RespValue → Elements
to_elements [] = nil
to_elements (v ∷ vs) = cons v (to_elements vs)

unfoldable pub of_elements : Elements → List RespValue
of_elements nil = []
of_elements (cons v vs) = v ∷ of_elements vs

pub to_elements-of_elements : (vs : Elements) → to_elements (of_elements vs) ≡ vs
unfolding to_elements of_elements
to_elements-of_elements nil = refl
to_elements-of_elements (cons v vs) = ap (cons v) (to_elements-of_elements vs)

-- `ProtocolError.code`. The message beside it repeats the offending value and is not modelled.
pub data Code : Type 0 where
  buffer_overflow malformed_bulk_terminator header_too_long empty_line invalid_bulk_length : Code
  bulk_too_large invalid_array_count nesting_depth_exceeded unknown_prefix invalid_integer : Code

-- Whatever the buffer and the parser throw: a `ProtocolError`, or a plain `Error`.
pub data Exception : Type 0 where
  protocol_error : Code → Exception
  invalid_capacity crlf_out_of_bounds cannot_read cannot_advance : Exception

pub record ParserOptions : Type 0 where
  pub max_inline_length : ℕ
  pub max_bulk_length : ℕ
  pub max_array_depth : ℕ
  pub initial_buffer_size : ℕ
  pub max_buffer_size : ℕ

abbrev pub default_options : ParserOptions
default_options = record {
  max_inline_length = 65536;
  max_bulk_length = 67108864;
  max_array_depth = 16;
  initial_buffer_size = 65536;
  max_buffer_size = 134217728;
}

pub record CommandExecutionResult : Type 0 where
  pub response : Bytes
  pub should_close : Bool
