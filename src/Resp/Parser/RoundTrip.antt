-- ===== src/Resp/Parser/RoundTrip.antt =====
-- src/resp-parser.ts reads back what src/resp-serializer.ts writes.
mod Lines
mod Scalars
mod Items
pub use Lines.{IsLine}
pub use Scalars.{Fits, FitsAll, machine, proceed}
use Items.{value-Reads}
use radix_kv.Prelude.{[], ap, length, refl, ◌++◌, ◌+◌, ◌<◌, ◌∙◌, ◌≡◌, ◌≤◌}
use radix_kv.Prelude.Text.{Bytes, Utf8}
use radix_kv.Types.{Elements, ParserOptions, RespValue, cons, nil, of_elements}
use radix_kv.Result.{ok}
use radix_kv.Resp.Serializer.{serialize, serialize_all}
use radix_kv.Resp.Parser.{ArrayStack, RespParser, complete_value, execute}
use radix_kv.Resp.Parser.Machine.{Machine, fed, spec_loop, spec_run, spec_turn}
use radix_kv.ByteBuffer.{readable_bytes}
use radix_kv.ByteBuffer.Window.{IsValid}
use radix_kv.Resp.Parser.Refine.{view}
use radix_kv.Resp.Parser.Fragments.{observe, observe-execute}

module _ ⦃u : Utf8⦄ (o : ParserOptions) (wide : 5 < o.max_inline_length) where
  -- Where header lines may have more than five bytes: read with `stack` open, the bytes of a value that fits complete that value there, and the run
  -- goes on with whatever follows them.
  pub spec_run-serialize :
      (v : RespValue) (stack : ArrayStack) (rest : Bytes)
      → Fits o (length stack) v
      → spec_run o (machine stack (serialize v ++ rest)) ≡ proceed o (complete_value stack v) rest
  spec_run-serialize v stack rest h = value-Reads o wide v stack h rest

  spec_run-nil : spec_run o (machine [] []) ≡ ok ([], machine [] [])
  unfolding spec_run spec_loop spec_turn
  spec_run-nil = refl

  pub spec_run-serialize_all :
      (vs : Elements)
      → FitsAll o 0 vs
      → spec_run o (machine [] (serialize_all vs)) ≡ ok (of_elements vs, machine [] [])
  unfolding serialize of_elements complete_value
  spec_run-serialize_all nil h = spec_run-nil
  spec_run-serialize_all (cons v vs) h =
      spec_run-serialize v [] (serialize_all vs) h.0 ∙ rw (spec_run-serialize_all vs h.1)

module _ ⦃u : Utf8⦄ where
  -- A parser with nothing pending, whose header lines may have more than five bytes, given the serialized
  -- form of values that fit its limits and its buffer, returns exactly those values, in order, and has
  -- nothing pending again. To fit, a simple string or an error has a line below the limit, no CR among its
  -- bytes, and a text that its bytes decode to again; an integer and a length have a line below the limit; a
  -- bulk string is within its limit; an array with items lies below the limit of the depth, and so on for
  -- its items.
  pub execute-serialize_all :
      (p : RespParser) (vs : Elements)
      → IsValid p.buffer
      → view p ≡ machine [] []
      → 5 < p.options.max_inline_length
      → FitsAll p.options 0 vs
      → readable_bytes p.buffer + length (serialize_all vs) ≤ p.buffer.max_capacity
      → observe (execute p (serialize_all vs)) ≡ ok (of_elements vs, machine [] [])
  execute-serialize_all p vs v idle wide h fits =
      observe-execute p (serialize_all vs) v fits
      ∙ ap (λ (m : Machine). spec_run p.options (fed m (serialize_all vs))) idle
      ∙ spec_run-serialize_all p.options wide vs h
