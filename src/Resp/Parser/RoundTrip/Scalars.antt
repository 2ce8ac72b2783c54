-- ===== src/Resp/Parser/RoundTrip/Scalars.antt =====
-- The values that the limits of src/resp-parser.ts admit, and how one value is read back.
use radix_kv.Prelude.{
  List, Option, [], ap, append_assoc, arith, length, le→ltb-false, lt→leb-false, none, refl, some,
  suc, sym, ℕ, ◌++◌, ◌+◌, ◌<◌, ◌∙◌, ◌∷◌, ◌≡◌, ◌≢◌, ◌≤◌,
}
use radix_kv.Prelude.Int.{ℤ}
use radix_kv.Prelude.Text.{Bytes, IsAscii, JsString, Utf8, codes}
use radix_kv.Types.{
  Elements, ParserOptions, RespValue, array, bulk_string, cons, error, integer, nil, null_array,
  of_elements, simple_string, to_elements, to_elements-of_elements,
}
use radix_kv.Result.{ok}
use radix_kv.Resp.Decimal.{
  parse_integer, parse_integer-print_nat, parse_integer-to_string, print_nat, print_nat-IsPlain,
  to_string, to_string-IsPlain,
}
use radix_kv.Resp.Serializer.{
  bulk_string_bytes, count_line, crlf, empty_array, header, integer_bytes, raw_error, serialize,
  serialize_all, simple_string_bytes,
}
use radix_kv.Resp.Parser.{
  ArrayStack, ArrayStackFrame, apply_header, await_bulk, checked_integer, complete, complete_value,
  open_array, parse_header, to_list,
}
use radix_kv.Resp.Parser.Machine.{Machine, Run, emit_first, emit_first-nil, spec_run}
use radix_kv.Resp.Parser.RoundTrip.Lines.{
  IsLine, IsLine-plain, Short, header-ascii, simple_string_bytes-eq-header, spec_run-turn,
  spec_turn-header, spec_turn-payload,
}

-- A value that the parser's limits admit, below `depth` open arrays.
abbrev mutual
  pub Fits : ⦃u : Utf8⦄ → ParserOptions → ℕ → RespValue → Type 0
  Fits o depth (simple_string s) = IsLine o s
  Fits o depth (error s) = IsLine o s
  Fits o depth (integer n) = Short o (to_string n)
  Fits o depth (bulk_string none) = Unit
  Fits o depth (bulk_string (some payload)) =
      Short o (print_nat (length payload)) × (length payload ≤ o.max_bulk_length)
  Fits o depth null_array = Unit
  Fits o depth (array nil) = Unit
  Fits o depth (array (cons v vs)) =
      (depth < o.max_array_depth)
      × Short o (print_nat (length (of_elements (cons v vs))))
      × Fits o (suc depth) v
      × FitsAll o (suc depth) vs

  pub FitsAll : ⦃u : Utf8⦄ → ParserOptions → ℕ → Elements → Type 0
  FitsAll o depth nil = Unit
  FitsAll o depth (cons v vs) = Fits o depth v × FitsAll o depth vs

abbrev pub machine : ArrayStack → Bytes → Machine
machine stack input = record { stack = stack; pending = none; input = input }

-- The run that goes on once a value has been completed.
abbrev pub proceed : ⦃u : Utf8⦄ → ParserOptions → ArrayStack × Option RespValue → Bytes → Run
proceed o r rest = emit_first (to_list r.1) (spec_run o (machine r.0 rest))

-- The bytes are read as the value, whatever follows.
abbrev pub Reads : ⦃u : Utf8⦄ → ParserOptions → ArrayStack → RespValue → Bytes → Type 0
Reads o stack v bytes =
    (rest : Bytes)
    → spec_run o (machine stack (bytes ++ rest)) ≡ proceed o (complete_value stack v) rest

module _ ⦃u : Utf8⦄ (o : ParserOptions) where
  -- A line whose header is a complete value.
  pub line-Reads :
      (prefix : ℕ) (s : JsString) (stack : ArrayStack) (v : RespValue)
      → IsAscii prefix
      → prefix ≢ 13
      → IsLine o s
      → parse_header o (length stack) (prefix ∷ s) ≡ ok (complete v)
      → Reads o stack v (header prefix s)
  line-Reads prefix s stack v a ne l h rest =
      spec_run-turn o _ _ _
        (spec_turn-header o prefix s stack rest a ne l ∙ rw h (unfold apply_header in refl))

  -- The elements in a row fill the innermost open array.
  abbrev pub ReadsItems : ArrayStack → List RespValue → Elements → Type 0
  ReadsItems stack acc vs =
      (n : ℕ)
      → n ≡ length acc + length (of_elements vs)
      → length acc < n
      → FitsAll o (suc (length stack)) vs
      → (rest : Bytes)
      → spec_run o (machine (record { count = n; items = acc } ∷ stack) (serialize_all vs ++ rest))
        ≡ proceed o (complete_value stack (array (to_elements (acc ++ of_elements vs)))) rest

  pub simple-Reads :
      (s : JsString) (stack : ArrayStack)
      → IsLine o s
      → Reads o stack (simple_string s) (simple_string_bytes s)
  simple-Reads s stack l = rw (simple_string_bytes-eq-header o s) (
      line-Reads b'+' s stack (simple_string s) (omega arith) (omega arith) l
        (unfold parse_header in refl))

  pub error-Reads :
      (s : JsString) (stack : ArrayStack) → IsLine o s → Reads o stack (error s) (raw_error s)
  error-Reads s stack l =
      unfold raw_error in
      line-Reads b'-' s stack (error s) (omega arith) (omega arith) l (unfold parse_header in refl)

  pub integer-Reads :
      (n : ℤ) (stack : ArrayStack)
      → Short o (to_string n)
      → Reads o stack (integer n) (integer_bytes n)
  integer-Reads n stack h =
      unfold integer_bytes in
      line-Reads b':' (to_string n) stack (integer n) (omega arith) (omega arith)
        (IsLine-plain o (to_string n) (to_string-IsPlain n) h)
        (unfold parse_header in rw (parse_integer-to_string, checked_integer))

  bulk_bytes :
      (payload rest : Bytes)
      → bulk_string_bytes (some payload) ++ rest
        ≡ header b'$' (print_nat (length payload)) ++ (payload ++ 13 ∷ 10 ∷ rest)
  unfolding bulk_string_bytes
  bulk_bytes payload rest =
      append_assoc (header b'$' (print_nat (length payload))) (payload ++ crlf) rest
      ∙ ap (λ (l : Bytes). header b'$' (print_nat (length payload)) ++ l)
          (append_assoc payload crlf rest)

  pub bulk-Reads :
      (payload : Bytes) (stack : ArrayStack)
      → Short o (print_nat (length payload))
      → length payload ≤ o.max_bulk_length
      → Reads o stack (bulk_string (some payload)) (bulk_string_bytes (some payload))
  bulk-Reads payload stack h k rest =
      let text : JsString = print_nat (length payload) in
      let waiting : Machine = record {
        stack = stack;
        pending = some (length payload);
        input = payload ++ 13 ∷ 10 ∷ rest;
      } in
      let opened : parse_header o (length stack) (b'$' ∷ text) ≡ ok (await_bulk (length payload)) =
        unfold parse_header in
        rw (parse_integer-print_nat, checked_integer)
          (rw (le→ltb-false o.max_bulk_length (length payload) k)) in
      ap (λ (b : Bytes). spec_run o (machine stack b)) (bulk_bytes payload rest)
      ∙ spec_run-turn o _ waiting [] (
          spec_turn-header o b'$' text stack (payload ++ 13 ∷ 10 ∷ rest) (omega arith) (omega arith)
            (IsLine-plain o text (print_nat-IsPlain (length payload)) h)
          ∙ rw opened (unfold apply_header in refl))
      ∙ emit_first-nil (spec_run o waiting)
      ∙ spec_run-turn o waiting _ _ (spec_turn-payload o payload rest stack)

  array_bytes :
      (v : RespValue) (vs : Elements) (rest : Bytes)
      → serialize (array (cons v vs)) ++ rest
        ≡ header b'*' (print_nat (suc (length (of_elements vs))))
          ++ (serialize_all (cons v vs) ++ rest)
  unfolding serialize count_line of_elements
  array_bytes v vs rest =
      append_assoc (header b'*' (print_nat (suc (length (of_elements vs)))))
        (serialize v ++ serialize_all vs) rest

  pub array_case :
      (vs : Elements) (stack : ArrayStack)
      → Fits o (length stack) (array vs)
      → 5 < o.max_inline_length
      → ReadsItems stack [] vs
      → Reads o stack (array vs) (serialize (array vs))
  array_case nil stack h wide items rest =
      let e : empty_array ≡ header b'*' (codes "0") =
        unfold empty_array in sym (header-ascii o b'*' (codes "0") (omega arith) (omega arith)) in
      unfold serialize in
      rw e (
        line-Reads b'*' (codes "0") stack (array nil) (omega arith) (omega arith)
          (IsLine-plain o (codes "0") (omega arith) (omega arith))
          (unfold parse_header parse_integer in refl) rest)
  array_case (cons v vs) stack h wide items rest =
      let n : ℕ = length (of_elements vs) in
      let text : JsString = print_nat (suc n) in
      let inner : Bytes = serialize_all (cons v vs) ++ rest in
      let frame : ArrayStackFrame = record { count = suc n; items = [] } in
      let opened : parse_header o (length stack) (b'*' ∷ text) ≡ ok (open_array (suc n)) =
        unfold parse_header in
        rw (parse_integer-print_nat, checked_integer)
          (rw (lt→leb-false o.max_array_depth (length stack) h.0)) in
      ap (λ (b : Bytes). spec_run o (machine stack b)) (array_bytes v vs rest)
      ∙ spec_run-turn o _ (machine (frame ∷ stack) inner) [] (
          spec_turn-header o b'*' text stack inner (omega arith) (omega arith)
            (IsLine-plain o text (print_nat-IsPlain (suc n)) (unfold of_elements in h.1))
          ∙ rw opened (unfold apply_header in refl))
      ∙ emit_first-nil (spec_run o (machine (frame ∷ stack) inner))
      ∙ items (suc n) (unfold of_elements in omega arith) (omega arith) (h.2, h.3) rest
      ∙ ap (λ (x : Elements). proceed o (complete_value stack (array x)) rest)
          (to_elements-of_elements (cons v vs))
