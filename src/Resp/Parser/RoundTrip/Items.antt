-- ===== src/Resp/Parser/RoundTrip/Items.antt =====
-- Any value is read back by src/resp-parser.ts, an array by its elements in a row.
use radix_kv.Prelude.{
  ==_iff, List, [], ap, append_assoc, arith, length, length-append, ne→==_false, none, refl, some,
  sym, ℕ, ◌++◌, ◌+◌, ◌<◌, ◌∙◌, ◌∷◌, ◌≡◌,
}
use radix_kv.Prelude.Text.{Bytes, Utf8, codes}
use radix_kv.Types.{
  Elements, ParserOptions, RespValue, array, bulk_string, cons, error, integer, nil, null_array,
  of_elements, simple_string, to_elements,
}
use radix_kv.Resp.Decimal.{parse_integer}
use radix_kv.Resp.Serializer.{
  bulk_string_bytes, header, null_array_bytes, null_bulk_string, serialize, serialize_all,
}
use radix_kv.Resp.Parser.{ArrayStack, complete_value, parse_header}
use radix_kv.Resp.Parser.Machine.{emit_first-nil, spec_run}
use radix_kv.Resp.Parser.RoundTrip.Lines.{IsLine-plain, header-ascii}
use radix_kv.Resp.Parser.RoundTrip.Scalars.{
  Fits, Reads, ReadsItems, array_case, bulk-Reads, error-Reads, integer-Reads, line-Reads, machine,
  proceed, simple-Reads,
}

-- One more element in the innermost open array: the array goes on, or is complete.
module _ (stack : ArrayStack) (acc : List RespValue) (v : RespValue) (n : ℕ) where
  complete_value-more :
      length acc + 1 < n
      → complete_value (record { count = n; items = acc } ∷ stack) v
        ≡ (record { count = n; items = acc ++ v ∷ [] } ∷ stack, none)
  unfolding complete_value
  complete_value-more h =
      rw (ne→==_false (length (acc ++ v ∷ [])) n (omega (arith, length-append acc (v ∷ []))))

  complete_value-last :
      length acc + 1 ≡ n
      → complete_value (record { count = n; items = acc } ∷ stack) v
        ≡ complete_value stack (array (to_elements (acc ++ v ∷ [])))
  unfolding complete_value
  complete_value-last h =
      rw ((==_iff (length (acc ++ v ∷ [])) n).1 (omega (arith, length-append acc (v ∷ []))))

module _ ⦃u : Utf8⦄ (o : ParserOptions) (wide : 5 < o.max_inline_length) where
  null_bulk-Reads : (stack : ArrayStack) → Reads o stack (bulk_string none) null_bulk_string
  null_bulk-Reads stack =
      let e : null_bulk_string ≡ header b'$' (codes "-1") =
        unfold null_bulk_string in
        sym (header-ascii o b'$' (codes "-1") (omega arith) (omega arith)) in
      rw e (
        line-Reads o b'$' (codes "-1") stack (bulk_string none) (omega arith) (omega arith)
          (IsLine-plain o (codes "-1") (omega arith) (omega arith))
          (unfold parse_header parse_integer in refl))

  null_array-Reads : (stack : ArrayStack) → Reads o stack null_array null_array_bytes
  null_array-Reads stack =
      let e : null_array_bytes ≡ header b'*' (codes "-1") =
        unfold null_array_bytes in
        sym (header-ascii o b'*' (codes "-1") (omega arith) (omega arith)) in
      rw e (
        line-Reads o b'*' (codes "-1") stack null_array (omega arith) (omega arith)
          (IsLine-plain o (codes "-1") (omega arith) (omega arith))
          (unfold parse_header parse_integer in refl))

  module _ (v : RespValue) (stack : ArrayStack) (acc : List RespValue) (n : ℕ) (rest : Bytes) where
    abbrev open_frame : List RespValue → ArrayStack
    open_frame items = record { count = n; items = items } ∷ stack

    last_item :
        length acc + 1 ≡ n
        → Reads o (open_frame acc) v (serialize v)
        → spec_run o (machine (open_frame acc) ((serialize v ++ []) ++ rest))
          ≡ proceed o (complete_value stack (array (to_elements (acc ++ v ∷ [])))) rest
    last_item h reads =
        ap (λ (b : Bytes). spec_run o (machine (open_frame acc) b))
          (append_assoc (serialize v) [] rest)
        ∙ reads rest
        ∙ ap (λ r. proceed o r rest) (complete_value-last stack acc v n h)

    next_item :
        (ws : List RespValue) (b : Bytes)
        → length acc + 1 < n
        → Reads o (open_frame acc) v (serialize v)
        → spec_run o (machine (open_frame (acc ++ v ∷ [])) (b ++ rest))
          ≡ proceed o (complete_value stack (array (to_elements ((acc ++ v ∷ []) ++ ws)))) rest
        → spec_run o (machine (open_frame acc) ((serialize v ++ b) ++ rest))
          ≡ proceed o (complete_value stack (array (to_elements (acc ++ v ∷ ws)))) rest
    next_item ws b h reads ih =
        ap (λ (x : Bytes). spec_run o (machine (open_frame acc) x))
          (append_assoc (serialize v) b rest)
        ∙ reads (b ++ rest)
        ∙ ap (λ r. proceed o r (b ++ rest)) (complete_value-more stack acc v n h)
        ∙ emit_first-nil (spec_run o (machine (open_frame (acc ++ v ∷ [])) (b ++ rest)))
        ∙ ih
        ∙ ap (λ (l : List RespValue). proceed o (complete_value stack (array (to_elements l))) rest)
            (append_assoc acc (v ∷ []) ws)

  mutual
    unfolding serialize bulk_string_bytes of_elements

    pub value-Reads :
        (v : RespValue) (stack : ArrayStack)
        → Fits o (length stack) v
        → Reads o stack v (serialize v)
    value-Reads (simple_string s) stack h = simple-Reads o s stack h
    value-Reads (error s) stack h = error-Reads o s stack h
    value-Reads (integer n) stack h = integer-Reads o n stack h
    value-Reads (bulk_string none) stack h = null_bulk-Reads stack
    value-Reads (bulk_string (some payload)) stack h = bulk-Reads o payload stack h.0 h.1
    value-Reads null_array stack h = null_array-Reads stack
    value-Reads (array vs) stack h = array_case o vs stack h wide (items-Reads vs stack [])

    items-Reads :
        (vs : Elements) (stack : ArrayStack) (acc : List RespValue) → ReadsItems o stack acc vs
    items-Reads nil stack acc n e lt h rest = absurd (omega arith)
    items-Reads (cons v nil) stack acc n e lt h rest =
        last_item v stack acc n rest (omega arith)
          (value-Reads v (record { count = n; items = acc } ∷ stack) h.0)
    items-Reads (cons v (cons w ws)) stack acc n e lt h rest =
        next_item v stack acc n rest (of_elements (cons w ws)) (serialize_all (cons w ws))
          (omega arith) (value-Reads v (record { count = n; items = acc } ∷ stack) h.0)
          (items-Reads (cons w ws) stack (acc ++ v ∷ []) n
            (omega (arith, length-append acc (v ∷ []))) (omega (arith, length-append acc (v ∷ [])))
            h.1 rest)
