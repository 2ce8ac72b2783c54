-- ===== src/Resp/Parser/RoundTrip/Lines.antt =====
-- One header line: how src/resp-parser.ts reads what src/resp-serializer.ts writes.
use radix_kv.Prelude.{
  All, All-imp, Bool-cases, List, [], ap, append_assoc, arith, drop, drop-drop, drop-length_append,
  eq_of_list_eq, get_elem?, get_elem?-append_right, inl, inr, length, length-append, le→ltb-false,
  list_eq, ne→==_false, none, refl, some, subst, suc, sym, take-length_append, ℕ, ◌++◌, ◌+◌, ◌-◌,
  ◌<◌, ◌∙◌, ◌∷◌, ◌≡◌, ◌≢◌, ◌≤◌,
}
use radix_kv.Prelude.Text.{
  Bytes, IsAscii, JsString, Utf8, codes, decode, decode-ascii, encode, encode-ascii,
}
use radix_kv.Types.{Exception, ParserOptions, RespValue, bulk_string}
use radix_kv.Result.{Result, err, ok}
use radix_kv.ByteBuffer.Search.{crlf_at, crlf_at-line}
use radix_kv.Resp.Decimal.{IsPlain}
use radix_kv.Resp.Serializer.{crlf, header, simple_string_bytes, static_ok, static_pong}
use radix_kv.Resp.Parser.{
  ArrayStack, Header, Turn, apply_header, complete_value, parse_header, to_list,
}
use radix_kv.Resp.Parser.Machine.{
  Machine, Shorter, after, emit_first, spec_bulk, spec_header, spec_line, spec_loop, spec_loop-fuel,
  spec_run, spec_turn, spec_turn-Shorter,
}

abbrev pub Short : ParserOptions → Bytes → Type 0
Short o s = length s + 2 < o.max_inline_length

-- A text that survives the trip: well-formed UTF-16, no CR, and within the limit of a line.
pub record IsLine ⦃u : Utf8⦄ (o : ParserOptions) (s : JsString) : Type 0 where
  pub decoded : decode (encode s) ≡ s
  pub no_cr : All (λ c. c ≢ 13) (encode s)
  pub short : Short o (encode s)

module _ ⦃u : Utf8⦄ (o : ParserOptions) where
  pub IsLine-plain : (s : JsString) → All IsPlain s → Short o s → IsLine o s
  IsLine-plain s h k =
      let ascii : All IsAscii s = All-imp IsPlain IsAscii s (λ c p. p.1) h in
      let e : encode s ≡ s = encode-ascii s ascii in
      record {
        decoded = rw e (decode-ascii s ascii);
        no_cr = rw e (All-imp IsPlain (λ c. c ≢ 13) s (λ c p. p.0) h);
        short = rw e k;
      }

  header-eq :
      (prefix : ℕ) (s : JsString) → IsAscii prefix → header prefix s ≡ prefix ∷ (encode s ++ crlf)
  unfolding header
  header-eq prefix s h =
      u.encode-cons prefix (s ++ crlf) h
      ∙ ap (λ (l : Bytes). prefix ∷ l) (u.encode-append_ascii s crlf (omega arith))

  -- The turn on a header line acts on the line's text.
  abbrev pub header_result : Result Exception Header → ArrayStack → Bytes → Turn Machine
  header_result (err e) stack rest = err e
  header_result (ok h) stack rest = ok (after rest (apply_header stack h))

  spec_line-end :
      (stack : ArrayStack) (line rest : Bytes)
      → spec_line o
          (record { stack = stack; pending = none; input = line ++ 13 ∷ 10 ∷ rest })
          (length line)
        ≡ header_result (parse_header o (length stack) (decode line)) stack rest
  unfolding spec_line
  spec_line-end stack line rest =
      rw (take-length_append line (13 ∷ 10 ∷ rest), spec_line)
        (go (parse_header o (length stack) (decode line)) _ behind)
    where
      behind : drop (length line + 2) (line ++ 13 ∷ 10 ∷ rest) ≡ rest
      behind =
          sym (drop-drop 2 (length line) (line ++ 13 ∷ 10 ∷ rest))
          ∙ ap (drop 2) (drop-length_append line (13 ∷ 10 ∷ rest))

      go :
          (r : Result Exception Header) (b : Bytes)
          → b ≡ rest
          → ◌≡◌ {A = Turn Machine}
              (elim r [ err e ↦ err e | ok h ↦ ok (after b (apply_header stack h)) ])
              (header_result r stack rest)
      go (err e) b p = refl
      go (ok h) b p = rw p

  at_line :
      (stack : ArrayStack) (line rest : Bytes)
      → crlf_at (o.max_inline_length - 1) (line ++ 13 ∷ 10 ∷ rest) ≡ some (length line)
      → line ≢ []
      → spec_turn o (record { stack = stack; pending = none; input = line ++ 13 ∷ 10 ∷ rest })
        ≡ header_result (parse_header o (length stack) (decode line)) stack rest
  unfolding spec_turn spec_header
  at_line stack [] rest found ne = absurd (ne refl)
  at_line stack (x ∷ line) rest found ne =
      rw (ne→==_false (suc (length (line ++ 13 ∷ 10 ∷ rest))) 0 (omega arith), found, spec_header)
        (spec_line-end stack (x ∷ line) rest)

  pub spec_turn-header :
      (prefix : ℕ) (s : JsString) (stack : ArrayStack) (rest : Bytes)
      → IsAscii prefix
      → prefix ≢ 13
      → IsLine o s
      → spec_turn o (record { stack = stack; pending = none; input = header prefix s ++ rest })
        ≡ header_result (parse_header o (length stack) (prefix ∷ s)) stack rest
  spec_turn-header prefix s stack rest a ne l =
      let line : Bytes = prefix ∷ encode s in
      let e : header prefix s ++ rest ≡ line ++ 13 ∷ 10 ∷ rest =
        ap (λ (b : Bytes). b ++ rest) (header-eq prefix s a) ∙ append_assoc line crlf rest in
      let found : crlf_at (o.max_inline_length - 1) (line ++ 13 ∷ 10 ∷ rest) ≡ some (length line) =
        crlf_at-line (o.max_inline_length - 1) line rest (ne, l.no_cr) (omega (arith, l.short)) in
      let text : decode line ≡ prefix ∷ s =
        u.decode-cons prefix (encode s) a ∙ ap (λ (t : JsString). prefix ∷ t) l.decoded in
      ap (λ (b : Bytes). spec_turn o (record { stack = stack; pending = none; input = b })) e
      ∙ at_line stack line rest found (λ h. absurd (omega (arith, ap length h)))
      ∙ ap (λ (t : JsString). header_result (parse_header o (length stack) t) stack rest) text

  -- A run begins with its first turn.
  pub spec_run-turn :
      (m m' : Machine) (out : List RespValue)
      → spec_turn o m ≡ ok (some (m', out))
      → spec_run o m ≡ emit_first out (spec_run o m')
  spec_run-turn m m' out h =
      first
      ∙ ap (emit_first out)
          (spec_loop-fuel o (length m.input) (length m'.input + 1) m' shorter (omega arith) ∙ last)
    where
      s : length m'.input + 2 ≤ length m.input
      s = subst (Shorter m) h (spec_turn-Shorter o m)

      shorter : length m'.input < length m.input
      shorter = omega (arith, s)

      first : spec_run o m ≡ emit_first out (spec_loop o (length m.input) m')
      first =
          unfold spec_run in
          spec_loop-fuel o (length m.input + 1) (suc (length m.input)) m (omega arith) (omega arith)
          ∙ unfold spec_loop in rw h

      last : spec_loop o (length m'.input + 1) m' ≡ spec_run o m'
      last = unfold spec_run in refl

  pub header-ascii :
      (prefix : ℕ) (s : JsString)
      → IsAscii prefix
      → All IsAscii s
      → header prefix s ≡ prefix ∷ (s ++ crlf)
  header-ascii prefix s h k =
      header-eq prefix s h ∙ ap (λ (l : Bytes). prefix ∷ (l ++ crlf)) (encode-ascii s k)

  -- The static buffers are what the general case would have made.
  pub simple_string_bytes-eq-header : (s : JsString) → simple_string_bytes s ≡ header b'+' s
  simple_string_bytes-eq-header s = elim (Bool-cases (list_eq s (codes "OK"))) [
    | inl e ↦ rw (eq_of_list_eq s (codes "OK") e) (
        unfold simple_string_bytes list_eq static_ok static_pong in
        sym (header-ascii b'+' (codes "OK") (omega arith) (omega arith)))
    | inr ok' ↦ elim (Bool-cases (list_eq s (codes "PONG"))) [
      | inl e ↦ rw (eq_of_list_eq s (codes "PONG") e) (
          unfold simple_string_bytes list_eq static_ok static_pong in
          sym (header-ascii b'+' (codes "PONG") (omega arith) (omega arith)))
      | inr pong ↦ unfold simple_string_bytes in rw (ok', pong)
    ]
  ]

  -- The payload of a bulk string, once its length is known.
  pub spec_turn-payload :
      (payload rest : Bytes) (stack : ArrayStack)
      → let (s, done) = complete_value stack (bulk_string (some payload)) in
        spec_turn o (record {
          stack = stack;
          pending = some (length payload);
          input = payload ++ 13 ∷ 10 ∷ rest;
        })
        ≡ ok (some (record { stack = s; pending = none; input = rest }, to_list done))
  spec_turn-payload payload rest stack =
      let size : length (payload ++ 13 ∷ 10 ∷ rest) ≡ length payload + suc (suc (length rest)) =
        length-append payload (13 ∷ 10 ∷ rest) in
      let cr : get_elem? (payload ++ 13 ∷ 10 ∷ rest) (length payload) ≡ some 13 =
        ap (get_elem? (payload ++ 13 ∷ 10 ∷ rest)) {x = length payload} {y = length payload + 0}
          (omega arith)
        ∙ get_elem?-append_right payload (13 ∷ 10 ∷ rest) 0 in
      let lf : get_elem? (payload ++ 13 ∷ 10 ∷ rest) (length payload + 1) ≡ some 10 =
        get_elem?-append_right payload (13 ∷ 10 ∷ rest) 1 in
      let behind : drop (length payload + 2) (payload ++ 13 ∷ 10 ∷ rest) ≡ rest =
        sym (drop-drop 2 (length payload) (payload ++ 13 ∷ 10 ∷ rest))
        ∙ ap (drop 2) (drop-length_append payload (13 ∷ 10 ∷ rest)) in
      unfold spec_turn spec_bulk in
      rw (
        ne→==_false (length (payload ++ 13 ∷ 10 ∷ rest)) 0 (omega arith),
        le→ltb-false (length (payload ++ 13 ∷ 10 ∷ rest)) (length payload + 2) (omega arith),
        cr,
        lf,
        behind,
        take-length_append payload (13 ∷ 10 ∷ rest),
      )
