-- ===== src/Aof/Entries.antt =====
-- src/aof-logger.ts: an entry of the log is the serialized form of its command.
use radix_kv.Prelude.{
  All, All-append, All-imp, List, [], ap, append-nil, append_assoc, arith, length, map, refl, some,
  suc, sym, ℕ, ◌++◌, ◌+◌, ◌∙◌, ◌∷◌, ◌≡◌,
}
use radix_kv.Prelude.Text.{Bytes, IsAscii, JsString, Utf8, codes, encode, encode-ascii}
use radix_kv.Types.{Elements, RespValue, array, bulk_string, cons, nil, of_elements}
use radix_kv.Resp.Decimal.{IsPlain, print_nat, print_nat-IsPlain}
use radix_kv.Resp.Serializer.{bulk_string_bytes, count_line, crlf, header, serialize, serialize_all}
use radix_kv.Aof.Logger.{
  del_entry, del_key_parts, del_parts, incr_entry, length_line, set_entry, set_ex_entry,
}

-- A command as a client sends it: an array of bulk strings.
unfoldable pub bulk_strings : List Bytes → Elements
bulk_strings [] = nil
bulk_strings (b ∷ bs) = cons (bulk_string (some b)) (bulk_strings bs)

abbrev pub command_value : List Bytes → RespValue
command_value args = array (bulk_strings args)

print_nat-IsAscii : (n : ℕ) → All IsAscii (print_nat n)
print_nat-IsAscii n = All-imp IsPlain IsAscii (print_nat n) (λ c h. h.1) (print_nat-IsPlain n)

-- The line of a length.
abbrev dollar : ℕ → Bytes
dollar n = b'$' ∷ (print_nat n ++ crlf)

dollar-IsAscii : (n : ℕ) → All IsAscii (dollar n)
dollar-IsAscii n =
    (omega arith, All-append IsAscii (print_nat n) crlf (print_nat-IsAscii n) (omega arith))

regroup_two :
    (x k c y v : Bytes)
    → x ++ (k ++ ((c ++ y) ++ (v ++ c))) ≡ (x ++ (k ++ c)) ++ ((y ++ (v ++ c)) ++ [])
regroup_two x k c y v = simp (append_assoc, append-nil)

regroup_three :
    (x k c y v m z s : Bytes)
    → x ++ (k ++ ((c ++ y) ++ (v ++ ((c ++ (m ++ z)) ++ (s ++ c)))))
      ≡ (x ++ (k ++ c)) ++ ((y ++ (v ++ c)) ++ (m ++ ((z ++ (s ++ c)) ++ [])))
regroup_three x k c y v m z s = simp (append_assoc, append-nil)

regroup_del : (p c t r : Bytes) → (p ++ (c ++ t)) ++ r ≡ (p ++ c) ++ (t ++ r)
regroup_del p c t r = simp append_assoc

-- The name of the command, as a bulk string.
abbrev del_name : Bytes
del_name = codes "$3" ++ crlf ++ codes "DEL" ++ crlf

print_two : print_nat 2 ≡ codes "2"
unfolding print_nat
print_two = refl

print_three : print_nat 3 ≡ codes "3"
unfolding print_nat
print_three = refl

print_four : print_nat 4 ≡ codes "4"
unfolding print_nat
print_four = refl

print_five : print_nat 5 ≡ codes "5"
unfolding print_nat
print_five = refl

module _ ⦃u : Utf8⦄ where
  bulk_bytes : (b : Bytes) → bulk_string_bytes (some b) ≡ dollar (length b) ++ (b ++ crlf)
  unfolding bulk_string_bytes header
  bulk_bytes b = rw (encode-ascii (dollar (length b)) (dollar-IsAscii (length b))) refl

  -- An ASCII text in front of a length's line.
  encode-dollar : (s : JsString) (n : ℕ) → All IsAscii s → encode (s ++ dollar n) ≡ s ++ dollar n
  encode-dollar s n h =
      encode-ascii (s ++ dollar n) (All-append IsAscii s (dollar n) h (dollar-IsAscii n))

  encode-crlf : encode crlf ≡ crlf
  encode-crlf = encode-ascii crlf (omega arith)

  count_line-lem :
      (vs : Elements) → count_line vs ≡ b'*' ∷ (print_nat (length (of_elements vs)) ++ crlf)
  unfolding count_line header
  count_line-lem vs = encode-ascii (b'*' ∷ (print_nat (length (of_elements vs)) ++ crlf)) (
    omega arith,
    All-append IsAscii (print_nat (length (of_elements vs))) crlf
        (print_nat-IsAscii (length (of_elements vs))) (omega arith),
  )

  del_parts-lem :
      (keys : List JsString) → del_parts keys ≡ serialize_all (bulk_strings (map encode keys))
  unfolding del_parts bulk_strings serialize del_key_parts length_line
  del_parts-lem [] = refl
  del_parts-lem (key ∷ keys) =
      rw
        (
          encode-ascii (dollar (length (encode key))) (dollar-IsAscii (length (encode key))),
          encode-crlf,
          bulk_bytes (encode key),
          del_parts-lem keys,
        )
        refl

  length-bulk_strings :
      (keys : List JsString) → length (of_elements (bulk_strings (map encode keys))) ≡ length keys
  unfolding of_elements bulk_strings
  length-bulk_strings [] = refl
  length-bulk_strings (key ∷ keys) = ap suc (length-bulk_strings keys)

  -- An entry without an expiry is the serialized form of the command `SET key value`.
  pub set_entry-serialize :
      (key value : Bytes)
      → set_entry key value ≡ serialize (command_value (codes "SET" ∷ (key ∷ (value ∷ []))))
  unfolding set_entry serialize bulk_strings of_elements
  set_entry-serialize key value =
      rw
        (
          encode-dollar (codes "*3" ++ crlf ++ codes "$3" ++ crlf ++ codes "SET" ++ crlf)
              (length key) (omega arith),
          encode-dollar crlf (length value) (omega arith),
          encode-crlf,
          count_line-lem,
          bulk_bytes (codes "SET"),
          bulk_bytes key,
          bulk_bytes value,
          print_three,
        )
        (ap (λ (t : Bytes). codes "*3" ++ crlf ++ codes "$3" ++ crlf ++ codes "SET" ++ crlf ++ t)
          (regroup_two (dollar (length key)) key crlf (dollar (length value)) value))

  -- An entry with an expiry is the serialized form of the command `SET key value EX seconds`.
  pub set_ex_entry-serialize :
      (key value seconds : Bytes)
      → set_ex_entry key value seconds
        ≡ serialize (command_value (codes "SET" ∷ (key ∷ (value ∷ (codes "EX" ∷ (seconds ∷ []))))))
  unfolding set_ex_entry serialize bulk_strings of_elements
  set_ex_entry-serialize key value seconds =
      rw
        (
          encode-dollar (codes "*5" ++ crlf ++ codes "$3" ++ crlf ++ codes "SET" ++ crlf)
              (length key) (omega arith),
          encode-dollar crlf (length value) (omega arith),
          encode-dollar (crlf ++ codes "$2" ++ crlf ++ codes "EX" ++ crlf) (length seconds)
              (omega arith),
          encode-crlf,
          count_line-lem,
          bulk_bytes (codes "SET"),
          bulk_bytes key,
          bulk_bytes value,
          bulk_bytes (codes "EX"),
          bulk_bytes seconds,
          print_three,
          print_five,
          print_two,
        )
        (ap (λ (t : Bytes). codes "*5" ++ crlf ++ codes "$3" ++ crlf ++ codes "SET" ++ crlf ++ t)
          (regroup_three (dollar (length key)) key crlf (dollar (length value)) value
            (codes "$2" ++ crlf ++ codes "EX" ++ crlf) (dollar (length seconds)) seconds))

  -- An entry of `INCR` is the serialized form of the command with its key.
  pub incr_entry-serialize :
      (key : Bytes) → incr_entry key ≡ serialize (command_value (codes "INCR" ∷ (key ∷ [])))
  unfolding incr_entry serialize bulk_strings of_elements
  incr_entry-serialize key =
      rw
        (
          encode-dollar (codes "*2" ++ crlf ++ codes "$4" ++ crlf ++ codes "INCR" ++ crlf)
              (length key) (omega arith),
          encode-crlf,
          count_line-lem,
          bulk_bytes (codes "INCR"),
          bulk_bytes key,
          print_two,
          print_four,
        )
        (ap (λ (t : Bytes). codes "*2" ++ crlf ++ codes "$4" ++ crlf ++ codes "INCR" ++ crlf ++ t)
          (sym (append-nil (dollar (length key) ++ (key ++ crlf)))))

  -- An entry of `DEL` is the serialized form of the command with its keys.
  pub del_entry-serialize :
      (keys : List JsString)
      → del_entry keys ≡ serialize (command_value (codes "DEL" ∷ map encode keys))
  unfolding del_entry serialize bulk_strings of_elements
  del_entry-serialize keys =
      rw
        (
          encode-ascii
              (b'*'
                ∷ (print_nat (length keys + 1)
                    ++ (crlf ++ (codes "$3" ++ (crlf ++ (codes "DEL" ++ crlf))))))
              (
                omega arith,
                All-append IsAscii (print_nat (length keys + 1)) _
                    (print_nat-IsAscii (length keys + 1)) (omega arith),
              ),
          count_line-lem,
          bulk_bytes (codes "DEL"),
          del_parts-lem keys,
          length-bulk_strings keys,
          print_three,
        )
        (ap
            (λ n.
              b'*'
              ∷ ((print_nat n ++ (crlf ++ del_name))
                  ++ serialize_all (bulk_strings (map encode keys))))
            {x = length keys + 1} {y = suc (length keys)} (omega arith)
          ∙ ap (λ (t : Bytes). b'*' ∷ t)
              (regroup_del (print_nat (suc (length keys))) crlf del_name
                (serialize_all (bulk_strings (map encode keys)))))
