-- ===== src/Resp/Parser/Machine.antt =====
-- The specification of src/resp-parser.ts: a machine over the list of the unread bytes.
use radix_kv.Prelude.{
  Bool-cases, List, Option, Option-cases, [], arith, drop, get_elem?, if◌then◌else◌, inl, inr,
  length, length-drop, ltb, none, refl, some, suc, take, zero, ℕ, ◌++◌, ◌+◌, ◌-◌, ◌<◌, ◌==◌, ◌≡◌,
  ◌≤◌,
}
use radix_kv.Prelude.Text.{Bytes, Utf8, decode}
use radix_kv.Types.{
  Exception, ParserOptions, RespValue, bulk_string, header_too_long, malformed_bulk_terminator,
}
use radix_kv.Result.{Result, err, ok}
use radix_kv.ByteBuffer.Search.{crlf_at, crlf_at-bounds}
use radix_kv.Resp.Parser.{
  ArrayStack, Turn, apply_header, complete_value, missing_terminator, parse_header, throw, to_list,
}

pub record Machine : Type 0 where
  pub stack : ArrayStack
  pub pending : Option ℕ
  pub input : Bytes

-- What a chunk adds to the machine.
abbrev pub fed : Machine → Bytes → Machine
fed m chunk = record m { input = m.input ++ chunk }

-- The rest of a line or a payload after the value in front.
abbrev pub after :
    Bytes → ArrayStack × Option ℕ × Option RespValue → Option (Machine × List RespValue)
after rest r = some (record { stack = r.0; pending = r.1; input = rest }, to_list r.2)

abbrev pub settled : ArrayStack × Option RespValue → ArrayStack × Option ℕ × Option RespValue
settled r = (r.0, none, r.1)

unfoldable pub spec_bulk : Machine → ℕ → Turn Machine
spec_bulk m n =
    if ltb (length m.input) (n + 2)
    then ok none
    else if missing_terminator (get_elem? m.input n) (get_elem? m.input (n + 1))
    then throw malformed_bulk_terminator
    else ok (
        after (drop (n + 2) m.input)
          (settled (complete_value m.stack (bulk_string (some (take n m.input))))))

unfoldable pub spec_line : ⦃u : Utf8⦄ → ParserOptions → Machine → ℕ → Turn Machine
spec_line o m i = elim (parse_header o (length m.stack) (decode (take i m.input))) [
  | err e ↦ err e
  | ok h ↦ ok (after (drop (i + 2) m.input) (apply_header m.stack h))
]

unfoldable pub spec_header : ⦃u : Utf8⦄ → ParserOptions → Machine → Turn Machine
spec_header o m = elim (crlf_at (o.max_inline_length - 1) m.input) [
  | none ↦ if ltb o.max_inline_length (length m.input) then throw header_too_long else ok none
  | some i ↦ spec_line o m i
]

unfoldable pub spec_turn : ⦃u : Utf8⦄ → ParserOptions → Machine → Turn Machine
spec_turn o m =
    if length m.input == 0
    then ok none
    else elim m.pending [ some n ↦ spec_bulk m n | none ↦ spec_header o m ]

-- The whole run: what it completes, and where it stops to wait for more.
abbrev pub Run : Type 0
Run = Result Exception (List RespValue × Machine)

-- Values that came before those of a run.
abbrev pub emit_first : List RespValue → Run → Run
emit_first out (err e) = err e
emit_first out (ok (outs, last)) = ok (out ++ outs, last)

pub emit_first-nil : (r : Run) → emit_first [] r ≡ r
emit_first-nil (err e) = refl
emit_first-nil (ok (outs, m)) = refl

-- A run that begins with the given turn.
abbrev pub and_then : Machine → Turn Machine → (Machine → Run) → Run
and_then m (err e) rest = err e
and_then m (ok none) rest = ok ([], m)
and_then m (ok (some (m', out))) rest = emit_first out (rest m')

unfoldable pub spec_loop : ⦃u : Utf8⦄ → ParserOptions → ℕ → Machine → Run
spec_loop o zero m = ok ([], m)
spec_loop o (suc fuel) m = and_then m (spec_turn o m) (λ m'. spec_loop o fuel m')

unfoldable pub spec_run : ⦃u : Utf8⦄ → ParserOptions → Machine → Run
spec_run o m = spec_loop o (length m.input + 1) m

-- A turn that goes on has read at least two bytes.
abbrev pub Shorter : Machine → Turn Machine → Type 0
Shorter m (ok (some (m', out))) = length m'.input + 2 ≤ length m.input
Shorter m r = Unit

spec_bulk-Shorter : (m : Machine) (n : ℕ) → Shorter m (spec_bulk m n)
unfolding spec_bulk
spec_bulk-Shorter m n = ground (arith, length-drop (n + 2) m.input)

-- A run leaves no more unread than it found.
abbrev pub NotLonger : Machine → Run → Type 0
NotLonger m (err e) = Unit
NotLonger m (ok (outs, m')) = length m'.input ≤ length m.input

module _ ⦃u : Utf8⦄ (o : ParserOptions) where
  spec_line-Shorter : (m : Machine) (i : ℕ) → i + 1 < length m.input → Shorter m (spec_line o m i)
  unfolding spec_line
  spec_line-Shorter m i h = ground (arith, length-drop (i + 2) m.input)

  spec_header-Shorter : (m : Machine) → Shorter m (spec_header o m)
  unfolding spec_header
  spec_header-Shorter m = elim (Option-cases (crlf_at (o.max_inline_length - 1) m.input)) [
    | inl gone ↦ rw (gone, spec_header) (ground arith)
    | inr (i, found) ↦
        rw (found, spec_header) (spec_line-Shorter m i (crlf_at-bounds _ m.input found).1)
  ]

  by_pending-Shorter :
      (m : Machine) (pending : Option ℕ)
      → Shorter m (elim pending [ some n ↦ spec_bulk m n | none ↦ spec_header o m ])
  by_pending-Shorter m none = spec_header-Shorter m
  by_pending-Shorter m (some n) = spec_bulk-Shorter m n

  pub spec_turn-Shorter : (m : Machine) → Shorter m (spec_turn o m)
  unfolding spec_turn
  spec_turn-Shorter m = elim (Bool-cases (length m.input == 0)) [
    | inl done ↦ rw done tt
    | inr more ↦ rw more (by_pending-Shorter m m.pending)
  ]

  -- Fuel above the number of unread bytes never runs out: more of it changes nothing.
  pub spec_loop-fuel :
      (f g : ℕ) (m : Machine)
      → length m.input < f
      → length m.input < g
      → spec_loop o f m ≡ spec_loop o g m
  unfolding spec_loop
  spec_loop-fuel zero g m h k = absurd (omega arith)
  spec_loop-fuel (suc f) zero m h k = absurd (omega arith)
  spec_loop-fuel (suc f) (suc g) m h k =
      go (spec_turn o m) (spec_turn-Shorter m)
        (λ m' s. spec_loop-fuel f g m' (omega arith) (omega arith))
    where
      go :
          (r : Turn Machine)
          → Shorter m r
          → ((m' : Machine)
              → length m'.input + 2 ≤ length m.input
              → spec_loop o f m' ≡ spec_loop o g m')
          → and_then m r (spec_loop o f) ≡ and_then m r (spec_loop o g)
      go (err e) s ih = refl
      go (ok none) s ih = refl
      go (ok (some (m', out))) s ih = rw (ih m' s)

  pub spec_loop-NotLonger : (f : ℕ) (m : Machine) → NotLonger m (spec_loop o f m)
  unfolding spec_loop
  spec_loop-NotLonger zero m = omega arith
  spec_loop-NotLonger (suc f) m =
      by_turn (spec_turn o m) (spec_turn-Shorter m) (λ m'. spec_loop-NotLonger f m')
    where
      emitted :
          (m' : Machine) (out : List RespValue) (r : Run)
          → length m'.input + 2 ≤ length m.input
          → NotLonger m' r
          → NotLonger m (emit_first out r)
      emitted m' out (err e) h k = tt
      emitted m' out (ok (outs, last)) h k = omega arith

      by_turn :
          (t : Turn Machine)
          → Shorter m t
          → ((m' : Machine) → NotLonger m' (spec_loop o f m'))
          → NotLonger m (and_then m t (spec_loop o f))
      by_turn (err e) s ih = tt
      by_turn (ok none) s ih = omega arith
      by_turn (ok (some (m', out))) s ih = emitted m' out _ s (ih m')

  pub spec_run-NotLonger : (m : Machine) → NotLonger m (spec_run o m)
  unfolding spec_run
  spec_run-NotLonger m = spec_loop-NotLonger (length m.input + 1) m
