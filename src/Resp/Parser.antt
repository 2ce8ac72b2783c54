-- ===== src/Resp/Parser.antt =====
-- src/resp-parser.ts: the streaming parser. A throw carries no parser state: a recovery drops the
-- parser, and Connection.antt takes any parser behind a throw. The `value` event, which nothing in the
-- repository listens to, is not modelled.
pub mod Machine
pub mod Refine
pub mod Ended
pub mod Fragments
pub mod RoundTrip
mod Tests
use radix_kv.Prelude.{
  Bool, List, Option, [], if◌then◌else◌, is_some, is_some_byte, leb, length, ltb, none, not, some,
  suc, zero, ℕ, ◌++◌, ◌+◌, ◌-◌, ◌==◌, ◌||◌, ◌∷◌,
}
use radix_kv.Prelude.Int.{ℤ, pos, negsuc}
use radix_kv.Prelude.Text.{Bytes, JsString, Utf8}
use radix_kv.Types.{
  Code, Exception, ParserOptions, RespValue, array, bulk_string, bulk_too_large, empty_line, error,
  header_too_long, integer, invalid_array_count, invalid_bulk_length, invalid_integer,
  malformed_bulk_terminator, nesting_depth_exceeded, nil, null_array, protocol_error, simple_string,
  to_elements, unknown_prefix,
}
use radix_kv.Result.{Result, err, ok, ◌>>=◌}
use radix_kv.ByteBuffer
use radix_kv.ByteBuffer.{StreamByteBuffer, readable_bytes}
use radix_kv.Resp.Decimal.{parse_integer}

pub record ArrayStackFrame : Type 0 where
  pub count : ℕ
  pub items : List RespValue

-- The open arrays, innermost first.
abbrev pub ArrayStack : Type 0
ArrayStack = List ArrayStackFrame

pub record RespParser : Type 0 where
  pub buffer : StreamByteBuffer
  pub options : ParserOptions
  pub array_stack : ArrayStack
  pub pending_bulk_length : Option ℕ
  pub total_bytes_processed : ℕ
  pub last_completed_offset : ℕ

-- The constructor.
unfoldable pub create : ParserOptions → Result Exception RespParser
create o = ByteBuffer.create o.initial_buffer_size o.max_buffer_size >>= λ b. ok (record {
  buffer = b;
  options = o;
  array_stack = [];
  pending_bulk_length = none;
  total_bytes_processed = 0;
  last_completed_offset = 0;
})

unfoldable pub reset : RespParser → RespParser
reset p = record p {
  buffer = ByteBuffer.clear p.buffer;
  array_stack = [];
  pending_bulk_length = none;
  total_bytes_processed = 0;
  last_completed_offset = 0;
}

unfoldable pub is_incomplete : RespParser → Bool
is_incomplete p =
    ltb 0 (length p.array_stack) || is_some p.pending_bulk_length || ltb 0 (readable_bytes p.buffer)

-- A value goes into the innermost open array; a full array is a value in its turn.
unfoldable pub complete_value : ArrayStack → RespValue → ArrayStack × Option RespValue
complete_value [] val = ([], some val)
complete_value (top ∷ below) val =
    let items = top.items ++ val ∷ [] in
    if length items == top.count
    then complete_value below (array (to_elements items))
    else (record top { items = items } ∷ below, none)

-- What a header line asks for.
pub data Header : Type 0 where
  complete : RespValue → Header
  await_bulk : ℕ → Header
  open_array : ℕ → Header

abbrev pub throw {ℓ} : {A : Type ℓ} → Code → Result Exception A
throw c = err (protocol_error c)

-- `parseInteger`
unfoldable pub checked_integer : JsString → Result Exception ℤ
checked_integer payload = elim (parse_integer payload) [
  | none ↦ throw invalid_integer
  | some n ↦ ok n
]

-- `Number` is taken to be exact: it is, up to 2 ^ 53.
unfoldable pub bulk_header : ParserOptions → ℤ → Result Exception Header
bulk_header o (negsuc zero) = ok (complete (bulk_string none))
bulk_header o (negsuc (suc n)) = throw invalid_bulk_length
bulk_header o (pos n) = if ltb o.max_bulk_length n then throw bulk_too_large else ok (await_bulk n)

unfoldable pub array_header : ParserOptions → ℕ → ℤ → Result Exception Header
array_header o depth (negsuc zero) = ok (complete null_array)
array_header o depth (negsuc (suc n)) = throw invalid_array_count
array_header o depth (pos zero) = ok (complete (array nil))
array_header o depth (pos (suc n)) =
    if leb o.max_array_depth depth then throw nesting_depth_exceeded else ok (open_array (suc n))

-- The `switch` on the prefix of a header line.
unfoldable pub parse_header : ParserOptions → ℕ → JsString → Result Exception Header
unfolding checked_integer bulk_header array_header
parse_header o depth [] = throw empty_line
parse_header o depth (prefix ∷ payload) =
    if prefix == b'+'
    then ok (complete (simple_string payload))
    else if prefix == b'-'
    then ok (complete (error payload))
    else if prefix == b':'
    then (do n ← checked_integer payload; ok (complete (integer n)))
    else if prefix == b'$'
    then (do n ← checked_integer payload; bulk_header o n)
    else if prefix == b'*'
    then (do n ← checked_integer payload; array_header o depth n)
    else throw unknown_prefix

-- The stack, the pending length and the completed value after a header.
unfoldable pub apply_header : ArrayStack → Header → ArrayStack × Option ℕ × Option RespValue
unfolding complete_value
apply_header stack (complete v) = let (s, done) = complete_value stack v in (s, none, done)
apply_header stack (await_bulk n) = (stack, some n, none)
apply_header stack (open_array n) = (record { count = n; items = [] } ∷ stack, none, none)

abbrev pub to_list {ℓ} : {A : Type ℓ} → Option A → List A
to_list none = []
to_list (some a) = a ∷ []

-- `emitCompleted`, where there is a completed value.
unfoldable pub emit_completed : RespParser → Option RespValue → RespParser × List RespValue
emit_completed p none = (p, [])
emit_completed p (some v) =
    (record p { last_completed_offset = p.total_bytes_processed - readable_bytes p.buffer }, v ∷ [])

-- What one turn of the loop of `execute` does: `none` is its `break`.
abbrev pub Turn : Type 0 → Type 0
Turn A = Result Exception (Option (A × List RespValue))

abbrev pub missing_terminator : Option ℕ → Option ℕ → Bool
missing_terminator cr lf = not (is_some_byte cr 13) || not (is_some_byte lf 10)

-- The payload and the CRLF behind it, read off the buffer.
unfoldable pub take_payload : StreamByteBuffer → ℕ → Result Exception (Bytes × StreamByteBuffer)
take_payload b pending = do
  (payload, b') ← ByteBuffer.read_bytes b pending
  b'' ← ByteBuffer.advance b' 2
  ok (payload, b'')

-- The turn that waits for `pending` bytes of payload.
unfoldable pub bulk_turn : RespParser → ℕ → Turn RespParser
bulk_turn p pending =
    if ltb (readable_bytes p.buffer) (pending + 2)
    then ok none
    else if missing_terminator (ByteBuffer.peek_byte_at p.buffer pending)
        (ByteBuffer.peek_byte_at p.buffer (pending + 1))
    then throw malformed_bulk_terminator
    else do
      (payload, b) ← take_payload p.buffer pending
      let (stack, done) = complete_value p.array_stack (bulk_string (some payload))
      ok (
          some (
            emit_completed
              (record p { buffer = b; array_stack = stack; pending_bulk_length = none }) done))

-- The turn that reads a header line, up to the CRLF at `crlf_index`.
unfoldable pub line_turn : ⦃u : Utf8⦄ → RespParser → ℕ → Turn RespParser
line_turn p crlf_index = do
  (line, b) ← ByteBuffer.read_line_at_crlf p.buffer crlf_index
  h ← parse_header p.options (length p.array_stack) line
  let (stack, pending, done) = apply_header p.array_stack h
  ok (
      some (
        emit_completed (record p { buffer = b; array_stack = stack; pending_bulk_length = pending })
          done))

unfoldable pub header_turn : ⦃u : Utf8⦄ → RespParser → Turn RespParser
header_turn p = elim (ByteBuffer.find_crlf p.buffer p.options.max_inline_length) [
  | none ↦
      if ltb p.options.max_inline_length (readable_bytes p.buffer)
      then throw header_too_long
      else ok none
  | some i ↦ line_turn p i
]

unfoldable pub turn : ⦃u : Utf8⦄ → RespParser → Turn RespParser
turn p =
    if readable_bytes p.buffer == 0
    then ok none
    else elim p.pending_bulk_length [ some n ↦ bulk_turn p n | none ↦ header_turn p ]

-- The loop, over the values that it has completed so far. Fuel above the number of unread bytes is
-- enough, since each turn reads at least two.
unfoldable pub loop :
    ⦃u : Utf8⦄ → ℕ → RespParser → List RespValue → Result Exception (List RespValue × RespParser)
loop zero p results = ok (results, p)
loop (suc fuel) p results = elim (turn p) [
  | err e ↦ err e
  | ok none ↦ ok (results, p)
  | ok (some (p', out)) ↦ loop fuel p' (results ++ out)
]

-- The part of `execute` before the loop.
unfoldable pub feed : RespParser → Bytes → Result Exception RespParser
feed p chunk = if length chunk == 0 then ok p else do
  b ← ByteBuffer.append p.buffer chunk
  ok (record p { buffer = b; total_bytes_processed = p.total_bytes_processed + length chunk })

unfoldable pub execute :
    ⦃u : Utf8⦄ → RespParser → Bytes → Result Exception (List RespValue × RespParser)
execute p chunk = do p' ← feed p chunk; loop (readable_bytes p'.buffer + 1) p' []
