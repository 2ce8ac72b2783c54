-- ===== src/ByteBuffer.antt =====
-- src/byte-buffer.ts: the resizable byte buffer between two offsets.
-- A method that throws does so before it changes a field, so a thrown error carries no state.
-- A result of -1 is `none`.
pub mod Window
pub mod Append
pub mod Reading
pub mod Search
mod Tests
use radix_kv.Prelude.{
  ℕ, zero, suc, ◌+◌, ◌-◌, ◌*◌, ◌≡◌, Bool, true, false, ◌&&◌, ◌||◌, Option, none, some, max, min,
  length, get_elem?, take, drop, replicate, slice, write_at, ltb, leb, ◌==◌, if◌then◌else◌,
}
use radix_kv.Prelude.Text.{Bytes, JsString, Utf8, decode}
use radix_kv.Types.{Exception, protocol_error, invalid_capacity, crlf_out_of_bounds}
use radix_kv.Types.{cannot_read, cannot_advance, buffer_overflow}
use radix_kv.Result.{Result, ok, err}

pub record StreamByteBuffer : Type 0 where
  pub buffer : Bytes
  pub read_offset : ℕ
  pub write_offset : ℕ
  pub max_capacity : ℕ

-- `Buffer.allocUnsafe(n)`. What the fresh bytes hold is left open by Node; they are zeros here, and
-- no method reads a byte that was not written.
abbrev pub alloc : ℕ → Bytes
alloc n = replicate n 0

-- The constructor.
unfoldable pub create : ℕ → ℕ → Result Exception StreamByteBuffer
create initial_capacity max_capacity =
    if initial_capacity == 0 || ltb max_capacity initial_capacity
    then err invalid_capacity
    else ok (record {
      buffer = alloc initial_capacity;
      read_offset = 0;
      write_offset = 0;
      max_capacity = max_capacity;
    })

abbrev pub readable_bytes : StreamByteBuffer → ℕ
readable_bytes b = b.write_offset - b.read_offset

unfoldable pub capacity : StreamByteBuffer → ℕ
capacity b = length b.buffer

unfoldable pub compact : StreamByteBuffer → StreamByteBuffer
compact b =
    if readable_bytes b == 0
    then record b { read_offset = 0; write_offset = 0 }
    else if ltb 0 b.read_offset
    then record b {
      buffer = write_at b.buffer 0 (slice b.buffer b.read_offset b.write_offset);
      read_offset = 0;
      write_offset = readable_bytes b;
    }
    else b

-- The capacity that `append` grows to.
unfoldable pub grown_capacity : StreamByteBuffer → ℕ → ℕ
grown_capacity b total_needed =
    let new_capacity = max (length b.buffer * 2) total_needed in
    if ltb b.max_capacity new_capacity then b.max_capacity else new_capacity

-- The larger buffer, with the unread bytes at its start.
unfoldable pub grow : StreamByteBuffer → ℕ → StreamByteBuffer
unfolding grown_capacity
grow b total_needed =
    let fresh = alloc (grown_capacity b total_needed) in
    record b {
      buffer =
          if ltb 0 (readable_bytes b)
          then write_at fresh 0 (slice b.buffer b.read_offset b.write_offset)
          else fresh;
      read_offset = 0;
      write_offset = readable_bytes b;
    }

-- The part of `append` that makes room for `needed_space` bytes at the tail.
unfoldable pub make_room : StreamByteBuffer → ℕ → Result Exception StreamByteBuffer
make_room b needed_space =
    let total_needed = readable_bytes b + needed_space in
    if ltb (length b.buffer - b.write_offset) needed_space
    then if ltb b.max_capacity total_needed
      then err (protocol_error buffer_overflow)
      else if leb total_needed (length b.buffer) && ltb 0 b.read_offset
      then ok (compact b)
      else ok (grow b total_needed)
    else ok b

-- The end of `append`: the copy to the tail.
unfoldable pub put_chunk : Bytes → StreamByteBuffer → StreamByteBuffer
put_chunk chunk b = record b {
  buffer = write_at b.buffer b.write_offset chunk;
  write_offset = b.write_offset + length chunk;
}

unfoldable pub append : StreamByteBuffer → Bytes → Result Exception StreamByteBuffer
append b chunk =
    if length chunk == 0
    then ok b
    else elim (make_room b (length chunk)) [ ok b' ↦ ok (put_chunk chunk b') | err e ↦ err e ]

-- `checkAutoReset`
unfoldable pub check_auto_reset : StreamByteBuffer → StreamByteBuffer
check_auto_reset b =
    if b.read_offset == b.write_offset then record b { read_offset = 0; write_offset = 0 } else b

unfoldable pub peek_byte : StreamByteBuffer → Option ℕ
peek_byte b = if leb b.write_offset b.read_offset then none else get_elem? b.buffer b.read_offset

-- An offset is a natural number, so that the target never lies before `read_offset`.
unfoldable pub peek_byte_at : StreamByteBuffer → ℕ → Option ℕ
peek_byte_at b offset =
    let target = b.read_offset + offset in
    if ltb target b.read_offset || leb b.write_offset target
    then none
    else get_elem? b.buffer target

unfoldable pub read_byte : StreamByteBuffer → Option ℕ × StreamByteBuffer
unfolding check_auto_reset
read_byte b = if leb b.write_offset b.read_offset then (none, b) else (
  get_elem? b.buffer b.read_offset,
  check_auto_reset (record b { read_offset = b.read_offset + 1 }),
)

-- Is the element at `i` the given byte?
unfoldable pub is_byte : Bytes → ℕ → ℕ → Bool
is_byte bs i c = elim (get_elem? bs i) [ none ↦ false | some x ↦ x == c ]

-- The loop of `findCrlf`: `n` positions to try, from `i` on.
unfoldable pub scan_crlf : Bytes → ℕ → ℕ → Option ℕ
unfolding is_byte
scan_crlf bs zero i = none
scan_crlf bs (suc n) i = elim (is_byte bs i 13 && is_byte bs (i + 1) 10) [
  | true ↦ some i
  | false ↦ scan_crlf bs n (i + 1)
]

unfoldable pub find_crlf : StreamByteBuffer → ℕ → Option ℕ
unfolding scan_crlf
find_crlf b max_search_length =
    let stop = min b.write_offset (b.read_offset + max_search_length) in
    scan_crlf b.buffer (stop - 1 - b.read_offset) b.read_offset

unfoldable pub read_line_at_crlf :
    ⦃u : Utf8⦄ → StreamByteBuffer → ℕ → Result Exception (JsString × StreamByteBuffer)
unfolding check_auto_reset
read_line_at_crlf b crlf_index =
    if ltb crlf_index b.read_offset || leb b.write_offset (crlf_index + 1)
    then err crlf_out_of_bounds
    else ok (
      decode (slice b.buffer b.read_offset crlf_index),
      check_auto_reset (record b { read_offset = crlf_index + 2 }),
    )

-- A length is a natural number: the test for a negative one cannot fail.
unfoldable pub read_bytes : StreamByteBuffer → ℕ → Result Exception (Bytes × StreamByteBuffer)
unfolding check_auto_reset
read_bytes b len =
    if ltb (readable_bytes b) len
    then err cannot_read
    else ok (
      slice b.buffer b.read_offset (b.read_offset + len),
      check_auto_reset (record b { read_offset = b.read_offset + len }),
    )

unfoldable pub advance : StreamByteBuffer → ℕ → Result Exception StreamByteBuffer
unfolding check_auto_reset
advance b len =
    if ltb b.write_offset (b.read_offset + len)
    then err cannot_advance
    else ok (check_auto_reset (record b { read_offset = b.read_offset + len }))

unfoldable pub clear : StreamByteBuffer → StreamByteBuffer
clear b = record b { read_offset = 0; write_offset = 0 }
