-- ===== src/ByteBuffer/Append.antt =====
-- src/byte-buffer.ts: `append`, with the compaction and the growth that it may do first.
use radix_kv.Prelude.{
  ==_iff, Bool-cases, append-nil, arith, eq-nil_of_length, inl, inr, length, length-replicate,
  length-slice, length-write_at, refl, slice, slice-write_at, ℕ, ◌++◌, ◌+◌, ◌<◌, ◌==◌, ◌≡◌, ◌≤◌,
}
use radix_kv.Prelude.Text.{Bytes}
use radix_kv.Types.{Exception, buffer_overflow, protocol_error}
use radix_kv.Result.{Result, err, ok}
use radix_kv.ByteBuffer.{
  StreamByteBuffer, readable_bytes, alloc, compact, grow, grown_capacity, make_room, put_chunk,
  append,
}
use radix_kv.ByteBuffer.Window.{IsValid, contents, slice-empty, slice-write_at_zero}

-- The same unread bytes in a valid buffer of the same limit.
pub record Keeps (b b' : StreamByteBuffer) : Type 0 where
  pub valid : IsValid b'
  pub same : contents b' ≡ contents b
  pub limit : b'.max_capacity ≡ b.max_capacity

-- Compaction keeps the invariant and the unread bytes, and leaves them at the start.
pub compact-Keeps :
    (b : StreamByteBuffer) → IsValid b → Keeps b (compact b) × ((compact b).read_offset ≡ 0)
unfolding compact contents
compact-Keeps b v = ground (
  arith,
  slice-empty b.buffer b.read_offset b.write_offset,
  slice-empty b.buffer 0 0,
  length-slice b.buffer b.read_offset b.write_offset v.ordered v.within,
  length-write_at b.buffer 0 (slice b.buffer b.read_offset b.write_offset),
  slice-write_at_zero b.buffer (slice b.buffer b.read_offset b.write_offset) (readable_bytes b),
)

module _ (b : StreamByteBuffer) (total : ℕ) (v : IsValid b) where
  grown_capacity_bounds :
      readable_bytes b ≤ total
      → total ≤ b.max_capacity
      → (total ≤ grown_capacity b total)
        × (grown_capacity b total ≤ b.max_capacity)
        × (0 < grown_capacity b total)
  unfolding grown_capacity
  grown_capacity_bounds h k = ground arith

  -- Growth keeps the invariant and the unread bytes, and leaves room for `total` bytes.
  grow-Keeps :
      readable_bytes b ≤ total
      → total ≤ b.max_capacity
      → Keeps b (grow b total)
        × (total ≤ length (grow b total).buffer)
        × ((grow b total).write_offset ≡ readable_bytes b)
  unfolding grow contents
  grow-Keeps h k = ground (
    arith,
    grown_capacity_bounds h k,
    slice-empty b.buffer b.read_offset b.write_offset,
    slice-empty (alloc (grown_capacity b total)) 0 0,
    length-slice b.buffer b.read_offset b.write_offset v.ordered v.within,
    length-replicate {A = ℕ} (grown_capacity b total) 0,
    length-write_at (alloc (grown_capacity b total)) 0
        (slice b.buffer b.read_offset b.write_offset),
    slice-write_at_zero (alloc (grown_capacity b total))
        (slice b.buffer b.read_offset b.write_offset) (readable_bytes b),
  )

-- What `make_room` may return for `n` bytes.
abbrev RoomMade : StreamByteBuffer → ℕ → Result Exception StreamByteBuffer → Type 0
RoomMade b n (ok b') =
    Keeps b b' × (readable_bytes b + n ≤ b.max_capacity) × (b'.write_offset + n ≤ length b'.buffer)
RoomMade b n (err e) =
    (e ≡ protocol_error buffer_overflow) × (b.max_capacity < readable_bytes b + n)

compact-write_offset :
    (b : StreamByteBuffer) → IsValid b → (compact b).write_offset ≡ readable_bytes b
unfolding compact
compact-write_offset b v = ground arith

length-compact : (b : StreamByteBuffer) → length (compact b).buffer ≡ length b.buffer
unfolding compact
length-compact b =
    ground (arith, length-write_at b.buffer 0 (slice b.buffer b.read_offset b.write_offset))

-- Making room keeps the unread bytes and the invariant; it fails only above the limit.
make_room-RoomMade : (b : StreamByteBuffer) (n : ℕ) → IsValid b → RoomMade b n (make_room b n)
unfolding make_room
make_room-RoomMade b n v = ground (
  arith,
  compact-Keeps b v,
  compact-write_offset b v,
  length-compact b,
  grow-Keeps b (readable_bytes b + n) v (omega arith),
)

-- What `append` promises for a chunk.
abbrev pub Appended : StreamByteBuffer → Bytes → Result Exception StreamByteBuffer → Type 0
Appended b chunk (ok b') =
    IsValid b'
    × (contents b' ≡ contents b ++ chunk)
    × (b'.max_capacity ≡ b.max_capacity)
    × (readable_bytes b + length chunk ≤ b.max_capacity)
Appended b chunk (err e) =
    (e ≡ protocol_error buffer_overflow) × (b.max_capacity < readable_bytes b + length chunk)

put_chunk_lem :
    (b : StreamByteBuffer) (chunk : Bytes)
    → IsValid b
    → b.write_offset + length chunk ≤ length b.buffer
    → IsValid (put_chunk chunk b)
      × (contents (put_chunk chunk b) ≡ contents b ++ chunk)
      × ((put_chunk chunk b).max_capacity ≡ b.max_capacity)
unfolding put_chunk contents
put_chunk_lem b chunk v h = ground (
  arith,
  length-write_at b.buffer b.write_offset chunk,
  slice-write_at b.buffer b.read_offset b.write_offset chunk,
)

after_room :
    (b : StreamByteBuffer) (chunk : Bytes) (r : Result Exception StreamByteBuffer)
    → RoomMade b (length chunk) r
    → Appended b chunk (elim r [ ok b' ↦ ok (put_chunk chunk b') | err e ↦ err e ])
after_room b chunk (ok b') h = ground (arith, put_chunk_lem b' chunk h.0.valid)
after_room b chunk (err e) h = h

-- On a valid buffer `append` returns, and the unread bytes are the old ones with the chunk behind
-- them, exactly when they fit into the maximal capacity; else it throws the overflow error.
pub append-Appended :
    (b : StreamByteBuffer) (chunk : Bytes) → IsValid b → Appended b chunk (append b chunk)
unfolding append
append-Appended b chunk v = elim (Bool-cases (length chunk == 0)) [
  | inl none_given ↦
      rw (none_given, eq-nil_of_length chunk ((==_iff _ _).0 none_given), append-nil)
        (v, refl, refl, omega arith)
  | inr given ↦ rw given (after_room b chunk _ (make_room-RoomMade b (length chunk) v))
]
