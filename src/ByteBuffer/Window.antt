-- ===== src/ByteBuffer/Window.antt =====
-- src/byte-buffer.ts: the invariant of the offsets, and the unread bytes as a list.
use radix_kv.Prelude.{
  ℕ, ◌+◌, ◌-◌, ◌<◌, ◌≤◌, ◌≡◌, ap, ◌∙◌, List, [], arith, length, take, drop, slice, write_at,
  length-slice, slice-write_at,
}
use radix_kv.Prelude.Text.{Bytes}
use radix_kv.ByteBuffer.{StreamByteBuffer, readable_bytes}
use radix_kv.ByteBuffer.{check_auto_reset}

pub record IsValid (b : StreamByteBuffer) : Type 0 where
  pub ordered : b.read_offset ≤ b.write_offset
  pub within : b.write_offset ≤ length b.buffer
  pub bounded : length b.buffer ≤ b.max_capacity
  pub allocated : 0 < length b.buffer

-- The unread bytes, oldest first.
unfoldable pub contents : StreamByteBuffer → Bytes
contents b = slice b.buffer b.read_offset b.write_offset

pub length-contents : (b : StreamByteBuffer) → IsValid b → length (contents b) ≡ readable_bytes b
unfolding contents
length-contents b v = length-slice b.buffer b.read_offset b.write_offset v.ordered v.within

pub slice-empty {ℓ} : {A : Type ℓ} (xs : List A) (i j : ℕ) → j ≤ i → slice xs i j ≡ []
slice-empty xs i j h = ap (λ k. take k (drop i xs)) {x = j - i} {y = 0} (omega arith)

-- A reset of the offsets of a consumed buffer is invisible.
pub contents-check_auto_reset :
    (b : StreamByteBuffer) → IsValid b → contents (check_auto_reset b) ≡ contents b
unfolding contents check_auto_reset
contents-check_auto_reset b v =
    ground (arith, slice-empty b.buffer b.read_offset b.write_offset, slice-empty b.buffer 0 0)

pub check_auto_reset-IsValid : (b : StreamByteBuffer) → IsValid b → IsValid (check_auto_reset b)
unfolding check_auto_reset
check_auto_reset-IsValid b v = ground arith

-- What is copied to the start of an array is the window there.
pub slice-write_at_zero {ℓ} :
    {A : Type ℓ} (xs src : List A) (n : ℕ)
    → n ≡ length src
    → n ≤ length xs
    → slice (write_at xs 0 src) 0 n ≡ src
slice-write_at_zero xs src n e h =
    ap (slice (write_at xs 0 src) 0) {x = n} {y = 0 + length src} (omega arith)
    ∙ slice-write_at xs 0 0 src (omega arith) (omega arith)
