-- ===== src/ByteBuffer/Tests.antt =====
-- src/byte-buffer.ts: runs and instances.
use radix_kv.Prelude.{[], arith, refl, some, ◌∷◌, ◌≡◌}
use radix_kv.Types.{buffer_overflow, protocol_error}
use radix_kv.Result.{err, ok}
use radix_kv.ByteBuffer.{
  StreamByteBuffer, append, compact, find_crlf, grow, grown_capacity, make_room, put_chunk,
  read_bytes, scan_crlf,
}
use radix_kv.ByteBuffer.Window.{IsValid, contents}
use radix_kv.ByteBuffer.Append.{Appended, append-Appended}
use radix_kv.ByteBuffer.Reading.{BytesRead, read_bytes-BytesRead}
use radix_kv.ByteBuffer.Search.{crlf_at, find_crlf-eq-crlf_at, shifted}

-- 3, 13, 10 are unread in a buffer of six bytes that may grow to eight.
abbrev sample : StreamByteBuffer
sample = record {
  buffer = 1 ∷ 2 ∷ 3 ∷ 13 ∷ 10 ∷ 0 ∷ [];
  read_offset = 2;
  write_offset = 5;
  max_capacity = 8;
}

sample-IsValid : IsValid sample
sample-IsValid = omega arith

append_compacts :
    (append sample (7 ∷ 8 ∷ []))
    ≡ ok
        (record sample { buffer = 3 ∷ 13 ∷ 10 ∷ 7 ∷ 8 ∷ 0 ∷ []; read_offset = 0; write_offset = 5 })
unfolding append make_room compact grow put_chunk
append_compacts = refl

append_grows :
    (append sample (7 ∷ 8 ∷ 9 ∷ 4 ∷ []))
    ≡ ok (record sample {
      buffer = 3 ∷ 13 ∷ 10 ∷ 7 ∷ 8 ∷ 9 ∷ 4 ∷ 0 ∷ [];
      read_offset = 0;
      write_offset = 7;
    })
unfolding append make_room compact grow grown_capacity put_chunk
append_grows = refl

append_overflows : append sample (1 ∷ 2 ∷ 3 ∷ 4 ∷ 5 ∷ 6 ∷ []) ≡ err (protocol_error buffer_overflow)
unfolding append make_room
append_overflows = refl

append-Appended_example : Appended sample (7 ∷ 8 ∷ []) (append sample (7 ∷ 8 ∷ []))
append-Appended_example = append-Appended sample (7 ∷ 8 ∷ []) sample-IsValid

read_bytes-BytesRead_example : BytesRead sample 2 (read_bytes sample 2)
read_bytes-BytesRead_example = read_bytes-BytesRead sample 2 sample-IsValid

find_crlf-eq-crlf_at_example : find_crlf sample 64 ≡ shifted 2 (crlf_at 63 (contents sample))
find_crlf-eq-crlf_at_example = find_crlf-eq-crlf_at sample 64 sample-IsValid

find_crlf_run : find_crlf sample 64 ≡ some 3
unfolding find_crlf scan_crlf
find_crlf_run = refl
