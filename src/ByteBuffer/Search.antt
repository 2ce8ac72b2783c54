-- ===== src/ByteBuffer/Search.antt =====
-- src/byte-buffer.ts: `findCrlf` against a search of the unread bytes.
use radix_kv.Prelude.{
  ℕ, zero, suc, ◌+◌, ◌-◌, ◌<◌, ◌≤◌, ◌≡◌, refl, ap, ◌∙◌, sym, Option, none, some, true, inl, inr,
  arith, [], ◌∷◌, ◌++◌, ◌&&◌, length, drop, slice, get_elem?, ◌==◌, if◌then◌else◌, min, slice-cons,
  get_elem?-slice, get_elem?-append_left, All, ne→==_false, ◌≢◌, length-take, Option-cases,
}
use radix_kv.Prelude.Text.{Bytes}
use radix_kv.ByteBuffer.{StreamByteBuffer, is_byte, scan_crlf, find_crlf}
use radix_kv.ByteBuffer.Window.{IsValid, contents}
use mathlib.Core.Option

-- The first CRLF among the first `n` positions.
unfoldable pub crlf_at : ℕ → Bytes → Option ℕ
unfolding is_byte
crlf_at zero bs = none
crlf_at (suc n) [] = none
crlf_at (suc n) (x ∷ xs) =
    if (x == 13) && is_byte xs 0 10 then some 0 else Option.map suc (crlf_at n xs)

none≢some {ℓ} : {A : Type ℓ} {a : A} → ¬ (none ≡ some a)
none≢some h = cc

abbrev pub shifted : ℕ → Option ℕ → Option ℕ
shifted r = Option.map (λ i. r + i)

shifted-suc : (r : ℕ) (o : Option ℕ) → shifted r (Option.map suc o) ≡ shifted (r + 1) o
shifted-suc r none = refl
shifted-suc r (some i) = ap (λ (n : ℕ). some n) {x = r + suc i} {y = r + 1 + i} (omega arith)

crlf_at-short : (n : ℕ) (xs : Bytes) → length xs ≤ 1 → crlf_at n xs ≡ none
unfolding crlf_at
crlf_at-short zero xs h = refl
crlf_at-short (suc n) [] h = refl
crlf_at-short (suc zero) (x ∷ []) h = ground arith
crlf_at-short (suc (suc n)) (x ∷ []) h = ground arith
crlf_at-short (suc n) (x ∷ y ∷ xs) h = absurd (omega arith)

is_byte-slice : (xs : Bytes) (r w c : ℕ) → r < w → is_byte (slice xs r w) 0 c ≡ is_byte xs r c
unfolding is_byte
is_byte-slice xs r w c h =
    let e =
      get_elem?-slice xs r w 0 (omega arith)
      ∙ ap (get_elem? xs) {x = r + 0} {y = r} (omega arith) in
    rw (e, is_byte)

short : (xs : Bytes) (r w : ℕ) → w ≤ length xs → w - r - 1 ≡ 0 → length (slice xs r w) ≤ 1
short xs r w h e = omega (arith, length-take (w - r) (drop r xs))

scan_crlf-eq-crlf_at :
    (xs : Bytes) (n k r w : ℕ)
    → w ≤ length xs
    → n ≡ min k (w - r - 1)
    → scan_crlf xs n r ≡ shifted r (crlf_at k (slice xs r w))
unfolding scan_crlf crlf_at
scan_crlf-eq-crlf_at xs zero zero r w h e = refl
scan_crlf-eq-crlf_at xs zero (suc k) r w h e =
    sym (ap (shifted r) (crlf_at-short (suc k) (slice xs r w) (short xs r w h (omega arith))))
scan_crlf-eq-crlf_at xs (suc n) zero r w h e = absurd (omega arith)
scan_crlf-eq-crlf_at xs (suc n) (suc k) r w h e =
    let (x, at, window) = slice-cons xs r w (omega arith) h in
    let ih = scan_crlf-eq-crlf_at xs n k (r + 1) w h (omega arith) in
    let next = is_byte-slice xs (r + 1) w 10 (omega arith) in
    rw (window, crlf_at)
      (ground (arith, at, ih, next, shifted-suc r (crlf_at k (slice xs (r + 1) w))))

-- `findCrlf` finds the first CRLF that lies in the first `limit` unread bytes, and returns -1 if
-- there is none there.
pub find_crlf-eq-crlf_at :
    (b : StreamByteBuffer) (limit : ℕ)
    → IsValid b
    → find_crlf b limit ≡ shifted b.read_offset (crlf_at (limit - 1) (contents b))
unfolding find_crlf contents
find_crlf-eq-crlf_at b limit v =
    scan_crlf-eq-crlf_at b.buffer _ (limit - 1) b.read_offset b.write_offset v.within (omega arith)

is_byte-append : (xs ys : Bytes) (i c : ℕ) → is_byte xs i c ≡ true → is_byte (xs ++ ys) i c ≡ true
unfolding is_byte
is_byte-append [] ys i c h = cc
is_byte-append (x ∷ xs) ys zero c h = h
is_byte-append (x ∷ xs) ys (suc i) c h = is_byte-append xs ys i c h

-- A CRLF that was found stays the first one, whatever arrives behind it.
pub crlf_at-append :
    (n : ℕ) (xs ys : Bytes) {i : ℕ} → crlf_at n xs ≡ some i → crlf_at n (xs ++ ys) ≡ some i
unfolding crlf_at
crlf_at-append zero xs ys h = absurd (cc)
crlf_at-append (suc n) [] ys h = absurd (cc)
crlf_at-append (suc n) (x ∷ []) ys h =
    absurd (none≢some (sym (crlf_at-short (suc n) (x ∷ []) (omega arith)) ∙ h))
crlf_at-append (suc n) (x ∷ y ∷ xs) ys h = elim (Option-cases (crlf_at n (y ∷ xs))) [
  | inl gone ↦ ground (arith, gone)
  | inr (j, found) ↦ ground (arith, found, crlf_at-append n (y ∷ xs) ys found)
]

is_byte-lt : (xs : Bytes) (i c : ℕ) → is_byte xs i c ≡ true → i < length xs
unfolding is_byte
is_byte-lt [] i c h = absurd (cc)
is_byte-lt (x ∷ xs) zero c h = omega arith
is_byte-lt (x ∷ xs) (suc i) c h = omega (arith, is_byte-lt xs i c h)

is_byte-append_left :
    (xs ys : Bytes) (i c : ℕ) → i < length xs → is_byte (xs ++ ys) i c ≡ is_byte xs i c
unfolding is_byte
is_byte-append_left xs ys i c h = rw (get_elem?-append_left xs ys i h, is_byte)

-- Where more bytes are there than the search may look at, later bytes change nothing.
pub crlf_at-append_limit :
    (n : ℕ) (xs ys : Bytes) → n < length xs → crlf_at n (xs ++ ys) ≡ crlf_at n xs
unfolding crlf_at
crlf_at-append_limit zero xs ys h = refl
crlf_at-append_limit (suc n) [] ys h = absurd (omega arith)
crlf_at-append_limit (suc n) (x ∷ xs) ys h =
    rw (is_byte-append_left xs ys 0 10 (omega arith), crlf_at-append_limit n xs ys (omega arith))

-- A line without CR ends at the CRLF behind it.
pub crlf_at-line :
    (n : ℕ) (line rest : Bytes)
    → All (λ c. c ≢ 13) line
    → length line < n
    → crlf_at n (line ++ 13 ∷ 10 ∷ rest) ≡ some (length line)
unfolding crlf_at
crlf_at-line zero line rest h k = absurd (omega arith)
crlf_at-line (suc n) [] rest h k = refl
crlf_at-line (suc n) (x ∷ line) rest h k =
    rw (ne→==_false x 13 h.0) (rw (crlf_at-line n line rest h.1 (omega arith)))

-- It lies inside the bytes and the limit, and is a CR with a LF behind it.
pub crlf_at-bounds :
    (n : ℕ) (xs : Bytes) {i : ℕ} → crlf_at n xs ≡ some i → (i < n) × (i + 1 < length xs)
unfolding crlf_at
crlf_at-bounds zero xs h = absurd (cc)
crlf_at-bounds (suc n) [] h = absurd (cc)
crlf_at-bounds (suc n) (x ∷ xs) h = elim (Option-cases (crlf_at n xs)) [
  | inl gone ↦ ground (arith, gone, is_byte-lt xs 0 10)
  | inr (j, found) ↦ ground (arith, found, crlf_at-bounds n xs found)
]
