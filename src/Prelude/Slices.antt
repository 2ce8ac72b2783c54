-- ===== src/Prelude/Slices.antt =====
-- Windows of an array of bytes and writes into it: `Buffer.subarray` and `Buffer.copy`.
use Prim.Native.Nat.{ℕ, zero, suc, ◌+◌, ◌-◌, ◌<◌, ◌≤◌}
use mathlib.Core.Path.{◌≡◌, refl, sym, ap, ◌∙◌}
use mathlib.Core.List.{List, [], ◌∷◌, ◌++◌}
use mathlib.Core.Option.{none, some}
use native.Mathlib.Omega.{arith}
use radix_kv.Prelude.Lists.{length, take, drop, length-take, length-drop, drop-drop, get_elem?}

module _ {ℓ} {A : Type ℓ} where
  -- The elements from index `i` up to, and without, index `j`.
  abbrev pub slice : List A → ℕ → ℕ → List A
  slice xs i j = take (j - i) (drop i xs)

  -- `src.copy(dst, at)`: what would fall beyond the end of `dst` is not copied.
  abbrev pub write_at : List A → ℕ → List A → List A
  write_at [] i src = []
  write_at (x ∷ xs) (suc i) src = x ∷ write_at xs i src
  write_at (x ∷ xs) zero [] = x ∷ xs
  write_at (x ∷ xs) zero (b ∷ bs) = b ∷ write_at xs zero bs

module _ {ℓ} {A : Type ℓ} where
  pub length-slice : (xs : List A) (i j : ℕ) → i ≤ j → j ≤ length xs → length (slice xs i j) ≡ j - i
  length-slice xs i j h k = omega (arith, length-take (j - i) (drop i xs), length-drop i xs)

  pub length-write_at :
      (xs : List A) (i : ℕ) (src : List A) → length (write_at xs i src) ≡ length xs
  length-write_at [] i src = refl
  length-write_at (x ∷ xs) (suc i) src = ap suc (length-write_at xs i src)
  length-write_at (x ∷ xs) zero [] = refl
  length-write_at (x ∷ xs) zero (b ∷ bs) = ap suc (length-write_at xs zero bs)

  take-write_at-zero :
      (xs src : List A) → length src ≤ length xs → take (length src) (write_at xs zero src) ≡ src
  take-write_at-zero xs [] h = refl
  take-write_at-zero [] (b ∷ bs) h = absurd (omega arith)
  take-write_at-zero (x ∷ xs) (b ∷ bs) h =
      ap (λ (l : List A). b ∷ l) (take-write_at-zero xs bs (omega arith))

  take-write_at :
      (xs : List A) (w : ℕ) (src : List A)
      → w + length src ≤ length xs
      → take (w + length src) (write_at xs w src) ≡ take w xs ++ src
  take-write_at xs zero src h =
      ap (λ k. take k (write_at xs zero src)) {x = 0 + length src} {y = length src} (omega arith)
      ∙ take-write_at-zero xs src (omega arith)
  take-write_at [] (suc w) src h = absurd (omega arith)
  take-write_at (x ∷ xs) (suc w) src h =
      ap (λ k. take k (x ∷ write_at xs w src)) {x = suc w + length src} {y = suc (w + length src)}
        (omega arith)
      ∙ ap (λ (l : List A). x ∷ l) (take-write_at xs w src (omega arith))

  -- A write at the end of a window extends the window by what was written.
  pub slice-write_at :
      (xs : List A) (r w : ℕ) (src : List A)
      → r ≤ w
      → w + length src ≤ length xs
      → slice (write_at xs w src) r (w + length src) ≡ slice xs r w ++ src
  slice-write_at xs zero w src h k =
      ap (λ n. take n (write_at xs w src)) (omega arith)
      ∙ take-write_at xs w src k
      ∙ ap (λ n. take n xs ++ src) (omega arith)
  slice-write_at xs (suc r) zero src h k = absurd (omega arith)
  slice-write_at [] (suc r) (suc w) src h k = absurd (omega arith)
  slice-write_at (x ∷ xs) (suc r) (suc w) src h k =
      ap (λ n. take n (drop r (write_at xs w src))) (omega arith)
      ∙ slice-write_at xs r w src (omega arith) (omega arith)
      ∙ ap (λ n. take n (drop r xs) ++ src) (omega arith)

  pub get_elem?-drop : (xs : List A) (r i : ℕ) → get_elem? (drop r xs) i ≡ get_elem? xs (r + i)
  get_elem?-drop xs zero i = ap (get_elem? xs) {x = i} {y = 0 + i} (omega arith)
  get_elem?-drop [] (suc r) i = refl
  get_elem?-drop (x ∷ xs) (suc r) i =
      get_elem?-drop xs r i
      ∙ ap (get_elem? (x ∷ xs)) {x = suc (r + i)} {y = suc r + i} (omega arith)

  pub get_elem?-eq-none : (xs : List A) (i : ℕ) → length xs ≤ i → get_elem? xs i ≡ none
  get_elem?-eq-none [] i h = refl
  get_elem?-eq-none (x ∷ xs) zero h = absurd (omega arith)
  get_elem?-eq-none (x ∷ xs) (suc i) h = get_elem?-eq-none xs i (omega arith)

  pub get_elem?-take : (xs : List A) (n i : ℕ) → i < n → get_elem? (take n xs) i ≡ get_elem? xs i
  get_elem?-take xs zero i h = absurd (omega arith)
  get_elem?-take [] (suc n) i h = refl
  get_elem?-take (x ∷ xs) (suc n) zero h = refl
  get_elem?-take (x ∷ xs) (suc n) (suc i) h = get_elem?-take xs n i (omega arith)

  -- An element of a window is the array's element behind the window's start.
  pub get_elem?-slice :
      (xs : List A) (r w i : ℕ) → r + i < w → get_elem? (slice xs r w) i ≡ get_elem? xs (r + i)
  get_elem?-slice xs r w i h =
      get_elem?-take (drop r xs) (w - r) i (omega arith) ∙ get_elem?-drop xs r i

  pub take-nil : (n : ℕ) → take {A = A} n [] ≡ []
  take-nil zero = refl
  take-nil (suc n) = refl

  pub drop-take : (n m : ℕ) (xs : List A) → drop n (take m xs) ≡ take (m - n) (drop n xs)
  drop-take zero m xs = ap (λ k. take k xs) {x = m} {y = m - 0} (omega arith)
  drop-take (suc n) zero xs =
      ap (λ k. take k (drop (suc n) xs)) {x = 0} {y = 0 - suc n} (omega arith)
  drop-take (suc n) (suc m) [] = sym (take-nil (suc m - suc n))
  drop-take (suc n) (suc m) (x ∷ xs) =
      drop-take n m xs ∙ ap (λ k. take k (drop n xs)) {x = m - n} {y = suc m - suc n} (omega arith)

  pub take-take : (n m : ℕ) (xs : List A) → n ≤ m → take n (take m xs) ≡ take n xs
  take-take zero m xs h = refl
  take-take (suc n) zero xs h = absurd (omega arith)
  take-take (suc n) (suc m) [] h = refl
  take-take (suc n) (suc m) (x ∷ xs) h = ap (λ (l : List A). x ∷ l) (take-take n m xs (omega arith))

  -- The window without its first `n` elements.
  pub slice-drop : (xs : List A) (r w n : ℕ) → slice xs (r + n) w ≡ drop n (slice xs r w)
  slice-drop xs r w n =
      ap (λ k. take k (drop (r + n) xs)) {x = w - (r + n)} {y = w - r - n} (omega arith)
      ∙ ap (take (w - r - n)) (sym (drop-drop n r xs))
      ∙ sym (drop-take n (w - r) (drop r xs))

  -- The first `n` elements of the window.
  pub slice-take :
      (xs : List A) (r w n : ℕ) → r + n ≤ w → slice xs r (r + n) ≡ take n (slice xs r w)
  slice-take xs r w n h =
      ap (λ k. take k (drop r xs)) {x = r + n - r} {y = n} (omega arith)
      ∙ sym (take-take n (w - r) (drop r xs) (omega arith))

  -- The window is its first element and the rest.
  pub slice-cons :
      (xs : List A) (r w : ℕ)
      → r < w
      → w ≤ length xs
      → (x : A) × (get_elem? xs r ≡ some x) × (slice xs r w ≡ x ∷ slice xs (r + 1) w)
  slice-cons [] r w h k = absurd (omega arith)
  slice-cons (x ∷ xs) zero w h k =
      (x, refl, ap (λ n. take n (x ∷ xs)) {x = w - 0} {y = suc (w - 1)} (omega arith))
  slice-cons (x ∷ xs) (suc r) zero h k = absurd (omega arith)
  slice-cons (x ∷ xs) (suc r) (suc w) h k =
      let (y, e, p) = slice-cons xs r w (omega arith) (omega arith) in
      (
        y,
        e,
        ap (λ n. take n (drop r xs)) {x = suc w - suc r} {y = w - r} (omega arith)
            ∙ p
            ∙ ap (λ n. y ∷ take n (drop (r + 1) xs)) {x = w - (r + 1)} {y = suc w - (suc r + 1)}
                (omega arith)
            ∙ ap (λ n. y ∷ take (suc w - (suc r + 1)) (drop n (x ∷ xs))) {x = suc (r + 1)}
                {y = suc r + 1} (omega arith),
      )
