-- ===== src/Storage/Packed.antt =====
-- src/storage-engine.ts: `trackExpiry` and `untrackExpiry` keep the array and the map of its places
-- in step.
use radix_kv.Prelude.{
  ==_iff, Bool-cases, List, Option-cases, [], ap, arith, eq_of_list_eq, false, get_elem?,
  get_elem?-take, if◌then◌else◌, inl, inr, is_some, length, length-set, length-take, list_eq,
  list_eq_iff, none, refl, set, some, subst, suc, sym, zero, ℕ, ◌+◌, ◌-◌, ◌<◌, ◌==◌, ◌∙◌, ◌∷◌, ◌≡◌,
  ◌≢◌, ◌⊎◌,
}
use radix_kv.Prelude.Text.{JsString}
use radix_kv.Prelude.Maps.{
  erase, insert, lookup, lookup-erase, lookup-erase_other, lookup-insert, lookup-insert_other,
}
use radix_kv.Storage.ExpiryIndex.{
  ExpiryIndex, Packed, is_tracked, pop, swap_with_last, untrack_expiry,
}

module _ {ℓ} {A : Type ℓ} where
  pub lt_of_get_elem? : (xs : List A) (i : ℕ) {x : A} → get_elem? xs i ≡ some x → i < length xs
  lt_of_get_elem? [] i h = absurd (ground arith)
  lt_of_get_elem? (y ∷ xs) zero h = omega arith
  lt_of_get_elem? (y ∷ xs) (suc i) h = omega (arith, lt_of_get_elem? xs i h)

  pub get_elem?-set :
      (xs : List A) (i : ℕ) (v : A) → i < length xs → get_elem? (set xs i v) i ≡ some v
  get_elem?-set [] i v h = absurd (omega arith)
  get_elem?-set (x ∷ xs) zero v h = refl
  get_elem?-set (x ∷ xs) (suc i) v h = get_elem?-set xs i v (omega arith)

  pub get_elem?-set_other :
      (xs : List A) (i j : ℕ) (v : A) → i ≢ j → get_elem? (set xs i v) j ≡ get_elem? xs j
  get_elem?-set_other [] i j v ne = refl
  get_elem?-set_other (x ∷ xs) zero zero v ne = absurd (ne refl)
  get_elem?-set_other (x ∷ xs) zero (suc j) v ne = refl
  get_elem?-set_other (x ∷ xs) (suc i) zero v ne = refl
  get_elem?-set_other (x ∷ xs) (suc i) (suc j) v ne =
      get_elem?-set_other xs i j v (λ p. ne (ap suc p))

  pub some_last : (xs : List A) → 0 < length xs → (x : A) × (get_elem? xs (length xs - 1) ≡ some x)
  some_last xs h = elim (Option-cases (get_elem? xs (length xs - 1))) [
    | inr q ↦ q
    | inl q ↦ absurd (beyond xs (length xs - 1) (omega arith) q)
  ]
    where
      beyond : (xs : List A) (i : ℕ) → i < length xs → get_elem? xs i ≢ none
      beyond [] i h q = omega arith
      beyond (x ∷ xs) zero h q = ground arith
      beyond (x ∷ xs) (suc i) h q = beyond xs i (omega arith) q

pub JsString-cases : (x y : JsString) → (x ≡ y) ⊎ (x ≢ y)
JsString-cases x y = elim (Bool-cases (list_eq x y)) [
  | inl h ↦ inl (eq_of_list_eq x y h)
  | inr h ↦ inr (λ p. ground (arith, h, (list_eq_iff x y).1 p))
]

pub ℕ-cases : (i j : ℕ) → (i ≡ j) ⊎ (i ≢ j)
ℕ-cases i j = elim (Bool-cases (i == j)) [
  | inl h ↦ inl ((==_iff i j).0 h)
  | inr h ↦ inr (λ p. ground (arith, h, (==_iff i j).1 p))
]

pub some_inj {ℓ} : {A : Type ℓ} {x y : A} → some x ≡ some y → x ≡ y
some_inj h = cc

-- The two steps of `untrackExpiry`, on a key that stands at `i`.
module _ (x : ExpiryIndex) (p : Packed x) (key last : JsString) (i : ℕ)
    (at : lookup x.expires_index_map key ≡ some i)
    (ends : get_elem? x.expires_list (length x.expires_list - 1) ≡ some last) where
  here : get_elem? x.expires_list i ≡ some key
  here = p.placed key i at

  last_at : lookup x.expires_index_map last ≡ some (length x.expires_list - 1)
  last_at = p.indexed last _ ends

  within : i < length x.expires_list
  within = lt_of_get_elem? x.expires_list i here

  popped :
      (j : ℕ)
      → j < length x.expires_list - 1
      → get_elem? (pop (set x.expires_list i last)) j ≡ get_elem? (set x.expires_list i last) j
  unfolding pop
  popped j h = get_elem?-take _ _ j (omega (arith, length-set x.expires_list i last))

  popped_within :
      (j : ℕ) {q : JsString}
      → get_elem? (pop (set x.expires_list i last)) j ≡ some q
      → j < length x.expires_list - 1
  unfolding pop
  popped_within j h = omega (
    arith,
    lt_of_get_elem? _ j h,
    length-take (length (set x.expires_list i last) - 1) (set x.expires_list i last),
    length-set x.expires_list i last,
  )

  not_end : key ≢ last → i < length x.expires_list - 1
  not_end ne = elim (ℕ-cases i (length x.expires_list - 1)) [
    | inl e ↦ absurd (ne (some_inj (sym here ∙ ap (get_elem? x.expires_list) e ∙ ends)))
    | inr n ↦ omega (arith, within, n)
  ]

  last_placed : key ≢ last → get_elem? (pop (set x.expires_list i last)) i ≡ some last
  last_placed ne = popped i (not_end ne) ∙ get_elem?-set x.expires_list i last within

  other_place :
      (q : JsString) (j : ℕ)
      → key ≢ q
      → last ≢ q
      → get_elem? x.expires_list j ≡ some q
      → (i ≢ j) × (j < length x.expires_list - 1)
  other_place q j ne nl h =
      let off : i ≢ j = λ e. ne (some_inj (sym here ∙ ap (get_elem? x.expires_list) e ∙ h)) in
      let off_end : length x.expires_list - 1 ≢ j =
        λ e. nl (some_inj (sym ends ∙ ap (get_elem? x.expires_list) e ∙ h)) in
      (off, omega (arith, off_end, lt_of_get_elem? x.expires_list j h))

  other_placed :
      (q : JsString) (j : ℕ)
      → key ≢ q
      → last ≢ q
      → get_elem? x.expires_list j ≡ some q
      → get_elem? (pop (set x.expires_list i last)) j ≡ some q
  other_placed q j ne nl h =
      let (off, below) = other_place q j ne nl h in
      popped j below ∙ get_elem?-set_other x.expires_list i j last off ∙ h

  swapped-placed :
      (q : JsString) (j : ℕ)
      → lookup (erase (insert x.expires_index_map last i) key) q ≡ some j
      → get_elem? (pop (set x.expires_list i last)) j ≡ some q
  swapped-placed q j h = elim (JsString-cases key q) [
    | inl e ↦
        let nothing = lookup-erase (insert x.expires_index_map last i) key in
        let found =
          subst (λ k. lookup (erase (insert x.expires_index_map last i) key) k ≡ some j) (sym e)
            h in
        absurd (some_none (sym found ∙ nothing))
    | inr ne ↦
        let h' = sym (lookup-erase_other _ key q ne) ∙ h in
        elim (JsString-cases last q) [
          | inl l ↦
              let same : i ≡ j = some_inj (
                sym (lookup-insert x.expires_index_map last i)
                ∙ ap (lookup (insert x.expires_index_map last i)) l
                ∙ h') in
              ap (get_elem? (pop (set x.expires_list i last))) (sym same)
              ∙ last_placed (λ e. ne (e ∙ l))
              ∙ ap some l
          | inr nl ↦
              other_placed q j ne nl
                (p.placed q j (sym (lookup-insert_other x.expires_index_map last q i nl) ∙ h'))
        ]
  ]
    where
      some_none : {A : Type 0} {a : A} → some a ≢ none
      some_none h = ground arith

  swapped-indexed :
      (q : JsString) (j : ℕ)
      → get_elem? (pop (set x.expires_list i last)) j ≡ some q
      → lookup (erase (insert x.expires_index_map last i) key) q ≡ some j
  swapped-indexed q j h =
      let below = popped_within j h in
      let h' = sym (popped j below) ∙ h in
      elim (ℕ-cases i j) [
        | inl e ↦
            let l : last ≡ q = some_inj (
              sym (get_elem?-set x.expires_list i last within)
              ∙ ap (get_elem? (set x.expires_list i last)) e
              ∙ h') in
            let ne : key ≢ last = λ k. absurd (
              omega (
                arith,
                below,
                e,
                some_inj (sym at ∙ ap (lookup x.expires_index_map) k ∙ last_at),
              )) in
            ap (lookup (erase (insert x.expires_index_map last i) key)) (sym l)
            ∙ lookup-erase_other _ key last ne
            ∙ lookup-insert x.expires_index_map last i
            ∙ ap some e
        | inr off ↦
            let old = sym (get_elem?-set_other x.expires_list i j last off) ∙ h' in
            let known = p.indexed q j old in
            let ne : key ≢ q =
              λ k. off (some_inj (sym at ∙ ap (lookup x.expires_index_map) k ∙ known)) in
            let nl : last ≢ q = λ k. absurd (
              omega (
                arith,
                below,
                some_inj (sym last_at ∙ ap (lookup x.expires_index_map) k ∙ known),
              )) in
            lookup-erase_other _ key q ne
            ∙ lookup-insert_other x.expires_index_map last q i nl
            ∙ known
      ]

-- What it is for a key to leave the index: the index is in step, the key is not in it, it has just the other
-- keys that it had, and the array is shorter by one if the key was there.
pub record Untracked (key : JsString) (x x' : ExpiryIndex) : Type 0 where
  pub packed : Packed x'
  pub gone : is_tracked x' key ≡ false
  pub others : (q : JsString) → key ≢ q → is_tracked x' q ≡ is_tracked x q
  pub shorter : length x'.expires_list + (if is_tracked x key then 1 else 0) ≡ length x.expires_list

swapped-others :
    (x : ExpiryIndex) (key last q : JsString) (i j : ℕ)
    → lookup x.expires_index_map last ≡ some j
    → key ≢ q
    → is_some (lookup (erase (insert x.expires_index_map last i) key) q)
      ≡ is_some (lookup x.expires_index_map q)
swapped-others x key last q i j at ne =
    ap is_some (lookup-erase_other (insert x.expires_index_map last i) key q ne)
    ∙ elim (JsString-cases last q) [
      | inl e ↦
          ap (λ k. is_some (lookup (insert x.expires_index_map last i) k)) (sym e)
          ∙ ap is_some (lookup-insert x.expires_index_map last i)
          ∙ sym (ap is_some at)
          ∙ ap (λ k. is_some (lookup x.expires_index_map k)) e
      | inr off ↦ ap is_some (lookup-insert_other x.expires_index_map last q i off)
    ]

-- `untrackExpiry` takes a key out of an index that is in step, and leaves the rest of it: the index stays
-- in step, the key is not in it any more, any other key is in it if it was before, and the array has lost
-- one place if the key was in the index, and none otherwise.
pub untrack_expiry-Untracked :
    (key : JsString) (x : ExpiryIndex) → Packed x → Untracked key x (untrack_expiry key x)
unfolding untrack_expiry swap_with_last pop
untrack_expiry-Untracked key x p = elim (Option-cases (lookup x.expires_index_map key)) [
  | inl q ↦
      rw (q, untrack_expiry)
        (record {
          packed = p;
          gone = ap is_some q;
          others = λ k ne. refl;
          shorter = rw q (omega arith);
        })
  | inr (i, q) ↦
      let lt = lt_of_get_elem? x.expires_list i (p.placed key i q) in
      let (last, e) = some_last x.expires_list (omega (arith, lt)) in
      rw (q, untrack_expiry)
        (rw e (record {
          packed = record {
            placed = swapped-placed x p key last i q e;
            indexed = swapped-indexed x p key last i q e;
          };
          gone = ap is_some (lookup-erase (insert x.expires_index_map last i) key);
          others = λ k ne. swapped-others x key last k i _ (p.indexed last _ e) ne;
          shorter = rw q (
              omega (
                arith,
                lt,
                length-take (length (set x.expires_list i last) - 1) (set x.expires_list i last),
                length-set x.expires_list i last,
              ));
        }))
]

pub untrack_expiry-Packed :
    (key : JsString) (x : ExpiryIndex) → Packed x → Packed (untrack_expiry key x)
untrack_expiry-Packed key x p = (untrack_expiry-Untracked key x p).packed
