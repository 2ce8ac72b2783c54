-- ===== src/Cluster/AtomicLock/Order.antt =====
-- src/cluster/atomic-lock.ts: the order in which a transaction takes its locks.
use radix_kv.Prelude.{
  ==_iff, Bool, Bool-cases, List, [], arith, false, inl, inr, ltb, ltb-false→le, ltb→lt, refl, ℕ,
  ◌+◌, ◌==◌, ◌||◌, ◌∙◌, ◌∷◌, ◌≡◌, ◌≢◌, ◌≤◌,
}
use radix_kv.Cluster.AtomicLock.{insert_index, sorted_indices}

-- Every index is above the bound and below the next.
abbrev pub Ascending : ℕ → List ℕ → Type 0
Ascending low [] = Unit
Ascending low (i ∷ is) = (low ≤ i) × Ascending (i + 1) is

pub Ascending-weaken :
    (low low' : ℕ) (is : List ℕ) → low' ≤ low → Ascending low is → Ascending low' is
Ascending-weaken low low' [] h a = tt
Ascending-weaken low low' (i ∷ is) h a = (omega (arith, h, a.0), a.1)

insert_index-Ascending :
    (low i : ℕ) (is : List ℕ) → low ≤ i → Ascending low is → Ascending low (insert_index i is)
unfolding insert_index
insert_index-Ascending low i [] h a = (h, tt)
insert_index-Ascending low i (j ∷ js) h a = elim (Bool-cases (ltb i j)) [
  | inl below ↦ rw (below, insert_index) (h, (omega (arith, ltb→lt _ _ below), a.1))
  | inr above ↦ elim (Bool-cases (i == j)) [
    | inl same ↦ rw (above, insert_index) (rw same a)
    | inr other ↦
        let lt : j + 1 ≤ i = omega (arith, ltb-false→le _ _ above, other_index i j other) in
        rw (above, insert_index) (rw other (a.0, insert_index-Ascending (j + 1) i js lt a.1))
  ]
]
  where
    other_index : (i j : ℕ) → (i == j) ≡ false → i ≢ j
    other_index i j h p = ground (arith, h, (==_iff i j).1 p)

pub sorted_indices-Ascending : (is : List ℕ) → Ascending 0 (sorted_indices is)
unfolding sorted_indices
sorted_indices-Ascending [] = tt
sorted_indices-Ascending (i ∷ is) =
    insert_index-Ascending 0 i (sorted_indices is) (omega arith) (sorted_indices-Ascending is)

unfoldable pub member : ℕ → List ℕ → Bool
member k [] = false
member k (i ∷ is) = (k == i) || member k is

member-insert_index :
    (k i : ℕ) (is : List ℕ) → member k (insert_index i is) ≡ ((k == i) || member k is)
unfolding insert_index member
member-insert_index k i [] = refl
member-insert_index k i (j ∷ js) = elim (Bool-cases (ltb i j)) [
  | inl below ↦ rw (below, insert_index) refl
  | inr above ↦ elim (Bool-cases (i == j)) [
    | inl same ↦ rw (above, insert_index) (rw same (ground (arith, same)))
    | inr other ↦ rw (above, insert_index) (rw other (ground (arith, member-insert_index k i js)))
  ]
]

pub member-sorted_indices : (k : ℕ) (is : List ℕ) → member k (sorted_indices is) ≡ member k is
unfolding sorted_indices member
member-sorted_indices k [] = refl
member-sorted_indices k (i ∷ is) =
    member-insert_index k i (sorted_indices is) ∙ rw (member-sorted_indices k is) refl
