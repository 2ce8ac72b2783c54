-- ===== src/Cluster/AtomicLock/Transactions/Turns.antt =====
-- src/cluster/atomic-lock.ts: what a turn of a transaction does to the locks.
use radix_kv.Prelude.{
  All, Bool-cases, List, Option, [], arith, false, get_elem?, inl, inr, is_some_byte, length-set,
  refl, set, some, subst, sym, true, ℕ, ◌+◌, ◌<◌, ◌∙◌, ◌∷◌, ◌≡◌, ◌⊎◌,
}
use radix_kv.Result.{ok}
use radix_kv.Storage.Packed.{get_elem?-set, get_elem?-set_other, ℕ-cases}
use radix_kv.Cluster.AtomicLock.{
  AtomicMutex, compare_exchange, lock_count, locked, release, try_acquire, unlocked, validate_index,
}
use radix_kv.Cluster.AtomicLock.Order.{Ascending, Ascending-weaken, member}
use radix_kv.Cluster.AtomicLock.Transactions.{
  Stage, Transaction, abandoned, acquiring, attempted, given_back, releasing, turn_from,
}

abbrev pub word_of : AtomicMutex → ℕ → Option ℕ
word_of m k = get_elem? m.state k

-- The locks of a transaction are below `n`, and those that it waits for are above those that it has.
abbrev pub InOrder : ℕ → Stage → List ℕ → Type 0
InOrder n (acquiring is) held =
    Ascending 0 is
    × All (λ i. i < n) is
    × All (λ i. i < n) held
    × ((k : ℕ) → member k held ≡ true → Ascending (k + 1) is)
InOrder n releasing held = All (λ i. i < n) held
InOrder n abandoned held = true ≡ false

-- What a turn of a thread does to the mutex: a lock is free, is the thread's, or is as it was.
pub record TurnOk (n : ℕ) (held : List ℕ) (m : AtomicMutex) (r : Transaction × AtomicMutex)
    : Type 0 where
  pub sized : lock_count r.1 ≡ n
  pub in_order : InOrder n r.0.stage r.0.held
  pub words :
      (k : ℕ)
      → k < n
      → (word_of r.1 k ≡ some 0)
        ⊎ (member k r.0.held ≡ true)
        ⊎ ((word_of r.1 k ≡ word_of m k) × (member k held ≡ true → member k r.0.held ≡ true))

module _ (n : ℕ) (m : AtomicMutex) (size : lock_count m ≡ n) where
  idle-TurnOk :
      (st : Stage) (held : List ℕ)
      → InOrder n st held
      → TurnOk n held m (record { held = held; stage = st }, m)
  idle-TurnOk st held o = record {
    sized = size;
    in_order = o;
    words = λ k lt. inr (inr (refl, λ h. h));
  }

  try_acquire_in_range : (i : ℕ) → i < n → try_acquire i m ≡ ok (compare_exchange i m)
  unfolding try_acquire validate_index
  try_acquire_in_range i lt = ground (arith, size, lt)

  release_in_range : (i : ℕ) → i < n → release i m ≡ ok (record { state = set m.state i unlocked })
  unfolding release validate_index
  release_in_range i lt = ground (arith, size, lt)

  taken-TurnOk :
      (i : ℕ) (is held : List ℕ)
      → InOrder n (acquiring (i ∷ is)) held
      → TurnOk n held m (
        record { held = i ∷ held; stage = acquiring is },
        record { state = set m.state i locked },
      )
  unfolding member
  taken-TurnOk i is held o = record {
    sized = length-set m.state i locked ∙ size;
    in_order = (
      Ascending-weaken (i + 1) 0 is (omega arith) o.0.1,
      o.1.1,
      (o.1.0, o.2),
      λ k h. elim (ℕ-cases k i) [
        | inl same ↦ subst (λ x. Ascending (x + 1) is) (sym same) o.0.1
        | inr other ↦
            Ascending-weaken (i + 1) (k + 1) is
              (omega (arith, (o.3 k (ground (arith, h, other))).0)) o.0.1
      ],
    );
    words = λ k lt. elim (ℕ-cases k i) [
      | inl same ↦ inr (inl (ground (arith, same)))
      | inr other ↦ inr (
          inr (get_elem?-set_other m.state i k locked (λ p. other (sym p)), λ h. ground (arith, h)))
    ];
  }

  given-TurnOk :
      (i : ℕ) (is : List ℕ)
      → All (λ i. i < n) (i ∷ is)
      → TurnOk n
          (i ∷ is)
          m
          (record { held = is; stage = releasing }, record { state = set m.state i unlocked })
  unfolding member
  given-TurnOk i is o = record {
    sized = length-set m.state i unlocked ∙ size;
    in_order = o.1;
    words = λ k lt. elim (ℕ-cases k i) [
      | inl same ↦ inl (
          subst (λ x. get_elem? (set m.state i unlocked) x ≡ some 0) (sym same)
            (get_elem?-set m.state i unlocked (omega (arith, size, o.0))))
      | inr other ↦ inr (
          inr (
            get_elem?-set_other m.state i k unlocked (λ p. other (sym p)),
            λ h. ground (arith, h, other),
          ))
    ];
  }

  attempted-TurnOk :
      (i : ℕ) (is held : List ℕ)
      → InOrder n (acquiring (i ∷ is)) held
      → TurnOk n held m (attempted i is held m (ok (compare_exchange i m)))
  unfolding attempted compare_exchange
  attempted-TurnOk i is held o = elim (Bool-cases (is_some_byte (get_elem? m.state i) unlocked)) [
    | inl free ↦ rw (free, compare_exchange) (taken-TurnOk i is held o)
    | inr taken ↦ rw (taken, compare_exchange) (idle-TurnOk (acquiring (i ∷ is)) held o)
  ]

  pub turn_from-TurnOk :
      (st : Stage) (held : List ℕ) → InOrder n st held → TurnOk n held m (turn_from st held m)
  unfolding turn_from
  turn_from-TurnOk (acquiring []) held o = record {
    sized = size;
    in_order = o.2;
    words = λ k lt. inr (inr (refl, λ h. h));
  }
  turn_from-TurnOk (acquiring (i ∷ is)) held o =
      subst (λ r. TurnOk n held m (attempted i is held m r)) (sym (try_acquire_in_range i o.1.0))
        (attempted-TurnOk i is held o)
  turn_from-TurnOk releasing [] o = idle-TurnOk releasing [] tt
  turn_from-TurnOk releasing (i ∷ is) o =
      subst (λ r. TurnOk n (i ∷ is) m (given_back is m r)) (sym (release_in_range i o.0))
        (unfold given_back in given-TurnOk i is o)
  turn_from-TurnOk abandoned held o = absurd (ground (arith, o))
