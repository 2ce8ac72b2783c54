-- ===== src/Cluster/AtomicLock/Transactions/Progress.antt =====
-- src/cluster/atomic-lock.ts: transactions do not block one another forever.
use radix_kv.Prelude.{
  ==_iff, ==_refl, All, Bool-cases, List, [], arith, get_elem?, inl, inr, length-replicate, ltb,
  refl, replicate, some, subst, suc, sym, true, zero, ℕ, ◌+◌, ◌<◌, ◌==◌, ◌∙◌, ◌∷◌, ◌≡◌, ◌≤◌, ◌⊎◌,
}
use radix_kv.Cluster.AtomicLock.{
  AtomicMutex, insert_index, lock_count, new_mutex, sorted_indices, unlocked,
}
use radix_kv.Cluster.AtomicLock.Order.{member, sorted_indices-Ascending}
use radix_kv.Cluster.AtomicLock.Transactions.{
  LockEvent, Stage, Threads, Transaction, abandoned, acquiring, begin_transaction, begins, begun,
  lock_all, lock_one, no_threads, releasing, take_turn, turn_from, turn_of, with_thread,
}
use radix_kv.Cluster.AtomicLock.Transactions.Turns.{InOrder, TurnOk, turn_from-TurnOk, word_of}

-- A lock is free, or some thread has it; and every transaction is in order.
record LocksValid (n : ℕ) (s : Threads) : Type 0 where
  pub sized : lock_count s.mutex ≡ n
  pub in_order : (j : ℕ) → InOrder n (s.threads j).stage (s.threads j).held
  pub owned :
      (k : ℕ)
      → k < n
      → (word_of s.mutex k ≡ some 0) ⊎ ((j : ℕ) × (member k (s.threads j).held ≡ true))

module _ (n : ℕ) (s : Threads) (v : LocksValid n s) where
  -- A thread's turn, if it did this to the mutex and to the thread.
  turned-LocksValid :
      (j : ℕ) (r : Transaction × AtomicMutex)
      → TurnOk n (s.threads j).held s.mutex r
      → LocksValid n (record { mutex = r.1; threads = with_thread j r.0 s.threads })
  turned-LocksValid j r ok_ = record {
    sized = ok_.sized;
    in_order = λ i. elim (Bool-cases (j == i)) [
      | inl same ↦ rw same ok_.in_order
      | inr other ↦ rw other (v.in_order i)
    ];
    owned = λ k lt. elim (ok_.words k lt) [
      | inl free ↦ inl free
      | inr (inl mine) ↦ inr (j, rw (==_refl j) mine)
      | inr (inr (same, keeps)) ↦ elim (v.owned k lt) [
        | inl free ↦ inl (same ∙ free)
        | inr (i, has) ↦ inr (
          i,
          elim (Bool-cases (j == i)) [
            | inl is_j ↦ rw is_j (
                keeps
                  (subst (λ x. member k (s.threads x).held ≡ true) (sym ((==_iff j i).0 is_j)) has))
            | inr other ↦ rw other has
          ],
        )
      ]
    ];
  }

  take_turn-LocksValid : (j : ℕ) → LocksValid n (take_turn j s)
  unfolding take_turn
  take_turn-LocksValid j =
      turned-LocksValid j (turn_from (s.threads j).stage (s.threads j).held s.mutex)
        (turn_from-TurnOk n s.mutex v.sized (s.threads j).stage (s.threads j).held (v.in_order j))

  begun-InOrder :
      (is held : List ℕ) (st : Stage)
      → All (λ i. i < n) (sorted_indices is)
      → InOrder n st held
      → InOrder n (begun is st held) held
  unfolding begun member
  begun-InOrder is [] releasing r o =
      (sorted_indices-Ascending is, r, tt, λ k h. absurd (ground (arith, h)))
  begun-InOrder is (k ∷ ks) releasing r o = o
  begun-InOrder is held (acquiring js) r o = o
  begun-InOrder is held abandoned r o = o

  begin_transaction-LocksValid :
      (j : ℕ) (is : List ℕ)
      → All (λ i. i < n) (sorted_indices is)
      → LocksValid n (begin_transaction j is s)
  unfolding begin_transaction
  begin_transaction-LocksValid j is r =
      let t = s.threads j in
      turned-LocksValid j (record t { stage = begun is t.stage t.held }, s.mutex)
        (record {
          sized = v.sized;
          in_order = begun-InOrder is t.held t.stage r (v.in_order j);
          words = λ k lt. inr (inr (refl, λ h. h));
        })

-- The next turn of the thread does not fail: it acts, gets the lock that it waits for, or gives one back.
pub data CanMove (s : Threads) (j : ℕ) : Type 0 where
  acts : (s.threads j).stage ≡ acquiring [] → CanMove s j
  gets :
      (i : ℕ) (is : List ℕ)
      → (s.threads j).stage ≡ acquiring (i ∷ is)
      → get_elem? s.mutex.state i ≡ some 0
      → CanMove s j
  gives :
      (i : ℕ) (is : List ℕ)
      → (s.threads j).stage ≡ releasing
      → (s.threads j).held ≡ i ∷ is
      → CanMove s j

abbrev SomeMove : Threads → Type 0
SomeMove s = (k : ℕ) × CanMove s k

-- The thread that has the lock `i` moves, or waits for a larger one.
holder_moves :
    (n : ℕ) (s : Threads) (i k : ℕ) (st : Stage) (held : List ℕ)
    → (s.threads k).stage ≡ st
    → (s.threads k).held ≡ held
    → member i held ≡ true
    → InOrder n st held
    → ((j : ℕ) (js : List ℕ) → (s.threads k).stage ≡ acquiring (j ∷ js) → i < j → SomeMove s)
    → SomeMove s
unfolding member
holder_moves n s i k (acquiring []) held e h has o next = (k, acts e)
holder_moves n s i k (acquiring (j ∷ js)) held e h has o next =
    next j js e (omega (arith, (o.3 i has).0))
holder_moves n s i k releasing [] e h has o next = absurd (ground (arith, has))
holder_moves n s i k releasing (x ∷ xs) e h has o next = (k, gives x xs e h)
holder_moves n s i k abandoned held e h has o next = absurd (ground (arith, o))

-- From a thread that waits for the lock `i` to the one that has it, as long as there are larger locks.
mover :
    (fuel n : ℕ) (s : Threads)
    → LocksValid n s
    → (j i : ℕ) (is : List ℕ) → (s.threads j).stage ≡ acquiring (i ∷ is)
    → n ≤ i + fuel
    → SomeMove s
mover zero n s v j i is waits bound =
    let o : InOrder n (acquiring (i ∷ is)) (s.threads j).held =
      subst (λ st. InOrder n st (s.threads j).held) waits (v.in_order j) in
    absurd (omega (arith, o.1.0, bound))
mover (suc fuel) n s v j i is waits bound =
    let o : InOrder n (acquiring (i ∷ is)) (s.threads j).held =
      subst (λ st. InOrder n st (s.threads j).held) waits (v.in_order j) in
    elim (v.owned i o.1.0) [
      | inl free ↦ (j, gets i is waits free)
      | inr (k, has) ↦
          holder_moves n s i k (s.threads k).stage (s.threads k).held refl refl has (v.in_order k)
            (λ i' is' waits' lt. mover fuel n s v k i' is' waits' (omega (arith, lt, bound)))
    ]

insert_index-below :
    (n i : ℕ) (is : List ℕ) → i < n → All (λ j. j < n) is → All (λ j. j < n) (insert_index i is)
unfolding insert_index
insert_index-below n i [] lt h = (lt, tt)
insert_index-below n i (j ∷ js) lt h = elim (Bool-cases (ltb i j)) [
  | inl below ↦ rw (below, insert_index) (lt, h)
  | inr above ↦ elim (Bool-cases (i == j)) [
    | inl same ↦ rw (above, insert_index) (rw same h)
    | inr other ↦ rw (above, insert_index) (rw other (h.0, insert_index-below n i js lt h.1))
  ]
]

sorted_indices-below :
    (n : ℕ) (is : List ℕ) → All (λ j. j < n) is → All (λ j. j < n) (sorted_indices is)
unfolding sorted_indices
sorted_indices-below n [] h = tt
sorted_indices-below n (i ∷ is) h =
    insert_index-below n i (sorted_indices is) h.0 (sorted_indices-below n is h.1)

-- The calls name locks of the mutex.
abbrev pub Names : ℕ → LockEvent → Type 0
Names n (turn_of j) = Unit
Names n (begins j is) = All (λ i. i < n) is

lock_all-LocksValid :
    (n : ℕ) (es : List LockEvent) (s : Threads)
    → All (Names n) es
    → LocksValid n s
    → LocksValid n (lock_all es s)
unfolding lock_all lock_one
lock_all-LocksValid n [] s h v = v
lock_all-LocksValid n (turn_of j ∷ es) s h v =
    lock_all-LocksValid n es _ h.1 (take_turn-LocksValid n s v j)
lock_all-LocksValid n (begins j is ∷ es) s h v =
    lock_all-LocksValid n es _ h.1
      (begin_transaction-LocksValid n s v j is (sorted_indices-below n is h.0))

free_at_first : (n k : ℕ) → k < n → get_elem? (replicate n unlocked) k ≡ some unlocked
free_at_first zero k lt = absurd (omega arith)
free_at_first (suc n) zero lt = refl
free_at_first (suc n) (suc k) lt = free_at_first n k (omega arith)

no_threads-LocksValid : (n : ℕ) → LocksValid n (no_threads n)
unfolding no_threads new_mutex member
no_threads-LocksValid n = record {
  sized = length-replicate n unlocked;
  in_order = λ j. tt;
  owned = λ k lt. inl (free_at_first n k lt);
}

-- Whatever transactions the threads have begun, each on locks of the mutex, and whatever turns they have
-- taken: where a thread waits for a lock, some thread has a next turn that does not fail, since it gets
-- its lock, or acts, or gives a lock back. The transactions never block one another.
pub lock_all-CanMove :
    (n : ℕ) (es : List LockEvent) (j i : ℕ) (is : List ℕ)
    → All (Names n) es
    → ((lock_all es (no_threads n)).threads j).stage ≡ acquiring (i ∷ is)
    → (k : ℕ) × CanMove (lock_all es (no_threads n)) k
lock_all-CanMove n es j i is h waits =
    mover n n _ (lock_all-LocksValid n es (no_threads n) h (no_threads-LocksValid n)) j i is waits
      (omega arith)
