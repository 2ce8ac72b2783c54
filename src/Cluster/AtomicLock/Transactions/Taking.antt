-- ===== src/Cluster/AtomicLock/Transactions/Taking.antt =====
-- src/cluster/atomic-lock.ts: the locks that a transaction takes.
use radix_kv.Prelude.{Bool, List, [], arith, false, refl, true, ℕ, ◌==◌, ◌∷◌, ◌≡◌}
use radix_kv.Result.{Result, err, ok}
use radix_kv.Cluster.AtomicLock.{AtomicMutex, LockError, sorted_indices, try_acquire}
use radix_kv.Cluster.AtomicLock.Order.{
  Ascending, member, member-sorted_indices, sorted_indices-Ascending,
}
use radix_kv.Cluster.AtomicLock.Transactions.{
  begun, Stage, Threads, Transaction, abandoned, acquiring, attempted, begin_transaction,
  no_transaction, releasing, turn_from,
}

-- The turns of a transaction while it acquires, each on the mutex that the other threads have left it.
unfoldable pub attempts : List AtomicMutex → Stage → List ℕ → Transaction
attempts [] stage held = record { held = held; stage = stage }
attempts (m ∷ ms) (acquiring is) held =
    let t = (turn_from (acquiring is) held m).0 in attempts ms t.stage t.held
attempts (m ∷ ms) releasing held = record { held = held; stage = releasing }
attempts (m ∷ ms) abandoned held = record { held = held; stage = abandoned }

-- The locks held, the first one first, before others.
abbrev pub taken_before : List ℕ → List ℕ → List ℕ
taken_before [] rest = rest
taken_before (i ∷ is) rest = taken_before is (i ∷ rest)

-- What the transaction has taken and what it is yet to take, in this order, is the plan; once it acts, it has
-- taken the whole plan; one that an attempt threw out of has taken a part of it.
abbrev pub Follows : List ℕ → Stage → List ℕ → Type 0
Follows plan (acquiring rest) held = taken_before held rest ≡ plan
Follows plan releasing held = taken_before held [] ≡ plan
Follows plan abandoned held = (rest : List ℕ) × (taken_before held rest ≡ plan)

attempted-Follows :
    (plan : List ℕ) (i : ℕ) (rest held : List ℕ) (m : AtomicMutex)
    (r : Result LockError (Bool × AtomicMutex))
    → Follows plan (acquiring (i ∷ rest)) held
    → Follows plan (attempted i rest held m r).0.stage (attempted i rest held m r).0.held
unfolding attempted
attempted-Follows plan i rest held m (err e) h = (i ∷ rest, h)
attempted-Follows plan i rest held m (ok (true, m')) h = h
attempted-Follows plan i rest held m (ok (false, m')) h = h

attempts-Follows :
    (plan : List ℕ) (ms : List AtomicMutex) (stage : Stage) (held : List ℕ)
    → Follows plan stage held
    → Follows plan (attempts ms stage held).stage (attempts ms stage held).held
unfolding attempts turn_from
attempts-Follows plan [] stage held h = h
attempts-Follows plan (m ∷ ms) (acquiring []) held h = attempts-Follows plan ms releasing held h
attempts-Follows plan (m ∷ ms) (acquiring (i ∷ is)) held h =
    let t = (attempted i is held m (try_acquire i m)).0 in
    attempts-Follows plan ms t.stage t.held (attempted-Follows plan i is held m (try_acquire i m) h)
attempts-Follows plan (m ∷ ms) releasing held h = h
attempts-Follows plan (m ∷ ms) abandoned held h = h

-- A call of `withMultiLock` on these indices in a thread that runs none: there is a plan, which has exactly the
-- indices that the call names, each once and in ascending order, such that after any number of turns,
-- whatever the other threads have made of the mutex in between, the locks taken, in the order in which they were
-- taken, with those that are left are the plan; the locks taken are the whole plan once it acts, and the
-- start of the plan if an attempt has thrown.
pub begin_transaction-Follows :
    (j : ℕ) (is : List ℕ) (s : Threads)
    → s.threads j ≡ no_transaction
    → (plan : List ℕ) × Ascending 0 plan
      × ((k : ℕ) → member k plan ≡ member k is)
      × ((ms : List AtomicMutex)
          → let t = (begin_transaction j is s).threads j in
            let t' = attempts ms t.stage t.held in Follows plan t'.stage t'.held)
unfolding begin_transaction begun
begin_transaction-Follows j is s idle = (
  sorted_indices is,
  sorted_indices-Ascending is,
  λ k. member-sorted_indices k is,
  λ ms.
      rw (self j, idle)
        (attempts-Follows (sorted_indices is) ms (acquiring (sorted_indices is)) [] refl),
)
  where
    self : (j : ℕ) → (j == j) ≡ true
    self j = ground arith
