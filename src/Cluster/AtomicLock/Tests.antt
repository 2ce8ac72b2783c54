-- ===== src/Cluster/AtomicLock/Tests.antt =====
-- src/cluster/atomic-lock.ts: runs and instances.
use radix_kv.Prelude.{List, [], arith, refl, ℕ, ◌∷◌, ◌≡◌}
use radix_kv.Cluster.AtomicLock.{
  AtomicMutex, compare_exchange, insert_index, new_mutex, sorted_indices, try_acquire,
  validate_index,
}
use radix_kv.Cluster.AtomicLock.Transactions.{
  LockEvent, attempted, begin_transaction, begins, begun, lock_all, lock_one, no_threads, take_turn,
  turn_from, turn_of,
}
use radix_kv.Cluster.AtomicLock.Transactions.Progress.{CanMove, lock_all-CanMove}
use radix_kv.Cluster.AtomicLock.Transactions.Taking.{Follows, attempts, begin_transaction-Follows}
use radix_kv.Cluster.AtomicLock.Order.{Ascending, member}

sorted_run : sorted_indices (3 ∷ 1 ∷ 3 ∷ 0 ∷ []) ≡ 0 ∷ 1 ∷ 3 ∷ []
unfolding sorted_indices insert_index
sorted_run = refl

begin_transaction-Follows_example :
    (plan : List ℕ) × Ascending 0 plan
    × ((k : ℕ) → member k plan ≡ member k (3 ∷ 1 ∷ 3 ∷ 0 ∷ []))
    × ((ms : List AtomicMutex)
        → let t = (begin_transaction 2 (3 ∷ 1 ∷ 3 ∷ 0 ∷ []) (no_threads 4)).threads 2 in
          let t' = attempts ms t.stage t.held in Follows plan t'.stage t'.held)
unfolding no_threads
begin_transaction-Follows_example =
    begin_transaction-Follows 2 (3 ∷ 1 ∷ 3 ∷ 0 ∷ []) (no_threads 4) refl

-- The threads 0 and 1 want the same two locks, and the first has begun with the lower one.
abbrev two_callers : List LockEvent
two_callers = begins 0 (1 ∷ (0 ∷ [])) ∷ (begins 1 (0 ∷ (1 ∷ [])) ∷ (turn_of 0 ∷ (turn_of 1 ∷ [])))

lock_all-CanMove_example : (k : ℕ) × CanMove (lock_all two_callers (no_threads 2)) k
unfolding lock_all lock_one take_turn turn_from begin_transaction begun sorted_indices insert_index
    no_threads new_mutex try_acquire validate_index compare_exchange attempted
lock_all-CanMove_example = lock_all-CanMove 2 two_callers 1 0 (1 ∷ []) (omega arith) refl
