-- ===== src/Cluster/AtomicLock/Transactions.antt =====
-- src/cluster/atomic-lock.ts: `withMultiLock` in the threads that share a mutex, a turn for each of its
-- attempts at a lock. Its wait is a turn that changes nothing.
pub mod Turns
pub mod Progress
pub mod Taking
use radix_kv.Prelude.{Bool, List, [], false, if◌then◌else◌, true, ℕ, ◌==◌, ◌∷◌}
use radix_kv.Result.{Result, ok, err}
use radix_kv.Cluster.AtomicLock.{
  AtomicMutex, LockError, lock_count, new_mutex, release, sorted_indices, try_acquire,
}

-- A transaction takes the locks that are left, acts, and gives its locks back. An attempt that throws
-- leaves the locks taken, since `acquireAll` stands outside of the `try`.
pub data Stage : Type 0 where
  acquiring : List ℕ → Stage
  releasing abandoned : Stage

-- The locks that it has, the last one first.
pub record Transaction : Type 0 where
  pub held : List ℕ
  pub stage : Stage

-- The threads are numbered; each runs one transaction after the other.
pub record Threads : Type 0 where
  pub mutex : AtomicMutex
  pub threads : ℕ → Transaction

abbrev pub no_transaction : Transaction
no_transaction = record { held = []; stage = releasing }

-- What an attempt at the lock `i` makes of the transaction.
unfoldable pub attempted :
    ℕ
    → List ℕ
    → List ℕ
    → AtomicMutex
    → Result LockError (Bool × AtomicMutex)
    → Transaction × AtomicMutex
attempted i rest held m (err e) = (record { held = held; stage = abandoned }, m)
attempted i rest held m (ok (true, m')) = (record { held = i ∷ held; stage = acquiring rest }, m')
attempted i rest held m (ok (false, m')) =
    (record { held = held; stage = acquiring (i ∷ rest) }, m')

-- What giving back a lock makes of it.
unfoldable pub given_back :
    List ℕ → AtomicMutex → Result LockError AtomicMutex → Transaction × AtomicMutex
given_back rest m (err e) = (record { held = rest; stage = abandoned }, m)
given_back rest m (ok m') = (record { held = rest; stage = releasing }, m')

-- One turn. The locks go back in descending order, which is the one in which they are held.
unfoldable pub turn_from : Stage → List ℕ → AtomicMutex → Transaction × AtomicMutex
turn_from (acquiring []) held m = (record { held = held; stage = releasing }, m)
turn_from (acquiring (i ∷ is)) held m = attempted i is held m (try_acquire i m)
turn_from releasing [] m = (no_transaction, m)
turn_from releasing (i ∷ is) m = given_back is m (release i m)
turn_from abandoned held m = (record { held = held; stage = abandoned }, m)

abbrev pub with_thread : ℕ → Transaction → (ℕ → Transaction) → ℕ → Transaction
with_thread i t f j = if i == j then t else f j

unfoldable pub take_turn : ℕ → Threads → Threads
take_turn j s =
    let t = s.threads j in
    let (t', m) = turn_from t.stage t.held s.mutex in
    record { mutex = m; threads = with_thread j t' s.threads }

-- A call of `withMultiLock` begins where none is running.
unfoldable pub begun : List ℕ → Stage → List ℕ → Stage
begun is releasing [] = acquiring (sorted_indices is)
begun is releasing (k ∷ ks) = releasing
begun is (acquiring js) held = acquiring js
begun is abandoned held = abandoned

unfoldable pub begin_transaction : ℕ → List ℕ → Threads → Threads
begin_transaction j is s =
    let t = s.threads j in
    record s { threads = with_thread j (record t { stage = begun is t.stage t.held }) s.threads }

pub data LockEvent : Type 0 where
  turn_of : ℕ → LockEvent
  begins : ℕ → List ℕ → LockEvent

unfoldable pub lock_one : LockEvent → Threads → Threads
lock_one (turn_of j) s = take_turn j s
lock_one (begins j is) s = begin_transaction j is s

unfoldable pub lock_all : List LockEvent → Threads → Threads
lock_all [] s = s
lock_all (e ∷ es) s = lock_all es (lock_one e s)

unfoldable pub no_threads : ℕ → Threads
no_threads lock_count = record { mutex = new_mutex lock_count; threads = λ j. no_transaction }
