-- ===== src/Cluster/AtomicLock.antt =====
-- src/cluster/atomic-lock.ts: the words of the shared array, each 0 or 1, and the locks on them. A
-- wait is a turn that changes nothing, so that an acquisition is a compare-and-swap that succeeds.
pub mod Order
pub mod Transactions
mod Tests
use radix_kv.Prelude.{
  Bool, List, [], false, get_elem?, if◌then◌else◌, is_some_byte, leb, length, ltb, replicate, set,
  true, ℕ, ◌==◌, ◌∷◌,
}
use radix_kv.Result.{Result, err, ok, ◌>>=◌}

-- The error of `validateIndex`.
pub data LockError : Type 0 where
  index_out_of_bounds : LockError

pub record AtomicMutex : Type 0 where
  pub state : List ℕ

abbrev pub unlocked : ℕ
unlocked = 0

abbrev pub locked : ℕ
locked = 1

unfoldable pub new_mutex : ℕ → AtomicMutex
new_mutex lock_count = record { state = replicate lock_count 0 }

abbrev pub lock_count : AtomicMutex → ℕ
lock_count m = length m.state

unfoldable pub validate_index : ℕ → AtomicMutex → Result LockError (Unit {0})
validate_index index m = if leb (lock_count m) index then err index_out_of_bounds else ok tt

-- `Atomics.compareExchange(state, index, UNLOCKED, LOCKED) === UNLOCKED`, and the array after it.
unfoldable pub compare_exchange : ℕ → AtomicMutex → Bool × AtomicMutex
compare_exchange index m =
    if is_some_byte (get_elem? m.state index) unlocked
    then (true, record { state = set m.state index locked })
    else (false, m)

unfoldable pub try_acquire : ℕ → AtomicMutex → Result LockError (Bool × AtomicMutex)
try_acquire index m = do _ ← validate_index index m; ok (compare_exchange index m)

unfoldable pub release : ℕ → AtomicMutex → Result LockError AtomicMutex
release index m = do _ ← validate_index index m; ok (record { state = set m.state index unlocked })

-- `Array.from(new Set(indices)).sort((a, b) => a - b)`
unfoldable pub insert_index : ℕ → List ℕ → List ℕ
insert_index i [] = i ∷ []
insert_index i (j ∷ js) =
    let rest = insert_index i js in
    if ltb i j then i ∷ (j ∷ js) else if i == j then j ∷ js else j ∷ rest

unfoldable pub sorted_indices : List ℕ → List ℕ
sorted_indices [] = []
sorted_indices (i ∷ is) = insert_index i (sorted_indices is)
