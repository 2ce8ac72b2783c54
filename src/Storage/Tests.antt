-- ===== src/Storage/Tests.antt =====
-- src/storage-engine.ts: runs and instances.
use radix_kv.Prelude.{List, [], arith, list_eq, none, refl, some, ℕ, ◌+◌, ◌∷◌, ◌≡◌, ◌≢◌, ◌≤◌}
use radix_kv.Prelude.Text.{JsString, codes}
use radix_kv.Prelude.Maps.{erase, insert, lookup}
use radix_kv.Storage.ExpiryIndex.{
  ExpiryIndex, Packed, empty_index, pop, swap_with_last, track_expiry, untrack_expiry,
}
use radix_kv.Storage.Packed.{Untracked, untrack_expiry-Untracked}
use radix_kv.Storage.Tracked.{track_expiry-Packed}
use radix_kv.Storage.Engine.{
  Readings, StorageEngine, check_memory_and_evict, count_op, evict_while, expires_count, expiry_of,
  get, new_engine, over_keys, over_memory, put, set_existing, set_key, set_new, size,
}
use radix_kv.Storage.Invariant.{EngineIsValid, tally}
use radix_kv.Storage.Steps.{set_key-EngineIsValid}
use radix_kv.Storage.Sweep.{run_active_ttl_cycle}
use radix_kv.Storage.SweepEnds.{SweepEnds}
use radix_kv.Storage.Swept.{NeverExpired, Swept, run_active_ttl_cycle-Swept}
use radix_kv.Storage.Runs.{
  Operation, op_clear, op_del, op_incr, op_set, op_sweep, operate_all, operate_all-EngineIsValid,
}
use radix_kv.Storage.Sizes.{set_key-AtMost}
use radix_kv.Prelude.Ascii.{ascii_codec}
use radix_kv.Storage.Lookups.{get-set_key, kept_until}

abbrev readings : Readings
readings = record { now = 5000; heap_before = λ i. 0; heap_after = λ i. 0 }

abbrev limited : ℕ → StorageEngine
limited n =
    new_engine (record {
      max_memory_bytes = 0;
      max_keys = n;
      ttl_sample_size = 20;
      ttl_sweep_max_time_ms = 5;
    })

new_engine-EngineIsValid : (n : ℕ) → EngineIsValid (limited n)
unfolding new_engine tally lookup
new_engine-EngineIsValid n = record {
  packed = record {
    placed = λ k i h. absurd (ground arith);
    indexed = λ k i h. absurd (ground arith);
  };
  timed = λ k. refl;
  listed = λ k. refl;
}

-- Two keys, of which the first expires at 7000.
abbrev filled : StorageEngine
filled =
    set_key readings (codes "b") (codes "2") none
      (set_key readings (codes "a") (codes "1") (some 2) (limited 2))

filled-EngineIsValid : EngineIsValid filled
filled-EngineIsValid = set_key-EngineIsValid readings (codes "b") (codes "2") none _ (
    set_key-EngineIsValid readings (codes "a") (codes "1") (some 2) (limited 2)
      (new_engine-EngineIsValid 2))

set_key-EngineIsValid_example : EngineIsValid filled
set_key-EngineIsValid_example = set_key-EngineIsValid readings (codes "b") (codes "2") none _ (
    set_key-EngineIsValid readings (codes "a") (codes "1") (some 2) (limited 2)
      (new_engine-EngineIsValid 2))

-- Keys `a`, `b` and `c`, of which `a` is about to leave.
abbrev three_keys : ExpiryIndex
three_keys = record {
  expires_list = codes "a" ∷ codes "b" ∷ codes "c" ∷ [];
  expires_index_map = (codes "a", 0) ∷ (codes "b", 1) ∷ (codes "c", 2) ∷ [];
}

untrack_run : untrack_expiry (codes "a") three_keys ≡ record {
  expires_list = codes "c" ∷ codes "b" ∷ [];
  expires_index_map = (codes "b", 1) ∷ (codes "c", 0) ∷ [];
}
unfolding untrack_expiry swap_with_last lookup insert erase pop list_eq
untrack_run = refl

a_and_b-Packed : Packed (track_expiry (codes "b") (track_expiry (codes "a") empty_index))
a_and_b-Packed = track_expiry-Packed (codes "b") _ (
    track_expiry-Packed (codes "a") empty_index (record {
      placed = λ k i h. absurd (unfold lookup in ground arith);
      indexed = λ k i h. absurd (ground arith);
    }))

abbrev a_and_b : ExpiryIndex
a_and_b = track_expiry (codes "b") (track_expiry (codes "a") empty_index)

untrack_expiry-Untracked_example :
    Untracked (codes "a") a_and_b (untrack_expiry (codes "a") a_and_b)
untrack_expiry-Untracked_example =
    untrack_expiry-Untracked (codes "a")
      (track_expiry (codes "b") (track_expiry (codes "a") empty_index)) a_and_b-Packed

get-set_key_example :
    ((now : ℕ)
      → (get now (codes "a") (set_key readings (codes "a") (codes "1") (some 2) (limited 0))).0
        ≡ kept_until 5000 (some 2) (codes "1") now)
    × ((now : ℕ) (other : JsString)
        → codes "a" ≢ other
        → (get now other (set_key readings (codes "a") (codes "1") (some 2) (limited 0))).0
          ≡ (get now other (limited 0)).0)
get-set_key_example =
    get-set_key readings (codes "a") (codes "1") (some 2) (limited 0)
      (unfold new_engine in (refl, refl))

filled_run : (expires_count filled ≡ 1) × (size filled ≡ 2) × (filled.options.max_keys ≡ 2)
unfolding set_key put set_existing set_new count_op check_memory_and_evict evict_while over_keys
    over_memory track_expiry lookup insert new_engine expiry_of list_eq
filled_run = (refl, refl, refl)

abbrev draw_first : ℕ → ℕ → ℕ
draw_first i n = 0

-- The first reading is at 9000, when `a` has expired.
abbrev late_clock : ℕ → ℕ
late_clock i = 9000 + i

run_active_ttl_cycle-Swept_example :
    Swept
      (NeverExpired late_clock)
      filled
      (run_active_ttl_cycle draw_first late_clock none none filled)
run_active_ttl_cycle-Swept_example =
    run_active_ttl_cycle-Swept draw_first late_clock none none filled filled-EngineIsValid

-- A clock that stands still, and a sample of no keys.
abbrev stuck_clock : ℕ → ℕ
stuck_clock i = 9000

set_key-AtMost_example :
    (size (set_key readings (codes "c") (codes "3") none filled) ≤ filled.options.max_keys)
    × ((set_key readings (codes "c") (codes "3") none filled).options ≡ filled.options)
set_key-AtMost_example =
    set_key-AtMost readings (codes "c") (codes "3") none filled filled-EngineIsValid
      (omega (arith, filled_run.2)) (omega (arith, filled_run.1, filled_run.2))

abbrev some_operations : List Operation
some_operations =
    op_set readings (codes "a") (codes "1") (some 2)
    ∷ (op_incr readings (codes "a")
        ∷ (op_sweep draw_first late_clock none none
            ∷ (op_del 6000 (codes "a" ∷ []) ∷ (op_clear ∷ []))))

operate_all-EngineIsValid_example : EngineIsValid (operate_all some_operations (limited 2))
unfolding new_engine
operate_all-EngineIsValid_example = operate_all-EngineIsValid some_operations (limited 2).options
