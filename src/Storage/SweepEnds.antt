-- ===== src/Storage/SweepEnds.antt =====
-- src/storage-engine.ts: the loop of `runActiveTtlCycle` ends.
use radix_kv.Prelude.{min, suc, ℕ, ◌*◌, ◌+◌, ◌<◌, ◌≡◌, ◌≤◌}
use radix_kv.Storage.Engine.{StorageEngine, expires_count, size}
use radix_kv.Storage.Sweep.{sweep_batch}

-- The loop's test: more than a quarter of a sample that is not empty was expired.
abbrev pub Many : ℕ → ℕ → Type 0
Many count expired = (0 < count) × (count < expired * 4)

-- The loop of a sweep with no fuel: from a reading of the clock, a draw and an engine it ends after this
-- number of turns with this result. There is a turn only where a key has an expiry, and another only
-- behind many expired keys and before the time limit.
pub data SweepEnds (draw : ℕ → ℕ → ℕ) (clock : ℕ → ℕ) (size limit start : ℕ)
    : (read drawn turns : ℕ) (e : StorageEngine) (r : ℕ × StorageEngine) → Type 0 where
  nothing_left :
      {read drawn : ℕ} {e : StorageEngine}
      → expires_count e ≡ 0
      → SweepEnds draw clock size limit start read drawn 0 e (0, e)
  few_expired :
      {read drawn : ℕ} {e : StorageEngine} (n : ℕ)
      → expires_count e ≡ suc n
      → ¬ Many (min size (suc n)) (sweep_batch draw (clock read) drawn (min size (suc n)) e).0
      → SweepEnds draw clock size limit start read drawn 1 e
          (sweep_batch draw (clock read) drawn (min size (suc n)) e)
  out_of_time :
      {read drawn : ℕ} {e : StorageEngine} (n : ℕ)
      → expires_count e ≡ suc n
      → Many (min size (suc n)) (sweep_batch draw (clock read) drawn (min size (suc n)) e).0
      → start + limit ≤ clock (read + 1)
      → SweepEnds draw clock size limit start read drawn 1 e
          (sweep_batch draw (clock read) drawn (min size (suc n)) e)
  another_turn :
      {read drawn turns : ℕ} {e : StorageEngine} (n : ℕ) {r : ℕ × StorageEngine}
      → expires_count e ≡ suc n
      → Many (min size (suc n)) (sweep_batch draw (clock read) drawn (min size (suc n)) e).0
      → clock (read + 1) < start + limit
      → SweepEnds draw clock size limit start
          (read + 2)
          (drawn + min size (suc n))
          turns
          (sweep_batch draw (clock read) drawn (min size (suc n)) e).1
          r
      → SweepEnds draw clock size limit start read drawn
          (suc turns)
          e
          ((sweep_batch draw (clock read) drawn (min size (suc n)) e).0 + r.0, r.1)
