-- ===== src/Storage/Sweep.antt =====
-- src/storage-engine.ts: `runActiveTtlCycle`. The random indices and the readings of the clock are
-- arguments: the `i`-th draw among `n` keys, and the clock's `i`-th reading.
use radix_kv.Prelude.{
  Bool, Option, false, get_elem?, if◌then◌else◌, leb, ltb, min, none, some, suc, true, zero, ℕ,
  ◌&&◌, ◌*◌, ◌+◌,
}
use radix_kv.Prelude.Text.{JsString}
use radix_kv.Prelude.Maps.{lookup}
use radix_kv.Storage.Engine.{StorageEngine, delete_key, expires_count, is_expired}

-- One turn of the inner loop with a key of the array: is its node expired, and deleted?
unfoldable pub sweep_key : ℕ → JsString → StorageEngine → ℕ × StorageEngine
sweep_key now key e = elim (lookup e.entries key) [
  | none ↦ (0, e)
  | some node ↦ if is_expired now node then (1, delete_key key e) else (0, e)
]

-- A draw beyond the array's end finds no key, and so no node.
unfoldable pub sweep_at : ℕ → ℕ → StorageEngine → ℕ × StorageEngine
sweep_at now index e = elim (get_elem? e.expiry.expires_list index) [
  | none ↦ (0, e)
  | some key ↦ sweep_key now key e
]

-- The inner loop, over `left` draws from the `drawn`-th on: how many keys it deletes.
unfoldable pub sweep_batch : (ℕ → ℕ → ℕ) → ℕ → ℕ → ℕ → StorageEngine → ℕ × StorageEngine
sweep_batch draw now drawn zero e = (0, e)
sweep_batch draw now drawn (suc left) e = elim (expires_count e) [
  | zero ↦ (0, e)
  | suc n ↦
      let (k, e') = sweep_at now (draw drawn (suc n)) e in
      let (m, e'') = sweep_batch draw now (drawn + 1) left e' in (k + m, e'')
]

-- More than a quarter of the sampled keys were expired.
abbrev pub many_expired : ℕ → ℕ → Bool
many_expired count expired = ltb 0 count && ltb count (expired * 4)

-- The outer loop: `read` counts the readings of the clock and `drawn` the draws, and the sweep began
-- at `start`.
unfoldable pub sweep_loop :
    ℕ
    → (ℕ → ℕ → ℕ)
    → (ℕ → ℕ)
    → (sample_size time_limit start read drawn : ℕ) → StorageEngine
    → ℕ × StorageEngine
sweep_loop zero draw clock sample_size time_limit start read drawn e = (0, e)
sweep_loop (suc fuel) draw clock sample_size time_limit start read drawn e =
    elim (expires_count e) [
      | zero ↦ (0, e)
      | suc n ↦
          let count = min sample_size (suc n) in
          let (expired, e') = sweep_batch draw (clock read) drawn count e in
          elim (many_expired count expired) [
            | false ↦ (expired, e')
            | true ↦ elim (leb (start + time_limit) (clock (read + 1))) [
              | true ↦ (expired, e')
              | false ↦
                  let (more, e'') =
                    sweep_loop fuel draw clock sample_size time_limit start (read + 2)
                      (drawn + count) e' in
                  (expired + more, e'')
            ]
          ]
    ]

-- The default arguments are those of the engine's options.
unfoldable pub run_active_ttl_cycle :
    (ℕ → ℕ → ℕ) → (ℕ → ℕ) → (sample_size max_time : Option ℕ) → StorageEngine → ℕ × StorageEngine
run_active_ttl_cycle draw clock sample_size max_time e =
    sweep_loop (expires_count e + 1) draw clock
      (elim sample_size [ none ↦ e.options.ttl_sample_size | some n ↦ n ])
      (elim max_time [ none ↦ e.options.ttl_sweep_max_time_ms | some t ↦ t ]) (clock 0) 1 0 e
