-- ===== src/Telemetry/Tests.antt =====
-- src/telemetry/telemetry-collector.ts: runs and instances.
use radix_kv.Prelude.{
  All, List, [], arith, false, length, map, none, refl, some, true, ℕ, ◌<◌, ◌∷◌, ◌≡◌, ◌≤◌,
}
use radix_kv.Prelude.Text.{codes}
use radix_kv.Prelude.Int.{pos}
use radix_kv.Commands.Arguments.{UpperCase, upper_ascii}
use radix_kv.Storage.Views.{Stats}
use radix_kv.Telemetry.{new_collector}
use radix_kv.Telemetry.Percentiles.{
  Ordered, compute_percentiles, compute_percentiles-Ordered, count_sample, insert_sample,
  percentiles_of, sample_at, sort_samples,
}
use radix_kv.Telemetry.HeatMap.{
  Block, BlockIsValid, ShardSample, block_at, generate_memory_heatmap,
  generate_memory_heatmap-BlockIsValid,
}
use radix_kv.Telemetry.Counts.{
  CollectorEvent, CollectorIsValid, collect, collect-new_collector, incremented, recorded, started,
}

instance abbrev ascii_case : UpperCase
ascii_case = record { to_upper = λ s. map upper_ascii s; to_upper-ascii = λ s h. refl }

abbrev durations : List ℕ
durations = 30 ∷ (10 ∷ (20 ∷ []))

compute_percentiles-Ordered_example :
    Ordered (compute_percentiles durations)
    × ((a : ℕ)
        → 0 < count_sample a durations
        → ((compute_percentiles durations).minimum ≤ a)
          × (a ≤ (compute_percentiles durations).maximum))
compute_percentiles-Ordered_example = compute_percentiles-Ordered durations

median_run : (compute_percentiles durations).p50 ≡ 20
unfolding compute_percentiles percentiles_of sort_samples insert_sample sample_at
median_run = refl

abbrev two_shards : List Stats
two_shards =
    record { size = 100; expires_count = 60; hits = 3; misses = 4; total_ops = 9 }
    ∷ (record { size = 0; expires_count = 0; hits = 0; misses = 0; total_ops = 0 } ∷ [])

abbrev one_sample : List ShardSample
one_sample = (0, record { key = codes "k"; size_bytes = 8; ttl_remaining_ms = pos 500 }) ∷ []

generate_memory_heatmap-BlockIsValid_example :
    (blocks : List Block) × (generate_memory_heatmap two_shards one_sample ≡ some blocks)
    × (length blocks ≡ 64)
    × All (BlockIsValid two_shards) blocks
    × ((s : ℕ) → s < 2 → (i : ℕ) × (b : Block) × (block_at blocks i ≡ some b) × (b.shard_id ≡ s))
generate_memory_heatmap-BlockIsValid_example =
    generate_memory_heatmap-BlockIsValid two_shards (omega arith) (omega arith) one_sample

abbrev some_commands : List CollectorEvent
some_commands =
    recorded (codes "get") 1500 (some true)
    ∷ (recorded (codes "SET") 900 none
        ∷ (recorded (codes "GET") 700 (some false) ∷ (started 10 ∷ (incremented ∷ []))))

collect-new_collector_example : CollectorIsValid (collect some_commands (new_collector 60 0))
collect-new_collector_example = collect-new_collector some_commands 60 0
