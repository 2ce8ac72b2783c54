-- ===== src/Telemetry/HeatMap.antt =====
-- src/telemetry/telemetry-collector.ts: the 64 blocks of the heat map.
use radix_kv.Prelude.{
  All, Bool, List, Option, [], ap, arith, false, if◌then◌else◌, length, length-take, ltb, max, min,
  ne→==_false, none, refl, some, suc, take, zero, ℕ, ◌&&◌, ◌*◌, ◌+◌, ◌-◌, ◌/◌, ◌<◌, ◌==◌, ◌||◌, ◌∙◌,
  ◌∷◌, ◌≡◌, ◌≤◌,
}
use radix_kv.Prelude.Int.{negsuc, pos, ℤ}
use radix_kv.Prelude.Text.{JsString}
use radix_kv.Storage.Views.{Sample, Stats}
use native.Mathlib.Nat.{le-div_iff_mul-le, mul-div-le, mul-le-mul_right, mul-div_cancel, suc-mul}

pub data TtlHealth : Type 0 where
  healthy warning expiring : TtlHealth

-- A sampled key with its shard.
abbrev pub ShardSample : Type 0
ShardSample = ℕ × Sample

-- The block with number `block_id`; its range in percent, a text, is left out.
pub record Block : Type 0 where
  pub block_id : ℕ
  pub shard_id : ℕ
  pub key_count : ℕ
  pub size_bytes : ℕ
  pub utilization_pct : ℕ
  pub ttl_health : TtlHealth
  pub sample_keys : List JsString

abbrev pub total_blocks : ℕ
total_blocks = 64

-- `Math.round(n / d)`, of exact numbers.
abbrev pub round_div : ℕ → ℕ → ℕ
round_div n d = (2 * n + d) / (2 * d)

unfoldable pub shard_count_of : List Stats → ℕ
shard_count_of shards = max 1 (length shards)

unfoldable pub blocks_per_shard : List Stats → ℕ
blocks_per_shard shards = total_blocks / shard_count_of shards

-- The shard of a block, where a shard has a block.
unfoldable pub block_shard : List Stats → ℕ → ℕ
block_shard shards i = min (shard_count_of shards - 1) (i / blocks_per_shard shards)

-- `shardStats[shardId] || { keyCount: 0, expiresCount: 0 }`
unfoldable pub shard_stats_at : List Stats → ℕ → Stats
shard_stats_at [] i = record { size = 0; expires_count = 0; hits = 0; misses = 0; total_ops = 0 }
shard_stats_at (s ∷ ss) zero = s
shard_stats_at (s ∷ ss) (suc i) = shard_stats_at ss i

unfoldable pub keys_of_shard : ℕ → List ShardSample → List Sample
keys_of_shard shard [] = []
keys_of_shard shard ((i, k) ∷ ks) =
    let rest = keys_of_shard shard ks in if i == shard then k ∷ rest else rest

unfoldable pub sample_names : List Sample → List JsString
sample_names [] = []
sample_names (k ∷ ks) = k.key ∷ sample_names ks

-- Between 0 and ten seconds, both excluded.
unfoldable pub is_expiring_soon : ℤ → Bool
is_expiring_soon (pos n) = ltb 0 n && ltb n 10000
is_expiring_soon (negsuc n) = false

unfoldable pub some_expiring : List Sample → Bool
some_expiring [] = false
some_expiring (k ∷ ks) = is_expiring_soon k.ttl_remaining_ms || some_expiring ks

-- A warning from more than two keys in five with an expiry on.
unfoldable pub ttl_health_of : Stats → List Sample → TtlHealth
ttl_health_of s keys =
    if ltb 0 s.expires_count
    then (if some_expiring keys
        then expiring
        else if ltb (s.size * 4) (s.expires_count * 10)
        then warning
        else healthy)
    else healthy

-- Of the keys that a block is thought to have. A shard with keys has no block that looks empty.
unfoldable pub utilization : (keys_in_block keys_in_shard : ℕ) → ℕ
utilization keys_in_block keys_in_shard =
    let pct = min 100 (2 * keys_in_block) in if (pct == 0) && ltb 0 keys_in_shard then 12 else pct

unfoldable pub make_block : List Stats → List ShardSample → ℕ → Block
make_block shards samples i =
    let shard_id = block_shard shards i in
    let shard = shard_stats_at shards shard_id in
    let keys = keys_of_shard shard_id samples in
    let estimated = round_div shard.size (blocks_per_shard shards) in
    record {
      block_id = i;
      shard_id = shard_id;
      key_count = estimated;
      size_bytes = estimated * 128;
      utilization_pct = utilization estimated shard.size;
      ttl_health = ttl_health_of shard keys;
      sample_keys = sample_names (take 3 keys);
    }

-- The loop from the block `i` on.
unfoldable pub make_blocks : List Stats → List ShardSample → ℕ → ℕ → List Block
make_blocks shards samples i zero = []
make_blocks shards samples i (suc left) =
    make_block shards samples i ∷ make_blocks shards samples (i + 1) left

-- `none` where there are more shards than blocks: the source divides by 0 then, and its blocks hold NaN
-- and Infinity.
unfoldable pub generate_memory_heatmap : List Stats → List ShardSample → Option (List Block)
generate_memory_heatmap shards samples =
    if blocks_per_shard shards == 0 then none else some (make_blocks shards samples 0 total_blocks)

-- What the heat map promises of a block.
pub record BlockIsValid (shards : List Stats) (b : Block) : Type 0 where
  pub of_shard : b.shard_id < shard_count_of shards
  pub percent : b.utilization_pct ≤ 100
  pub shown : 0 < (shard_stats_at shards b.shard_id).size → 0 < b.utilization_pct
  pub few : length b.sample_keys ≤ 3

length-sample_names : (ks : List Sample) → length (sample_names ks) ≡ length ks
unfolding sample_names
length-sample_names [] = refl
length-sample_names (k ∷ ks) = ap suc (length-sample_names ks)

make_block-BlockIsValid :
    (shards : List Stats) (samples : List ShardSample) (i : ℕ)
    → BlockIsValid shards (make_block shards samples i)
unfolding make_block block_shard shard_count_of utilization
make_block-BlockIsValid shards samples i =
    let keys = keys_of_shard (block_shard shards i) samples in
    record {
      of_shard = omega arith;
      percent = ground arith;
      shown = ground arith;
      few = omega (arith, length-sample_names (take 3 keys), length-take 3 keys);
    }

length-make_blocks :
    (shards : List Stats) (samples : List ShardSample) (i left : ℕ)
    → length (make_blocks shards samples i left) ≡ left
unfolding make_blocks
length-make_blocks shards samples i zero = refl
length-make_blocks shards samples i (suc left) =
    ap suc (length-make_blocks shards samples (i + 1) left)

make_blocks-BlockIsValid :
    (shards : List Stats) (samples : List ShardSample) (i left : ℕ)
    → All (BlockIsValid shards) (make_blocks shards samples i left)
unfolding make_blocks
make_blocks-BlockIsValid shards samples i zero = tt
make_blocks-BlockIsValid shards samples i (suc left) =
    (make_block-BlockIsValid shards samples i, make_blocks-BlockIsValid shards samples (i + 1) left)

unfoldable pub block_at : List Block → ℕ → Option Block
block_at [] i = none
block_at (b ∷ bs) zero = some b
block_at (b ∷ bs) (suc i) = block_at bs i

block_at-make_blocks :
    (shards : List Stats) (samples : List ShardSample) (i left j : ℕ)
    → j < left
    → block_at (make_blocks shards samples i left) j ≡ some (make_block shards samples (i + j))
unfolding block_at make_blocks
block_at-make_blocks shards samples i zero j h = absurd (omega arith)
block_at-make_blocks shards samples i (suc left) zero h =
    ap (λ n. some (make_block shards samples n)) (omega arith)
block_at-make_blocks shards samples i (suc left) (suc j) h =
    block_at-make_blocks shards samples (i + 1) left j (omega arith)
    ∙ ap (λ n. some (make_block shards samples n)) (omega arith)

module _ (shards : List Stats) (some_shard : 0 < length shards) (le : length shards ≤ 64) where
  blocks_per_shard_pos : 0 < blocks_per_shard shards
  unfolding blocks_per_shard shard_count_of
  blocks_per_shard_pos = (le-div_iff_mul-le {x = 1} (omega arith)).1 (omega arith)

  -- The first block of a shard is one of the blocks.
  first_block_lt : (s : ℕ) → s < length shards → s * blocks_per_shard shards < total_blocks
  unfolding blocks_per_shard shard_count_of
  first_block_lt s lt =
      let n = max 1 (length shards) in
      let q = total_blocks / n in
      let most = mul-div-le total_blocks n in
      let more = mul-le-mul_right {m = suc s} {n = n} q (omega arith) in
      omega (arith, most, more, blocks_per_shard_pos, suc-mul s q)

  block_shard_of_first :
      (s : ℕ) → s < length shards → block_shard shards (s * blocks_per_shard shards) ≡ s
  unfolding block_shard shard_count_of
  block_shard_of_first s lt = omega (arith, mul-div_cancel s blocks_per_shard_pos)

  -- Of at least one shard and at most 64: the heat map has 64 blocks. Each is of a shard that there is,
  -- is at most full, is not empty where its shard has keys, and names at most three of them; and each
  -- shard has a block.
  pub generate_memory_heatmap-BlockIsValid :
      (samples : List ShardSample)
      → (blocks : List Block) × (generate_memory_heatmap shards samples ≡ some blocks)
        × (length blocks ≡ 64)
        × All (BlockIsValid shards) blocks
        × ((s : ℕ)
            → s < length shards
            → (i : ℕ) × (b : Block) × (block_at blocks i ≡ some b) × (b.shard_id ≡ s))
  unfolding generate_memory_heatmap make_block
  generate_memory_heatmap-BlockIsValid samples =
      let size = blocks_per_shard shards in
      (
        make_blocks shards samples 0 total_blocks,
        rw (ne→==_false size 0 (omega (arith, blocks_per_shard_pos))) refl,
        length-make_blocks shards samples 0 total_blocks,
        make_blocks-BlockIsValid shards samples 0 total_blocks,
        λ s lt. (
          s * size,
          make_block shards samples (0 + s * size),
          block_at-make_blocks shards samples 0 total_blocks (s * size) (first_block_lt s lt),
          ap (block_shard shards) {x = 0 + s * size} {y = s * size} (omega arith)
              ∙ block_shard_of_first s lt,
        ),
      )
