-- ===== src/Telemetry.antt =====
-- src/telemetry/telemetry-collector.ts: what is counted about the commands, and what a tick makes of it.
pub mod Percentiles
pub mod HeatMap
pub mod Counts
mod Tests
use radix_kv.Prelude.{
  Bool, List, Option, [], drop, false, if◌then◌else◌, length, list_eq, ltb, none, some, true, ℕ,
  ◌*◌, ◌++◌, ◌+◌, ◌-◌, ◌/◌, ◌==◌, ◌∷◌,
}
use radix_kv.Prelude.Text.{JsString}
use radix_kv.Commands.Arguments.{UpperCase}
use radix_kv.Storage.Views.{Stats}
use radix_kv.Telemetry.Percentiles.{LatencyPercentiles, compute_percentiles}
use radix_kv.Telemetry.HeatMap.{Block, ShardSample, generate_memory_heatmap}

-- The number of commands of each name, the names in the order in which they were met.
abbrev pub Breakdown : Type 0
Breakdown = List (JsString × ℕ)

unfoldable pub count_command : JsString → Breakdown → Breakdown
count_command name [] = (name, 1) ∷ []
count_command name ((n, count) ∷ b) =
    let rest = count_command name b in
    if list_eq n name then (n, count + 1) ∷ b else (n, count) ∷ rest

-- `process.memoryUsage()`, in bytes.
pub record MemoryMetrics : Type 0 where
  pub heap_used : ℕ
  pub heap_total : ℕ
  pub rss : ℕ
  pub external : ℕ
  pub array_buffers : ℕ

-- The ratio of the hits is the fraction of the two numbers, and 1 where there were no reads. The fields
-- that repeat others in a unit for a reader are left out. `heatmap` is `none` for more shards than blocks.
pub record TelemetrySnapshot : Type 0 where
  pub timestamp : ℕ
  pub ops_per_sec : ℕ
  pub total_commands : ℕ
  pub latencies : LatencyPercentiles
  pub hit_count : ℕ
  pub miss_count : ℕ
  pub connected_sockets : ℕ
  pub memory : MemoryMetrics
  pub command_breakdown : Breakdown
  pub shard_stats : List Stats
  pub heatmap : Option (List Block)

-- `history` has the oldest snapshot first. Times and durations are in nanoseconds.
pub record TelemetryCollector : Type 0 where
  pub history_length : ℕ
  pub is_started : Bool
  pub active_sockets : ℕ
  pub total_commands : ℕ
  pub command_count_interval : ℕ
  pub command_breakdown_interval : Breakdown
  pub hits_interval : ℕ
  pub misses_interval : ℕ
  pub total_hits : ℕ
  pub total_misses : ℕ
  pub latency_samples : List ℕ
  pub last_tick_time : ℕ
  pub history : List TelemetrySnapshot
  pub latest_snapshot : Option TelemetrySnapshot

unfoldable pub new_collector : (history_length now : ℕ) → TelemetryCollector
new_collector history_length now = record {
  history_length = history_length;
  is_started = false;
  active_sockets = 0;
  total_commands = 0;
  command_count_interval = 0;
  command_breakdown_interval = [];
  hits_interval = 0;
  misses_interval = 0;
  total_hits = 0;
  total_misses = 0;
  latency_samples = [];
  last_tick_time = now;
  history = [];
  latest_snapshot = none;
}

unfoldable pub start : (now : ℕ) → TelemetryCollector → TelemetryCollector
start now c = if c.is_started then c else record c { last_tick_time = now; is_started = true }

unfoldable pub stop : TelemetryCollector → TelemetryCollector
stop c = record c { is_started = false }

-- A set has no negative size, on which `Math.max` would act.
unfoldable pub set_connected_sockets : ℕ → TelemetryCollector → TelemetryCollector
set_connected_sockets count c = record c { active_sockets = count }

unfoldable pub increment_connected_sockets : TelemetryCollector → TelemetryCollector
increment_connected_sockets c = record c { active_sockets = c.active_sockets + 1 }

-- Subtraction stops at 0, as `Math.max(0, …)` does.
unfoldable pub decrement_connected_sockets : TelemetryCollector → TelemetryCollector
decrement_connected_sockets c = record c { active_sockets = c.active_sockets - 1 }

abbrev pub max_samples_per_interval : ℕ
max_samples_per_interval = 20000

unfoldable pub add_sample : ℕ → List ℕ → List ℕ
add_sample duration samples =
    if ltb (length samples) max_samples_per_interval then samples ++ (duration ∷ []) else samples

unfoldable pub count_read : Option Bool → TelemetryCollector → TelemetryCollector
count_read none c = c
count_read (some true) c = record c {
  hits_interval = c.hits_interval + 1;
  total_hits = c.total_hits + 1;
}
count_read (some false) c = record c {
  misses_interval = c.misses_interval + 1;
  total_misses = c.total_misses + 1;
}

unfoldable pub record_command :
    ⦃u : UpperCase⦄
    → JsString
    → (duration : ℕ) → (is_hit : Option Bool) → TelemetryCollector
    → TelemetryCollector
record_command ⦃u⦄ name duration is_hit c = count_read is_hit (record c {
  total_commands = c.total_commands + 1;
  command_count_interval = c.command_count_interval + 1;
  command_breakdown_interval = count_command (u.to_upper name) c.command_breakdown_interval;
  latency_samples = add_sample duration c.latency_samples;
})

-- `Math.round(commands / seconds)`, of exact numbers.
unfoldable pub rate : (commands elapsed : ℕ) → ℕ
rate commands elapsed =
    if elapsed == 0 then 0 else (2 * (commands * 1000000000) + elapsed) / (2 * elapsed)

-- What a tick has read before it waits for the shards.
pub record Interval : Type 0 where
  pub ops : ℕ
  pub percentiles : LatencyPercentiles
  pub breakdown : Breakdown
  pub hits : ℕ
  pub misses : ℕ
  pub usage : MemoryMetrics

unfoldable pub begin_tick :
    (now : ℕ) → MemoryMetrics → TelemetryCollector → Interval × TelemetryCollector
begin_tick now usage c = (
  record {
    ops = rate c.command_count_interval (now - c.last_tick_time);
    percentiles = compute_percentiles c.latency_samples;
    breakdown = c.command_breakdown_interval;
    hits = c.total_hits;
    misses = c.total_misses;
    usage = usage;
  },
  record c {
    last_tick_time = now;
    latency_samples = [];
    command_breakdown_interval = [];
    command_count_interval = 0;
    hits_interval = 0;
    misses_interval = 0;
  },
)

-- `push`, and `shift` where the history has grown too long.
unfoldable pub remember : ℕ → TelemetrySnapshot → List TelemetrySnapshot → List TelemetrySnapshot
remember limit s history =
    let longer = history ++ (s ∷ []) in if ltb limit (length longer) then drop 1 longer else longer

-- The rest of the tick. The statistics and the samples are empty where there is no coordinator, and
-- where its calls are rejected.
unfoldable pub end_tick :
    (timestamp : ℕ)
    → Interval
    → List Stats
    → List ShardSample
    → TelemetryCollector
    → TelemetrySnapshot × TelemetryCollector
end_tick timestamp i shards samples c =
    let s : TelemetrySnapshot = record {
      timestamp = timestamp;
      ops_per_sec = i.ops;
      total_commands = c.total_commands;
      latencies = i.percentiles;
      hit_count = i.hits;
      miss_count = i.misses;
      connected_sockets = c.active_sockets;
      memory = i.usage;
      command_breakdown = i.breakdown;
      shard_stats = shards;
      heatmap = generate_memory_heatmap shards samples;
    } in
    (s, record c { latest_snapshot = some s; history = remember c.history_length s c.history })
