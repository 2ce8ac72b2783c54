-- ===== src/Telemetry/Counts.antt =====
-- src/telemetry/telemetry-collector.ts: what the collector's numbers have to do with one another.
use radix_kv.Prelude.{
  Bool, Bool-cases, List, Option, [], arith, false, inl, inr, length, length-append, length-drop,
  min, none, refl, some, true, ℕ, ◌++◌, ◌+◌, ◌∷◌, ◌≡◌, ◌≤◌,
}
use radix_kv.Prelude.Text.{JsString}
use radix_kv.Commands.Arguments.{UpperCase}
use radix_kv.Storage.Views.{Stats}
use radix_kv.Telemetry.HeatMap.{ShardSample}
use radix_kv.Telemetry.{
  Breakdown, Interval, MemoryMetrics, TelemetryCollector, TelemetrySnapshot, add_sample, begin_tick,
  count_command, count_read, decrement_connected_sockets, end_tick, increment_connected_sockets,
  max_samples_per_interval, new_collector, record_command, remember, set_connected_sockets, start,
  stop,
}

-- What may happen to a collector. A tick waits for the shards, so that commands and other ticks may come
-- between its two parts.
pub data CollectorEvent : Type 0 where
  recorded : JsString → ℕ → Option Bool → CollectorEvent
  tick_begun : ℕ → MemoryMetrics → CollectorEvent
  tick_ended : ℕ → Interval → List Stats → List ShardSample → CollectorEvent
  started : ℕ → CollectorEvent
  stopped incremented decremented : CollectorEvent
  sockets_set : ℕ → CollectorEvent

unfoldable pub collect_one :
    ⦃u : UpperCase⦄ → CollectorEvent → TelemetryCollector → TelemetryCollector
collect_one (recorded name duration is_hit) c = record_command name duration is_hit c
collect_one (tick_begun now usage) c = (begin_tick now usage c).1
collect_one (tick_ended timestamp i shards samples) c = (end_tick timestamp i shards samples c).1
collect_one (started now) c = start now c
collect_one stopped c = stop c
collect_one incremented c = increment_connected_sockets c
collect_one decremented c = decrement_connected_sockets c
collect_one (sockets_set n) c = set_connected_sockets n c

unfoldable pub collect :
    ⦃u : UpperCase⦄ → List CollectorEvent → TelemetryCollector → TelemetryCollector
collect [] c = c
collect (e ∷ es) c = collect es (collect_one e c)

unfoldable pub breakdown_total : Breakdown → ℕ
breakdown_total [] = 0
breakdown_total ((n, count) ∷ b) = count + breakdown_total b

pub record CollectorIsValid (c : TelemetryCollector) : Type 0 where
  pub by_name : breakdown_total c.command_breakdown_interval ≡ c.command_count_interval
  pub sampled : length c.latency_samples ≡ min c.command_count_interval max_samples_per_interval
  pub interval_reads : c.hits_interval + c.misses_interval ≤ c.command_count_interval
  pub all_reads : c.total_hits + c.total_misses ≤ c.total_commands
  pub of_interval :
      (c.command_count_interval ≤ c.total_commands)
      × (c.hits_interval ≤ c.total_hits)
      × (c.misses_interval ≤ c.total_misses)
  pub bounded : length c.history ≤ c.history_length

breakdown_total-count_command :
    (name : JsString) (b : Breakdown)
    → breakdown_total (count_command name b) ≡ breakdown_total b + 1
unfolding breakdown_total count_command
breakdown_total-count_command name [] = refl
breakdown_total-count_command name ((n, count) ∷ b) =
    ground (arith, breakdown_total-count_command name b)

length-add_sample :
    (d : ℕ) (ss : List ℕ) (n : ℕ)
    → length ss ≡ min n max_samples_per_interval
    → length (add_sample d ss) ≡ min (n + 1) max_samples_per_interval
unfolding add_sample
length-add_sample d ss n h = ground (arith, h, length-append ss (d ∷ []))

length-remember :
    (limit : ℕ) (s : TelemetrySnapshot) (h : List TelemetrySnapshot)
    → length h ≤ limit
    → length (remember limit s h) ≤ limit
unfolding remember
length-remember limit s h le =
    let longer = h ++ (s ∷ []) in
    let grown = length-append h (s ∷ []) in
    let shifted = length-drop 1 longer in ground (arith, le, grown, shifted)

record_command-CollectorIsValid :
    ⦃u : UpperCase⦄
    → (name : JsString) (d : ℕ) (is_hit : Option Bool) (c : TelemetryCollector) → CollectorIsValid c
    → CollectorIsValid (record_command name d is_hit c)
unfolding record_command count_read
record_command-CollectorIsValid ⦃u⦄ name d is_hit c h =
    let total = breakdown_total-count_command (u.to_upper name) c.command_breakdown_interval in
    let more = length-add_sample d c.latency_samples c.command_count_interval h.sampled in
    elim is_hit as (λ k. CollectorIsValid (record_command name d k c)) [
      | none ↦ record {
        by_name = omega (arith, total, h.by_name);
        sampled = more;
        interval_reads = omega (arith, h.interval_reads);
        all_reads = omega (arith, h.all_reads);
        of_interval = (omega (arith, h.of_interval.0), h.of_interval.1, h.of_interval.2);
        bounded = h.bounded;
      }
      | some true ↦ record {
        by_name = omega (arith, total, h.by_name);
        sampled = more;
        interval_reads = omega (arith, h.interval_reads);
        all_reads = omega (arith, h.all_reads);
        of_interval =
            (omega (arith, h.of_interval.0), omega (arith, h.of_interval.1), h.of_interval.2);
        bounded = h.bounded;
      }
      | some false ↦ record {
        by_name = omega (arith, total, h.by_name);
        sampled = more;
        interval_reads = omega (arith, h.interval_reads);
        all_reads = omega (arith, h.all_reads);
        of_interval =
            (omega (arith, h.of_interval.0), h.of_interval.1, omega (arith, h.of_interval.2));
        bounded = h.bounded;
      }
    ]

begin_tick-CollectorIsValid :
    (now : ℕ) (usage : MemoryMetrics) (c : TelemetryCollector)
    → CollectorIsValid c
    → CollectorIsValid (begin_tick now usage c).1
unfolding begin_tick breakdown_total
begin_tick-CollectorIsValid now usage c h = record {
  by_name = refl;
  sampled = omega arith;
  interval_reads = omega arith;
  all_reads = h.all_reads;
  of_interval = omega arith;
  bounded = h.bounded;
}

end_tick-CollectorIsValid :
    (timestamp : ℕ) (i : Interval) (shards : List Stats) (samples : List ShardSample)
    (c : TelemetryCollector)
    → CollectorIsValid c
    → CollectorIsValid (end_tick timestamp i shards samples c).1
unfolding end_tick
end_tick-CollectorIsValid timestamp i shards samples c h = record {
  by_name = h.by_name;
  sampled = h.sampled;
  interval_reads = h.interval_reads;
  all_reads = h.all_reads;
  of_interval = h.of_interval;
  bounded =
      length-remember c.history_length (end_tick timestamp i shards samples c).0 c.history
        h.bounded;
}

-- The fields that the invariant does not read.
sockets_or_timer :
    {is_started : Bool} {active_sockets last_tick_time : ℕ} (c : TelemetryCollector)
    → CollectorIsValid c
    → CollectorIsValid (record c {
      is_started = is_started;
      active_sockets = active_sockets;
      last_tick_time = last_tick_time;
    })
sockets_or_timer c h = record {
  by_name = h.by_name;
  sampled = h.sampled;
  interval_reads = h.interval_reads;
  all_reads = h.all_reads;
  of_interval = h.of_interval;
  bounded = h.bounded;
}

collect_one-CollectorIsValid :
    ⦃u : UpperCase⦄
    → (e : CollectorEvent) (c : TelemetryCollector) → CollectorIsValid c
    → CollectorIsValid (collect_one e c)
unfolding collect_one start stop set_connected_sockets increment_connected_sockets
    decrement_connected_sockets
collect_one-CollectorIsValid (recorded name d is_hit) c h =
    record_command-CollectorIsValid name d is_hit c h
collect_one-CollectorIsValid (tick_begun now usage) c h = begin_tick-CollectorIsValid now usage c h
collect_one-CollectorIsValid (tick_ended t i shards samples) c h =
    end_tick-CollectorIsValid t i shards samples c h
collect_one-CollectorIsValid (started now) c h = elim (Bool-cases c.is_started) [
  | inl running ↦ rw (running, start) (sockets_or_timer c h)
  | inr fresh ↦ rw (fresh, start) (sockets_or_timer c h)
]
collect_one-CollectorIsValid stopped c h = sockets_or_timer c h
collect_one-CollectorIsValid incremented c h = sockets_or_timer c h
collect_one-CollectorIsValid decremented c h = sockets_or_timer c h
collect_one-CollectorIsValid (sockets_set n) c h = sockets_or_timer c h

collect-CollectorIsValid :
    ⦃u : UpperCase⦄
    → (es : List CollectorEvent) (c : TelemetryCollector) → CollectorIsValid c
    → CollectorIsValid (collect es c)
unfolding collect
collect-CollectorIsValid [] c h = h
collect-CollectorIsValid (e ∷ es) c h =
    collect-CollectorIsValid es (collect_one e c) (collect_one-CollectorIsValid e c h)

-- Whatever commands a new collector records, and whatever ticks come among them: the commands by their
-- names are all the commands of the interval, of which there is a sample each up to the limit; the
-- reads are no more than the commands; and the history is no longer than its limit.
pub collect-new_collector :
    ⦃u : UpperCase⦄
    → (es : List CollectorEvent) (history_length now : ℕ)
    → CollectorIsValid (collect es (new_collector history_length now))
unfolding new_collector breakdown_total
collect-new_collector es history_length now = collect-CollectorIsValid es _ (record {
  by_name = refl;
  sampled = omega arith;
  interval_reads = omega arith;
  all_reads = omega arith;
  of_interval = omega arith;
  bounded = omega arith;
})
