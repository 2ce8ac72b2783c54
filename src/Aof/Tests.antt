-- ===== src/Aof/Tests.antt =====
-- src/aof-logger.ts: instances.
use radix_kv.Prelude.{List, [], refl, true, ◌∷◌, ◌≡◌}
use radix_kv.Prelude.Text.{codes}
use radix_kv.Prelude.Ascii.{ascii_codec}
use radix_kv.Resp.Serializer.{serialize}
use radix_kv.Aof.Flush.{LogEvent, entry, idle, log_all, open_log, timer_sync, write_end}
use radix_kv.Aof.Flush.Settled.{accepted, goes_well}
use radix_kv.Aof.Flush.Drained.{two_rounds, written-accepted}
use radix_kv.Aof.Logger.{set_ex_entry}
use radix_kv.Aof.Entries.{command_value, set_ex_entry-serialize}

set_ex_entry-serialize_example :
    set_ex_entry (codes "k") (codes "v") (codes "60")
    ≡ serialize
        (command_value (codes "SET" ∷ (codes "k" ∷ (codes "v" ∷ (codes "EX" ∷ (codes "60" ∷ []))))))
set_ex_entry-serialize_example = set_ex_entry-serialize (codes "k") (codes "v") (codes "60")

-- The second entry comes while the first is written.
abbrev two_entries : List LogEvent
two_entries = entry (codes "ab") ∷ (entry (codes "c") ∷ (write_end ∷ (timer_sync 1 ∷ [])))

written-accepted_example :
    ((log_all two_rounds (log_all two_entries (open_log true))).written ≡ accepted two_entries)
    × ((log_all two_rounds (log_all two_entries (open_log true))).flushing ≡ idle)
    × ((log_all two_rounds (log_all two_entries (open_log true))).logger.write_queue ≡ [])
written-accepted_example =
    written-accepted true two_entries (unfold goes_well in (refl, (refl, (refl, (refl, tt)))))
