-- ===== src/Commands/Tests.antt =====
-- src/command-handler.ts: runs and instances.
use radix_kv.Prelude.{[], false, map, none, refl, some, ◌∷◌, ◌≡◌}
use radix_kv.Prelude.Text.{codes}
use radix_kv.Prelude.Ascii.{ascii_codec}
use radix_kv.Result.{ok}
use radix_kv.Resp.Serializer.{bulk_string_bytes, static_ok}
use radix_kv.Storage.Engine.{Readings, new_engine, set_key}
use radix_kv.Aof.Logger.{AofLogger}
use radix_kv.Commands.Arguments.{UpperCase, upper_ascii}
use radix_kv.Commands.Handlers.{Context, answer, execute_arguments, reply}
use radix_kv.Commands.Replies.{execute_arguments-get, execute_arguments-set_key, with_set_entry}

instance abbrev ascii_case : UpperCase
ascii_case = record { to_upper = λ s. map upper_ascii s; to_upper-ascii = λ s h. refl }

abbrev readings : Readings
readings = record { now = 5000; heap_before = λ i. 0; heap_after = λ i. 0 }

abbrev open_log : AofLogger
open_log = record { is_closed = false; write_queue = []; dirty_bytes = 0 }

abbrev context : Context
context = record {
  engine = new_engine (record {
    max_memory_bytes = 0;
    max_keys = 0;
    ttl_sample_size = 20;
    ttl_sweep_max_time_ms = 5;
  });
  aof = some open_log;
}

execute_arguments-set_key_example :
    execute_arguments readings (codes "SET" ∷ (codes "k" ∷ (codes "v" ∷ []))) context
    ≡ answer static_ok (record {
      engine = set_key readings (codes "k") (codes "v") none context.engine;
      aof = some (with_set_entry (codes "k") (codes "v") open_log);
    })
execute_arguments-set_key_example =
    execute_arguments-set_key readings (codes "k") (codes "v") context open_log refl refl

execute_arguments-get_example :
    (execute_arguments readings
      (codes "get" ∷ (codes "k" ∷ []))
      (execute_arguments readings (codes "SET" ∷ (codes "k" ∷ (codes "v" ∷ []))) context).1).0
    ≡ ok (reply (bulk_string_bytes (some (codes "v"))))
execute_arguments-get_example =
    execute_arguments-get readings readings (codes "k") (codes "v") context open_log refl refl
      (unfold new_engine in (refl, refl))
