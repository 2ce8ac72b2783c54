-- ===== src/Cluster/Tests.antt =====
-- src/cluster/cluster-coordinator.ts: runs and instances.
use radix_kv.Prelude.{List, [], arith, map, refl, some, ℕ, ◌+◌, ◌<◌, ◌∷◌, ◌≡◌, ◌≤◌}
use radix_kv.Prelude.Text.{JsString, codes}
use radix_kv.Prelude.Ascii.{ascii_codec}
use radix_kv.Result.{ok}
use radix_kv.Storage.Engine
use radix_kv.Storage.Engine.{Readings, StorageEngine, get, new_engine}
use radix_kv.Commands.Arguments.{UpperCase, upper_ascii}
use radix_kv.Cluster.Messages.{MasterMessage, WorkerMessage, call_id, reply_id}
use radix_kv.Cluster.Worker.{handle_message, worker_del}
use radix_kv.Cluster.Console.{tokenize_command_line}
use radix_kv.Cluster.Console.RoundTrip.{command_line, tokenize_command_line-command_line}
use radix_kv.Cluster.Coordinator.{
  get_shard_for_key, handle_worker_message, init, new_coordinator, send_to_worker, settle,
}
use radix_kv.Cluster.Coordinator.Shards.{get_shard_for_key_bounds}
use radix_kv.Cluster.Router.{group_keys, waiting}
use radix_kv.Cluster.Router
use radix_kv.Resp.Serializer.{bulk_string_bytes}
use radix_kv.Commands.Handlers.{reply}
use radix_kv.Cluster.Router.Grouping.{IsGrouping, group_keys-keys_owned, keys_in, keys_owned}
use radix_kv.Cluster.Router.ReadBack.{get_command, set_command, set_get_reply}
use radix_kv.Cluster.Rpc.{Reach, Step, System, update}
use radix_kv.Cluster.Rpc.Ids.{count_posted, count_replies, count_settled}
use radix_kv.Cluster.Rpc.Settling.{handle_worker_message_of_Reach, settled_once, started}

instance abbrev ascii_case : UpperCase
ascii_case = record { to_upper = λ s. map upper_ascii s; to_upper-ascii = λ s h. refl }

abbrev readings : Readings
readings = record { now = 5000; heap_before = λ i. 0; heap_after = λ i. 0 }

-- A hash that looks at the first code unit only.
abbrev first_unit : JsString → ℕ
first_unit [] = 0
first_unit (c ∷ s) = c

get_shard_for_key_bounds_example :
    (i : ℕ) × (i < 2)
    × (get_shard_for_key first_unit (new_coordinator first_unit 2 3) (codes "key") ≡ ok (some i))
get_shard_for_key_bounds_example =
    get_shard_for_key_bounds first_unit 2 3 (codes "key") (omega arith) (omega arith)

abbrev two_keys : List JsString
two_keys = codes "a" ∷ (codes "b" ∷ [])

group_keys-keys_owned_example :
    IsGrouping (group_keys first_unit two_keys)
    × ((t : ℕ) → keys_in t (group_keys first_unit two_keys) ≡ keys_owned first_unit t two_keys)
group_keys-keys_owned_example = group_keys-keys_owned first_unit two_keys

abbrev set_tokens : List JsString
set_tokens = codes "SET" ∷ (codes "k" ∷ (codes "it's two" ∷ []))

tokenize_command_line-command_line_example :
    tokenize_command_line (command_line set_tokens) ≡ set_tokens
tokenize_command_line-command_line_example =
    tokenize_command_line-command_line set_tokens (ground arith)

abbrev engines : ℕ → StorageEngine
engines i =
    new_engine (record {
      max_memory_bytes = 0;
      max_keys = 0;
      ttl_sample_size = 20;
      ttl_sweep_max_time_ms = 5;
    })

-- A deletion is sent to the worker 0 of a coordinator with two of them.
abbrev asked : System
asked = record {
  coordinator =
      (send_to_worker 0 (λ id. WorkerMessage.cross_shard_del id two_keys)
        (started first_unit 2 3 engines).coordinator).1;
  posted = (0, WorkerMessage.cross_shard_del 1 two_keys) ∷ [];
  replies = [];
  engines = engines;
  settled = [];
}

asked-Reach : Reach (started first_unit 2 3 engines) asked
unfolding send_to_worker init new_coordinator call_id
asked-Reach =
    Reach.next Reach.here
      (Step.call 0 (λ id. WorkerMessage.cross_shard_del id two_keys) (λ id. refl) (omega arith))

abbrev count_reply : MasterMessage
count_reply = MasterMessage.cross_shard_del_response 1 (Engine.del 5000 two_keys (engines 0)).0

-- The worker has answered.
abbrev answered : System
answered = record asked {
  posted = [];
  replies = count_reply ∷ [];
  engines = update engines 0 (Engine.del 5000 two_keys (engines 0)).1;
}

answered-Reach : Reach (started first_unit 2 3 engines) answered
unfolding handle_message worker_del
answered-Reach =
    Reach.next asked-Reach
      (Step.work readings [] [] 0 (WorkerMessage.cross_shard_del 1 two_keys) refl)

handle_worker_message_of_Reach_example :
    (handle_worker_message count_reply answered.coordinator).0
    ≡ some (reply_id count_reply, settle count_reply)
handle_worker_message_of_Reach_example =
    handle_worker_message_of_Reach first_unit 2 3 engines [] [] count_reply answered-Reach refl

settled_once_example :
    (1 ≤ answered.coordinator.next_rpc_id
      → count_settled 1 [] + (count_posted 1 [] + count_replies 1 (count_reply ∷ [])) ≡ 1)
    × (answered.coordinator.next_rpc_id < 1
        → count_settled 1 [] + (count_posted 1 [] + count_replies 1 (count_reply ∷ [])) ≡ 0)
settled_once_example = settled_once first_unit 2 3 engines 1 answered-Reach (omega arith)

set_get_reply_example :
    let x = init (new_coordinator first_unit 2 3) in
    let set = set_command (codes "key") (codes "one") in
    let get = get_command (codes "key") in
    (i : ℕ) × ((Router.execute first_unit set x).0
      ≡ waiting (ok ((i, WorkerMessage.execute 1 set) ∷ [])))
    × ((Router.execute first_unit get (Router.execute first_unit set x).1).0
        ≡ waiting (ok ((i, WorkerMessage.execute 2 get) ∷ [])))
    × (i < 2)
    × ((handle_message readings
          (WorkerMessage.execute 2 get)
          (handle_message readings (WorkerMessage.execute 1 set) (engines i)).1).0
        ≡ some (MasterMessage.response 2 (reply (bulk_string_bytes (some (codes "one"))))))
unfolding new_engine
set_get_reply_example =
    set_get_reply first_unit 2 3 readings readings (codes "key") (codes "one") engines (omega arith)
      (omega arith) (λ i. (refl, refl))
