-- ===== src/Cluster/Router/ReadBack.antt =====
-- src/cluster/cluster-coordinator.ts and src/cluster/worker-thread.ts: the commands on one key meet in
-- one worker, whose engine keeps what the first of them stored for the second.
use radix_kv.Prelude.{
  List, Option, [], ap, arith, list_eq, none, refl, some, ℕ, ◌+◌, ◌<◌, ◌∙◌, ◌∷◌, ◌≡◌,
}
use radix_kv.Prelude.Text.{Bytes, JsString, Utf8, codes, decode}
use radix_kv.Types.{RespValue, bulk_string, of_elements}
use radix_kv.Result.{Result, err, ok}
use radix_kv.Resp.Serializer.{bulk_string_bytes}
use radix_kv.Storage.Engine.{Readings, StorageEngine, get, set_key}
use radix_kv.Storage.Lookups.{Unlimited, get-set_key, kept_until}
use radix_kv.Aof.Entries.{bulk_strings, command_value}
use radix_kv.Commands.Arguments.{UpperCase, argument_of, arguments_of, extract_command_arguments}
use radix_kv.Commands.Handlers.{
  Reply, execute_arguments, handle_get, handle_set, logged, reply, set_options, store, with_aof,
}
use radix_kv.Commands.Handlers
use radix_kv.Commands.Replies.{execute_get, execute_set, upper_name}
use radix_kv.Cluster.Messages.{MasterMessage, WorkerMessage}
use radix_kv.Cluster.Request.{
  CommandInfo, bulk_payload, command_keys, extract_command_info, is_single_key, keys_of, name_of,
}
use radix_kv.Cluster.Worker.{execution_reply, handle_message, worker_execute}
use radix_kv.Cluster.Coordinator.{
  ClusterError, Coordinator, Posted, get_shard_for_key, init, new_coordinator, no_such_shard,
  owner_shard, ring_is_empty, send_to_worker,
}
use radix_kv.Cluster.Coordinator.Shards.{get_shard_for_key_bounds}
use radix_kv.Cluster.Router
use radix_kv.Cluster.ConsistentHash.{RingError}
use radix_kv.Cluster.Router.{Execution, route, send_execute, send_to_owner, waiting}

abbrev pub set_command : Bytes → Bytes → RespValue
set_command key value = command_value (codes "SET" ∷ (key ∷ (value ∷ [])))

-- A client may write the name in lower case.
abbrev pub get_command : Bytes → RespValue
get_command key = command_value (codes "get" ∷ (key ∷ []))

-- The coordinator behind a call that was posted.
abbrev called : Coordinator → Coordinator
called c = record c {
  pending_rpcs = (c.next_rpc_id + 1) ∷ c.pending_rpcs;
  next_rpc_id = c.next_rpc_id + 1;
}

send_execute-live :
    (shard : ℕ) (command : RespValue) (c : Coordinator)
    → shard < c.workers
    → send_execute shard command c
      ≡ (ok ((shard, WorkerMessage.execute (c.next_rpc_id + 1) command) ∷ []), called c)
unfolding send_execute send_to_worker
send_execute-live shard command c h = ground arith

send_to_owner-live :
    (hash : JsString → ℕ) (key : JsString) (shard : ℕ) (command : RespValue) (c : Coordinator)
    → owner_shard hash c key ≡ ok shard
    → shard < c.workers
    → send_to_owner hash key command c
      ≡ (ok ((shard, WorkerMessage.execute (c.next_rpc_id + 1) command) ∷ []), called c)
unfolding send_to_owner
send_to_owner-live hash key shard command c own h =
    rw (own, send_to_owner) (send_execute-live shard command c h)

module _ ⦃u : Utf8⦄ ⦃c : UpperCase⦄ where
  extract_set :
      (key value : Bytes)
      → extract_command_info (set_command key value)
        ≡ some (record { command_name = codes "SET"; keys = decode key ∷ [] })
  unfolding extract_command_info name_of bulk_payload command_keys is_single_key keys_of list_eq
      bulk_strings of_elements
  extract_set key value =
      ap
        (λ name. some (record {
          command_name = name;
          keys = command_keys name (bulk_string (some key) ∷ (bulk_string (some value) ∷ []));
        }))
        (upper_name (codes "SET") (omega arith))

  extract_get :
      (key : Bytes)
      → extract_command_info (get_command key)
        ≡ some (record { command_name = codes "GET"; keys = decode key ∷ [] })
  unfolding extract_command_info name_of bulk_payload command_keys is_single_key keys_of list_eq
      bulk_strings of_elements
  extract_get key =
      ap
        (λ name.
          some (record {
            command_name = name;
            keys = command_keys name (bulk_string (some key) ∷ []);
          }))
        (upper_name (codes "get") (omega arith))

  worker_set :
      (r : Readings) (id : ℕ) (key value : Bytes) (e : StorageEngine)
      → (handle_message r (WorkerMessage.execute id (set_command key value)) e).1
        ≡ set_key r (decode key) value none e
  unfolding handle_message worker_execute Handlers.execute extract_command_arguments arguments_of
      argument_of execute_arguments bulk_strings of_elements handle_set set_options store logged
      with_aof
  worker_set r id key value e =
      ap (λ (q : Reply). q.1.engine)
        (execute_set r (key ∷ (value ∷ [])) (record { engine = e; aof = none }))

  worker_get :
      (r : Readings) (id : ℕ) (key : Bytes) (e : StorageEngine)
      → (handle_message r (WorkerMessage.execute id (get_command key)) e).0
        ≡ some (MasterMessage.response id (reply (bulk_string_bytes (get r.now (decode key) e).0)))
  unfolding handle_message worker_execute Handlers.execute extract_command_arguments arguments_of
      argument_of execute_arguments bulk_strings of_elements handle_get execution_reply
  worker_get r id key e =
      ap (λ (q : Reply). some (execution_reply id q.0))
        (execute_get r (key ∷ []) (record { engine = e; aof = none }))

  -- Without limits, a worker that has run `SET key value` replies to `get key` with the value.
  worker_get-set :
      (r r' : Readings) (id id' : ℕ) (key value : Bytes) (e : StorageEngine)
      → Unlimited e
      → (handle_message r'
          (WorkerMessage.execute id' (get_command key))
          (handle_message r (WorkerMessage.execute id (set_command key value)) e).1).0
        ≡ some (MasterMessage.response id' (reply (bulk_string_bytes (some value))))
  unfolding kept_until
  worker_get-set r r' id id' key value e free =
      worker_get r' id' key _
      ∙ ap
          (λ e'.
            some (
              MasterMessage.response id'
                (reply (bulk_string_bytes (get r'.now (decode key) e').0))))
          (worker_set r id key value e)
      ∙ ap (λ v. some (MasterMessage.response id' (reply (bulk_string_bytes v))))
          ((get-set_key r (decode key) value none e free).0 r'.now)

  -- The two parts of what a route returns, as `execute` returns them.
  abbrev waits_for : Result ClusterError (List Posted) × Coordinator → Execution × Coordinator
  waits_for q = (waiting q.0, q.1)

  execute-routed :
      (hash : JsString → ℕ) (command : RespValue) (info : CommandInfo) (x : Coordinator)
      → extract_command_info command ≡ some info
      → Router.execute hash command x ≡ waits_for (route hash command info.command_name info.keys x)
  unfolding Router.execute
  execute-routed hash command info x h = rw (h, Router.execute) refl

  execute_set-live :
      (hash : JsString → ℕ) (key value : Bytes) (shard : ℕ) (x : Coordinator)
      → owner_shard hash x (decode key) ≡ ok shard
      → shard < x.workers
      → Router.execute hash (set_command key value) x ≡ (
        waiting
            (ok ((shard, WorkerMessage.execute (x.next_rpc_id + 1) (set_command key value)) ∷ [])),
        called x,
      )
  unfolding route
  execute_set-live hash key value shard x own h =
      execute-routed hash (set_command key value) _ x (extract_set key value)
      ∙ ap waits_for (send_to_owner-live hash (decode key) shard (set_command key value) x own h)

  execute_get-live :
      (hash : JsString → ℕ) (key : Bytes) (shard : ℕ) (x : Coordinator)
      → owner_shard hash x (decode key) ≡ ok shard
      → shard < x.workers
      → Router.execute hash (get_command key) x ≡ (
        waiting (ok ((shard, WorkerMessage.execute (x.next_rpc_id + 1) (get_command key)) ∷ [])),
        called x,
      )
  unfolding route
  execute_get-live hash key shard x own h =
      execute-routed hash (get_command key) _ x (extract_get key)
      ∙ ap waits_for (send_to_owner-live hash (decode key) shard (get_command key) x own h)

-- Every key of an initialized coordinator is owned by a worker.
owner_shard_bounds :
    (hash : JsString → ℕ) (n v : ℕ) (key : JsString)
    → 0 < n
    → 0 < v
    → (i : ℕ) × (i < n) × (owner_shard hash (init (new_coordinator hash n v)) key ≡ ok i)
unfolding owner_shard init new_coordinator get_shard_for_key
owner_shard_bounds hash n v key h k =
    let (i, lt, q) = get_shard_for_key_bounds hash n v key h k in
    (
      i,
      lt,
      ap
          (λ (x : Result RingError (Option ℕ)). elim x as (λ _. Result ClusterError ℕ) [
            | err e ↦ err ring_is_empty
            | ok none ↦ err no_such_shard
            | ok (some shard) ↦ ok shard
          ])
          q,
    )

module _ ⦃u : Utf8⦄ ⦃c : UpperCase⦄ where
  -- In an initialized cluster with shards and virtual nodes, whose engines have no limits: the coordinator posts a
  -- client's `SET key value` and the `get key` behind it to one worker, below the number of shards, under
  -- the ids 1 and 2; when that worker has run the first message on its engine, it replies to the second
  -- with the value.
  pub set_get_reply :
      (hash : JsString → ℕ) (n v : ℕ) (r r' : Readings) (key value : Bytes)
      (engines : ℕ → StorageEngine)
      → 0 < n
      → 0 < v
      → ((i : ℕ) → Unlimited (engines i))
      → let x = init (new_coordinator hash n v) in
        (i : ℕ) × ((Router.execute hash (set_command key value) x).0
          ≡ waiting (ok ((i, WorkerMessage.execute 1 (set_command key value)) ∷ [])))
        × ((Router.execute hash
              (get_command key)
              (Router.execute hash (set_command key value) x).1).0
            ≡ waiting (ok ((i, WorkerMessage.execute 2 (get_command key)) ∷ [])))
        × (i < n)
        × ((handle_message r'
              (WorkerMessage.execute 2 (get_command key))
              (handle_message r (WorkerMessage.execute 1 (set_command key value)) (engines i)).1).0
            ≡ some (MasterMessage.response 2 (reply (bulk_string_bytes (some value)))))
  unfolding init new_coordinator owner_shard get_shard_for_key
  set_get_reply hash n v r r' key value engines h k free =
      let x : Coordinator = init (new_coordinator hash n v) in
      let (i, lt, own) = owner_shard_bounds hash n v (decode key) h k in
      let first = execute_set-live hash key value i x own lt in
      (
        i,
        ap (λ q. q.0) first,
        ap (λ q. (Router.execute hash (get_command key) q.1).0) first
            ∙ ap (λ q. q.0) (execute_get-live hash key i (called x) own lt),
        lt,
        worker_get-set r r' 1 2 key value (engines i) (free i),
      )
