-- ===== src/Cluster/Coordinator.antt =====
-- src/cluster/cluster-coordinator.ts: the state, the shards of the keys, and the route of a command.
pub mod Shards
use radix_kv.Prelude.{
  Bool, List, Option, [], false, if◌then◌else◌, ltb, none, some, suc, zero, ℕ, ◌++◌, ◌+◌, ◌==◌,
  ◌||◌, ◌∷◌,
}
use radix_kv.Prelude.Int.{negsuc, pos, ℤ}
use radix_kv.Prelude.Text.{JsString, codes}
use radix_kv.Types.{CommandExecutionResult}
use radix_kv.Result.{Result, ok, err}
use radix_kv.Resp.Decimal.{print_nat}
use radix_kv.Storage.Views.{Sample, Stats}
use radix_kv.Commands.Arguments.{parse_int}
use radix_kv.Cluster.ConsistentHash.{
  ConsistentHashRing, RingError, add_node, get_node, new_ring, vnodes,
}
use radix_kv.Cluster.Messages.{MasterMessage, WorkerMessage, reply_id}
use radix_kv.Cluster.Messages

-- `pending_rpcs` has the ids of the calls that wait, each of them its promise. `workers` is the number
-- of workers, which are named by their index.
pub record Coordinator : Type 0 where
  pub shard_count : ℕ
  pub ring : ConsistentHashRing
  pub workers : ℕ
  pub pending_rpcs : List ℕ
  pub next_rpc_id : ℕ

unfoldable pub shard_name : ℕ → JsString
shard_name i = codes "shard-" ++ print_nat i

-- The loop of the constructor, from the shard `i` on.
unfoldable pub add_shards : (JsString → ℕ) → ℕ → ℕ → ConsistentHashRing → ConsistentHashRing
add_shards hash i zero ring = ring
add_shards hash i (suc left) ring = add_shards hash (i + 1) left (add_node hash (shard_name i) ring)

unfoldable pub new_coordinator : (JsString → ℕ) → (shard_count vnodes : ℕ) → Coordinator
new_coordinator hash shard_count vnodes = record {
  shard_count = shard_count;
  ring = add_shards hash 0 shard_count (new_ring vnodes);
  workers = 0;
  pending_rpcs = [];
  next_rpc_id = 0;
}

-- `init` starts a worker for each shard; a second call does nothing.
unfoldable pub init : Coordinator → Coordinator
init c = if c.workers == 0 then record c { workers = c.shard_count } else c

unfoldable pub strip_prefix : JsString → JsString → Option JsString
strip_prefix [] s = some s
strip_prefix (p ∷ ps) [] = none
strip_prefix (p ∷ ps) (c ∷ s) = let rest = strip_prefix ps s in if c == p then rest else none

-- `s.replace(pattern, '')`: the first occurrence.
unfoldable pub remove_first : JsString → JsString → JsString
remove_first pattern [] = []
remove_first pattern (c ∷ s) = elim (strip_prefix pattern (c ∷ s)) [
  | some rest ↦ rest
  | none ↦ c ∷ remove_first pattern s
]

-- `none` for what is no index of an array.
unfoldable pub index_of : Option ℤ → Option ℕ
index_of none = none
index_of (some (pos n)) = some n
index_of (some (negsuc n)) = none

unfoldable pub shard_of_name : JsString → Option ℕ
shard_of_name node = index_of (parse_int (remove_first (codes "shard-") node))

unfoldable pub get_shard_for_key :
    (JsString → ℕ) → Coordinator → JsString → Result RingError (Option ℕ)
get_shard_for_key hash c key = elim (get_node hash key c.ring) [
  | err e ↦ err e
  | ok node ↦ ok (shard_of_name node)
]

-- What a call may throw or reject with.
pub data ClusterError : Type 0 where
  ring_is_empty no_such_shard : ClusterError

unfoldable pub owner_shard : (JsString → ℕ) → Coordinator → JsString → Result ClusterError ℕ
owner_shard hash c key = elim (get_shard_for_key hash c key) [
  | err e ↦ err ring_is_empty
  | ok none ↦ err no_such_shard
  | ok (some shard) ↦ ok shard
]

-- `sendToWorker` with the next id: the message that is posted, and to whom.
abbrev pub Posted : Type 0
Posted = ℕ × WorkerMessage

unfoldable pub send_to_worker :
    ℕ → (ℕ → WorkerMessage) → Coordinator → Result ClusterError Posted × Coordinator
send_to_worker shard message c =
    let id = c.next_rpc_id + 1 in
    if ltb shard c.workers
    then (ok (shard, message id), record c { pending_rpcs = id ∷ c.pending_rpcs; next_rpc_id = id })
    else (err no_such_shard, record c { next_rpc_id = id })

-- `pendingRpcs.delete(id)`
unfoldable pub delete_id : ℕ → List ℕ → List ℕ
delete_id id [] = []
delete_id id (i ∷ is) = let rest = delete_id id is in if i == id then rest else i ∷ rest

unfoldable pub has_id : ℕ → List ℕ → Bool
has_id id [] = false
has_id id (i ∷ is) = (i == id) || has_id id is

-- What the promise of a call is settled with.
pub data Settled : Type 0 where
  resolved_result : CommandExecutionResult → Settled
  resolved_count : ℕ → Settled
  resolved_stats : Stats → Settled
  resolved_keys : List Sample → Settled
  rejected : JsString → Settled

unfoldable pub settle : MasterMessage → Settled
settle (MasterMessage.response id r) = resolved_result r
settle (MasterMessage.cross_shard_del_response id count) = resolved_count count
settle (MasterMessage.stats_response id s) = resolved_stats s
settle (MasterMessage.sample_keys_response id keys) = resolved_keys keys
settle (MasterMessage.error_message id text) = rejected text

-- The call that is settled, if one waits under the reply's id.
unfoldable pub handle_worker_message :
    MasterMessage → Coordinator → Option (ℕ × Settled) × Coordinator
handle_worker_message m c =
    if has_id (reply_id m) c.pending_rpcs
    then (
      some (reply_id m, settle m),
      record c { pending_rpcs = delete_id (reply_id m) c.pending_rpcs },
    )
    else (none, c)

-- `close`, of what the coordinator keeps.
unfoldable pub close : Coordinator → Coordinator
close c = record c { workers = 0; pending_rpcs = [] }
