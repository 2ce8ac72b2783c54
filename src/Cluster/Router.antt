-- ===== src/Cluster/Router.antt =====
-- src/cluster/cluster-coordinator.ts: `execute`, up to the messages that it posts, and the replies that
-- it makes of theirs. The nodes of the ring are all named after a shard, so that a key whose shard is not
-- a number is refused before anything is sent.
pub mod Grouping
pub mod ReadBack
use radix_kv.Prelude.{List, [], false, if◌then◌else◌, list_eq, none, some, ℕ, ◌++◌, ◌+◌, ◌==◌, ◌∷◌}
use radix_kv.Prelude.Int.{pos}
use radix_kv.Prelude.Text.{Bytes, JsString, Utf8, codes}
use radix_kv.Types.{CommandExecutionResult, RespValue}
use radix_kv.Result.{Result, ok, err}
use radix_kv.Resp.Serializer.{error_bytes, integer_bytes}
use radix_kv.Commands.Arguments.{UpperCase}
use radix_kv.Storage.Views.{Sample, Stats}
use radix_kv.Cluster.Messages.{WorkerMessage, response}
use radix_kv.Cluster.Messages
use radix_kv.Cluster.Request.{extract_command_info}
use radix_kv.Cluster.Coordinator.{ClusterError, Coordinator, Posted, owner_shard, send_to_worker}

-- `shardKeyMap`: the shards in the order in which they were met, each with its keys in their order.
abbrev pub Groups : Type 0
Groups = List (ℕ × List JsString)

unfoldable pub add_key : ℕ → JsString → Groups → Groups
add_key shard key [] = (shard, key ∷ []) ∷ []
add_key shard key ((s, keys) ∷ gs) =
    let rest = add_key shard key gs in
    if s == shard then (s, keys ++ (key ∷ [])) ∷ gs else (s, keys) ∷ rest

-- The loop over the keys. `shard_of` is what `getShardForKey` returns on a ring with entries.
unfoldable pub group_from : (JsString → ℕ) → List JsString → Groups → Groups
group_from shard_of [] gs = gs
group_from shard_of (key ∷ keys) gs = group_from shard_of keys (add_key (shard_of key) key gs)

unfoldable pub group_keys : (JsString → ℕ) → List JsString → Groups
group_keys shard_of keys = group_from shard_of keys []

-- A message for each group; what cannot be sent makes the whole call reject.
unfoldable pub send_dels : Groups → Coordinator → Result ClusterError (List Posted) × Coordinator
send_dels [] c = (ok [], c)
send_dels ((shard, keys) ∷ gs) c =
    let (first, c') = send_to_worker shard (λ id. WorkerMessage.cross_shard_del id keys) c in
    let (others, c'') = send_dels gs c' in
    (elim first [ err e ↦ err e | ok p ↦ elim others [ err e ↦ err e | ok ps ↦ ok (p ∷ ps) ] ], c'')

unfoldable pub send_execute :
    ℕ → RespValue → Coordinator → Result ClusterError (List Posted) × Coordinator
send_execute shard command c =
    let (p, c') = send_to_worker shard (λ id. WorkerMessage.execute id command) c in
    (elim p [ err e ↦ err e | ok m ↦ ok (m ∷ []) ], c')

-- The shards of the keys, or the error of the first key that has none.
unfoldable pub owners : (JsString → ℕ) → Coordinator → List JsString → Result ClusterError (List ℕ)
owners hash c [] = ok []
owners hash c (key ∷ keys) = elim (owner_shard hash c key) [
  | err e ↦ err e
  | ok s ↦ elim (owners hash c keys) [ err e ↦ err e | ok ss ↦ ok (s ∷ ss) ]
]

-- The shard of a key that has one.
unfoldable pub shard_or_zero : Result ClusterError ℕ → ℕ
shard_or_zero (ok s) = s
shard_or_zero (err e) = 0

-- `executeCrossShardDel`, of which the ring's lookup may throw before anything is sent.
unfoldable pub cross_shard_del :
    (JsString → ℕ) → List JsString → Coordinator → Result ClusterError (List Posted) × Coordinator
cross_shard_del hash keys c = elim (owners hash c keys) [
  | err e ↦ (err e, c)
  | ok shards ↦ send_dels (group_keys (λ key. shard_or_zero (owner_shard hash c key)) keys) c
]

unfoldable pub send_to_owner :
    (JsString → ℕ)
    → JsString
    → RespValue
    → Coordinator
    → Result ClusterError (List Posted) × Coordinator
send_to_owner hash key command c = elim (owner_shard hash c key) [
  | err e ↦ (err e, c)
  | ok shard ↦ send_execute shard command c
]

unfoldable pub route :
    (JsString → ℕ)
    → RespValue
    → JsString
    → List JsString
    → Coordinator
    → Result ClusterError (List Posted) × Coordinator
route hash command name [] c = send_execute 0 command c
route hash command name (key ∷ []) c = send_to_owner hash key command c
route hash command name (key ∷ (k ∷ keys)) c =
    if list_eq name (codes "DEL")
    then cross_shard_del hash (key ∷ (k ∷ keys)) c
    else send_to_owner hash key command c

-- A reply at once, or what the call waits for.
pub data Execution : Type 0 where
  replied : Bytes → Execution
  waiting : Result ClusterError (List Posted) → Execution

unfoldable pub execute :
    ⦃u : Utf8⦄
    → ⦃c : UpperCase⦄ → (JsString → ℕ)
    → RespValue
    → Coordinator
    → Execution × Coordinator
execute hash command c = elim (extract_command_info command) [
  | none ↦ (replied (error_bytes (codes "Invalid command structure") (codes "ERR")), c)
  | some info ↦
      let (posted, c') = route hash command info.command_name info.keys c in (waiting posted, c')
]

-- `counts.reduce((acc, c) => acc + c, 0)`
unfoldable pub total_deleted : List ℕ → ℕ
total_deleted [] = 0
total_deleted (n ∷ ns) = n + total_deleted ns

unfoldable pub del_response : ⦃u : Utf8⦄ → List ℕ → CommandExecutionResult
del_response counts = record {
  response = integer_bytes (pos (total_deleted counts));
  should_close = false;
}

-- `getClusterStats`, once the workers have replied. The ratio is the fraction of the two numbers, and 1
-- where there were no reads.
pub record ClusterStats : Type 0 where
  pub total_keys : ℕ
  pub total_expires : ℕ
  pub hits : ℕ
  pub misses : ℕ
  pub total_ops : ℕ
  pub shards : List (ℕ × Stats)

unfoldable pub add_stats : ℕ → List Stats → ClusterStats → ClusterStats
add_stats i [] t = t
add_stats i (s ∷ ss) t = add_stats (i + 1) ss (record t {
  total_keys = t.total_keys + s.size;
  total_expires = t.total_expires + s.expires_count;
  hits = t.hits + s.hits;
  misses = t.misses + s.misses;
  total_ops = t.total_ops + s.total_ops;
  shards = t.shards ++ ((i, s) ∷ []);
})

unfoldable pub cluster_stats : List Stats → ClusterStats
cluster_stats ss =
    add_stats 0 ss (record {
      total_keys = 0;
      total_expires = 0;
      hits = 0;
      misses = 0;
      total_ops = 0;
      shards = [];
    })

unfoldable pub with_shard : ℕ → List Sample → List (ℕ × Sample)
with_shard i [] = []
with_shard i (k ∷ ks) = (i, k) ∷ with_shard i ks

-- `sampleClusterKeys`, once the workers have replied, from the shard `i` on.
unfoldable pub cluster_samples : ℕ → List (List Sample) → List (ℕ × Sample)
cluster_samples i [] = []
cluster_samples i (ks ∷ kss) = with_shard i ks ++ cluster_samples (i + 1) kss
