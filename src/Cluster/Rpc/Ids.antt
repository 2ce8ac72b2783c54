-- ===== src/Cluster/Rpc/Ids.antt =====
-- src/cluster/cluster-coordinator.ts: how often an id stands among the calls and the messages.
use radix_kv.Prelude.{
  List, Option, [], arith, if◌then◌else◌, none, refl, some, true, ℕ, ◌++◌, ◌+◌, ◌<◌, ◌==◌, ◌∷◌, ◌≡◌,
  ◌≢◌,
}
use radix_kv.Prelude.Text.{JsString, Utf8}
use radix_kv.Result.{Result, ok, err}
use radix_kv.Types.{CommandExecutionResult}
use radix_kv.Storage.Engine.{Readings, StorageEngine}
use radix_kv.Commands.Arguments.{UpperCase}
use radix_kv.Cluster.Messages.{MasterMessage, WorkerMessage, call_id, reply_id}
use radix_kv.Cluster.Worker.{execution_reply, handle_message, worker_del, worker_execute}
use radix_kv.Cluster.Coordinator.{Posted, Settled, delete_id, has_id}
use radix_kv.Cluster.Rpc.{option_list}

-- 1 where the two are the same.
abbrev pub one_if : ℕ → ℕ → ℕ
one_if i k = if i == k then 1 else 0

unfoldable pub count_id : ℕ → List ℕ → ℕ
count_id k [] = 0
count_id k (i ∷ is) = one_if i k + count_id k is

abbrev pub one_if_some : Option ℕ → ℕ → ℕ
one_if_some none k = 0
one_if_some (some i) k = one_if i k

unfoldable pub count_posted : ℕ → List Posted → ℕ
count_posted k [] = 0
count_posted k ((shard, m) ∷ ps) = one_if_some (call_id m) k + count_posted k ps

unfoldable pub count_replies : ℕ → List MasterMessage → ℕ
count_replies k [] = 0
count_replies k (m ∷ ms) = one_if (reply_id m) k + count_replies k ms

unfoldable pub count_settled : ℕ → List (ℕ × Settled) → ℕ
count_settled k [] = 0
count_settled k ((i, s) ∷ ss) = one_if i k + count_settled k ss

module _ (k : ℕ) where
  pub count_posted-append :
      (ps qs : List Posted) → count_posted k (ps ++ qs) ≡ count_posted k ps + count_posted k qs
  unfolding count_posted
  count_posted-append [] qs = omega arith
  count_posted-append ((shard, m) ∷ ps) qs = omega (arith, count_posted-append ps qs)

  pub count_replies-append :
      (ms ns : List MasterMessage)
      → count_replies k (ms ++ ns) ≡ count_replies k ms + count_replies k ns
  unfolding count_replies
  count_replies-append [] ns = omega arith
  count_replies-append (m ∷ ms) ns = omega (arith, count_replies-append ms ns)

  pub count_settled-append :
      (ss ts : List (ℕ × Settled))
      → count_settled k (ss ++ ts) ≡ count_settled k ss + count_settled k ts
  unfolding count_settled
  count_settled-append [] ts = omega arith
  count_settled-append ((i, s) ∷ ss) ts = omega (arith, count_settled-append ss ts)

pub has_id_of_count : (id : ℕ) (is : List ℕ) → 0 < count_id id is → has_id id is ≡ true
unfolding count_id has_id
has_id_of_count id [] h = absurd (omega arith)
has_id_of_count id (i ∷ is) h = ground (arith, has_id_of_count id is)

pub count_id-delete_id : (id : ℕ) (is : List ℕ) → count_id id (delete_id id is) ≡ 0
unfolding count_id delete_id
count_id-delete_id id [] = refl
count_id-delete_id id (i ∷ is) = ground (arith, count_id-delete_id id is)

pub count_id-delete_id_other :
    (id k : ℕ) (is : List ℕ) → id ≢ k → count_id k (delete_id id is) ≡ count_id k is
unfolding count_id delete_id
count_id-delete_id_other id k [] ne = refl
count_id-delete_id_other id k (i ∷ is) ne = ground (arith, count_id-delete_id_other id k is ne)

reply_id-execution_reply :
    (id : ℕ) (r : Result JsString CommandExecutionResult) → reply_id (execution_reply id r) ≡ id
unfolding reply_id execution_reply
reply_id-execution_reply id (ok r) = refl
reply_id-execution_reply id (err message) = refl

-- A worker answers a call, and under the call's id.
pub count_replies-handle_message :
    ⦃u : Utf8⦄
    → ⦃c : UpperCase⦄ → (r : Readings) (m : WorkerMessage) (e : StorageEngine) (k : ℕ)
    → count_replies k (option_list (handle_message r m e).0) ≡ one_if_some (call_id m) k
unfolding handle_message count_replies call_id worker_execute worker_del reply_id
count_replies-handle_message r (WorkerMessage.execute id command) e k =
    rw reply_id-execution_reply (omega arith)
count_replies-handle_message r (WorkerMessage.cross_shard_del id keys) e k = omega arith
count_replies-handle_message r (WorkerMessage.stats id) e k = omega arith
count_replies-handle_message r (WorkerMessage.sample_keys id limit) e k = omega arith
count_replies-handle_message r WorkerMessage.shutdown e k = refl
