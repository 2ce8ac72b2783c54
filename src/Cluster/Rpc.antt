-- ===== src/Cluster/Rpc.antt =====
-- src/cluster/cluster-coordinator.ts and src/cluster/worker-thread.ts: the coordinator and its workers
-- as a step relation. The messages under way are two lists, and any of them may be the next to
-- arrive; the ports keep an order, which nothing below needs. The coordinator is not closed.
pub mod Ids
pub mod Settling
use radix_kv.Prelude.{
  List, Option, [], if◌then◌else◌, none, some, ℕ, ◌++◌, ◌+◌, ◌<◌, ◌==◌, ◌∷◌, ◌≡◌, ◌≤◌,
}
use radix_kv.Prelude.Text.{JsString, Utf8}
use radix_kv.Storage.Engine.{Readings, StorageEngine}
use radix_kv.Commands.Arguments.{UpperCase}
use radix_kv.Cluster.Messages.{MasterMessage, WorkerMessage, call_id}
use radix_kv.Cluster.Messages
use radix_kv.Cluster.Worker.{handle_message}
use radix_kv.Cluster.Coordinator.{
  Coordinator, Posted, Settled, handle_worker_message, rejected, send_to_worker,
}

-- `settled` has the calls whose promises are settled, in that order.
pub record System : Type 0 where
  pub coordinator : Coordinator
  pub posted : List Posted
  pub replies : List MasterMessage
  pub engines : ℕ → StorageEngine
  pub settled : List (ℕ × Settled)

abbrev pub update : (ℕ → StorageEngine) → ℕ → StorageEngine → ℕ → StorageEngine
update f i e j = if i == j then e else f j

abbrev pub option_list {ℓ} : {A : Type ℓ} → Option A → List A
option_list none = []
option_list (some a) = a ∷ []

-- The message carries the id that it is given.
abbrev pub IsCall : (ℕ → WorkerMessage) → Type 0
IsCall message = (id : ℕ) → call_id (message id) ≡ some id

-- A caller sends to a worker, or to none; a worker takes a message; the coordinator takes a reply.
pub data Step ⦃u : Utf8⦄ ⦃c : UpperCase⦄ (s : System) : System → Type 0 where
  call :
      (shard : ℕ) (message : ℕ → WorkerMessage)
      → IsCall message
      → shard < s.coordinator.workers
      → Step s (record s {
        coordinator = (send_to_worker shard message s.coordinator).1;
        posted = s.posted ++ ((shard, message (s.coordinator.next_rpc_id + 1)) ∷ []);
      })
  refuse :
      (shard : ℕ) (message : ℕ → WorkerMessage) (reason : JsString)
      → s.coordinator.workers ≤ shard
      → Step s (record s {
        coordinator = (send_to_worker shard message s.coordinator).1;
        settled = s.settled ++ ((s.coordinator.next_rpc_id + 1, rejected reason) ∷ []);
      })
  work :
      (r : Readings) (before after : List Posted) (shard : ℕ) (m : WorkerMessage)
      → s.posted ≡ before ++ ((shard, m) ∷ after)
      → Step s (record s {
        posted = before ++ after;
        replies = s.replies ++ option_list (handle_message r m (s.engines shard)).0;
        engines = update s.engines shard (handle_message r m (s.engines shard)).1;
      })
  receive :
      (before after : List MasterMessage) (m : MasterMessage)
      → s.replies ≡ before ++ (m ∷ after)
      → Step s (record s {
        coordinator = (handle_worker_message m s.coordinator).1;
        replies = before ++ after;
        settled = s.settled ++ option_list (handle_worker_message m s.coordinator).0;
      })

pub data Reach ⦃u : Utf8⦄ ⦃c : UpperCase⦄ (s : System) : System → Type 0 where
  here : Reach s s
  next : {t v : System} → Reach s t → Step t v → Reach s v

abbrev pub initial : Coordinator → (ℕ → StorageEngine) → System
initial c engines = record {
  coordinator = c;
  posted = [];
  replies = [];
  engines = engines;
  settled = [];
}
