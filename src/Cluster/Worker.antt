-- ===== src/Cluster/Worker.antt =====
-- src/cluster/worker-thread.ts: the handler of a worker's messages. The engine is the worker's own;
-- the mutex is shared with the coordinator.
use radix_kv.Prelude.{Bool, List, Option, [], false, none, some, true, ℕ, ◌∷◌}
use radix_kv.Prelude.Text.{JsString, Utf8, codes}
use radix_kv.Types.{CommandExecutionResult, RespValue}
use radix_kv.Result.{Result, ok, err}
use radix_kv.Storage.Engine.{Readings, StorageEngine}
use radix_kv.Storage.Engine
use radix_kv.Storage.Views
use radix_kv.Commands.Arguments.{UpperCase}
use radix_kv.Commands.Handlers
use radix_kv.Cluster.Messages.{MasterMessage, WorkerMessage}

-- What `err.message || 'Worker execution error'` is.
unfoldable pub message_or : JsString → JsString → JsString
message_or fallback [] = fallback
message_or fallback (c ∷ s) = c ∷ s

unfoldable pub execution_reply : ℕ → Result JsString CommandExecutionResult → MasterMessage
execution_reply id (ok r) = MasterMessage.response id r
execution_reply id (err message) =
    MasterMessage.error_message id (message_or (codes "Worker execution error") message)

unfoldable pub worker_execute :
    ⦃u : Utf8⦄
    → ⦃c : UpperCase⦄ → Readings
    → ℕ
    → RespValue
    → StorageEngine
    → MasterMessage × StorageEngine
worker_execute r id command e =
    let (result, x) = Handlers.execute r command (record { engine = e; aof = none }) in
    (execution_reply id result, x.engine)

unfoldable pub worker_del :
    Readings → ℕ → List JsString → StorageEngine → MasterMessage × StorageEngine
worker_del r id keys e =
    let (count, e') = Engine.del r.now keys e in
    (MasterMessage.cross_shard_del_response id count, e')

-- A turn of the handler: the reply if there is one, the engine, and whether the worker goes on. The
-- deletion of a cross-shard command runs between the acquisition and the release of the shard's lock;
-- a worker that waits for the lock has not taken the turn.
unfoldable pub handle_message :
    ⦃u : Utf8⦄
    → ⦃c : UpperCase⦄ → Readings
    → WorkerMessage
    → StorageEngine
    → Option MasterMessage × StorageEngine × Bool
handle_message r WorkerMessage.shutdown e = (none, e, false)
handle_message r (WorkerMessage.execute id command) e =
    let (m, e') = worker_execute r id command e in (some m, e', true)
handle_message r (WorkerMessage.cross_shard_del id keys) e =
    let (m, e') = worker_del r id keys e in (some m, e', true)
handle_message r (WorkerMessage.stats id) e =
    (some (MasterMessage.stats_response id (Views.get_stats e)), e, true)
handle_message r (WorkerMessage.sample_keys id limit) e =
    let n : ℕ = elim limit [ none ↦ 64 | some l ↦ l ] in
    (some (MasterMessage.sample_keys_response id (Views.sample_keys r.now n e)), e, true)
