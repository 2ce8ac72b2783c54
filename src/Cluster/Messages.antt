-- ===== src/Cluster/Messages.antt =====
-- src/cluster/worker-thread.ts: what the coordinator and its workers send to one another.
use radix_kv.Prelude.{List, Option, none, some, ℕ}
use radix_kv.Prelude.Text.{JsString}
use radix_kv.Types.{CommandExecutionResult, RespValue}
use radix_kv.Storage.Views.{Sample, Stats}

-- A request begins with the id of its call. `SHUTDOWN` has none.
pub data WorkerMessage : Type 0 where
  execute : ℕ → RespValue → WorkerMessage
  cross_shard_del : ℕ → List JsString → WorkerMessage
  stats : ℕ → WorkerMessage
  sample_keys : ℕ → Option ℕ → WorkerMessage
  shutdown : WorkerMessage

-- A reply begins with the id of the call that it answers.
pub data MasterMessage : Type 0 where
  response : ℕ → CommandExecutionResult → MasterMessage
  cross_shard_del_response : ℕ → ℕ → MasterMessage
  stats_response : ℕ → Stats → MasterMessage
  sample_keys_response : ℕ → List Sample → MasterMessage
  error_message : ℕ → JsString → MasterMessage

unfoldable pub call_id : WorkerMessage → Option ℕ
call_id (execute id command) = some id
call_id (cross_shard_del id keys) = some id
call_id (stats id) = some id
call_id (sample_keys id limit) = some id
call_id shutdown = none

unfoldable pub reply_id : MasterMessage → ℕ
reply_id (response id r) = id
reply_id (cross_shard_del_response id count) = id
reply_id (stats_response id s) = id
reply_id (sample_keys_response id keys) = id
reply_id (error_message id text) = id
