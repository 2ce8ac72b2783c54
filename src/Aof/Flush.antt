-- ===== src/Aof/Flush.antt =====
-- src/aof-logger.ts: the flush of the queue to the file. The file is what the platform has taken in,
-- and how much of it is on the disk; its calls end in steps of their own.
pub mod Settled
pub mod Drained
use radix_kv.Prelude.{
  Bool, List, [], false, if◌then◌else◌, length, ltb, max, min, not, true, ℕ, ◌&&◌, ◌++◌, ◌∷◌,
}
use radix_kv.Prelude.Text.{Bytes}
use radix_kv.Result.{Result, ok, err}
use radix_kv.Aof.Logger.{AofLogger, enqueue_write}

-- Where `flushQueue` is: not running, at `writev`, or at `datasync`.
pub data Flushing : Type 0 where
  idle : Flushing
  writing : List Bytes → Flushing
  syncing : Flushing

-- `written` is the file, `synced` the number of its bytes that are on the disk, and `always` the policy.
pub record LogFile : Type 0 where
  pub logger : AofLogger
  pub flushing : Flushing
  pub written : Bytes
  pub synced : ℕ
  pub always : Bool
  pub is_open : Bool

-- After `init`.
unfoldable pub open_log : Bool → LogFile
open_log always = record {
  logger = record { is_closed = false; write_queue = []; dirty_bytes = 0 };
  flushing = idle;
  written = [];
  synced = 0;
  always = always;
  is_open = true;
}

abbrev pub concat_all : List Bytes → Bytes
concat_all [] = []
concat_all (b ∷ bs) = b ++ concat_all bs

-- The head of the loop, with the queue: a batch that finds the file closed is lost.
unfoldable pub take_batch : List Bytes → LogFile → LogFile
take_batch [] f = record f { flushing = idle }
take_batch (b ∷ bs) f = record f {
  logger = record f.logger { write_queue = [] };
  flushing = if f.is_open then writing (b ∷ bs) else idle;
}

unfoldable pub loop_head : LogFile → LogFile
loop_head f = take_batch f.logger.write_queue f

unfoldable pub flush_from : Flushing → LogFile → LogFile
flush_from idle f = if f.is_open then loop_head f else f
flush_from (writing batch) f = f
flush_from syncing f = f

unfoldable pub flush_queue : LogFile → LogFile
flush_queue f = flush_from f.flushing f

-- `enqueueWrite`, up to the flush that it starts where none is running.
unfoldable pub append_entry : Bytes → LogFile → LogFile
append_entry b f = elim (enqueue_write b f.logger) [
  | err message ↦ f
  | ok l ↦ flush_queue (record f { logger = l })
]

-- `writev` has ended.
unfoldable pub write_ended : Flushing → LogFile → LogFile
write_ended idle f = f
write_ended (writing batch) f =
    let f' : LogFile = record f { written = f.written ++ concat_all batch } in
    if f.always then record f' { flushing = syncing } else loop_head f'
write_ended syncing f = f

-- Its failure loses the batch.
unfoldable pub write_failed : Flushing → LogFile → LogFile
write_failed idle f = f
write_failed (writing batch) f = record f { flushing = idle }
write_failed syncing f = f

unfoldable pub clean : ℕ → LogFile → LogFile
clean covered f = record f {
  synced = max f.synced covered;
  logger = record f.logger { dirty_bytes = 0 };
}

-- `datasync` of the flush has ended: nothing was written behind its back.
unfoldable pub sync_ended : Flushing → LogFile → LogFile
sync_ended idle f = f
sync_ended (writing batch) f = f
sync_ended syncing f = loop_head (clean (length f.written) f)

unfoldable pub sync_failed : Flushing → LogFile → LogFile
sync_failed idle f = f
sync_failed (writing batch) f = f
sync_failed syncing f = record f { flushing = idle }

-- Another `datasync`, of the timer or of `sync`, covers what was written when it began.
unfoldable pub sync_every_sec : (covered : ℕ) → LogFile → LogFile
sync_every_sec covered f =
    if ltb 0 f.logger.dirty_bytes && not f.logger.is_closed
    then clean (min covered (length f.written)) f
    else f

unfoldable pub close_log : LogFile → LogFile
close_log f =
    if f.logger.is_closed
    then f
    else flush_queue (record f { logger = record f.logger { is_closed = true } })

-- The end of `close`, which does not wait for a flush that was running before.
unfoldable pub close_ended : LogFile → LogFile
close_ended f =
    if f.logger.is_closed then record (clean (length f.written) f) { is_open = false } else f

pub data LogEvent : Type 0 where
  entry : Bytes → LogEvent
  write_end write_failure sync_end sync_failure flush_again close_call close_end : LogEvent
  timer_sync : ℕ → LogEvent

unfoldable pub log_one : LogEvent → LogFile → LogFile
log_one (entry b) f = append_entry b f
log_one write_end f = write_ended f.flushing f
log_one write_failure f = write_failed f.flushing f
log_one sync_end f = sync_ended f.flushing f
log_one sync_failure f = sync_failed f.flushing f
log_one flush_again f = flush_queue f
log_one close_call f = close_log f
log_one close_end f = close_ended f
log_one (timer_sync covered) f = sync_every_sec covered f

unfoldable pub log_all : List LogEvent → LogFile → LogFile
log_all [] f = f
log_all (e ∷ es) f = log_all es (log_one e f)
