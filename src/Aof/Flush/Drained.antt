-- ===== src/Aof/Flush/Drained.antt =====
-- src/aof-logger.ts: a flush ends, and the file has all the entries then.
use radix_kv.Prelude.{
  All, Bool, List, [], append-nil, ap₂, false, refl, subst, sym, true, ℕ, ◌++◌, ◌∙◌, ◌∷◌, ◌≡◌,
}
use radix_kv.Prelude.Text.{Bytes}
use radix_kv.Aof.Flush.{
  Flushing, LogEvent, LogFile, clean, concat_all, idle, log_all, log_one, loop_head, open_log,
  sync_end, sync_ended, syncing, take_batch, write_end, write_ended, writing,
}
use radix_kv.Aof.Flush.Settled.{Flowing, accepted, contents_of, goes_well, in_flight, log_all-Adds}

-- The calls of the platform that are under way end, and those that follow.
abbrev pub two_rounds : List LogEvent
two_rounds = write_end ∷ (sync_end ∷ (write_end ∷ (sync_end ∷ [])))

abbrev IsDrained : LogFile → Type 0
IsDrained f = (f.flushing ≡ idle) × (f.logger.write_queue ≡ [])

-- An open log, by its parts.
abbrev usable_log : List Bytes → ℕ → Flushing → Bytes → ℕ → Bool → LogFile
usable_log queue dirty flushing written synced always = record {
  logger = record { is_closed = false; write_queue = queue; dirty_bytes = dirty };
  flushing = flushing;
  written = written;
  synced = synced;
  always = always;
  is_open = true;
}

two_rounds-IsDrained :
    (queue : List Bytes) (dirty : ℕ) (w : Flushing) (written : Bytes) (synced : ℕ) (always : Bool)
    → (w ≡ idle → queue ≡ [])
    → IsDrained (log_all two_rounds (usable_log queue dirty w written synced always))
unfolding log_all log_one write_ended sync_ended loop_head take_batch clean
two_rounds-IsDrained queue dirty idle written synced always h = (refl, h refl)
two_rounds-IsDrained [] dirty (writing batch) written synced true h = (refl, refl)
two_rounds-IsDrained [] dirty (writing batch) written synced false h = (refl, refl)
two_rounds-IsDrained (b ∷ bs) dirty (writing batch) written synced true h = (refl, refl)
two_rounds-IsDrained (b ∷ bs) dirty (writing batch) written synced false h = (refl, refl)
two_rounds-IsDrained [] dirty syncing written synced true h = (refl, refl)
two_rounds-IsDrained [] dirty syncing written synced false h = (refl, refl)
two_rounds-IsDrained (b ∷ bs) dirty syncing written synced true h = (refl, refl)
two_rounds-IsDrained (b ∷ bs) dirty syncing written synced false h = (refl, refl)

Flowing-IsDrained : (f : LogFile) → Flowing f → IsDrained (log_all two_rounds f)
Flowing-IsDrained f v =
    let g : LogFile =
      usable_log f.logger.write_queue f.logger.dirty_bytes f.flushing f.written f.synced f.always in
    let same : f ≡ g =
      ap₂
        (λ (closed opened : Bool). record f {
          logger = record f.logger { is_closed = closed };
          is_open = opened;
        })
        v.usable v.opened in
    subst (λ (x : LogFile). IsDrained (log_all two_rounds x)) (sym same)
      (two_rounds-IsDrained f.logger.write_queue f.logger.dirty_bytes f.flushing f.written f.synced
        f.always v.busy)

open_log-Flowing : (always : Bool) → Flowing (open_log always)
unfolding open_log
open_log-Flowing always = record { opened = refl; usable = refl; busy = λ w. refl }

-- A new log to which entries are logged, at any moments of its flushes, and whose calls of the platform
-- do not fail before it is closed: when the flush that is running and the one behind it have ended, no
-- flush runs, nothing waits, and the file is the entries in the order in which they were logged.
pub written-accepted :
    (always : Bool) (es : List LogEvent)
    → All (λ e. goes_well e ≡ true) es
    → ((log_all two_rounds (log_all es (open_log always))).written ≡ accepted es)
      × ((log_all two_rounds (log_all es (open_log always))).flushing ≡ idle)
      × ((log_all two_rounds (log_all es (open_log always))).logger.write_queue ≡ [])
unfolding accepted goes_well open_log
written-accepted always es h =
    let (flowing, so_far) = log_all-Adds es (open_log always) h (open_log-Flowing always) in
    let f = log_all es (open_log always) in
    let (flowing', no_more) =
      log_all-Adds two_rounds f (refl, (refl, (refl, (refl, tt)))) flowing in
    let g = log_all two_rounds f in
    let (still, empty) = Flowing-IsDrained f flowing in
    (
      sym (append-nil g.written)
          ∙ sym (
              ap₂ (λ (w : Flushing) (q : List Bytes). g.written ++ (in_flight w ++ concat_all q))
                still empty)
          ∙ no_more
          ∙ append-nil (contents_of f)
          ∙ so_far,
      still,
      empty,
    )
