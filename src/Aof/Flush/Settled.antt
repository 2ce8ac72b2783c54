-- ===== src/Aof/Flush/Settled.antt =====
-- src/aof-logger.ts: what is enqueued gets into the file, in its order.
use radix_kv.Prelude.{
  All, Bool, Bool-cases, List, [], ap, append-nil, append_assoc, arith, false, if◌then◌else◌, inl,
  inr, length, ltb, not, refl, subst, sym, true, ℕ, ◌&&◌, ◌++◌, ◌+◌, ◌∙◌, ◌∷◌, ◌≡◌, ◌≢◌,
}
use radix_kv.Prelude.Text.{Bytes, JsString}
use radix_kv.Result.{Result, ok, err}
use radix_kv.Aof.Logger.{AofLogger, enqueue_write, logger_is_closed}
use radix_kv.Aof.Flush.{
  Flushing, LogEvent, LogFile, append_entry, clean, close_call, close_end, concat_all, entry,
  flush_again, flush_from, flush_queue, idle, log_all, log_one, loop_head, sync_end, sync_ended,
  sync_every_sec, sync_failure, syncing, take_batch, timer_sync, write_end, write_ended,
  write_failure, writing,
}

abbrev pub in_flight : Flushing → Bytes
in_flight idle = []
in_flight (writing batch) = concat_all batch
in_flight syncing = []

-- The file, and behind it what is on its way.
abbrev pub contents_of : LogFile → Bytes
contents_of f = f.written ++ (in_flight f.flushing ++ concat_all f.logger.write_queue)

-- The bytes of the entries that a run accepts.
unfoldable pub accepted : List LogEvent → Bytes
accepted [] = []
accepted (entry b ∷ es) = b ++ accepted es
accepted (e ∷ es) = accepted es

-- No write and no `datasync` fails, and the log is not closed.
unfoldable pub goes_well : LogEvent → Bool
goes_well (entry b) = true
goes_well write_end = true
goes_well write_failure = false
goes_well sync_end = true
goes_well sync_failure = false
goes_well flush_again = true
goes_well close_call = false
goes_well close_end = false
goes_well (timer_sync covered) = true

-- The log is open, and nothing waits while no flush runs.
pub record Flowing (f : LogFile) : Type 0 where
  pub opened : f.is_open ≡ true
  pub usable : f.logger.is_closed ≡ false
  pub busy : f.flushing ≡ idle → f.logger.write_queue ≡ []

-- A step that adds these bytes behind what was there.
abbrev Adds : Bytes → LogFile → LogFile → Type 0
Adds b f f' = Flowing f' × (contents_of f' ≡ contents_of f ++ b)

take_batch-Adds :
    (queue : List Bytes) (f : LogFile)
    → f.is_open ≡ true
    → f.logger.is_closed ≡ false
    → f.logger.write_queue ≡ queue
    → Flowing (take_batch queue f)
      × (contents_of (take_batch queue f) ≡ f.written ++ concat_all queue)
unfolding take_batch
take_batch-Adds [] f o u q = (
  record { opened = o; usable = u; busy = λ w. q },
  ap (λ (qs : List Bytes). f.written ++ concat_all qs) q,
)
take_batch-Adds (b ∷ bs) f o u q = rw o (
  record { opened = refl; usable = u; busy = λ w. refl },
  ap (λ (x : Bytes). f.written ++ x) (append-nil (b ++ concat_all bs)),
)

if_true {ℓ} : {A : Type ℓ} (x y : A) (b : Bool) → b ≡ true → (if b then x else y) ≡ x
if_true x y true h = refl
if_true x y false h = absurd (ground (arith, h))

if_false {ℓ} : {A : Type ℓ} (x y : A) (b : Bool) → b ≡ false → (if b then x else y) ≡ y
if_false x y true h = absurd (ground (arith, h))
if_false x y false h = refl

loop_head-Adds :
    (f : LogFile)
    → f.is_open ≡ true
    → f.logger.is_closed ≡ false
    → Flowing (loop_head f)
      × (contents_of (loop_head f) ≡ f.written ++ concat_all f.logger.write_queue)
unfolding loop_head
loop_head-Adds f o u = take_batch-Adds f.logger.write_queue f o u refl

flush_from-Adds :
    (w : Flushing) (f : LogFile)
    → f.flushing ≡ w
    → f.is_open ≡ true
    → f.logger.is_closed ≡ false
    → Flowing (flush_from w f) × (contents_of (flush_from w f) ≡ contents_of f)
unfolding flush_from
flush_from-Adds idle f is o u =
    let (flowing, same) = loop_head-Adds f o u in
    subst (λ (g : LogFile). Flowing g × (contents_of g ≡ contents_of f)) (sym (if_true _ _ _ o))
      (
        flowing,
        same
            ∙ ap (λ (w : Flushing). f.written ++ (in_flight w ++ concat_all f.logger.write_queue))
                (sym is),
      )
flush_from-Adds (writing batch) f is o u =
    (record { opened = o; usable = u; busy = λ w. absurd (not_idle (sym is ∙ w)) }, refl)
  where
    not_idle : writing batch ≢ idle
    not_idle h = ground (arith, h)
flush_from-Adds syncing f is o u =
    (record { opened = o; usable = u; busy = λ w. absurd (not_idle (sym is ∙ w)) }, refl)
  where
    not_idle : syncing ≢ idle
    not_idle h = ground (arith, h)

concat_all-append : (bs : List Bytes) (b : Bytes) → concat_all (bs ++ (b ∷ [])) ≡ concat_all bs ++ b
concat_all-append [] b = append-nil b
concat_all-append (c ∷ bs) b =
    ap (λ (x : Bytes). c ++ x) (concat_all-append bs b) ∙ sym (append_assoc c (concat_all bs) b)

behind :
    (file batch : Bytes) (queue : List Bytes) (b : Bytes)
    → file ++ (batch ++ concat_all (queue ++ (b ∷ []))) ≡ (file ++ (batch ++ concat_all queue)) ++ b
behind file batch queue b =
    ap (λ (x : Bytes). file ++ (batch ++ x)) (concat_all-append queue b)
    ∙ ap (λ (x : Bytes). file ++ x) (sym (append_assoc batch (concat_all queue) b))
    ∙ sym (append_assoc file (batch ++ concat_all queue) b)

append_entry-Adds :
    (b : Bytes) (f : LogFile)
    → Flowing f
    → Flowing (append_entry b f) × (contents_of (append_entry b f) ≡ contents_of f ++ b)
unfolding append_entry enqueue_write flush_queue
append_entry-Adds b f v =
    let l : AofLogger = record f.logger {
      write_queue = f.logger.write_queue ++ (b ∷ []);
      dirty_bytes = f.logger.dirty_bytes + length b;
    } in
    let f' : LogFile = record f { logger = l } in
    let taken : append_entry b f ≡ flush_queue f' =
      ap
        (λ (r : Result JsString AofLogger). elim r as (λ _. LogFile) [
          | err message ↦ f
          | ok l ↦ flush_queue (record f { logger = l })
        ])
        (if_false (err logger_is_closed) (ok l) f.logger.is_closed v.usable) in
    let (flowing, same) = flush_from-Adds f.flushing f' refl v.opened v.usable in
    subst (λ (g : LogFile). Flowing g × (contents_of g ≡ contents_of f ++ b)) (sym taken)
      (flowing, same ∙ behind f.written (in_flight f.flushing) f.logger.write_queue b)

-- The flush is at some place, and the log after the step is that of `g`.
abbrev SameBytes : LogFile → LogFile → Type 0
SameBytes f g = Flowing g × (contents_of g ≡ contents_of f)

write_ended-Adds :
    (w : Flushing) (f : LogFile) → f.flushing ≡ w → Flowing f → SameBytes f (write_ended w f)
unfolding write_ended
write_ended-Adds idle f is v = (v, refl)
write_ended-Adds syncing f is v = (v, refl)
write_ended-Adds (writing batch) f is v =
    let f' : LogFile = record f { written = f.written ++ concat_all batch } in
    let was =
      append_assoc f.written (concat_all batch) (concat_all f.logger.write_queue)
      ∙ ap (λ (w : Flushing). f.written ++ (in_flight w ++ concat_all f.logger.write_queue))
          (sym is) in
    elim (Bool-cases f.always) [
      | inl syncs ↦
          subst (SameBytes f) (sym (if_true _ _ f.always syncs))
            (record { opened = v.opened; usable = v.usable; busy = λ w. absurd (not_idle w) }, was)
      | inr lazy ↦
          let (flowing, same) = loop_head-Adds f' v.opened v.usable in
          subst (SameBytes f) (sym (if_false _ _ f.always lazy)) (flowing, same ∙ was)
    ]
  where
    not_idle : syncing ≢ idle
    not_idle h = ground (arith, h)

sync_ended-Adds :
    (w : Flushing) (f : LogFile) → f.flushing ≡ w → Flowing f → SameBytes f (sync_ended w f)
unfolding sync_ended clean
sync_ended-Adds idle f is v = (v, refl)
sync_ended-Adds (writing batch) f is v = (v, refl)
sync_ended-Adds syncing f is v =
    let (flowing, same) =
      loop_head-Adds (unfold clean in clean (length f.written) f) v.opened v.usable in
    (
      flowing,
      same
          ∙ ap (λ (w : Flushing). f.written ++ (in_flight w ++ concat_all f.logger.write_queue))
              (sym is),
    )

sync_every_sec-Adds :
    (covered : ℕ) (f : LogFile) → Flowing f → SameBytes f (sync_every_sec covered f)
unfolding sync_every_sec clean
sync_every_sec-Adds covered f v =
    elim (Bool-cases (ltb 0 f.logger.dirty_bytes && not f.logger.is_closed)) [
      | inl dirty ↦
          subst (SameBytes f) (sym (if_true _ _ _ dirty))
            (record { opened = v.opened; usable = v.usable; busy = v.busy }, refl)
      | inr nothing_dirty ↦ subst (SameBytes f) (sym (if_false _ _ _ nothing_dirty)) (v, refl)
    ]

same_bytes : (f g : LogFile) → SameBytes f g → Flowing g × (contents_of g ≡ contents_of f ++ [])
same_bytes f g (flowing, same) = (flowing, same ∙ sym (append-nil (contents_of f)))

log_one-Adds :
    (e : LogEvent) (f : LogFile)
    → goes_well e ≡ true
    → Flowing f
    → Flowing (log_one e f) × (contents_of (log_one e f) ≡ contents_of f ++ accepted (e ∷ []))
unfolding log_one goes_well accepted flush_queue
log_one-Adds (entry b) f ok_ v =
    let (flowing, more) = append_entry-Adds b f v in
    (flowing, more ∙ ap (λ (x : Bytes). contents_of f ++ x) (sym (append-nil b)))
log_one-Adds write_end f ok_ v = same_bytes f _ (write_ended-Adds f.flushing f refl v)
log_one-Adds write_failure f ok_ v = absurd (ground (arith, ok_))
log_one-Adds sync_end f ok_ v = same_bytes f _ (sync_ended-Adds f.flushing f refl v)
log_one-Adds sync_failure f ok_ v = absurd (ground (arith, ok_))
log_one-Adds flush_again f ok_ v =
    same_bytes f _ (flush_from-Adds f.flushing f refl v.opened v.usable)
log_one-Adds close_call f ok_ v = absurd (ground (arith, ok_))
log_one-Adds close_end f ok_ v = absurd (ground (arith, ok_))
log_one-Adds (timer_sync covered) f ok_ v = same_bytes f _ (sync_every_sec-Adds covered f v)

accepted-cons :
    (e : LogEvent) (es : List LogEvent) → accepted (e ∷ []) ++ accepted es ≡ accepted (e ∷ es)
unfolding accepted
accepted-cons (entry b) es = ap (λ (x : Bytes). x ++ accepted es) (append-nil b)
accepted-cons write_end es = refl
accepted-cons write_failure es = refl
accepted-cons sync_end es = refl
accepted-cons sync_failure es = refl
accepted-cons flush_again es = refl
accepted-cons close_call es = refl
accepted-cons close_end es = refl
accepted-cons (timer_sync covered) es = refl

pub log_all-Adds :
    (es : List LogEvent) (f : LogFile)
    → All (λ e. goes_well e ≡ true) es
    → Flowing f
    → Flowing (log_all es f) × (contents_of (log_all es f) ≡ contents_of f ++ accepted es)
unfolding log_all
log_all-Adds [] f h v = (v, unfold accepted in sym (append-nil (contents_of f)))
log_all-Adds (e ∷ es) f h v =
    let (flowing, one) = log_one-Adds e f h.0 v in
    let (flowing', others) = log_all-Adds es (log_one e f) h.1 flowing in
    (
      flowing',
      others
          ∙ ap (λ (x : Bytes). x ++ accepted es) one
          ∙ append_assoc (contents_of f) (accepted (e ∷ [])) (accepted es)
          ∙ ap (λ (x : Bytes). contents_of f ++ x) (accepted-cons e es),
    )
