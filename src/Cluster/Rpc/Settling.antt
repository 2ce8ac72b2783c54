-- ===== src/Cluster/Rpc/Settling.antt =====
-- src/cluster/cluster-coordinator.ts: every call is settled once.
use radix_kv.Prelude.{
  List, [], ap, arith, false, inl, inr, none, some, true, ℕ, ◌++◌, ◌+◌, ◌<◌, ◌∷◌, ◌≡◌, ◌≤◌, ◌⊎◌,
}
use radix_kv.Prelude.Text.{JsString, Utf8}
use radix_kv.Storage.Engine.{Readings, StorageEngine}
use radix_kv.Commands.Arguments.{UpperCase}
use radix_kv.Cluster.Messages.{MasterMessage, WorkerMessage, reply_id}
use radix_kv.Cluster.Coordinator.{
  Coordinator, Posted, delete_id, handle_worker_message, has_id, init, new_coordinator, rejected,
  send_to_worker, settle,
}
use radix_kv.Storage.Packed.{ℕ-cases}
use radix_kv.Cluster.Worker.{handle_message}
use radix_kv.Cluster.Rpc.Ids.{
  count_id, count_id-delete_id, count_id-delete_id_other, count_posted, count_posted-append,
  count_replies, count_replies-append, count_replies-handle_message, count_settled,
  count_settled-append, has_id_of_count, one_if_some,
}
use radix_kv.Cluster.Rpc.{IsCall, Reach, Step, System, initial, option_list, update}

-- Of the id `k`: its messages under way are as many as its calls that wait; an id that was given out
-- waits or is settled, once; an id that was not is nowhere.
pub record Counted (s : System) (k : ℕ) : Type 0 where
  pub in_flight :
      count_posted k s.posted + count_replies k s.replies ≡ count_id k s.coordinator.pending_rpcs
  pub given :
      0 < k
      → k ≤ s.coordinator.next_rpc_id
      → count_id k s.coordinator.pending_rpcs + count_settled k s.settled ≡ 1
  pub fresh :
      s.coordinator.next_rpc_id < k
      → count_id k s.coordinator.pending_rpcs + count_settled k s.settled ≡ 0
  pub positive : k ≡ 0 → count_id k s.coordinator.pending_rpcs + count_settled k s.settled ≡ 0

pub initial-Counted :
    (c : Coordinator) (engines : ℕ → StorageEngine) (k : ℕ)
    → c.pending_rpcs ≡ []
    → c.next_rpc_id ≡ 0
    → Counted (initial c engines) k
unfolding count_posted count_replies count_settled count_id
initial-Counted c engines k h g = rw h (ground (arith, g))

handled_cases :
    (m : MasterMessage) (c : Coordinator)
    → has_id (reply_id m) c.pending_rpcs ≡ true
        × handle_worker_message m c ≡ (
          some (reply_id m, settle m),
          record c { pending_rpcs = delete_id (reply_id m) c.pending_rpcs },
        )
      ⊎ has_id (reply_id m) c.pending_rpcs ≡ false × handle_worker_message m c ≡ (none, c)
unfolding handle_worker_message
handled_cases m c = ground arith

-- The call of a reply that is under way waits.
is_waiting :
    (s : System) (before after : List MasterMessage) (m : MasterMessage)
    → s.replies ≡ before ++ (m ∷ after)
    → Counted s (reply_id m)
    → has_id (reply_id m) s.coordinator.pending_rpcs ≡ true
unfolding count_replies
is_waiting s before after m is h =
    let k = reply_id m in
    let was = ap (count_replies k) is in
    let a = count_replies-append k before (m ∷ after) in
    has_id_of_count k s.coordinator.pending_rpcs (ground (arith, was, a, h.in_flight))

module _ ⦃u : Utf8⦄ ⦃c : UpperCase⦄ (s : System) (k : ℕ) where
  call-Counted :
      (shard : ℕ) (message : ℕ → WorkerMessage)
      → IsCall message
      → shard < s.coordinator.workers
      → Counted s k
      → Counted
          (record s {
            coordinator = (send_to_worker shard message s.coordinator).1;
            posted = s.posted ++ ((shard, message (s.coordinator.next_rpc_id + 1)) ∷ []);
          })
          k
  unfolding send_to_worker count_id count_posted
  call-Counted shard message is_call lt h =
      let id = s.coordinator.next_rpc_id + 1 in
      let split = count_posted-append k s.posted ((shard, message id) ∷ []) in
      let called = ap (λ o. one_if_some o k) (is_call id) in
      record {
        in_flight = ground (arith, split, called, h.in_flight);
        given = ground (arith, h.given, h.fresh, h.positive);
        fresh = ground (arith, h.fresh);
        positive = ground (arith, h.positive);
      }

  refuse-Counted :
      (shard : ℕ) (message : ℕ → WorkerMessage) (reason : JsString)
      → s.coordinator.workers ≤ shard
      → Counted s k
      → Counted
          (record s {
            coordinator = (send_to_worker shard message s.coordinator).1;
            settled = s.settled ++ ((s.coordinator.next_rpc_id + 1, rejected reason) ∷ []);
          })
          k
  unfolding send_to_worker count_id count_settled
  refuse-Counted shard message reason le h = ground (
    arith,
    count_settled-append k s.settled ((s.coordinator.next_rpc_id + 1, rejected reason) ∷ []),
  )

  work-Counted :
      (r : Readings) (before after : List Posted) (shard : ℕ) (m : WorkerMessage)
      → s.posted ≡ before ++ ((shard, m) ∷ after)
      → Counted s k
      → Counted
          (record s {
            posted = before ++ after;
            replies = s.replies ++ option_list (handle_message r m (s.engines shard)).0;
            engines = update s.engines shard (handle_message r m (s.engines shard)).1;
          })
          k
  unfolding count_posted
  work-Counted r before after shard m is h =
      let reply = option_list (handle_message r m (s.engines shard)).0 in
      let was = ap (count_posted k) is in
      let a = count_posted-append k before ((shard, m) ∷ after) in
      let b = count_posted-append k before after in
      let d = count_replies-append k s.replies reply in
      let e = count_replies-handle_message r m (s.engines shard) k in
      record {
        in_flight = omega (arith, was, a, b, d, e, h.in_flight);
        given = h.given;
        fresh = h.fresh;
        positive = h.positive;
      }

  receive-Counted :
      (before after : List MasterMessage) (m : MasterMessage)
      → s.replies ≡ before ++ (m ∷ after)
      → Counted s k
      → Counted
          (record s {
            coordinator = (handle_worker_message m s.coordinator).1;
            replies = before ++ after;
            settled = s.settled ++ option_list (handle_worker_message m s.coordinator).0;
          })
          k
  unfolding count_replies count_settled count_id
  receive-Counted before after m is h =
      let was = ap (count_replies k) is in
      let a = count_replies-append k before (m ∷ after) in
      let b = count_replies-append k before after in
      let with_reply = count_settled-append k s.settled ((reply_id m, settle m) ∷ []) in
      let none_here = count_settled-append k s.settled [] in
      let pending = s.coordinator.pending_rpcs in
      elim (handled_cases m s.coordinator) [
        | inl (waits, eq) ↦ rw eq (elim (ℕ-cases (reply_id m) k) [
          | inl same ↦
              let gone = count_id-delete_id (reply_id m) pending in
              record {
                in_flight =
                    ground
                      (arith, was, a, b, h.in_flight, h.given, h.fresh, h.positive, gone, same);
                given = ground (
                  arith, was, a, b, h.in_flight, h.given, h.fresh, h.positive, gone, same,
                  with_reply,
                );
                fresh = ground (
                  arith, was, a, b, h.in_flight, h.given, h.fresh, h.positive, gone, same,
                  with_reply,
                );
                positive = ground (
                  arith, was, a, b, h.in_flight, h.given, h.fresh, h.positive, gone, same,
                  with_reply,
                );
              }
          | inr other ↦
              let kept = count_id-delete_id_other (reply_id m) k pending other in
              record {
                in_flight = ground (arith, was, a, b, h.in_flight, kept);
                given = ground (arith, h.given, kept, with_reply);
                fresh = ground (arith, h.fresh, kept, with_reply);
                positive = ground (arith, h.positive, kept, with_reply);
              }
        ])
        | inr (drops, eq) ↦ rw eq (elim (ℕ-cases (reply_id m) k) [
          | inl same ↦ absurd (ground (arith, is_waiting s before after m is (rw same h), drops))
          | inr other ↦ record {
            in_flight = ground (arith, was, a, b, h.in_flight);
            given = ground (arith, h.given, none_here);
            fresh = ground (arith, h.fresh, none_here);
            positive = ground (arith, h.positive, none_here);
          }
        ])
      ]

  Step-Counted : {t : System} → Step s t → Counted s k → Counted t k
  Step-Counted (Step.call shard message is_call lt) h = call-Counted shard message is_call lt h
  Step-Counted (Step.refuse shard message reason le) h = refuse-Counted shard message reason le h
  Step-Counted (Step.work r before after shard m is) h = work-Counted r before after shard m is h
  Step-Counted (Step.receive before after m is) h = receive-Counted before after m is h

Reach-Counted :
    ⦃u : Utf8⦄ → ⦃c : UpperCase⦄ → {s t : System} (k : ℕ) → Reach s t → Counted s k → Counted t k
Reach-Counted k Reach.here h = h
Reach-Counted k (Reach.next {t} r step) h = Step-Counted t k step (Reach-Counted k r h)

-- A new coordinator with its workers, and their engines.
abbrev pub started : (JsString → ℕ) → ℕ → ℕ → (ℕ → StorageEngine) → System
started hash n v engines = initial (init (new_coordinator hash n v)) engines

module _ ⦃u : Utf8⦄ ⦃c : UpperCase⦄ (hash : JsString → ℕ) (n v : ℕ)
    (engines : ℕ → StorageEngine) where
  started-Counted : (k : ℕ) → Counted (started hash n v engines) k
  unfolding init new_coordinator
  started-Counted k =
      initial-Counted (init (new_coordinator hash n v)) engines k (ground arith) (ground arith)

  -- In every system that a new coordinator reaches with its workers, whatever the order in which the
  -- messages arrive: the coordinator settles the call of any reply that is under way, with what the
  -- reply says. No reply is dropped.
  pub handle_worker_message_of_Reach :
      {t : System} (before after : List MasterMessage) (m : MasterMessage)
      → Reach (started hash n v engines) t
      → t.replies ≡ before ++ (m ∷ after)
      → (handle_worker_message m t.coordinator).0 ≡ some (reply_id m, settle m)
  handle_worker_message_of_Reach {t} before after m r is = elim (handled_cases m t.coordinator) [
    | inl (waits, eq) ↦ ap (λ x. x.0) eq
    | inr (drops, eq) ↦ absurd (
        ground (
          arith,
          is_waiting t before after m is
              (Reach-Counted (reply_id m) r (started-Counted (reply_id m))),
          drops,
        ))
  ]

  -- In every system that a new coordinator reaches with its workers, whatever the order in which the
  -- messages arrive: no call is settled twice, a call that is not settled has exactly one message
  -- under way, its request or its reply, and an id that was not given out has none and is not settled.
  pub settled_once :
      {t : System} (k : ℕ)
      → Reach (started hash n v engines) t
      → 0 < k
      → (k ≤ t.coordinator.next_rpc_id
          → count_settled k t.settled + (count_posted k t.posted + count_replies k t.replies) ≡ 1)
        × (t.coordinator.next_rpc_id < k
            → count_settled k t.settled + (count_posted k t.posted + count_replies k t.replies) ≡ 0)
  settled_once {t} k r lt =
      let h = Reach-Counted k r (started-Counted k) in
      (
        λ le. omega (arith, h.in_flight, h.given lt le),
        λ gt. omega (arith, h.in_flight, h.fresh gt),
      )
