-- ===== src/Storage/Swept.antt =====
-- src/storage-engine.ts: what `runActiveTtlCycle` deletes.
use radix_kv.Prelude.{
  Bool-cases, Option, Option-cases, ap, arith, false, get_elem?, inl, inr, is_some, leb, length,
  length-set, length-take, min, refl, set, some, subst, suc, sym, true, zero, ℕ, ◌+◌, ◌-◌, ◌<◌, ◌∙◌,
  ◌≡◌, ◌⊎◌,
}
use radix_kv.Prelude.Text.{JsString}
use radix_kv.Prelude.Maps.{lookup, lookup-erase_other}
use radix_kv.Storage.ExpiryIndex.{
  ExpiryIndex, Packed, is_tracked, pop, swap_with_last, untrack_expiry,
}
use radix_kv.Storage.Packed.{JsString-cases, lt_of_get_elem?, some_inj, some_last}
use radix_kv.Storage.Engine.{
  LruNode, StorageEngine, delete_key, expires_count, is_expired, unlink_key,
}
use radix_kv.Storage.Invariant.{EngineIsValid, has_expiry}
use radix_kv.Storage.Sweep.{
  many_expired, run_active_ttl_cycle, sweep_at, sweep_batch, sweep_key, sweep_loop,
}
use radix_kv.Storage.Preserved.{delete_key-EngineIsValid}

pub zero_or_suc : (n : ℕ) → (n ≡ 0) ⊎ ((m : ℕ) × (n ≡ suc m))
zero_or_suc zero = inl refl
zero_or_suc (suc m) = inr (m, refl)

-- A key of the index leaves a place of the array free.
length-untrack_expiry :
    (key : JsString) (x : ExpiryIndex)
    → Packed x
    → is_tracked x key ≡ true
    → length (untrack_expiry key x).expires_list + 1 ≡ length x.expires_list
unfolding untrack_expiry swap_with_last pop
length-untrack_expiry key x p h = elim (Option-cases (lookup x.expires_index_map key)) [
  | inl q ↦ absurd (ground (arith, ap is_some q, h))
  | inr (i, q) ↦
      let lt = lt_of_get_elem? x.expires_list i (p.placed key i q) in
      let (last, ends) = some_last x.expires_list (omega (arith, lt)) in
      let n = length x.expires_list in
      rw (q, untrack_expiry)
        (rw ends (
          omega (
            arith,
            lt,
            length-take (length (set x.expires_list i last) - 1) (set x.expires_list i last),
            length-set x.expires_list i last,
          )))
]

expired_has_expiry :
    (now : ℕ) (node : LruNode) → is_expired now node ≡ true → is_some node.expires_at ≡ true
unfolding is_expired
expired_has_expiry now node h = elim (Option-cases node.expires_at) [
  | inl q ↦ absurd (ground (arith, q, h))
  | inr (t, q) ↦ ap is_some q
]

-- What a part of a sweep does: it deletes as many keys of the index as it says, and none whose node is
-- live.
pub record Swept (Live : LruNode → Type 0) (e : StorageEngine) (r : ℕ × StorageEngine)
    : Type 0 where
  pub valid : EngineIsValid r.1
  pub counted : expires_count r.1 + r.0 ≡ expires_count e
  pub kept :
      (key : JsString) (node : LruNode)
      → lookup e.entries key ≡ some node
      → Live node
      → lookup r.1.entries key ≡ some node

module _ (Live : LruNode → Type 0) where
  nothing-Swept : (e : StorageEngine) → EngineIsValid e → Swept Live e (0, e)
  nothing-Swept e v = record { valid = v; counted = omega arith; kept = λ k n q l. q }

  then-Swept :
      (e e' e'' : StorageEngine) (n m : ℕ)
      → Swept Live e (n, e')
      → Swept Live e' (m, e'')
      → Swept Live e (n + m, e'')
  then-Swept e e' e'' n m a b = record {
    valid = b.valid;
    counted = omega (arith, a.counted, b.counted);
    kept = λ k node q l. b.kept k node (a.kept k node q l) l;
  }

  deleted-Swept :
      (now : ℕ) (key : JsString) (node : LruNode) (e : StorageEngine)
      → EngineIsValid e
      → lookup e.entries key ≡ some node
      → is_expired now node ≡ true
      → ¬ Live node
      → Swept Live e (1, delete_key key e)
  unfolding delete_key unlink_key
  deleted-Swept now key node e v q late dead =
      let tracked : is_tracked e.expiry key ≡ true =
        v.timed key ∙ ap has_expiry q ∙ expired_has_expiry now node late in
      record {
        valid = delete_key-EngineIsValid key e v;
        counted =
            rw (q, delete_key) (omega (arith, length-untrack_expiry key e.expiry v.packed tracked));
        kept = λ k n is l. elim (JsString-cases key k) [
          | inl same ↦
              let found : some node ≡ some n = sym q ∙ ap (lookup e.entries) same ∙ is in
              absurd (dead (subst Live (sym (some_inj found)) l))
          | inr ne ↦ rw (q, delete_key) (lookup-erase_other e.entries key k ne ∙ is)
        ];
      }

module _ (Live : LruNode → Type 0) (now : ℕ)
    (alive : (node : LruNode) → Live node → is_expired now node ≡ false) where
  sweep_key-Swept :
      (key : JsString) (e : StorageEngine) → EngineIsValid e → Swept Live e (sweep_key now key e)
  unfolding sweep_key
  sweep_key-Swept key e v = elim (Option-cases (lookup e.entries key)) [
    | inl q ↦ rw (q, sweep_key) (nothing-Swept Live e v)
    | inr (node, q) ↦ elim (Bool-cases (is_expired now node)) [
      | inl late ↦
          rw (q, sweep_key)
            (rw late (
              deleted-Swept Live now key node e v q late (λ l. ground (arith, late, alive node l))))
      | inr soon ↦ rw (q, sweep_key) (rw soon (nothing-Swept Live e v))
    ]
  ]

  sweep_at-Swept :
      (index : ℕ) (e : StorageEngine) → EngineIsValid e → Swept Live e (sweep_at now index e)
  unfolding sweep_at
  sweep_at-Swept index e v = elim (Option-cases (get_elem? e.expiry.expires_list index)) [
    | inl q ↦ rw (q, sweep_at) (nothing-Swept Live e v)
    | inr (key, q) ↦ rw (q, sweep_at) (sweep_key-Swept key e v)
  ]

  sweep_batch-Swept :
      (draw : ℕ → ℕ → ℕ) (drawn left : ℕ) (e : StorageEngine)
      → EngineIsValid e
      → Swept Live e (sweep_batch draw now drawn left e)
  unfolding sweep_batch
  sweep_batch-Swept draw drawn zero e v = nothing-Swept Live e v
  sweep_batch-Swept draw drawn (suc left) e v = elim (zero_or_suc (expires_count e)) [
    | inl q ↦ rw (q, sweep_batch) (nothing-Swept Live e v)
    | inr (n, q) ↦
        let first = sweep_at-Swept (draw drawn (suc n)) e v in
        rw (q, sweep_batch)
          (then-Swept Live e _ _ _ _ first (sweep_batch-Swept draw (drawn + 1) left _ first.valid))
  ]

-- A node that no reading of the clock finds expired.
abbrev pub NeverExpired : (ℕ → ℕ) → LruNode → Type 0
NeverExpired clock node = (i : ℕ) → is_expired (clock i) node ≡ false

-- A turn that asks for another one has deleted something.
pub many_expired_pos : (count expired : ℕ) → many_expired count expired ≡ true → 0 < expired
many_expired_pos count expired h = ground (arith, h)

module _ (draw : ℕ → ℕ → ℕ) (clock : ℕ → ℕ) (sample_size time_limit start : ℕ) where
  -- The batch of a turn.
  abbrev pub batch_of : (read drawn n : ℕ) → StorageEngine → ℕ × StorageEngine
  batch_of read drawn n e = sweep_batch draw (clock read) drawn (min sample_size (suc n)) e

  pub batch_of-Swept :
      (read drawn n : ℕ) (e : StorageEngine)
      → EngineIsValid e
      → Swept (NeverExpired clock) e (batch_of read drawn n e)
  batch_of-Swept read drawn n e v =
      sweep_batch-Swept (NeverExpired clock) (clock read) (λ node l. l read) draw drawn
        (min sample_size (suc n)) e v

  sweep_loop-Swept :
      (fuel read drawn : ℕ) (e : StorageEngine)
      → EngineIsValid e
      → Swept
          (NeverExpired clock)
          e
          (sweep_loop fuel draw clock sample_size time_limit start read drawn e)
  unfolding sweep_loop
  sweep_loop-Swept zero read drawn e v = nothing-Swept (NeverExpired clock) e v
  sweep_loop-Swept (suc fuel) read drawn e v = elim (zero_or_suc (expires_count e)) [
    | inl q ↦ rw (q, sweep_loop) (nothing-Swept (NeverExpired clock) e v)
    | inr (n, q) ↦
        let first = batch_of-Swept read drawn n e v in
        let expired = (batch_of read drawn n e).0 in
        let count = min sample_size (suc n) in
        elim (Bool-cases (many_expired count expired)) [
          | inr few ↦ rw (q, sweep_loop) (rw few first)
          | inl many ↦ elim (Bool-cases (leb (start + time_limit) (clock (read + 1)))) [
            | inl over ↦ rw (q, sweep_loop) (rw many (rw over first))
            | inr more ↦
                rw (q, sweep_loop)
                  (rw many (
                    rw more (
                      then-Swept (NeverExpired clock) e _ _ _ _ first
                        (sweep_loop-Swept fuel (read + 2) (drawn + count) _ first.valid))))
          ]
        ]
  ]

-- A sweep leaves the engine in step, and returns by how much the index of expiries has shrunk; it
-- deletes no key whose node has not expired at any reading of the clock. For every draw and every clock.
pub run_active_ttl_cycle-Swept :
    (draw : ℕ → ℕ → ℕ) (clock : ℕ → ℕ) (sample_size max_time : Option ℕ) (e : StorageEngine)
    → EngineIsValid e
    → Swept (NeverExpired clock) e (run_active_ttl_cycle draw clock sample_size max_time e)
unfolding run_active_ttl_cycle
run_active_ttl_cycle-Swept draw clock sample_size max_time e v =
    sweep_loop-Swept draw clock _ _ _ (expires_count e + 1) 1 0 e v
