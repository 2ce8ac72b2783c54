-- ===== src/Storage/Preserved.antt =====
-- src/storage-engine.ts: every operation keeps the invariant of the engine.
use radix_kv.Prelude.{
  Bool, Bool-cases, Option, Option-cases, [], ap, arith, inl, inr, list_eq, none, refl, some, subst,
  suc, zero, ℕ, ◌+◌, ◌∙◌, ◌∷◌, ◌≡◌, ◌≤◌,
}
use radix_kv.Prelude.Text.{JsString}
use radix_kv.Prelude.Maps.{erase, lookup, lookup-erase, lookup-erase_other}
use radix_kv.Storage.LruList.{LruList, pop_tail, remove}
use radix_kv.Storage.ExpiryIndex.{untrack_expiry}
use radix_kv.Storage.Packed.{JsString-cases}
use radix_kv.Storage.Engine.{
  LruNode, StorageEngine, check_memory_and_evict, delete_key, evict_one_lru, evict_while, over_keys,
  over_memory, unlink_key,
}
use radix_kv.Storage.Invariant.{
  EngineIsValid, forgotten-EngineIsValid, present, tally, tally_other, tally-remove,
  tally-remove_other, tally_self,
}

-- Another reading of the counters.
pub recounted :
    (e : StorageEngine) (h m t : ℕ)
    → EngineIsValid e
    → EngineIsValid (record e { hits = h; misses = m; total_ops = t })
recounted e h m t v = record { packed = v.packed; timed = v.timed; listed = v.listed }

unlink_key-EngineIsValid :
    (key : JsString) (e : StorageEngine) (node : LruNode)
    → lookup e.entries key ≡ some node
    → EngineIsValid e
    → EngineIsValid (unlink_key key e)
unfolding unlink_key
unlink_key-EngineIsValid key e node q v =
    let once : tally e.lru_list key ≡ 1 = v.listed key ∙ ap present q in
    forgotten-EngineIsValid e key (remove key e.lru_list) v
      (omega (arith, once, tally-remove key e.lru_list))
      (λ k ne. tally-remove_other key k e.lru_list ne)

pub delete_key-EngineIsValid :
    (key : JsString) (e : StorageEngine) → EngineIsValid e → EngineIsValid (delete_key key e)
unfolding delete_key
delete_key-EngineIsValid key e v = elim (Option-cases (lookup e.entries key)) [
  | inl q ↦ rw (q, delete_key) v
  | inr (node, q) ↦ rw (q, delete_key) (unlink_key-EngineIsValid key e node q v)
]

-- What `popTail` returns is a key of the list and the others.
abbrev pub Popped : LruList → JsString → Option (JsString × LruList) → Type 0
Popped l q none = Unit
Popped l q (some (key, rest)) = tally l q ≡ tally rest q + tally (key ∷ []) q

pub pop_tail-Popped : (l : LruList) (q : JsString) → Popped l q (pop_tail l)
unfolding pop_tail tally
pop_tail-Popped [] q = tt
pop_tail-Popped (x ∷ []) q = omega arith
pop_tail-Popped (x ∷ (y ∷ l)) q = deep (pop_tail (y ∷ l)) (pop_tail-Popped (y ∷ l) q)
  where
    deep :
        (r : Option (JsString × LruList))
        → Popped (y ∷ l) q r
        → Popped (x ∷ (y ∷ l)) q (elim r [ none ↦ none | some (key, rest) ↦ some (key, x ∷ rest) ])
    deep none h = tt
    deep (some (key, rest)) h = elim (Bool-cases (list_eq x q)) [
      | inl same ↦ rw (same, tally) (omega (arith, h))
      | inr other ↦ rw (other, tally) h
    ]

evicted-EngineIsValid :
    (e : StorageEngine) (key : JsString) (rest : LruList)
    → EngineIsValid e
    → ((q : JsString) → tally e.lru_list q ≡ tally rest q + tally (key ∷ []) q)
    → EngineIsValid (record e {
      entries = erase e.entries key;
      lru_list = rest;
      expiry = untrack_expiry key e.expiry;
    })
evicted-EngineIsValid e key rest v split =
    forgotten-EngineIsValid e key rest v
      (omega
        (arith, split key, tally_self key [], v.listed key, at_most_once (lookup e.entries key)))
      (λ q ne. omega (arith, split q, tally_other key q [] ne, nil_tally q))
  where
    at_most_once : (o : Option LruNode) → present o ≤ 1
    at_most_once none = omega arith
    at_most_once (some n) = omega arith

    nil_tally : (q : JsString) → tally [] q ≡ 0
    nil_tally q = unfold tally in refl

-- What holds of the engine that an eviction leaves, where there is one.
abbrev pub IfSome : (StorageEngine → Type 0) → Option StorageEngine → Type 0
IfSome P none = Unit
IfSome P (some e) = P e

evict_one_lru-EngineIsValid :
    (e : StorageEngine) → EngineIsValid e → IfSome EngineIsValid (evict_one_lru e)
unfolding evict_one_lru
evict_one_lru-EngineIsValid e v = go (pop_tail e.lru_list) (pop_tail-Popped e.lru_list)
  where
    go :
        (r : Option (JsString × LruList))
        → ((q : JsString) → Popped e.lru_list q r)
        → IfSome EngineIsValid (elim r [
          | none ↦ none
          | some (key, rest) ↦ some (record e {
            entries = erase e.entries key;
            lru_list = rest;
            expiry = untrack_expiry key e.expiry;
          })
        ])
    go none h = tt
    go (some (key, rest)) h = evicted-EngineIsValid e key rest v h

module _ (P : StorageEngine → Type 0)
    (one : (e : StorageEngine) → P e → IfSome P (evict_one_lru e)) where
  pub evict_while-keeps :
      (over : ℕ → StorageEngine → Bool) (left evicted : ℕ) (e : StorageEngine)
      → P e
      → P (evict_while over left evicted e).1
  unfolding evict_while
  evict_while-keeps over zero evicted e v = v
  evict_while-keeps over (suc left) evicted e v = elim (Bool-cases (over evicted e)) [
    | inr q ↦ rw (q, evict_while) v
    | inl q ↦
        rw (q, evict_while)
          (go (evict_one_lru e) (one e v)
            (λ e' v'. evict_while-keeps over left (evicted + 1) e' v'))
  ]
    where
      go :
          (r : Option StorageEngine)
          → IfSome P r
          → ((e' : StorageEngine) → P e' → P (evict_while over left (evicted + 1) e').1)
          → P
              (elim r as (λ _. ℕ × StorageEngine) [
                | none ↦ (evicted, e)
                | some e' ↦ evict_while over left (evicted + 1) e'
              ]).1
      go none h ih = v
      go (some e') h ih = ih e' h

  -- What one eviction keeps, a call of `checkMemoryAndEvict` keeps.
  pub check_memory_and_evict-keeps :
      (heap : ℕ → ℕ) (max_evictions : ℕ) (e : StorageEngine)
      → P e
      → P (check_memory_and_evict heap max_evictions e).1
  unfolding check_memory_and_evict
  check_memory_and_evict-keeps heap max_evictions e v =
      evict_while-keeps (over_memory heap) _ _ _ (evict_while-keeps over_keys max_evictions 0 e v)

-- Evictions keep the map, the list and the index of expiries in step, whatever the heap.
pub check_memory_and_evict-EngineIsValid :
    (heap : ℕ → ℕ) (max_evictions : ℕ) (e : StorageEngine)
    → EngineIsValid e
    → EngineIsValid (check_memory_and_evict heap max_evictions e).1
check_memory_and_evict-EngineIsValid =
    check_memory_and_evict-keeps EngineIsValid evict_one_lru-EngineIsValid

abbrev pub Absent : JsString → StorageEngine → Type 0
Absent key e = lookup e.entries key ≡ none

pub evict_one_lru-Absent :
    (key : JsString) (e : StorageEngine) → Absent key e → IfSome (Absent key) (evict_one_lru e)
unfolding evict_one_lru
evict_one_lru-Absent key e h = go (pop_tail e.lru_list)
  where
    go :
        (r : Option (JsString × LruList))
        → IfSome (Absent key) (elim r [
          | none ↦ none
          | some (k, rest) ↦ some (record e {
            entries = erase e.entries k;
            lru_list = rest;
            expiry = untrack_expiry k e.expiry;
          })
        ])
    go none = tt
    go (some (k, rest)) = elim (JsString-cases k key) [
      | inl p ↦ subst (λ q. lookup (erase e.entries k) q ≡ none) p (lookup-erase e.entries k)
      | inr ne ↦ lookup-erase_other e.entries k key ne ∙ h
    ]
