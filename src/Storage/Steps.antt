-- ===== src/Storage/Steps.antt =====
-- src/storage-engine.ts: the operations on keys keep the invariant, and `get` returns what `set` put.
use radix_kv.Prelude.{
  Bool-cases, Option, Option-cases, ap, arith, inl, inr, is_some, none, refl, some, subst, suc, sym,
  ℕ, ◌∙◌, ◌∷◌, ◌≡◌, ◌≢◌,
}
use radix_kv.Prelude.Text.{Bytes, JsString}
use radix_kv.Prelude.Maps.{lookup}
use radix_kv.Storage.LruList.{LruList, is_front, move_to_front, push_front, remove}
use radix_kv.Storage.ExpiryIndex.{track_expiry, untrack_expiry}
use radix_kv.Storage.Packed.{JsString-cases, untrack_expiry-Packed}
use radix_kv.Storage.Tracked.{
  is_tracked-track_expiry, is_tracked-track_expiry_other, is_tracked-untrack_expiry,
  is_tracked-untrack_expiry_other, track_expiry-Packed,
}
use radix_kv.Storage.Engine.{
  LruNode, Readings, StorageEngine, count_op, get, get_node, hit, is_expired, miss, put,
  set_existing, set_key, set_new,
}
use radix_kv.Storage.Invariant.{
  EngineIsValid, has_expiry, present, stored-EngineIsValid, tally, tally_other, tally-remove,
  tally-remove_other, tally_self,
}
use radix_kv.Storage.Preserved.{
  Absent, check_memory_and_evict-EngineIsValid, check_memory_and_evict-keeps,
  delete_key-EngineIsValid, evict_one_lru-Absent, recounted,
}

pub tally-move_to_front :
    (key : JsString) (l : LruList) → tally l key ≡ 1 → tally (move_to_front key l) key ≡ 1
unfolding move_to_front push_front
tally-move_to_front key l h = elim (Bool-cases (is_front key l)) [
  | inl q ↦ rw (q, move_to_front) h
  | inr q ↦
      rw (q, move_to_front) (omega (arith, h, tally_self key (remove key l), tally-remove key l))
]

pub tally-move_to_front_other :
    (key q : JsString) (l : LruList) → key ≢ q → tally (move_to_front key l) q ≡ tally l q
unfolding move_to_front push_front
tally-move_to_front_other key q l ne = elim (Bool-cases (is_front key l)) [
  | inl h ↦ rw (h, move_to_front) refl
  | inr h ↦
      rw (h, move_to_front) (tally_other key q (remove key l) ne ∙ tally-remove_other key q l ne)
]

hit-EngineIsValid :
    (key : JsString) (e : StorageEngine) (node : LruNode)
    → lookup e.entries key ≡ some node
    → EngineIsValid e
    → EngineIsValid (hit key e)
unfolding hit
hit-EngineIsValid key e node q v = record {
  packed = v.packed;
  timed = v.timed;
  listed = λ k. elim (JsString-cases key k) [
    | inl p ↦
        subst (λ k. tally (move_to_front key e.lru_list) k ≡ present (lookup e.entries k)) p
          (tally-move_to_front key e.lru_list (v.listed key ∙ ap present q) ∙ sym (ap present q))
    | inr ne ↦ tally-move_to_front_other key k e.lru_list ne ∙ v.listed k
  ];
}

-- `get` keeps the map, the list and the index of expiries in step, at any time.
pub get-EngineIsValid :
    (now : ℕ) (key : JsString) (e : StorageEngine)
    → EngineIsValid e
    → EngineIsValid (get now key e).1
unfolding get get_node miss count_op
get-EngineIsValid now key e v = elim (Option-cases (lookup e.entries key)) [
  | inl q ↦ rw (q, get) (recounted e _ _ _ v)
  | inr (node, q) ↦ elim (Bool-cases (is_expired now node)) [
    | inl late ↦ rw (q, get) (rw late (delete_key-EngineIsValid key _ (recounted e _ _ _ v)))
    | inr live ↦ rw (q, get) (rw live (hit-EngineIsValid key _ node q (recounted e _ _ _ v)))
  ]
]

-- The index after a node is stored under a key: it tracks the key if the node has an expiry.
set_existing-EngineIsValid :
    (key : JsString) (node old : LruNode) (e : StorageEngine)
    → lookup e.entries key ≡ some old
    → EngineIsValid e
    → EngineIsValid (set_existing key node e)
unfolding set_existing
set_existing-EngineIsValid key node old e q v = elim (Bool-cases (is_some node.expires_at)) [
  | inl timed ↦
      rw (timed, set_existing)
        (stored-EngineIsValid e key node _ (track_expiry key e.expiry) v once others
          (track_expiry-Packed key e.expiry v.packed)
          (is_tracked-track_expiry key e.expiry ∙ sym timed)
          (is_tracked-track_expiry_other key e.expiry))
  | inr untimed ↦
      rw (untimed, set_existing)
        (stored-EngineIsValid e key node _ (untrack_expiry key e.expiry) v once others
          (untrack_expiry-Packed key e.expiry v.packed)
          (is_tracked-untrack_expiry key e.expiry v.packed ∙ sym untimed)
          (is_tracked-untrack_expiry_other key e.expiry v.packed))
]
  where
    once : tally (move_to_front key e.lru_list) key ≡ 1
    once = tally-move_to_front key e.lru_list (v.listed key ∙ ap present q)

    others : (k : JsString) → key ≢ k → tally (move_to_front key e.lru_list) k ≡ tally e.lru_list k
    others k ne = tally-move_to_front_other key k e.lru_list ne

set_new-EngineIsValid :
    (key : JsString) (node : LruNode) (e : StorageEngine)
    → lookup e.entries key ≡ none
    → EngineIsValid e
    → EngineIsValid (set_new key node e)
unfolding set_new push_front
set_new-EngineIsValid key node e q v = elim (Bool-cases (is_some node.expires_at)) [
  | inl timed ↦
      rw (timed, set_new)
        (stored-EngineIsValid e key node _ (track_expiry key e.expiry) v once others
          (track_expiry-Packed key e.expiry v.packed)
          (is_tracked-track_expiry key e.expiry ∙ sym timed)
          (is_tracked-track_expiry_other key e.expiry))
  | inr untimed ↦
      rw (untimed, set_new)
        (stored-EngineIsValid e key node _ e.expiry v once others v.packed
          (v.timed key ∙ ap has_expiry q ∙ sym untimed) (λ k ne. refl))
]
  where
    once : tally (key ∷ e.lru_list) key ≡ 1
    once = tally_self key e.lru_list ∙ ap suc (v.listed key ∙ ap present q)

    others : (k : JsString) → key ≢ k → tally (key ∷ e.lru_list) k ≡ tally e.lru_list k
    others k ne = tally_other key k e.lru_list ne

pub put-EngineIsValid :
    (r : Readings) (key : JsString) (node : LruNode) (e : StorageEngine)
    → EngineIsValid e
    → EngineIsValid (put r key node e)
unfolding put
put-EngineIsValid r key node e v = elim (Option-cases (lookup e.entries key)) [
  | inr (old, q) ↦ rw (q, put) (set_existing-EngineIsValid key node old e q v)
  | inl q ↦
      rw (q, put)
        (set_new-EngineIsValid key node _
          (check_memory_and_evict-keeps (Absent key) (evict_one_lru-Absent key) r.heap_before 100 e
            q)
          (check_memory_and_evict-EngineIsValid r.heap_before 100 e v))
]

-- `set` keeps the map, the list and the index of expiries in step, evictions included, whatever the
-- clock and the heap.
pub set_key-EngineIsValid :
    (r : Readings) (key : JsString) (value : Bytes) (ex_seconds : Option ℕ) (e : StorageEngine)
    → EngineIsValid e
    → EngineIsValid (set_key r key value ex_seconds e)
unfolding set_key count_op
set_key-EngineIsValid r key value ex_seconds e v =
    check_memory_and_evict-EngineIsValid r.heap_after 100 _
      (put-EngineIsValid r key _ _ (recounted e _ _ _ v))
