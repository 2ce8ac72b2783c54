-- ===== src/Storage/Runs.antt =====
-- src/storage-engine.ts: every operation keeps the map, the list and the index of expiries in step.
use radix_kv.Prelude.{
  Bool-cases, List, Option, Option-cases, [], ap, arith, inl, inr, leb, none, refl, some, ℕ, ◌+◌,
  ◌∙◌, ◌∷◌, ◌≡◌,
}
use radix_kv.Prelude.Text.{Bytes, JsString, Utf8, decode}
use radix_kv.Prelude.Int.{succ, ℤ}
use radix_kv.Prelude.Maps.{lookup}
use radix_kv.Storage.BigInt.{big_int, trim}
use radix_kv.Storage.Engine.{
  LruNode, Readings, StorageEngine, StorageEngineOptions, check_memory_and_evict, count_op, del,
  del_all, del_one, get, is_expired, new_engine, set_key, size,
}
use radix_kv.Storage.Numbers.{incr, incr_missing, incr_node, store_number, ttl, ttl_node}
use radix_kv.Storage.Swept.{run_active_ttl_cycle-Swept}
use radix_kv.Storage.Sweep.{run_active_ttl_cycle}
use radix_kv.Storage.Views.{clear}
use radix_kv.Storage.Invariant.{EngineIsValid, has_expiry, present, stored-EngineIsValid, tally}
use radix_kv.Storage.Preserved.{
  check_memory_and_evict-EngineIsValid, delete_key-EngineIsValid, recounted,
}
use radix_kv.Storage.Steps.{
  get-EngineIsValid, set_key-EngineIsValid, tally-move_to_front, tally-move_to_front_other,
}

del_one-EngineIsValid :
    (now : ℕ) (key : JsString) (e : StorageEngine)
    → EngineIsValid e
    → EngineIsValid (del_one now key e).1
unfolding del_one
del_one-EngineIsValid now key e v = elim (Option-cases (lookup e.entries key)) [
  | inl q ↦ rw (q, del_one) v
  | inr (node, q) ↦ rw (q, del_one) (delete_key-EngineIsValid key e v)
]

del_all-EngineIsValid :
    (now : ℕ) (keys : List JsString) (e : StorageEngine)
    → EngineIsValid e
    → EngineIsValid (del_all now keys e).1
unfolding del_all
del_all-EngineIsValid now [] e v = v
del_all-EngineIsValid now (key ∷ keys) e v =
    del_all-EngineIsValid now keys _ (del_one-EngineIsValid now key e v)

ttl-EngineIsValid :
    (now : ℕ) (key : JsString) (e : StorageEngine)
    → EngineIsValid e
    → EngineIsValid (ttl now key e).1
unfolding ttl ttl_node count_op
ttl-EngineIsValid now key e v = elim (Option-cases (lookup e.entries key)) [
  | inl q ↦ rw (q, ttl) (recounted e _ _ _ v)
  | inr (node, q) ↦ elim (Option-cases node.expires_at) [
    | inl forever ↦ rw (q, ttl) (rw forever (recounted e _ _ _ v))
    | inr (t, until) ↦ elim (Bool-cases (leb t now)) [
      | inl late ↦
          rw (q, ttl) (rw until (rw late (delete_key-EngineIsValid key _ (recounted e _ _ _ v))))
      | inr soon ↦ rw (q, ttl) (rw until (rw soon (recounted e _ _ _ v)))
    ]
  ]
]

store_number-EngineIsValid :
    ⦃u : Utf8⦄
    → (key : JsString) (node : LruNode) (n : ℤ) (e : StorageEngine)
    → lookup e.entries key ≡ some node
    → EngineIsValid e
    → EngineIsValid (store_number key node n e)
unfolding store_number
store_number-EngineIsValid key node n e q v =
    stored-EngineIsValid e key _ _ e.expiry v
      (tally-move_to_front key e.lru_list (v.listed key ∙ ap present q))
      (λ k ne. tally-move_to_front_other key k e.lru_list ne) v.packed
      (v.timed key ∙ ap has_expiry q) (λ k ne. refl)

incr_node-EngineIsValid :
    ⦃u : Utf8⦄
    → (key : JsString) (node : LruNode) (e : StorageEngine) → lookup e.entries key ≡ some node
    → EngineIsValid e
    → EngineIsValid (incr_node key node e).1
unfolding incr_node
incr_node-EngineIsValid key node e q v = elim (Option-cases (big_int (trim (decode node.value)))) [
  | inl bad ↦ rw (bad, incr_node) v
  | inr (n, good) ↦ rw (good, incr_node) (store_number-EngineIsValid key node (succ n) e q v)
]

incr-EngineIsValid :
    ⦃u : Utf8⦄
    → (r : Readings) (key : JsString) (e : StorageEngine) → EngineIsValid e
    → EngineIsValid (incr r key e).1
unfolding incr incr_missing count_op
incr-EngineIsValid r key e v =
    let counted = recounted e e.hits e.misses (e.total_ops + 1) v in
    elim (Option-cases (lookup e.entries key)) [
      | inl q ↦ rw (q, incr) (set_key-EngineIsValid r key _ none _ counted)
      | inr (node, q) ↦ elim (Bool-cases (is_expired r.now node)) [
        | inl late ↦
            rw (q, incr)
              (rw late
                (set_key-EngineIsValid r key _ none _ (delete_key-EngineIsValid key _ counted)))
        | inr live ↦ rw (q, incr) (rw live (incr_node-EngineIsValid key node _ q counted))
      ]
    ]

clear-EngineIsValid : (e : StorageEngine) → EngineIsValid (clear e)
unfolding clear tally lookup
clear-EngineIsValid e = record {
  packed = record {
    placed = λ k i h. absurd (ground arith);
    indexed = λ k i h. absurd (ground arith);
  };
  timed = λ k. refl;
  listed = λ k. refl;
}

-- The operations, with what each reads from outside. A sweep has its draws and its clock.
pub data Operation : Type 0 where
  op_set : Readings → JsString → Bytes → Option ℕ → Operation
  op_get op_ttl : ℕ → JsString → Operation
  op_del : ℕ → List JsString → Operation
  op_incr : Readings → JsString → Operation
  op_sweep : (ℕ → ℕ → ℕ) → (ℕ → ℕ) → Option ℕ → Option ℕ → Operation
  op_evict : (ℕ → ℕ) → ℕ → Operation
  op_clear : Operation

unfoldable pub operate : ⦃u : Utf8⦄ → Operation → StorageEngine → StorageEngine
operate (op_set r key value ex) e = set_key r key value ex e
operate (op_get now key) e = (get now key e).1
operate (op_ttl now key) e = (ttl now key e).1
operate (op_del now keys) e = (del now keys e).1
operate (op_incr r key) e = (incr r key e).1
operate (op_sweep draw clock size time) e = (run_active_ttl_cycle draw clock size time e).1
operate (op_evict heap n) e = (check_memory_and_evict heap n e).1
operate op_clear e = clear e

unfoldable pub operate_all : ⦃u : Utf8⦄ → List Operation → StorageEngine → StorageEngine
operate_all [] e = e
operate_all (o ∷ os) e = operate_all os (operate o e)

module _ ⦃u : Utf8⦄ where
  operate-EngineIsValid :
      (o : Operation) (e : StorageEngine) → EngineIsValid e → EngineIsValid (operate o e)
  unfolding operate del count_op
  operate-EngineIsValid (op_set r key value ex) e v = set_key-EngineIsValid r key value ex e v
  operate-EngineIsValid (op_get now key) e v = get-EngineIsValid now key e v
  operate-EngineIsValid (op_ttl now key) e v = ttl-EngineIsValid now key e v
  operate-EngineIsValid (op_del now keys) e v =
      del_all-EngineIsValid now keys _ (recounted e _ _ _ v)
  operate-EngineIsValid (op_incr r key) e v = incr-EngineIsValid r key e v
  operate-EngineIsValid (op_sweep draw clock size time) e v =
      (run_active_ttl_cycle-Swept draw clock size time e v).valid
  operate-EngineIsValid (op_evict heap n) e v = check_memory_and_evict-EngineIsValid heap n e v
  operate-EngineIsValid op_clear e v = clear-EngineIsValid e

  operate_all-keeps :
      (os : List Operation) (e : StorageEngine) → EngineIsValid e → EngineIsValid (operate_all os e)
  unfolding operate_all
  operate_all-keeps [] e v = v
  operate_all-keeps (o ∷ os) e v = operate_all-keeps os (operate o e) (operate-EngineIsValid o e v)

  -- Whatever operations a new engine runs, and whatever the clock, the heap and the draws: its map, its
  -- list and its index of expiries stay in step. The list has each key of the map once, the array of the
  -- index has the keys whose node has an expiry, and its map says where each of them stands.
  pub operate_all-EngineIsValid :
      (os : List Operation) (o : StorageEngineOptions)
      → EngineIsValid (operate_all os (new_engine o))
  unfolding new_engine
  operate_all-EngineIsValid os o =
      operate_all-keeps os (new_engine o) (unfold clear in clear-EngineIsValid (new_engine o))
