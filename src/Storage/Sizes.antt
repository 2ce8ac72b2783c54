-- ===== src/Storage/Sizes.antt =====
-- src/storage-engine.ts: the number of keys stays within its limit.
use radix_kv.Prelude.{
  Bool-cases, Option, Option-cases, [], ap, arith, false, inl, inr, length, list_eq, list_eq_refl,
  none, refl, some, subst, suc, sym, true, ℕ, ◌+◌, ◌<◌, ◌∙◌, ◌∷◌, ◌≡◌, ◌≢◌, ◌≤◌,
}
use radix_kv.Prelude.Text.{Bytes, JsString}
use radix_kv.Prelude.Maps.{Entries, erase, insert, lookup}
use radix_kv.Storage.ExpiryIndex.{untrack_expiry}
use radix_kv.Storage.LruList.{LruList, pop_tail}
use radix_kv.Storage.Engine.{
  LruNode, Readings, StorageEngine, StorageEngineOptions, check_memory_and_evict, count_op,
  evict_default, evict_one_lru, evict_while, expiry_of, over_keys, over_memory, put, set_existing,
  set_key, set_new, size,
}
use radix_kv.Storage.Invariant.{EngineIsValid, present, tally, tally_self}
use radix_kv.Storage.Steps.{put-EngineIsValid}
use radix_kv.Storage.Preserved.{
  IfSome, Popped, check_memory_and_evict-keeps, evict_while-keeps, pop_tail-Popped, recounted,
}

module _ {ℓ} {V : Type ℓ} where
  length-erase_le : (m : Entries V) (k : JsString) → length (erase m k) ≤ length m
  unfolding erase
  length-erase_le [] k = omega arith
  length-erase_le ((x, w) ∷ m) k = elim (Bool-cases (list_eq x k)) [
    | inl h ↦ rw (h, erase) (omega (arith, length-erase_le m k))
    | inr h ↦ rw (h, erase) (omega (arith, length-erase_le m k))
  ]

  length-erase_lt :
      (m : Entries V) (k : JsString) {v : V} → lookup m k ≡ some v → length (erase m k) < length m
  unfolding erase lookup
  length-erase_lt [] k q = absurd (ground (arith, q))
  length-erase_lt ((x, w) ∷ m) k q = elim (Bool-cases (list_eq x k)) [
    | inl h ↦ rw (h, erase) (omega (arith, length-erase_le m k))
    | inr h ↦ rw (h, erase) (omega (arith, length-erase_lt m k (sym (rw (h, lookup) refl) ∙ q)))
  ]

  length-insert_le : (m : Entries V) (k : JsString) (v : V) → length (insert m k v) ≤ length m + 1
  unfolding insert
  length-insert_le [] k v = omega arith
  length-insert_le ((x, w) ∷ m) k v = elim (Bool-cases (list_eq x k)) [
    | inl h ↦ rw (h, insert) (omega arith)
    | inr h ↦ rw (h, insert) (omega (arith, length-insert_le m k v))
  ]

  length-insert :
      (m : Entries V) (k : JsString) (v : V) {w : V}
      → lookup m k ≡ some w
      → length (insert m k v) ≡ length m
  unfolding insert lookup
  length-insert [] k v q = absurd (ground (arith, q))
  length-insert ((x, w) ∷ m) k v q = elim (Bool-cases (list_eq x k)) [
    | inl h ↦ rw (h, insert) refl
    | inr h ↦ rw (h, insert) (ap suc (length-insert m k v (sym (rw (h, lookup) refl) ∙ q)))
  ]

-- At most `n` keys, and these options.
abbrev AtMost : ℕ → StorageEngineOptions → StorageEngine → Type 0
AtMost n o e = (size e ≤ n) × (e.options ≡ o)

evict_one_lru-AtMost :
    (n : ℕ) (o : StorageEngineOptions) (e : StorageEngine)
    → AtMost n o e
    → IfSome (AtMost n o) (evict_one_lru e)
unfolding evict_one_lru
evict_one_lru-AtMost n o e h = elim (Option-cases (pop_tail e.lru_list)) [
  | inl q ↦ rw (q, evict_one_lru) tt
  | inr ((key, rest), q) ↦
      rw (q, evict_one_lru) (omega (arith, h.0, length-erase_le e.entries key), h.1)
]

nonempty_pop_tail : (x : JsString) (l : LruList) → pop_tail (x ∷ l) ≢ none
unfolding pop_tail
nonempty_pop_tail x [] q = ground (arith, q)
nonempty_pop_tail x (y ∷ l) q = elim (Option-cases (pop_tail (y ∷ l))) [
  | inl r ↦ nonempty_pop_tail y l r
  | inr ((key, rest), r) ↦ absurd (ground (arith, r, q))
]

some_of_present : (o : Option LruNode) → 0 < present o → (node : LruNode) × (o ≡ some node)
some_of_present none h = absurd (omega arith)
some_of_present (some node) h = (node, refl)

-- The key at the tail is one of the map.
tail_is_present :
    (e : StorageEngine) (key : JsString) (rest : LruList)
    → EngineIsValid e
    → pop_tail e.lru_list ≡ some (key, rest)
    → (node : LruNode) × (lookup e.entries key ≡ some node)
tail_is_present e key rest v q =
    let split : tally e.lru_list key ≡ tally rest key + tally (key ∷ []) key =
      subst (Popped e.lru_list key) q (pop_tail-Popped e.lru_list key) in
    some_of_present (lookup e.entries key) (omega (arith, split, tally_self key [], v.listed key))

first_entry :
    (m : Entries LruNode)
    → 0 < length m
    → (key : JsString) × (node : LruNode) × (lookup m key ≡ some node)
unfolding lookup
first_entry [] h = absurd (omega arith)
first_entry ((k, node) ∷ m) h = (k, node, rw (list_eq_refl k) refl)

-- An engine with keys has one to evict, and is smaller for it.
evict_one_lru_lt :
    (n : ℕ) (e : StorageEngine)
    → EngineIsValid e
    → size e ≡ suc n
    → (e' : StorageEngine) × (evict_one_lru e ≡ some e') × AtMost n e.options e'
unfolding evict_one_lru
evict_one_lru_lt n e v is = elim (Option-cases (pop_tail e.lru_list)) [
  | inr ((key, rest), q) ↦
      let (node, there) = tail_is_present e key rest v q in
      (
        record e {
          entries = erase e.entries key;
          lru_list = rest;
          expiry = untrack_expiry key e.expiry;
        },
        rw (q, evict_one_lru) refl,
        (omega (arith, length-erase_lt e.entries key there, is), refl),
      )
  | inl q ↦
      let (key, node, there) = first_entry e.entries (omega (arith, is)) in
      absurd (nonempty key e.lru_list (omega (arith, v.listed key, ap present there)) q)
]
  where
    nonempty : (key : JsString) (l : LruList) → 0 < tally l key → pop_tail l ≢ none
    nonempty key [] h = absurd (unfold tally in omega (arith, h))
    nonempty key (x ∷ l) h = nonempty_pop_tail x l

within_limit :
    (k : ℕ) (e : StorageEngine)
    → 0 < e.options.max_keys
    → over_keys k e ≡ false
    → size e ≤ e.options.max_keys
unfolding over_keys
within_limit k e h q = ground (arith, h, q)

beyond_limit : (k : ℕ) (e : StorageEngine) → over_keys k e ≡ true → e.options.max_keys < size e
unfolding over_keys
beyond_limit k e q = ground (arith, q)

-- One key too many is evicted.
keys_phase-AtMost :
    (left : ℕ) (e : StorageEngine)
    → EngineIsValid e
    → 0 < e.options.max_keys
    → size e ≤ e.options.max_keys + 1
    → AtMost e.options.max_keys e.options (evict_while over_keys (suc left) 0 e).1
unfolding evict_while
keys_phase-AtMost left e v limited h = elim (Bool-cases (over_keys 0 e)) [
  | inr no_more ↦ rw (no_more, evict_while) (within_limit 0 e limited no_more, refl)
  | inl too_many ↦
      let n = e.options.max_keys in
      let (e', is, small) = evict_one_lru_lt n e v (omega (arith, h, beyond_limit 0 e too_many)) in
      rw (too_many, evict_while)
        (rw is (
          evict_while-keeps (AtMost n e.options) (evict_one_lru-AtMost n e.options) over_keys left 1
            e' small))
]

check_memory_and_evict-AtMost :
    (heap : ℕ → ℕ) (e : StorageEngine)
    → EngineIsValid e
    → 0 < e.options.max_keys
    → size e ≤ e.options.max_keys + 1
    → AtMost e.options.max_keys e.options (check_memory_and_evict heap 100 e).1
unfolding check_memory_and_evict
check_memory_and_evict-AtMost heap e v limited h =
    let n = e.options.max_keys in
    evict_while-keeps (AtMost n e.options) (evict_one_lru-AtMost n e.options) (over_memory heap) _ _
      _ (keys_phase-AtMost 99 e v limited h)

-- A call of `set` on an engine within its limit.
put-AtMost :
    (r : Readings) (key : JsString) (node : LruNode) (e : StorageEngine)
    → size e ≤ e.options.max_keys
    → AtMost (e.options.max_keys + 1) e.options (put r key node e)
unfolding put set_existing set_new
put-AtMost r key node e h = elim (Option-cases (lookup e.entries key)) [
  | inr (old, q) ↦ rw (q, put) (omega (arith, h, length-insert e.entries key node q), refl)
  | inl q ↦
      let n = e.options.max_keys in
      let (small, same) =
        check_memory_and_evict-keeps (AtMost n e.options) (evict_one_lru-AtMost n e.options)
          r.heap_before 100 e (h, refl) in
      rw (q, put)
        (
          omega (arith, small, length-insert_le (evict_default r.heap_before e).entries key node),
          same,
        )
]

-- With a limit on the keys, an engine in step and within the limit is within it after every `set`,
-- whatever the clock and the heap; and its options are the same.
pub set_key-AtMost :
    (r : Readings) (key : JsString) (value : Bytes) (ex_seconds : Option ℕ) (e : StorageEngine)
    → EngineIsValid e
    → 0 < e.options.max_keys
    → size e ≤ e.options.max_keys
    → (size (set_key r key value ex_seconds e) ≤ e.options.max_keys)
      × ((set_key r key value ex_seconds e).options ≡ e.options)
unfolding set_key count_op
set_key-AtMost r key value ex_seconds e v limited h =
    let node : LruNode = record { value = value; expires_at = expiry_of r.now ex_seconds } in
    let counted = recounted e e.hits e.misses (e.total_ops + 1) v in
    let (small, same) = put-AtMost r key node (count_op e) h in
    let m = put r key node (count_op e) in
    let limit : m.options.max_keys ≡ e.options.max_keys =
      ap (λ (o : StorageEngineOptions). o.max_keys) same in
    let (within, kept) =
      check_memory_and_evict-AtMost r.heap_after m (put-EngineIsValid r key node _ counted)
        (omega (arith, limited, limit)) (omega (arith, small, limit)) in
    (omega (arith, within, limit), kept ∙ same)
