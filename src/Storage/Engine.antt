-- ===== src/Storage/Engine.antt =====
-- src/storage-engine.ts: the state and the operations on keys. The fields `value` and `expiresAt` of
-- a node stand in the map; the node itself, which the map and the list share, is named by its key.
-- The clock and the process's heap are read from outside: their readings are arguments.
use radix_kv.Prelude.{
  Bool, List, Option, [], false, if◌then◌else◌, is_some, leb, length, ltb, none, some, suc, true,
  zero, ℕ, ◌&&◌, ◌*◌, ◌+◌, ◌-◌, ◌∷◌,
}
use radix_kv.Prelude.Text.{Bytes, JsString}
use radix_kv.Prelude.Maps.{Entries, erase, insert, lookup}
use radix_kv.Storage.LruList.{LruList, move_to_front, pop_tail, push_front, remove}
use radix_kv.Storage.ExpiryIndex.{ExpiryIndex, empty_index, track_expiry, untrack_expiry}

-- `LruNode`, without its links. `expires_at` is in milliseconds.
pub record LruNode : Type 0 where
  pub value : Bytes
  pub expires_at : Option ℕ

-- Zero turns a limit off.
pub record StorageEngineOptions : Type 0 where
  pub max_memory_bytes : ℕ
  pub max_keys : ℕ
  pub ttl_sample_size : ℕ
  pub ttl_sweep_max_time_ms : ℕ

pub record StorageEngine : Type 0 where
  pub entries : Entries LruNode
  pub lru_list : LruList
  pub expiry : ExpiryIndex
  pub options : StorageEngineOptions
  pub hits : ℕ
  pub misses : ℕ
  pub total_ops : ℕ

unfoldable pub new_engine : StorageEngineOptions → StorageEngine
new_engine o = record {
  entries = [];
  lru_list = [];
  expiry = empty_index;
  options = o;
  hits = 0;
  misses = 0;
  total_ops = 0;
}

-- `map.size`
abbrev pub size : StorageEngine → ℕ
size e = length e.entries

abbrev pub expires_count : StorageEngine → ℕ
expires_count e = length e.expiry.expires_list

-- `this.totalOps++`
unfoldable pub count_op : StorageEngine → StorageEngine
count_op e = record e { total_ops = e.total_ops + 1 }

-- Has the node an expiry that has come?
unfoldable pub is_expired : ℕ → LruNode → Bool
is_expired now node = elim node.expires_at [ none ↦ false | some t ↦ leb t now ]

-- The node leaves the list, the map and the index of expiries.
unfoldable pub unlink_key : JsString → StorageEngine → StorageEngine
unlink_key key e = record e {
  entries = erase e.entries key;
  lru_list = remove key e.lru_list;
  expiry = untrack_expiry key e.expiry;
}

unfoldable pub delete_key : JsString → StorageEngine → StorageEngine
delete_key key e = elim (lookup e.entries key) [ none ↦ e | some node ↦ unlink_key key e ]

-- `none` where there is nothing to evict.
unfoldable pub evict_one_lru : StorageEngine → Option StorageEngine
evict_one_lru e = elim (pop_tail e.lru_list) [
  | none ↦ none
  | some (key, rest) ↦ some (record e {
    entries = erase e.entries key;
    lru_list = rest;
    expiry = untrack_expiry key e.expiry;
  })
]

-- The loops of `checkMemoryAndEvict`, with the number of evictions that are left. The engine stays
-- over its limit as long as `over` says so of the evictions so far and of the engine.
unfoldable pub evict_while : (ℕ → StorageEngine → Bool) → ℕ → ℕ → StorageEngine → ℕ × StorageEngine
evict_while over zero evicted e = (evicted, e)
evict_while over (suc left) evicted e = elim (over evicted e) [
  | false ↦ (evicted, e)
  | true ↦ elim (evict_one_lru e) [
    | none ↦ (evicted, e)
    | some e' ↦ evict_while over left (evicted + 1) e'
  ]
]

unfoldable pub over_keys : ℕ → StorageEngine → Bool
over_keys evicted e = ltb 0 e.options.max_keys && ltb e.options.max_keys (size e)

-- `heap i` is the heap in use when `i` keys have been evicted.
unfoldable pub over_memory : (ℕ → ℕ) → ℕ → StorageEngine → Bool
over_memory heap evicted e =
    ltb 0 e.options.max_memory_bytes && ltb e.options.max_memory_bytes (heap evicted)

-- The number of evictions, at most `max_evictions`, and the engine after them.
unfoldable pub check_memory_and_evict : (ℕ → ℕ) → ℕ → StorageEngine → ℕ × StorageEngine
check_memory_and_evict heap max_evictions e =
    let (evicted, e') = evict_while over_keys max_evictions 0 e in
    evict_while (over_memory heap) (max_evictions - evicted) evicted e'

-- A call without an argument.
abbrev pub evict_default : (ℕ → ℕ) → StorageEngine → StorageEngine
evict_default heap e = (check_memory_and_evict heap 100 e).1

-- The expiry that the option `exSeconds` asks for.
unfoldable pub expiry_of : ℕ → Option ℕ → Option ℕ
expiry_of now none = none
expiry_of now (some zero) = none
expiry_of now (some (suc s)) = some (now + suc s * 1000)

unfoldable pub set_existing : JsString → LruNode → StorageEngine → StorageEngine
set_existing key node e = record e {
  entries = insert e.entries key node;
  lru_list = move_to_front key e.lru_list;
  expiry =
      if is_some node.expires_at then track_expiry key e.expiry else untrack_expiry key e.expiry;
}

unfoldable pub set_new : JsString → LruNode → StorageEngine → StorageEngine
set_new key node e = record e {
  entries = insert e.entries key node;
  lru_list = push_front key e.lru_list;
  expiry = if is_some node.expires_at then track_expiry key e.expiry else e.expiry;
}

-- What a call of `set` reads from outside: the clock, and the heap in its two rounds of evictions.
pub record Readings : Type 0 where
  pub now : ℕ
  pub heap_before : ℕ → ℕ
  pub heap_after : ℕ → ℕ

-- `set` before its last line.
unfoldable pub put : Readings → JsString → LruNode → StorageEngine → StorageEngine
put r key node e = elim (lookup e.entries key) [
  | some existing ↦ set_existing key node e
  | none ↦ set_new key node (evict_default r.heap_before e)
]

unfoldable pub set_key : Readings → JsString → Bytes → Option ℕ → StorageEngine → StorageEngine
set_key r key value ex_seconds e =
    let node : LruNode = record { value = value; expires_at = expiry_of r.now ex_seconds } in
    evict_default r.heap_after (put r key node (count_op e))

unfoldable pub miss : StorageEngine → StorageEngine
miss e = record e { misses = e.misses + 1 }

-- `get` of a key that has a live node.
unfoldable pub hit : JsString → StorageEngine → StorageEngine
hit key e = record e { hits = e.hits + 1; lru_list = move_to_front key e.lru_list }

unfoldable pub get_node : ℕ → JsString → LruNode → StorageEngine → Option Bytes × StorageEngine
get_node now key node e =
    if is_expired now node then (none, delete_key key (miss e)) else (some node.value, hit key e)

unfoldable pub get : ℕ → JsString → StorageEngine → Option Bytes × StorageEngine
get now key e = elim (lookup e.entries key) [
  | none ↦ (none, miss (count_op e))
  | some node ↦ get_node now key node (count_op e)
]

-- One turn of the loop of `del`: the number that it adds to the count.
unfoldable pub del_one : ℕ → JsString → StorageEngine → ℕ × StorageEngine
del_one now key e = elim (lookup e.entries key) [
  | none ↦ (0, e)
  | some node ↦ (if is_expired now node then 0 else 1, delete_key key e)
]

unfoldable pub del_all : ℕ → List JsString → StorageEngine → ℕ × StorageEngine
del_all now [] e = (0, e)
del_all now (key ∷ keys) e =
    let (n, e') = del_one now key e in let (k, e'') = del_all now keys e' in (n + k, e'')

unfoldable pub del : ℕ → List JsString → StorageEngine → ℕ × StorageEngine
del now keys e = del_all now keys (count_op e)
