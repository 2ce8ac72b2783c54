-- ===== src/Storage/Views.antt =====
-- src/storage-engine.ts: the operations that report on the whole engine, and `clear`.
use radix_kv.Prelude.{List, [], length, map, none, some, take, ℕ, ◌+◌, ◌-◌, ◌∷◌}
use radix_kv.Prelude.Int.{negsuc, pos, ℤ}
use radix_kv.Prelude.Text.{JsString}
use radix_kv.Prelude.Maps.{Entries, lookup}
use radix_kv.Storage.LruList.{get_tail_nodes}
use radix_kv.Storage.ExpiryIndex.{empty_index}
use radix_kv.Storage.Engine.{LruNode, StorageEngine}

pub record Stats : Type 0 where
  pub size : ℕ
  pub expires_count : ℕ
  pub hits : ℕ
  pub misses : ℕ
  pub total_ops : ℕ

unfoldable pub get_stats : StorageEngine → Stats
get_stats e = record {
  size = length e.entries;
  expires_count = length e.expiry.expires_list;
  hits = e.hits;
  misses = e.misses;
  total_ops = e.total_ops;
}

pub record Sample : Type 0 where
  pub key : JsString
  pub size_bytes : ℕ
  pub ttl_remaining_ms : ℤ

-- What is left at `now`, and -1 where there is no expiry.
unfoldable pub remaining_ms : ℕ → LruNode → ℤ
remaining_ms now node = elim node.expires_at [ none ↦ negsuc 0 | some t ↦ pos (t - now) ]

unfoldable pub sample_of : ℕ → JsString × LruNode → Sample
sample_of now (key, node) = record {
  key = key;
  size_bytes = length key + length node.value;
  ttl_remaining_ms = remaining_ms now node;
}

unfoldable pub sample_keys : ℕ → ℕ → StorageEngine → List Sample
sample_keys now limit e = map (sample_of now) (take limit e.entries)

-- The nodes that have these keys.
unfoldable pub nodes_of : List JsString → Entries LruNode → Entries LruNode
nodes_of [] m = []
nodes_of (key ∷ keys) m = elim (lookup m key) [
  | none ↦ nodes_of keys m
  | some node ↦ (key, node) ∷ nodes_of keys m
]

-- The least recently used entries, from the tail on.
unfoldable pub get_cold_entries : ℕ → StorageEngine → Entries LruNode
get_cold_entries max_count e = nodes_of (get_tail_nodes max_count e.lru_list) e.entries

unfoldable pub clear : StorageEngine → StorageEngine
clear e = record e { entries = []; lru_list = []; expiry = empty_index }
