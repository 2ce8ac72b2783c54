-- ===== src/Storage/Numbers.antt =====
-- src/storage-engine.ts: `incr` and `ttl`.
use radix_kv.Prelude.{if◌then◌else◌, leb, none, some, ℕ, ◌+◌, ◌-◌, ◌/◌}
use radix_kv.Prelude.Int.{negsuc, pos, succ, ℤ}
use radix_kv.Prelude.Text.{JsString, Utf8, codes, decode, encode}
use radix_kv.Prelude.Maps.{insert, lookup}
use radix_kv.Result.{Result, err, ok}
use radix_kv.Resp.Decimal.{to_string}
use radix_kv.Storage.LruList.{move_to_front}
use radix_kv.Storage.BigInt.{big_int, trim}
use radix_kv.Storage.Engine.{
  LruNode, Readings, StorageEngine, count_op, delete_key, is_expired, set_key,
}

-- The plain `Error` that `incr` throws: its message.
abbrev pub not_an_integer : JsString
not_an_integer = codes "ERR value is not an integer or out of range"

-- Where there is no live node: the key is set to 1, by a second counted operation.
unfoldable pub incr_missing : ⦃u : Utf8⦄ → Readings → JsString → StorageEngine → ℤ × StorageEngine
incr_missing r key e = (pos 1, set_key r key (encode (to_string (pos 1))) none e)

-- The node keeps its expiry.
unfoldable pub store_number : ⦃u : Utf8⦄ → JsString → LruNode → ℤ → StorageEngine → StorageEngine
store_number key node n e = record e {
  entries = insert e.entries key (record node { value = encode (to_string n) });
  lru_list = move_to_front key e.lru_list;
}

unfoldable pub incr_node :
    ⦃u : Utf8⦄ → JsString → LruNode → StorageEngine → Result JsString ℤ × StorageEngine
incr_node key node e = elim (big_int (trim (decode node.value))) [
  | none ↦ (err not_an_integer, e)
  | some n ↦ (ok (succ n), store_number key node (succ n) e)
]

unfoldable pub incr :
    ⦃u : Utf8⦄ → Readings → JsString → StorageEngine → Result JsString ℤ × StorageEngine
incr r key e = elim (lookup e.entries key) [
  | none ↦ let (n, e') = incr_missing r key (count_op e) in (ok n, e')
  | some node ↦
      if is_expired r.now node
      then (let (n, e') = incr_missing r key (delete_key key (count_op e)) in (ok n, e'))
      else incr_node key node (count_op e)
]

-- -2 for a key that is not there, -1 for one without an expiry, else the seconds that are left,
-- rounded up.
unfoldable pub ttl_node : ℕ → JsString → LruNode → StorageEngine → ℤ × StorageEngine
ttl_node now key node e = elim node.expires_at [
  | none ↦ (negsuc 0, e)
  | some t ↦ if leb t now then (negsuc 1, delete_key key e) else (pos ((t - now + 999) / 1000), e)
]

unfoldable pub ttl : ℕ → JsString → StorageEngine → ℤ × StorageEngine
ttl now key e = elim (lookup e.entries key) [
  | none ↦ (negsuc 1, count_op e)
  | some node ↦ ttl_node now key node (count_op e)
]
