-- ===== src/Cluster/ConsistentHash.antt =====
-- src/cluster/consistent-hash.ts. The hash of a text, the first word of its SHA-256 digest, is a
-- parameter.
pub mod Search
pub mod Churn
pub mod Order
mod Tests
use radix_kv.Prelude.{
  Bool, List, [], false, get_elem?, if◌then◌else◌, leb, length, list_eq, ltb, none, some, suc, true,
  zero, ℕ, ◌++◌, ◌+◌, ◌-◌, ◌/◌, ◌||◌, ◌∷◌,
}
use radix_kv.Prelude.Text.{JsString, codes}
use radix_kv.Result.{Result, err, ok}
use radix_kv.Resp.Decimal.{print_nat}

pub record RingEntry : Type 0 where
  pub hash : ℕ
  pub node_id : JsString

-- `nodes` has no key twice, in the order of insertion.
pub record ConsistentHashRing : Type 0 where
  pub vnodes_per_node : ℕ
  pub ring : List RingEntry
  pub nodes : List JsString

unfoldable pub new_ring : ℕ → ConsistentHashRing
new_ring n = record { vnodes_per_node = n; ring = []; nodes = [] }

-- `nodes.has(nodeId)`
unfoldable pub has_node : JsString → List JsString → Bool
has_node n [] = false
has_node n (x ∷ xs) = list_eq x n || has_node n xs

-- `${nodeId}#vn${i}`
unfoldable pub vnode_key : JsString → ℕ → JsString
vnode_key n i = n ++ (codes "#vn" ++ print_nat i)

-- The virtual nodes from the `i`-th on.
unfoldable pub vnodes : (JsString → ℕ) → JsString → ℕ → ℕ → List RingEntry
vnodes hash n i zero = []
vnodes hash n i (suc left) =
    record { hash = hash (vnode_key n i); node_id = n } ∷ vnodes hash n (i + 1) left

-- `sort((a, b) => a.hash - b.hash)`, which is stable: an entry goes behind those that it equals.
unfoldable pub insert_sorted : RingEntry → List RingEntry → List RingEntry
insert_sorted a [] = a ∷ []
insert_sorted a (b ∷ r) =
    let rest = insert_sorted a r in if ltb b.hash a.hash then b ∷ rest else a ∷ (b ∷ r)

unfoldable pub sort : List RingEntry → List RingEntry
sort [] = []
sort (a ∷ r) = insert_sorted a (sort r)

unfoldable pub add_node : (JsString → ℕ) → JsString → ConsistentHashRing → ConsistentHashRing
add_node hash n c = if has_node n c.nodes then c else record c {
  nodes = c.nodes ++ (n ∷ []);
  ring = sort (c.ring ++ vnodes hash n 0 c.vnodes_per_node);
}

-- `filter((entry) => entry.nodeId !== nodeId)`
unfoldable pub without_node : JsString → List RingEntry → List RingEntry
without_node n [] = []
without_node n (a ∷ r) =
    let rest = without_node n r in if list_eq a.node_id n then rest else a ∷ rest

-- `nodes.delete(nodeId)`
unfoldable pub delete_node : JsString → List JsString → List JsString
delete_node n [] = []
delete_node n (x ∷ xs) = let rest = delete_node n xs in if list_eq x n then rest else x ∷ rest

unfoldable pub remove_node : JsString → ConsistentHashRing → ConsistentHashRing
remove_node n c =
    if has_node n c.nodes
    then record c { nodes = delete_node n c.nodes; ring = without_node n c.ring }
    else c

-- Does the entry at this index reach the target? The search never asks beyond the ring.
unfoldable pub reaches : List RingEntry → ℕ → ℕ → Bool
reaches r target i = elim (get_elem? r i) [ none ↦ false | some a ↦ leb target a.hash ]

-- The loop, with `stop` for `high + 1`, which the source lets go down to -1 in `high`. Fuel above the
-- width of the window is enough.
unfoldable pub search_loop : ℕ → List RingEntry → ℕ → (low stop result : ℕ) → ℕ
search_loop zero r target low stop result = result
search_loop (suc fuel) r target low stop result = elim (ltb low stop) [
  | false ↦ result
  | true ↦
      let mid = (low + (stop - 1)) / 2 in
      elim (reaches r target mid) [
        | true ↦ search_loop fuel r target low mid mid
        | false ↦ search_loop fuel r target (mid + 1) stop result
      ]
]

unfoldable pub binary_search : List RingEntry → ℕ → ℕ
binary_search r target = search_loop (length r + 1) r target 0 (length r) (length r)

-- What `getNode` throws on a ring without entries.
pub data RingError : Type 0 where
  no_active_nodes : RingError

-- Behind the last point the ring begins again.
unfoldable pub node_at : RingEntry → List RingEntry → ℕ → JsString
node_at first r index = elim (get_elem? (first ∷ r) index) [
  | none ↦ first.node_id
  | some a ↦ a.node_id
]

unfoldable pub get_node : (JsString → ℕ) → JsString → ConsistentHashRing → Result RingError JsString
get_node hash key c = elim c.ring [
  | [] ↦ err no_active_nodes
  | a ∷ r ↦ ok (node_at a r (binary_search (a ∷ r) (hash key)))
]

unfoldable pub get_nodes : ConsistentHashRing → List JsString
get_nodes c = c.nodes

unfoldable pub vnode_count : ConsistentHashRing → ℕ
vnode_count c = length c.ring
