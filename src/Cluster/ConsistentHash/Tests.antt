-- ===== src/Cluster/ConsistentHash/Tests.antt =====
-- src/cluster/consistent-hash.ts: runs and instances.
use radix_kv.Prelude.{[], ap, arith, list_eq, refl, ℕ, ◌∷◌, ◌≡◌}
use radix_kv.Prelude.Text.{JsString, codes}
use radix_kv.Result.{ok}
use radix_kv.Cluster.ConsistentHash.{
  ConsistentHashRing, add_node, binary_search, get_node, has_node, node_at, reaches, remove_node,
  search_loop,
}
use radix_kv.Cluster.ConsistentHash.Search.{
  binary_search-position, get_node-eq-owner_of, owner_of, position,
}
use radix_kv.Cluster.ConsistentHash.Order.{
  RingIsValid, add_node-RingIsValid, remove_node-RingIsValid,
}
use radix_kv.Cluster.ConsistentHash.Churn.{get_node-remove_node}

-- A hash that looks at the first code unit only.
abbrev first_unit : JsString → ℕ
first_unit [] = 0
first_unit (c ∷ s) = c

-- Three entries of two nodes.
abbrev two_nodes : ConsistentHashRing
two_nodes = record {
  vnodes_per_node = 2;
  ring =
      record { hash = 50; node_id = codes "a" }
      ∷ record { hash = 60; node_id = codes "b" }
      ∷ record { hash = 70; node_id = codes "a" }
      ∷ [];
  nodes = codes "a" ∷ codes "b" ∷ [];
}

two_nodes-RingIsValid : RingIsValid two_nodes
unfolding has_node list_eq
two_nodes-RingIsValid = record { sorted = omega arith; registered = (refl, (refl, (refl, tt))) }

binary_search-position_example : binary_search two_nodes.ring 55 ≡ position two_nodes.ring 55
binary_search-position_example =
    binary_search-position two_nodes.ring 55 two_nodes-RingIsValid.sorted

get_node-eq-owner_of_example :
    get_node first_unit (codes "Z") two_nodes ≡ owner_of two_nodes.ring 90
get_node-eq-owner_of_example =
    get_node-eq-owner_of first_unit (codes "Z") two_nodes two_nodes-RingIsValid.sorted

add_node-RingIsValid_example : RingIsValid (add_node first_unit (codes "c") two_nodes)
add_node-RingIsValid_example =
    add_node-RingIsValid first_unit (codes "c") two_nodes two_nodes-RingIsValid

-- The hash of `A` is 65, which the second entry of `a` owns.
owner_run : get_node first_unit (codes "A") two_nodes ≡ ok (codes "a")
unfolding get_node node_at binary_search search_loop reaches
owner_run = refl

get_node-remove_node_example :
    get_node first_unit (codes "A") (remove_node (codes "b") two_nodes) ≡ ok (codes "a")
get_node-remove_node_example =
    get_node-remove_node first_unit (codes "A") (codes "b") (codes "a") two_nodes
      two_nodes-RingIsValid (λ p. absurd (omega (arith, ap first_unit p))) owner_run

remove_node-RingIsValid_example : RingIsValid (remove_node (codes "a") two_nodes)
remove_node-RingIsValid_example =
    remove_node-RingIsValid (codes "a") two_nodes two_nodes-RingIsValid
