-- ===== src/Cluster/ConsistentHash/Order.antt =====
-- src/cluster/consistent-hash.ts: the ring stays sorted, and holds entries of its nodes only.
use radix_kv.Prelude.{
  All, All-append, All-imp, Bool-cases, List, [], arith, eq_of_list_eq, false, inl, inr, list_eq,
  list_eq_iff, list_eq_refl, ltb, ltb-false→le, ltb→lt, refl, suc, sym, true, zero, ℕ, ◌++◌, ◌+◌,
  ◌||◌, ◌∙◌, ◌∷◌, ◌≡◌, ◌≤◌,
}
use radix_kv.Prelude.Text.{JsString}
use radix_kv.Cluster.ConsistentHash.{
  ConsistentHashRing, RingEntry, add_node, delete_node, has_node, insert_sorted, remove_node, sort,
  vnodes, without_node,
}
use radix_kv.Cluster.ConsistentHash.Search.{Sorted}

module _ {ℓ} (P : RingEntry → Type ℓ) where
  All-insert_sorted :
      (a : RingEntry) (r : List RingEntry) → P a → All P r → All P (insert_sorted a r)
  unfolding insert_sorted
  All-insert_sorted a [] h k = (h, tt)
  All-insert_sorted a (b ∷ r) h k = elim (Bool-cases (ltb b.hash a.hash)) [
    | inl q ↦ rw (q, insert_sorted) (k.0, All-insert_sorted a r h k.1)
    | inr q ↦ rw (q, insert_sorted) (h, (k.0, k.1))
  ]

  pub All-sort : (r : List RingEntry) → All P r → All P (sort r)
  unfolding sort
  All-sort [] h = tt
  All-sort (a ∷ r) h = All-insert_sorted a (sort r) h.0 (All-sort r h.1)

  All-without_node : (n : JsString) (r : List RingEntry) → All P r → All P (without_node n r)
  unfolding without_node
  All-without_node n [] h = tt
  All-without_node n (a ∷ r) h = elim (Bool-cases (list_eq a.node_id n)) [
    | inl q ↦ rw (q, without_node) (All-without_node n r h.1)
    | inr q ↦ rw (q, without_node) (h.0, All-without_node n r h.1)
  ]

insert_sorted-Sorted : (a : RingEntry) (r : List RingEntry) → Sorted r → Sorted (insert_sorted a r)
unfolding insert_sorted
insert_sorted-Sorted a [] s = (tt, tt)
insert_sorted-Sorted a (b ∷ r) s = elim (Bool-cases (ltb b.hash a.hash)) [
  | inl q ↦
      let before = All-insert_sorted (λ c. b.hash ≤ c.hash) a r (omega (arith, ltb→lt _ _ q)) s.0 in
      rw (q, insert_sorted) (before, insert_sorted-Sorted a r s.1)
  | inr q ↦
      let le = ltb-false→le _ _ q in
      let after =
        All-imp (λ c. b.hash ≤ c.hash) (λ c. a.hash ≤ c.hash) r (λ c h. omega (arith, le, h)) s.0 in
      rw (q, insert_sorted) ((le, after), s)
]

sort-Sorted : (r : List RingEntry) → Sorted (sort r)
unfolding sort
sort-Sorted [] = tt
sort-Sorted (a ∷ r) = insert_sorted-Sorted a (sort r) (sort-Sorted r)

pub without_node-Sorted : (n : JsString) (r : List RingEntry) → Sorted r → Sorted (without_node n r)
unfolding without_node
without_node-Sorted n [] s = tt
without_node-Sorted n (a ∷ r) s = elim (Bool-cases (list_eq a.node_id n)) [
  | inl q ↦ rw (q, without_node) (without_node-Sorted n r s.1)
  | inr q ↦
      let above = All-without_node (λ c. a.hash ≤ c.hash) n r s.0 in
      rw (q, without_node) (above, without_node-Sorted n r s.1)
]

-- Sorted, and every entry belongs to a registered node.
pub record RingIsValid (c : ConsistentHashRing) : Type 0 where
  pub sorted : Sorted c.ring
  pub registered : All (λ a. has_node a.node_id c.nodes ≡ true) c.ring

has_node-append :
    (x : JsString) (xs ys : List JsString)
    → has_node x (xs ++ ys) ≡ (has_node x xs || has_node x ys)
unfolding has_node
has_node-append x [] ys = refl
has_node-append x (y ∷ xs) ys = ground (arith, has_node-append x xs ys)

vnodes-Registered :
    (hash : JsString → ℕ) (n : JsString) (ns : List JsString) (i left : ℕ)
    → has_node n ns ≡ true
    → All (λ a. has_node a.node_id ns ≡ true) (vnodes hash n i left)
unfolding vnodes
vnodes-Registered hash n ns i zero h = tt
vnodes-Registered hash n ns i (suc left) h = (h, vnodes-Registered hash n ns (i + 1) left h)

has_node_self : (n : JsString) → has_node n (n ∷ []) ≡ true
unfolding has_node
has_node_self n = rw (list_eq_refl n) refl

-- A node that joins leaves the ring sorted, with entries of registered nodes only.
pub add_node-RingIsValid :
    (hash : JsString → ℕ) (n : JsString) (c : ConsistentHashRing)
    → RingIsValid c
    → RingIsValid (add_node hash n c)
unfolding add_node
add_node-RingIsValid hash n c v = elim (Bool-cases (has_node n c.nodes)) [
  | inl there ↦ rw (there, add_node) v
  | inr fresh ↦
      rw (fresh, add_node)
        (record {
          sorted = sort-Sorted _;
          registered =
              All-sort (λ a. has_node a.node_id (c.nodes ++ (n ∷ [])) ≡ true) _
                (All-append _ c.ring (vnodes hash n 0 c.vnodes_per_node)
                  (All-imp _ _ c.ring
                    (λ a h. rw (has_node-append a.node_id c.nodes (n ∷ []), h) refl) v.registered)
                  (vnodes-Registered hash n _ 0 c.vnodes_per_node
                    (has_node-append n c.nodes (n ∷ []) ∙ rw (fresh, has_node_self n) refl)));
        })
]

has_node-delete_node_other :
    (n x : JsString) (xs : List JsString)
    → list_eq x n ≡ false
    → has_node x xs ≡ true
    → has_node x (delete_node n xs) ≡ true
unfolding has_node delete_node
has_node-delete_node_other n x [] ne h = h
has_node-delete_node_other n x (y ∷ xs) ne h = elim (Bool-cases (list_eq y n)) [
  | inl same ↦
      let off : list_eq y x ≡ false = other same in
      rw (same, delete_node) (has_node-delete_node_other n x xs ne (ground (arith, h, off)))
  | inr kept ↦ elim (Bool-cases (list_eq y x)) [
    | inl found ↦ rw (kept, delete_node) (rw found refl)
    | inr off ↦
        rw (kept, delete_node)
          (ground (arith, off, has_node-delete_node_other n x xs ne (ground (arith, h, off))))
  ]
]
  where
    other : list_eq y n ≡ true → list_eq y x ≡ false
    other same = elim (Bool-cases (list_eq y x)) [
      | inr off ↦ off
      | inl eq' ↦ absurd (
          ground
            (arith, ne, (list_eq_iff x n).1 (sym (eq_of_list_eq y x eq') ∙ eq_of_list_eq y n same)))
    ]

without_node-Registered :
    (n : JsString) (xs : List JsString) (r : List RingEntry)
    → All (λ a. has_node a.node_id xs ≡ true) r
    → All (λ a. has_node a.node_id (delete_node n xs) ≡ true) (without_node n r)
unfolding without_node
without_node-Registered n xs [] h = tt
without_node-Registered n xs (a ∷ r) h = elim (Bool-cases (list_eq a.node_id n)) [
  | inl q ↦ rw (q, without_node) (without_node-Registered n xs r h.1)
  | inr q ↦
      rw (q, without_node)
        (has_node-delete_node_other n a.node_id xs q h.0, without_node-Registered n xs r h.1)
]

-- The removal of a node keeps the ring sorted, with entries of the nodes that are still registered.
pub remove_node-RingIsValid :
    (n : JsString) (c : ConsistentHashRing) → RingIsValid c → RingIsValid (remove_node n c)
unfolding remove_node
remove_node-RingIsValid n c v = elim (Bool-cases (has_node n c.nodes)) [
  | inr away ↦ rw (away, remove_node) v
  | inl there ↦
      rw (there, remove_node)
        (record {
          sorted = without_node-Sorted n c.ring v.sorted;
          registered = without_node-Registered n c.nodes c.ring v.registered;
        })
]
