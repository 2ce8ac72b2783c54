-- ===== src/Cluster/ConsistentHash/Churn.antt =====
-- src/cluster/consistent-hash.ts: which keys change their node when a node leaves the ring.
use radix_kv.Prelude.{
  Bool-cases, List, Option-cases, [], ap, arith, eq_of_list_eq, false, if◌then◌else◌, inl, inr, leb,
  list_eq, none, refl, some, subst, sym, ℕ, ◌∙◌, ◌∷◌, ◌≡◌, ◌≢◌,
}
use radix_kv.Prelude.Text.{JsString}
use radix_kv.Prelude.Maps.{list_eq_ne}
use radix_kv.Result.{ok}
use radix_kv.Cluster.ConsistentHash.{
  ConsistentHashRing, RingEntry, get_node, has_node, remove_node, without_node,
}
use radix_kv.Cluster.ConsistentHash.Search.{first_reaching, get_node-eq-owner_of, owner, owner_of}
use radix_kv.Cluster.ConsistentHash.Order.{RingIsValid, without_node-Sorted}

module _ (n : JsString) (target : ℕ) where
  kept_first :
      (r : List RingEntry) (a : RingEntry)
      → a.node_id ≢ n
      → first_reaching r target ≡ some a
      → first_reaching (without_node n r) target ≡ some a
  unfolding first_reaching without_node
  kept_first [] a ne h = h
  kept_first (b ∷ r) a ne h = elim (Bool-cases (list_eq b.node_id n)) [
    | inl w ↦ elim (Bool-cases (leb target b.hash)) [
      | inl q ↦ absurd (ground (arith, h, q, eq_of_list_eq b.node_id n w, ne))
      | inr q ↦ rw (w, without_node) (kept_first r a ne (ground (arith, h, q)))
    ]
    | inr w ↦ elim (Bool-cases (leb target b.hash)) [
      | inl q ↦ rw (w, without_node) (ground (arith, h, q))
      | inr q ↦ rw (w, without_node) (ground (arith, q, kept_first r a ne (ground (arith, h, q))))
    ]
  ]

  kept_none :
      (r : List RingEntry)
      → first_reaching r target ≡ none
      → first_reaching (without_node n r) target ≡ none
  unfolding first_reaching without_node
  kept_none [] h = h
  kept_none (b ∷ r) h = elim (Bool-cases (leb target b.hash)) [
    | inl q ↦ absurd (ground (arith, h, q))
    | inr q ↦ elim (Bool-cases (list_eq b.node_id n)) [
      | inl w ↦ rw (w, without_node) (kept_none r (ground (arith, h, q)))
      | inr w ↦ rw (w, without_node) (ground (arith, q, kept_none r (ground (arith, h, q))))
    ]
  ]

  owner_of-some :
      (r : List RingEntry) (b : RingEntry)
      → first_reaching r target ≡ some b
      → owner_of r target ≡ ok b.node_id
  unfolding owner_of owner
  owner_of-some [] b h = absurd (unfold first_reaching in ground (arith, h))
  owner_of-some (a ∷ r) b h = rw (h, owner) refl

  owner_of-none :
      (a : RingEntry) (r : List RingEntry)
      → first_reaching (a ∷ r) target ≡ none
      → owner_of (a ∷ r) target ≡ ok a.node_id
  unfolding owner_of owner
  owner_of-none a r h = rw (h, owner) refl

  first_stays :
      (a : RingEntry) (r : List RingEntry) (m : JsString)
      → list_eq a.node_id n ≡ false
      → first_reaching (without_node n (a ∷ r)) target ≡ none
      → a.node_id ≡ m
      → owner_of (without_node n (a ∷ r)) target ≡ ok m
  unfolding without_node
  first_stays a r m away kept name =
      let kept' : first_reaching (a ∷ without_node n r) target ≡ none =
        subst
          (λ b. first_reaching (if b then without_node n r else a ∷ without_node n r) target ≡ none)
          away kept in
      rw (away, without_node) (owner_of-none a (without_node n r) kept' ∙ ap ok name)

  kept_owner :
      (r : List RingEntry) (m : JsString)
      → m ≢ n
      → owner_of r target ≡ ok m
      → owner_of (without_node n r) target ≡ ok m
  kept_owner [] m ne h = unfold without_node in h
  kept_owner (a ∷ r) m ne h = elim (Option-cases (first_reaching (a ∷ r) target)) [
    | inr (b, q) ↦
        let same = owner_of-some (a ∷ r) b q in
        let name : b.node_id ≡ m = cc in
        owner_of-some (without_node n (a ∷ r)) b (kept_first (a ∷ r) b (λ p. ne (sym name ∙ p)) q)
        ∙ ap ok name
    | inl q ↦
        let same = owner_of-none a r q in
        let name : a.node_id ≡ m = cc in
        let away = list_eq_ne a.node_id n (λ p. ne (sym name ∙ p)) in
        let kept = kept_none (a ∷ r) q in first_stays a r m away kept name
  ]

-- Where a node leaves a sorted ring, a key that it did not own keeps its node.
pub get_node-remove_node :
    (hash : JsString → ℕ) (key n m : JsString) (c : ConsistentHashRing)
    → RingIsValid c
    → m ≢ n
    → get_node hash key c ≡ ok m
    → get_node hash key (remove_node n c) ≡ ok m
unfolding remove_node
get_node-remove_node hash key n m c v ne h = elim (Bool-cases (has_node n c.nodes)) [
  | inr away ↦ rw (away, remove_node) h
  | inl there ↦
      rw (there, remove_node)
        (get_node-eq-owner_of hash key _ (without_node-Sorted n c.ring v.sorted)
          ∙ kept_owner n (hash key) c.ring m ne
              (sym (get_node-eq-owner_of hash key c v.sorted) ∙ h))
]
