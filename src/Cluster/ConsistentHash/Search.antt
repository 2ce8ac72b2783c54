-- ===== src/Cluster/ConsistentHash/Search.antt =====
-- src/cluster/consistent-hash.ts: the binary search, against a scan of the ring from its start.
use radix_kv.Prelude.{
  All, Bool-cases, List, Option, [], arith, false, get_elem?, inl, inr, leb, leb→le, length, ltb,
  ltb-false→le, ltb→lt, none, refl, some, suc, true, zero, ℕ, ◌+◌, ◌-◌, ◌/◌, ◌<◌, ◌∷◌, ◌≡◌, ◌≤◌,
}
use radix_kv.Prelude.Text.{JsString}
use radix_kv.Result.{Result, err, ok}
use radix_kv.Cluster.ConsistentHash.{
  ConsistentHashRing, RingEntry, RingError, binary_search, get_node, no_active_nodes, node_at,
  reaches, search_loop,
}

-- In the order of the hashes.
abbrev pub Sorted : List RingEntry → Type 0
Sorted [] = Unit
Sorted (a ∷ r) = All (λ b. a.hash ≤ b.hash) r × Sorted r

-- The first entry that reaches the target, and its index.
unfoldable pub first_reaching : List RingEntry → ℕ → Option RingEntry
first_reaching [] target = none
first_reaching (a ∷ r) target = elim (leb target a.hash) [
  | true ↦ some a
  | false ↦ first_reaching r target
]

unfoldable pub position : List RingEntry → ℕ → ℕ
position [] target = 0
position (a ∷ r) target = elim (leb target a.hash) [ true ↦ 0 | false ↦ suc (position r target) ]

-- The node of that entry, or of the ring's first where there is none.
unfoldable pub owner : RingEntry → List RingEntry → ℕ → JsString
owner first r target = elim (first_reaching r target) [ none ↦ first.node_id | some a ↦ a.node_id ]

position-le : (r : List RingEntry) (target : ℕ) → position r target ≤ length r
unfolding position
position-le [] target = omega arith
position-le (a ∷ r) target = ground (arith, position-le r target)

get_elem?-position :
    (r : List RingEntry) (target : ℕ) → get_elem? r (position r target) ≡ first_reaching r target
unfolding position first_reaching
get_elem?-position [] target = refl
get_elem?-position (a ∷ r) target = elim (Bool-cases (leb target a.hash)) [
  | inl h ↦ rw (h, position, first_reaching) refl
  | inr h ↦ rw (h, position, first_reaching) (get_elem?-position r target)
]

position-le_of_reaches :
    (r : List RingEntry) (target i : ℕ) → reaches r target i ≡ true → position r target ≤ i
unfolding position reaches
position-le_of_reaches [] target i h = omega arith
position-le_of_reaches (a ∷ r) target zero h = rw (h, position) (omega arith)
position-le_of_reaches (a ∷ r) target (suc i) h =
    ground (arith, position-le_of_reaches r target i h)

reaches_above :
    (r : List RingEntry) (target : ℕ) (x : ℕ)
    → All (λ b. x ≤ b.hash) r
    → target ≤ x
    → (i : ℕ) → i < length r
    → reaches r target i ≡ true
unfolding reaches
reaches_above [] target x h l i k = absurd (omega arith)
reaches_above (a ∷ r) target x h l zero k = ground arith
reaches_above (a ∷ r) target x h l (suc i) k = reaches_above r target x h.1 l i (omega arith)

lt-position_of_reaches :
    (r : List RingEntry) (target i : ℕ)
    → Sorted r
    → i < length r
    → reaches r target i ≡ false
    → i < position r target
unfolding position reaches
lt-position_of_reaches [] target i s k h = absurd (omega arith)
lt-position_of_reaches (a ∷ r) target zero s k h = rw (h, position) (omega arith)
lt-position_of_reaches (a ∷ r) target (suc i) s k h = elim (Bool-cases (leb target a.hash)) [
  | inl q ↦
      absurd (ground (arith, h, reaches_above r target a.hash s.0 (leb→le _ _ q) i (omega arith)))
  | inr q ↦ rw (q, position) (omega (arith, lt-position_of_reaches r target i s.1 (omega arith) h))
]

module _ (r : List RingEntry) (target : ℕ) (s : Sorted r) where
  -- The position stays within the window, whose end is the result so far.
  search_loop-position :
      (fuel low stop : ℕ)
      → stop < low + fuel
      → low ≤ position r target
      → position r target ≤ stop
      → stop ≤ length r
      → search_loop fuel r target low stop stop ≡ position r target
  unfolding search_loop
  search_loop-position zero low stop f l u w = omega arith
  search_loop-position (suc fuel) low stop f l u w = elim (Bool-cases (ltb low stop)) [
    | inr done ↦ rw (done, search_loop) (omega (arith, ltb-false→le _ _ done))
    | inl more ↦
        let mid = (low + (stop - 1)) / 2 in
        let inside = ltb→lt _ _ more in
        rw (more, search_loop)
          (elim (Bool-cases (reaches r target mid)) [
            | inl hit ↦ rw hit (
                search_loop-position fuel low mid (omega arith) l
                  (position-le_of_reaches r target mid hit) (omega arith))
            | inr missed ↦ rw missed (
                search_loop-position fuel (mid + 1) stop (omega arith)
                  (omega (arith, lt-position_of_reaches r target mid s (omega arith) missed)) u w)
          ])
  ]

  -- On a sorted ring the binary search returns the index of the first entry whose hash is at least
  -- the target's, or the length of the ring where there is none.
  pub binary_search-position : binary_search r target ≡ position r target
  unfolding binary_search
  binary_search-position =
      search_loop-position (length r + 1) 0 (length r) (omega arith) (omega arith)
        (position-le r target) (omega arith)

-- The same of a ring that may have no entries.
unfoldable pub owner_of : List RingEntry → ℕ → Result RingError JsString
owner_of [] target = err no_active_nodes
owner_of (a ∷ r) target = ok (owner a (a ∷ r) target)

-- On a sorted ring `getNode` returns the node of the first entry that reaches the key's hash, or of
-- the ring's first entry where none does, and throws exactly on a ring without entries.
pub get_node-eq-owner_of :
    (hash : JsString → ℕ) (key : JsString) (c : ConsistentHashRing)
    → Sorted c.ring
    → get_node hash key c ≡ owner_of c.ring (hash key)
unfolding get_node node_at owner owner_of
get_node-eq-owner_of hash key c s = go c.ring s
  where
    go :
        (r : List RingEntry)
        → Sorted r
        → (elim r [
          | [] ↦ err no_active_nodes
          | a ∷ r ↦ ok (node_at a r (binary_search (a ∷ r) (hash key)))
        ])
          ≡ owner_of r (hash key)
    go [] s = refl
    go (a ∷ r) s =
        rw
          (
            binary_search-position (a ∷ r) (hash key) s,
            node_at,
            get_elem?-position (a ∷ r) (hash key),
          )
          refl
