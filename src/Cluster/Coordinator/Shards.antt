-- ===== src/Cluster/Coordinator/Shards.antt =====
-- src/cluster/cluster-coordinator.ts: every key has a shard, and a worker that runs it.
use radix_kv.Prelude.{
  All, All-append, Bool-cases, List, Option, Option-cases, [], ap, arith, false, inl, inr, leb,
  length, length-append, ne→==_false, refl, some, subst, suc, sym, zero, ℕ, ◌++◌, ◌+◌, ◌<◌, ◌∙◌,
  ◌∷◌, ◌≡◌, ◌≤◌,
}
use radix_kv.Prelude.Int.{pos}
use radix_kv.Prelude.Text.{JsString}
use radix_kv.Result.{Result, ok, err}
use radix_kv.Resp.Decimal.{
  IsDigit, is_digit, print_nat, print_nat-IsDigit, read_unsigned, read_unsigned-print_nat,
}
use radix_kv.Storage.BigInt.{is_space, trim_start}
use radix_kv.Commands.Arguments.{digit_prefix, parse_int, parse_int_signed}
use radix_kv.Cluster.ConsistentHash.{
  ConsistentHashRing, RingEntry, RingError, add_node, has_node, insert_sorted, new_ring, sort,
  vnodes,
}
use radix_kv.Cluster.ConsistentHash.Search.{first_reaching, get_node-eq-owner_of, owner, owner_of}
use radix_kv.Cluster.ConsistentHash.Order.{All-sort, RingIsValid, add_node-RingIsValid}
use radix_kv.Cluster.Coordinator.{
  add_shards, get_shard_for_key, index_of, new_coordinator, remove_first, shard_name, shard_of_name,
  strip_prefix,
}
use mathlib.Core.Option
use mathlib.Core.Option.{some_inj}

digit_prefix_of_IsDigit : (s : JsString) → All IsDigit s → digit_prefix s ≡ s
unfolding digit_prefix is_digit
digit_prefix_of_IsDigit [] h = refl
digit_prefix_of_IsDigit (c ∷ s) h = ground (arith, h.0, digit_prefix_of_IsDigit s h.1)

is_space_of_IsDigit : (c : ℕ) → IsDigit c → is_space c ≡ false
unfolding is_space
is_space_of_IsDigit c h = ground arith

trim_start_of_IsDigit : (s : JsString) → All IsDigit s → trim_start s ≡ s
unfolding trim_start
trim_start_of_IsDigit [] h = refl
trim_start_of_IsDigit (c ∷ s) h = rw (is_space_of_IsDigit c h.0, trim_start) refl

parse_int_signed_of_IsDigit :
    (s : JsString) → All IsDigit s → parse_int_signed s ≡ Option.map pos (read_unsigned s)
unfolding parse_int_signed
parse_int_signed_of_IsDigit [] h = unfold read_unsigned in refl
parse_int_signed_of_IsDigit (c ∷ s) h =
    rw
      (
        ne→==_false c 45 (omega arith),
        ne→==_false c 43 (omega arith),
        digit_prefix_of_IsDigit (c ∷ s) h,
      )
      refl

parse_int_of_IsDigit :
    (s : JsString) → All IsDigit s → parse_int s ≡ Option.map pos (read_unsigned s)
unfolding parse_int
parse_int_of_IsDigit s h =
    ap parse_int_signed (trim_start_of_IsDigit s h) ∙ parse_int_signed_of_IsDigit s h

shard_of_name-shard_name : (i : ℕ) → shard_of_name (shard_name i) ≡ some i
unfolding shard_of_name shard_name remove_first strip_prefix index_of
shard_of_name-shard_name i =
    rw (parse_int_of_IsDigit (print_nat i) (print_nat-IsDigit i), read_unsigned-print_nat i) refl

-- The entry belongs to a shard below `n`.
abbrev pub IsShardName : ℕ → JsString → Type 0
IsShardName n name = (i : ℕ) × (i < n) × (name ≡ shard_name i)

abbrev pub Shards : ℕ → List RingEntry → Type 0
Shards n r = All (λ a. IsShardName n a.node_id) r

vnodes-Shards :
    (hash : JsString → ℕ) (n : ℕ) (name : JsString) (i left : ℕ)
    → IsShardName n name
    → Shards n (vnodes hash name i left)
unfolding vnodes
vnodes-Shards hash n name i zero h = tt
vnodes-Shards hash n name i (suc left) h = (h, vnodes-Shards hash n name (i + 1) left h)

add_node-Shards :
    (hash : JsString → ℕ) (n : ℕ) (name : JsString) (c : ConsistentHashRing)
    → IsShardName n name
    → Shards n c.ring
    → Shards n (add_node hash name c).ring
unfolding add_node
add_node-Shards hash n name c h s = elim (Bool-cases (has_node name c.nodes)) [
  | inl there ↦ rw (there, add_node) s
  | inr fresh ↦
      rw (fresh, add_node)
        (All-sort (λ a. IsShardName n a.node_id) _
          (All-append _ c.ring _ s (vnodes-Shards hash n name 0 c.vnodes_per_node h)))
]

add_shards-Shards :
    (hash : JsString → ℕ) (n i left : ℕ) (c : ConsistentHashRing)
    → i + left ≤ n
    → Shards n c.ring × RingIsValid c
    → Shards n (add_shards hash i left c).ring × RingIsValid (add_shards hash i left c)
unfolding add_shards
add_shards-Shards hash n i zero c h s = s
add_shards-Shards hash n i (suc left) c h s =
    add_shards-Shards hash n (i + 1) left (add_node hash (shard_name i) c) (omega arith) (
      add_node-Shards hash n (shard_name i) c (i, omega arith, refl) s.0,
      add_node-RingIsValid hash (shard_name i) c s.1,
    )

length-insert_sorted :
    (a : RingEntry) (r : List RingEntry) → length (insert_sorted a r) ≡ suc (length r)
unfolding insert_sorted
length-insert_sorted a [] = refl
length-insert_sorted a (b ∷ r) = ground (arith, length-insert_sorted a r)

length-sort : (r : List RingEntry) → length (sort r) ≡ length r
unfolding sort
length-sort [] = refl
length-sort (a ∷ r) = length-insert_sorted a (sort r) ∙ ap suc (length-sort r)

length-vnodes :
    (hash : JsString → ℕ) (name : JsString) (i left : ℕ) → length (vnodes hash name i left) ≡ left
unfolding vnodes
length-vnodes hash name i zero = refl
length-vnodes hash name i (suc left) = ap suc (length-vnodes hash name (i + 1) left)

length-le-add_node :
    (hash : JsString → ℕ) (name : JsString) (c : ConsistentHashRing)
    → length c.ring ≤ length (add_node hash name c).ring
unfolding add_node
length-le-add_node hash name c = elim (Bool-cases (has_node name c.nodes)) [
  | inl there ↦ rw (there, add_node) (omega arith)
  | inr fresh ↦
      let new = vnodes hash name 0 c.vnodes_per_node in
      rw (fresh, add_node) (omega (arith, length-sort (c.ring ++ new), length-append c.ring new))
]

length-le-add_shards :
    (hash : JsString → ℕ) (i left : ℕ) (c : ConsistentHashRing)
    → length c.ring ≤ length (add_shards hash i left c).ring
unfolding add_shards
length-le-add_shards hash i zero c = omega arith
length-le-add_shards hash i (suc left) c = omega (
  arith,
  length-le-add_node hash (shard_name i) c,
  length-le-add_shards hash (i + 1) left (add_node hash (shard_name i) c),
)

-- A ring of some shards has entries.
add_shards_pos :
    (hash : JsString → ℕ) (n v : ℕ)
    → 0 < n
    → 0 < v
    → 0 < length (add_shards hash 0 n (new_ring v)).ring
unfolding add_shards new_ring add_node has_node
add_shards_pos hash zero v h k = absurd (omega arith)
add_shards_pos hash (suc n) v h k =
    let new = vnodes hash (shard_name 0) 0 v in
    omega (
      arith,
      length-le-add_shards hash 1 n
          (record { vnodes_per_node = v; ring = sort new; nodes = shard_name 0 ∷ [] }),
      length-sort new,
      length-vnodes hash (shard_name 0) 0 v,
    )

-- Whatever names the entries have, the owner's is one of them.
first_reaching-All :
    (P : RingEntry → Type 0) (r : List RingEntry) (target : ℕ) {a : RingEntry}
    → All P r
    → first_reaching r target ≡ some a
    → P a
unfolding first_reaching
first_reaching-All P [] target h e = absurd (ground arith)
first_reaching-All P (b ∷ r) target h e = elim (Bool-cases (leb target b.hash)) [
  | inl q ↦ subst P (some_inj.0 (sym (rw (q, first_reaching) refl) ∙ e)) h.0
  | inr q ↦ first_reaching-All P r target h.1 (sym (rw (q, first_reaching) refl) ∙ e)
]

owner_of-Shards :
    (n : ℕ) (r : List RingEntry) (target : ℕ)
    → Shards n r
    → 0 < length r
    → (name : JsString) × (owner_of r target ≡ ok name) × IsShardName n name
unfolding owner_of owner
owner_of-Shards n [] target h k = absurd (omega arith)
owner_of-Shards n (a ∷ r) target h k = elim (Option-cases (first_reaching (a ∷ r) target)) [
  | inl q ↦ (a.node_id, rw (q, owner) refl, h.0)
  | inr (b, q) ↦ (
    b.node_id,
    rw (q, owner) refl,
    first_reaching-All (λ a. IsShardName n a.node_id) (a ∷ r) target h q,
  )
]

-- In a coordinator with shards and virtual nodes, every key has a shard, below the number of shards.
pub get_shard_for_key_bounds :
    (hash : JsString → ℕ) (n v : ℕ) (key : JsString)
    → 0 < n
    → 0 < v
    → (i : ℕ) × (i < n) × (get_shard_for_key hash (new_coordinator hash n v) key ≡ ok (some i))
unfolding get_shard_for_key new_coordinator
get_shard_for_key_bounds hash n v key h k =
    let ring = add_shards hash 0 n (new_ring v) in
    let (shards, valid) =
      add_shards-Shards hash n 0 n (new_ring v) (omega arith)
        (unfold new_ring in (tt, record { sorted = tt; registered = tt })) in
    let (name, e, (i, lt, q)) =
      owner_of-Shards n ring.ring (hash key) shards (add_shards_pos hash n v h k) in
    (
      i,
      lt,
      ap
            (λ (x : Result RingError JsString). elim x as (λ _. Result RingError (Option ℕ)) [
              | err e ↦ err e
              | ok node ↦ ok (shard_of_name node)
            ])
            (get_node-eq-owner_of hash key ring valid.sorted ∙ e)
          ∙ ap (λ m. ok (shard_of_name m)) q
          ∙ ap ok (shard_of_name-shard_name i),
    )
