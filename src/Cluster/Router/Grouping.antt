-- ===== src/Cluster/Router/Grouping.antt =====
-- src/cluster/cluster-coordinator.ts: how a deletion of several keys is split among the shards.
use radix_kv.Prelude.{
  ==_iff, Bool, Bool-cases, List, [], append-nil, append_assoc, arith, false, if◌then◌else◌, inl,
  inr, length, length-append, refl, subst, sym, ℕ, ◌++◌, ◌<◌, ◌==◌, ◌||◌, ◌∙◌, ◌∷◌, ◌≡◌,
}
use radix_kv.Prelude.Text.{JsString}
use radix_kv.Cluster.Router.{Groups, add_key, group_from, group_keys}

-- The keys of a shard, in a grouping and in a list.
unfoldable pub keys_in : ℕ → Groups → List JsString
keys_in shard [] = []
keys_in shard ((s, keys) ∷ gs) =
    let rest = keys_in shard gs in if s == shard then keys ++ rest else rest

unfoldable pub keys_owned : (JsString → ℕ) → ℕ → List JsString → List JsString
keys_owned shard_of shard [] = []
keys_owned shard_of shard (key ∷ keys) =
    let rest = keys_owned shard_of shard keys in if shard_of key == shard then key ∷ rest else rest

-- No shard stands twice, and every shard has a key.
unfoldable pub mentions : ℕ → Groups → Bool
mentions shard [] = false
mentions shard ((s, keys) ∷ gs) = (s == shard) || mentions shard gs

abbrev pub IsGrouping : Groups → Type 0
IsGrouping [] = Unit
IsGrouping ((s, keys) ∷ gs) = (mentions s gs ≡ false) × (0 < length keys) × IsGrouping gs

keys_in-nil : (shard : ℕ) (gs : Groups) → mentions shard gs ≡ false → keys_in shard gs ≡ []
unfolding keys_in mentions
keys_in-nil shard [] h = refl
keys_in-nil shard ((s, keys) ∷ gs) h = ground (arith, keys_in-nil shard gs)

mentions-add_key :
    (t shard : ℕ) (key : JsString) (gs : Groups)
    → mentions t (add_key shard key gs) ≡ ((shard == t) || mentions t gs)
unfolding mentions add_key
mentions-add_key t shard key [] = refl
mentions-add_key t shard key ((s, keys) ∷ gs) = ground (arith, mentions-add_key t shard key gs)

add_key-IsGrouping :
    (shard : ℕ) (key : JsString) (gs : Groups) → IsGrouping gs → IsGrouping (add_key shard key gs)
unfolding add_key
add_key-IsGrouping shard key [] h = (unfold mentions in refl, omega arith, tt)
add_key-IsGrouping shard key ((s, keys) ∷ gs) h = elim (Bool-cases (s == shard)) [
  | inl same ↦ rw (same, add_key) (h.0, omega (arith, h.1, length-append keys (key ∷ [])), h.2)
  | inr other ↦
      rw (other, add_key)
        (
          ground (arith, mentions-add_key s shard key gs, h.0, other),
          h.1,
          add_key-IsGrouping shard key gs h.2,
        )
]

keys_in-add_key_other :
    (t shard : ℕ) (key : JsString) (gs : Groups)
    → (shard == t) ≡ false
    → keys_in t (add_key shard key gs) ≡ keys_in t gs
unfolding keys_in add_key
keys_in-add_key_other t shard key [] ne = rw ne refl
keys_in-add_key_other t shard key ((s, keys) ∷ gs) ne =
    ground (arith, keys_in-add_key_other t shard key gs ne)

keys_in-add_key :
    (shard : ℕ) (key : JsString) (gs : Groups)
    → IsGrouping gs
    → keys_in shard (add_key shard key gs) ≡ keys_in shard gs ++ (key ∷ [])
unfolding keys_in add_key
keys_in-add_key shard key [] h = ground arith
keys_in-add_key shard key ((s, keys) ∷ gs) h = elim (Bool-cases (s == shard)) [
  | inl same ↦
      let away = subst (λ t. mentions t gs ≡ false) ((==_iff s shard).0 same) h.0 in
      rw (same, add_key)
        (rw (same, keys_in) (rw (keys_in-nil shard gs away, append-nil, append-nil) refl))
  | inr other ↦
      rw (other, add_key, keys_in) (rw (other, keys_in) (keys_in-add_key shard key gs h.2))
]

group_from-IsGrouping :
    (shard_of : JsString → ℕ) (keys : List JsString) (gs : Groups)
    → IsGrouping gs
    → IsGrouping (group_from shard_of keys gs)
unfolding group_from
group_from-IsGrouping shard_of [] gs h = h
group_from-IsGrouping shard_of (key ∷ keys) gs h =
    group_from-IsGrouping shard_of keys _ (add_key-IsGrouping (shard_of key) key gs h)

keys_in-group_from :
    (shard_of : JsString → ℕ) (t : ℕ) (keys : List JsString) (gs : Groups)
    → IsGrouping gs
    → keys_in t (group_from shard_of keys gs) ≡ keys_in t gs ++ keys_owned shard_of t keys
unfolding group_from keys_owned
keys_in-group_from shard_of t [] gs h = sym (append-nil (keys_in t gs))
keys_in-group_from shard_of t (key ∷ keys) gs h =
    let ih =
      keys_in-group_from shard_of t keys (add_key (shard_of key) key gs)
        (add_key-IsGrouping (shard_of key) key gs h) in
    elim (Bool-cases (shard_of key == t)) [
      | inr other ↦
          rw (other, keys_owned)
            (ih ∙ rw (keys_in-add_key_other t (shard_of key) key gs other) refl)
      | inl same ↦
          let here =
            subst (λ s. keys_in s (add_key (shard_of key) key gs) ≡ keys_in s gs ++ (key ∷ []))
              ((==_iff (shard_of key) t).0 same) (keys_in-add_key (shard_of key) key gs h) in
          rw (same, keys_owned)
            (ih ∙ rw here (append_assoc (keys_in t gs) (key ∷ []) (keys_owned shard_of t keys)))
    ]

-- The groups of a deletion are of different shards, none is empty, and the group of a shard has the
-- keys that the shard owns, each as often and in the same order as the command.
pub group_keys-keys_owned :
    (shard_of : JsString → ℕ) (keys : List JsString)
    → IsGrouping (group_keys shard_of keys)
      × ((t : ℕ) → keys_in t (group_keys shard_of keys) ≡ keys_owned shard_of t keys)
unfolding group_keys keys_owned keys_in
group_keys-keys_owned shard_of keys =
    (group_from-IsGrouping shard_of keys [] tt, λ t. keys_in-group_from shard_of t keys [] tt)
