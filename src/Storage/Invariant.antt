-- ===== src/Storage/Invariant.antt =====
-- src/storage-engine.ts: the map, the list and the index of expiries speak of the same keys.
use radix_kv.Prelude.{
  Bool, Bool-cases, Option, [], ap, arith, eq_of_list_eq, false, if◌then◌else◌, inl, inr, is_some,
  list_eq, list_eq_refl, none, refl, some, subst, suc, sym, ℕ, ◌-◌, ◌∙◌, ◌∷◌, ◌≡◌, ◌≢◌,
}
use radix_kv.Prelude.Text.{JsString}
use radix_kv.Prelude.Maps.{
  erase, insert, list_eq_ne, lookup, lookup-erase, lookup-erase_other, lookup-insert,
  lookup-insert_other,
}
use radix_kv.Storage.LruList.{LruList, remove}
use radix_kv.Storage.ExpiryIndex.{ExpiryIndex, Packed, is_tracked, untrack_expiry}
use radix_kv.Storage.Packed.{JsString-cases, untrack_expiry-Packed}
use radix_kv.Storage.Tracked.{is_tracked-untrack_expiry, is_tracked-untrack_expiry_other}
use radix_kv.Storage.Engine.{LruNode, StorageEngine}

-- How often a key stands in the list.
unfoldable pub tally : LruList → JsString → ℕ
tally [] k = 0
tally (x ∷ l) k = let rest = tally l k in if list_eq x k then suc rest else rest

abbrev pub present : Option LruNode → ℕ
present none = 0
present (some node) = 1

abbrev pub has_expiry : Option LruNode → Bool
has_expiry none = false
has_expiry (some node) = is_some node.expires_at

-- The list holds the map's keys, each once, and the index those whose node has an expiry.
pub record EngineIsValid (e : StorageEngine) : Type 0 where
  pub packed : Packed e.expiry
  pub timed : (k : JsString) → is_tracked e.expiry k ≡ has_expiry (lookup e.entries k)
  pub listed : (k : JsString) → tally e.lru_list k ≡ present (lookup e.entries k)

pub tally_self : (k : JsString) (l : LruList) → tally (k ∷ l) k ≡ suc (tally l k)
unfolding tally
tally_self k l = rw (list_eq_refl k) refl

pub tally_other : (k q : JsString) (l : LruList) → k ≢ q → tally (k ∷ l) q ≡ tally l q
unfolding tally
tally_other k q l ne = rw (list_eq_ne k q ne) refl

pub tally-remove : (k : JsString) (l : LruList) → tally (remove k l) k ≡ tally l k - 1
unfolding tally remove
tally-remove k [] = omega arith
tally-remove k (x ∷ l) = elim (Bool-cases (list_eq x k)) [
  | inl h ↦ rw (h, remove, tally) (omega arith)
  | inr h ↦ rw (h, remove, tally) (rw (h, tally) (tally-remove k l))
]

pub tally-remove_other : (k q : JsString) (l : LruList) → k ≢ q → tally (remove k l) q ≡ tally l q
unfolding tally remove
tally-remove_other k q [] ne = refl
tally-remove_other k q (x ∷ l) ne = elim (Bool-cases (list_eq x k)) [
  | inl h ↦
      let other = list_eq_ne x q (λ p. ne (sym (eq_of_list_eq x k h) ∙ p)) in
      rw (h, remove) (sym (unfold tally in rw other refl))
  | inr h ↦
      rw (h, remove) (ap (λ n. if list_eq x q then suc n else n) (tally-remove_other k q l ne))
]

-- A key leaves: `l'` is the list without it.
pub forgotten-EngineIsValid :
    (e : StorageEngine) (key : JsString) (l' : LruList)
    → EngineIsValid e
    → tally l' key ≡ 0
    → ((q : JsString) → key ≢ q → tally l' q ≡ tally e.lru_list q)
    → EngineIsValid (record e {
      entries = erase e.entries key;
      lru_list = l';
      expiry = untrack_expiry key e.expiry;
    })
forgotten-EngineIsValid e key l' v out others = record {
  packed = untrack_expiry-Packed key e.expiry v.packed;
  timed = λ k. elim (JsString-cases key k) [
    | inl p ↦
        subst
          (λ q.
            is_tracked (untrack_expiry key e.expiry) q
            ≡ has_expiry (lookup (erase e.entries key) q))
          p
          (is_tracked-untrack_expiry key e.expiry v.packed
            ∙ ap has_expiry (sym (lookup-erase e.entries key)))
    | inr ne ↦
        is_tracked-untrack_expiry_other key e.expiry v.packed k ne
        ∙ v.timed k
        ∙ ap has_expiry (sym (lookup-erase_other e.entries key k ne))
  ];
  listed = λ k. elim (JsString-cases key k) [
    | inl p ↦
        subst (λ q. tally l' q ≡ present (lookup (erase e.entries key) q)) p
          (out ∙ ap present (sym (lookup-erase e.entries key)))
    | inr ne ↦ others k ne ∙ v.listed k ∙ ap present (sym (lookup-erase_other e.entries key k ne))
  ];
}

-- A key is stored: it stands once in `l'`, and `x'` tracks it if its node has an expiry.
pub stored-EngineIsValid :
    (e : StorageEngine) (key : JsString) (node : LruNode) (l' : LruList) (x' : ExpiryIndex)
    → EngineIsValid e
    → tally l' key ≡ 1
    → ((q : JsString) → key ≢ q → tally l' q ≡ tally e.lru_list q)
    → Packed x'
    → is_tracked x' key ≡ is_some node.expires_at
    → ((q : JsString) → key ≢ q → is_tracked x' q ≡ is_tracked e.expiry q)
    → EngineIsValid (record e { entries = insert e.entries key node; lru_list = l'; expiry = x' })
stored-EngineIsValid e key node l' x' v once others packed' tracked tracked_others = record {
  packed = packed';
  timed = λ k. elim (JsString-cases key k) [
    | inl p ↦
        subst (λ q. is_tracked x' q ≡ has_expiry (lookup (insert e.entries key node) q)) p
          (tracked ∙ ap has_expiry (sym (lookup-insert e.entries key node)))
    | inr ne ↦
        tracked_others k ne
        ∙ v.timed k
        ∙ ap has_expiry (sym (lookup-insert_other e.entries key k node ne))
  ];
  listed = λ k. elim (JsString-cases key k) [
    | inl p ↦
        subst (λ q. tally l' q ≡ present (lookup (insert e.entries key node) q)) p
          (once ∙ ap present (sym (lookup-insert e.entries key node)))
    | inr ne ↦
        others k ne ∙ v.listed k ∙ ap present (sym (lookup-insert_other e.entries key k node ne))
  ];
}
