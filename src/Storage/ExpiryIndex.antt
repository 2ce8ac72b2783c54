-- ===== src/Storage/ExpiryIndex.antt =====
-- src/storage-engine.ts: the packed array of the keys that have an expiry, and the map of their
-- places in it.
use radix_kv.Prelude.{
  Bool, List, [], get_elem?, is_some, length, none, set, some, take, ℕ, ◌++◌, ◌-◌, ◌∷◌, ◌≡◌,
}
use radix_kv.Prelude.Text.{JsString}
use radix_kv.Prelude.Maps.{Entries, erase, insert, lookup}

pub record ExpiryIndex : Type 0 where
  pub expires_list : List JsString
  pub expires_index_map : Entries ℕ

abbrev pub empty_index : ExpiryIndex
empty_index = record { expires_list = []; expires_index_map = [] }

unfoldable pub track_expiry : JsString → ExpiryIndex → ExpiryIndex
track_expiry key x = elim (lookup x.expires_index_map key) [
  | some index ↦ x
  | none ↦ record {
    expires_list = x.expires_list ++ (key ∷ []);
    expires_index_map = insert x.expires_index_map key (length x.expires_list);
  }
]

-- `pop()`
unfoldable pub pop : List JsString → List JsString
pop l = take (length l - 1) l

-- The last key takes the place `index` of `key`, and the array loses its end.
unfoldable pub swap_with_last : JsString → ℕ → JsString → ExpiryIndex → ExpiryIndex
swap_with_last key index last_key x = record {
  expires_list = pop (set x.expires_list index last_key);
  expires_index_map = erase (insert x.expires_index_map last_key index) key;
}

-- The array has a last key whenever a key has a place in it.
unfoldable pub untrack_expiry : JsString → ExpiryIndex → ExpiryIndex
untrack_expiry key x = elim (lookup x.expires_index_map key) [
  | none ↦ x
  | some index ↦ elim (get_elem? x.expires_list (length x.expires_list - 1)) [
    | none ↦ x
    | some last_key ↦ swap_with_last key index last_key x
  ]
]

-- The map says where the keys of the array stand, and of no others.
pub record Packed (x : ExpiryIndex) : Type 0 where
  pub placed :
      (key : JsString) (i : ℕ)
      → lookup x.expires_index_map key ≡ some i
      → get_elem? x.expires_list i ≡ some key
  pub indexed :
      (key : JsString) (i : ℕ)
      → get_elem? x.expires_list i ≡ some key
      → lookup x.expires_index_map key ≡ some i

-- Is the key in the index?
abbrev pub is_tracked : ExpiryIndex → JsString → Bool
is_tracked x key = is_some (lookup x.expires_index_map key)
