-- ===== src/Storage/Tracked.antt =====
-- src/storage-engine.ts: which keys are in the index of expiries after a change of it.
use radix_kv.Prelude.{
  Option-cases, [], ap, arith, false, get_elem?, get_elem?-append_left, get_elem?-append_right, inl,
  inr, is_some, length, length-append, none, refl, some, sym, true, ℕ, ◌++◌, ◌+◌, ◌-◌, ◌<◌, ◌∙◌,
  ◌∷◌, ◌≡◌, ◌≢◌,
}
use radix_kv.Prelude.Text.{JsString}
use radix_kv.Prelude.Maps.{
  erase, insert, lookup, lookup-erase, lookup-erase_other, lookup-insert, lookup-insert_other,
}
use radix_kv.Storage.ExpiryIndex.{
  ExpiryIndex, Packed, is_tracked, swap_with_last, track_expiry, untrack_expiry,
}
use radix_kv.Storage.Packed.{JsString-cases, lt_of_get_elem?, some_inj, some_last, ℕ-cases}

-- A key that is not there enters at the end of the array.
pub track_expiry-Packed :
    (key : JsString) (x : ExpiryIndex) → Packed x → Packed (track_expiry key x)
unfolding track_expiry
track_expiry-Packed key x p = elim (Option-cases (lookup x.expires_index_map key)) [
  | inr (i, q) ↦ rw (q, track_expiry) p
  | inl q ↦ rw (q, track_expiry) (record { placed = placed' q; indexed = indexed' q })
]
  where
    none_some : {A : Type 0} {a : A} → none ≢ some a
    none_some h = ground arith

    at_end : get_elem? (x.expires_list ++ (key ∷ [])) (length x.expires_list) ≡ some key
    at_end =
        ap (get_elem? (x.expires_list ++ (key ∷ []))) {x = length x.expires_list}
          {y = length x.expires_list + 0} (omega arith)
        ∙ get_elem?-append_right x.expires_list (key ∷ []) 0

    placed' :
        lookup x.expires_index_map key ≡ none
        → (k : JsString) (i : ℕ)
        → lookup (insert x.expires_index_map key (length x.expires_list)) k ≡ some i
        → get_elem? (x.expires_list ++ (key ∷ [])) i ≡ some k
    placed' q k i h = elim (JsString-cases key k) [
      | inl e ↦
          let same : length x.expires_list ≡ i = some_inj (
            sym (lookup-insert x.expires_index_map key (length x.expires_list))
            ∙ ap (lookup (insert x.expires_index_map key (length x.expires_list))) e
            ∙ h) in
          ap (get_elem? (x.expires_list ++ (key ∷ []))) (sym same) ∙ at_end ∙ ap some e
      | inr ne ↦
          let old =
            p.placed k i (
              sym (lookup-insert_other x.expires_index_map key k (length x.expires_list) ne) ∙ h) in
          get_elem?-append_left x.expires_list (key ∷ []) i (lt_of_get_elem? x.expires_list i old)
          ∙ old
    ]

    indexed' :
        lookup x.expires_index_map key ≡ none
        → (k : JsString) (i : ℕ) → get_elem? (x.expires_list ++ (key ∷ [])) i ≡ some k
        → lookup (insert x.expires_index_map key (length x.expires_list)) k ≡ some i
    indexed' q k i h = elim (ℕ-cases i (length x.expires_list)) [
      | inl e ↦
          let same : key ≡ k =
            some_inj (sym at_end ∙ ap (get_elem? (x.expires_list ++ (key ∷ []))) (sym e) ∙ h) in
          ap (lookup (insert x.expires_index_map key (length x.expires_list))) (sym same)
          ∙ lookup-insert x.expires_index_map key (length x.expires_list)
          ∙ ap some (sym e)
      | inr off ↦
          let inside : i < length x.expires_list =
            omega (arith, off, lt_of_get_elem? _ i h, length-append x.expires_list (key ∷ [])) in
          let old = sym (get_elem?-append_left x.expires_list (key ∷ []) i inside) ∙ h in
          let known = p.indexed k i old in
          let ne : key ≢ k =
            λ e. absurd (none_some (sym q ∙ ap (lookup x.expires_index_map) e ∙ known)) in
          lookup-insert_other x.expires_index_map key k (length x.expires_list) ne ∙ known
    ]

module _ (key : JsString) (x : ExpiryIndex) where
  pub is_tracked-track_expiry : is_tracked (track_expiry key x) key ≡ true
  unfolding track_expiry
  is_tracked-track_expiry = elim (Option-cases (lookup x.expires_index_map key)) [
    | inr (i, q) ↦ rw (q, track_expiry) (rw q refl)
    | inl q ↦
        rw (q, track_expiry)
          (rw (lookup-insert x.expires_index_map key (length x.expires_list)) refl)
  ]

  pub is_tracked-track_expiry_other :
      (q : JsString) → key ≢ q → is_tracked (track_expiry key x) q ≡ is_tracked x q
  unfolding track_expiry
  is_tracked-track_expiry_other q ne = elim (Option-cases (lookup x.expires_index_map key)) [
    | inr (i, h) ↦ rw (h, track_expiry) refl
    | inl h ↦
        rw (h, track_expiry)
          (ap is_some (lookup-insert_other x.expires_index_map key q (length x.expires_list) ne))
  ]

module _ (key : JsString) (x : ExpiryIndex) (p : Packed x) where
  pub is_tracked-untrack_expiry : is_tracked (untrack_expiry key x) key ≡ false
  unfolding untrack_expiry swap_with_last
  is_tracked-untrack_expiry = elim (Option-cases (lookup x.expires_index_map key)) [
    | inl q ↦ rw (q, untrack_expiry) (rw q refl)
    | inr (i, q) ↦
        let (last, e) =
          some_last x.expires_list
            (omega (arith, lt_of_get_elem? x.expires_list i (p.placed key i q))) in
        rw (q, untrack_expiry)
          (rw e (ap is_some (lookup-erase (insert x.expires_index_map last i) key)))
  ]

  pub is_tracked-untrack_expiry_other :
      (q : JsString) → key ≢ q → is_tracked (untrack_expiry key x) q ≡ is_tracked x q
  unfolding untrack_expiry swap_with_last
  is_tracked-untrack_expiry_other q ne = elim (Option-cases (lookup x.expires_index_map key)) [
    | inl h ↦ rw (h, untrack_expiry) refl
    | inr (i, h) ↦
        let (last, e) =
          some_last x.expires_list
            (omega (arith, lt_of_get_elem? x.expires_list i (p.placed key i h))) in
        rw (h, untrack_expiry) (rw e (swapped last i e))
  ]
    where
      swapped :
          (last : JsString) (i : ℕ)
          → get_elem? x.expires_list (length x.expires_list - 1) ≡ some last
          → is_some (lookup (erase (insert x.expires_index_map last i) key) q) ≡ is_tracked x q
      swapped last i e = elim (JsString-cases last q) [
        | inl l ↦
            ap is_some (
              lookup-erase_other _ key q ne
              ∙ ap (lookup (insert x.expires_index_map last i)) (sym l)
              ∙ lookup-insert x.expires_index_map last i)
            ∙ ap is_some (sym (ap (lookup x.expires_index_map) (sym l) ∙ p.indexed last _ e))
        | inr nl ↦
            ap is_some
              (lookup-erase_other _ key q ne ∙ lookup-insert_other x.expires_index_map last q i nl)
      ]
