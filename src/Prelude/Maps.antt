-- ===== src/Prelude/Maps.antt =====
-- `Map<string, V>`: the entries in the order of their insertion.
use mathlib.Core.Path.{◌≡◌, refl, sym, ap, ◌∙◌}
use mathlib.Core.Logic.{◌≢◌, inl, inr}
use mathlib.Core.Bool.{false}
use mathlib.Core.List.{List, [], ◌∷◌}
use mathlib.Core.Option.{Option, none, some}
use radix_kv.Prelude.Tests.{if◌then◌else◌, list_eq, list_eq_refl, eq_of_list_eq, Bool-cases}
use radix_kv.Prelude.Text.{JsString}

abbrev pub Entries {ℓ} : Type ℓ → Type ℓ
Entries V = List (JsString × V)

module _ {ℓ} {V : Type ℓ} where
  unfoldable pub lookup : Entries V → JsString → Option V
  lookup [] k = none
  lookup ((x, v) ∷ m) k = if list_eq x k then some v else lookup m k

  -- A key that is there keeps its place.
  unfoldable pub insert : Entries V → JsString → V → Entries V
  insert [] k v = (k, v) ∷ []
  insert ((x, w) ∷ m) k v = if list_eq x k then (x, v) ∷ m else (x, w) ∷ insert m k v

  unfoldable pub erase : Entries V → JsString → Entries V
  erase [] k = []
  erase ((x, w) ∷ m) k = if list_eq x k then erase m k else (x, w) ∷ erase m k

pub list_eq_ne : (x y : JsString) → x ≢ y → list_eq x y ≡ false
list_eq_ne x y n = elim (Bool-cases (list_eq x y)) [
  | inl h ↦ absurd (n (eq_of_list_eq x y h))
  | inr h ↦ h
]

module _ {ℓ} {V : Type ℓ} where
  pub lookup-insert : (m : Entries V) (k : JsString) (v : V) → lookup (insert m k v) k ≡ some v
  unfolding lookup insert
  lookup-insert [] k v = rw (list_eq_refl k) refl
  lookup-insert ((x, w) ∷ m) k v = elim (Bool-cases (list_eq x k)) [
    | inl h ↦ rw (h, h) refl
    | inr h ↦ rw (h, h) (lookup-insert m k v)
  ]

  pub lookup-insert_other :
      (m : Entries V) (k q : JsString) (v : V) → k ≢ q → lookup (insert m k v) q ≡ lookup m q
  unfolding lookup insert
  lookup-insert_other [] k q v n = rw (list_eq_ne k q n) refl
  lookup-insert_other ((x, w) ∷ m) k q v n = elim (Bool-cases (list_eq x k)) [
    | inl h ↦
        let other = list_eq_ne x q (λ p. n (sym (eq_of_list_eq x k h) ∙ p)) in rw (h, other) refl
    | inr h ↦ rw h (ap (λ r. if list_eq x q then some w else r) (lookup-insert_other m k q v n))
  ]

  pub lookup-erase : (m : Entries V) (k : JsString) → lookup (erase m k) k ≡ none
  unfolding lookup erase
  lookup-erase [] k = refl
  lookup-erase ((x, w) ∷ m) k = elim (Bool-cases (list_eq x k)) [
    | inl h ↦ rw h (lookup-erase m k)
    | inr h ↦ rw (h, h) (lookup-erase m k)
  ]

  pub lookup-erase_other :
      (m : Entries V) (k q : JsString) → k ≢ q → lookup (erase m k) q ≡ lookup m q
  unfolding lookup erase
  lookup-erase_other [] k q n = refl
  lookup-erase_other ((x, w) ∷ m) k q n = elim (Bool-cases (list_eq x k)) [
    | inl h ↦
        let other = list_eq_ne x q (λ p. n (sym (eq_of_list_eq x k h) ∙ p)) in
        rw (h, other) (lookup-erase_other m k q n)
    | inr h ↦ rw h (ap (λ r. if list_eq x q then some w else r) (lookup-erase_other m k q n))
  ]
