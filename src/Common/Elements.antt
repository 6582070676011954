-- ===== src/Common/Elements.antt =====
-- Where an element of a changed list comes from.
use Prim.Native.Nat.{ℕ, zero, suc, ◌<◌}
use mathlib.Core.Path.{◌≡◌, refl, sym, ap, ◌∙◌}
use mathlib.Core.Logic.{◌≢◌, ◌⊎◌, inl, inr}
use mathlib.Core.List.{List, [], ◌∷◌, ◌++◌}
use mathlib.Core.Option.{some}
use native.Mathlib.Omega.{arith}
use ptx_frontend.Common.Tests.{◌==◌, Bool-cases}
use ptx_frontend.Common.Lists.{
  length, get_elem?, set, length-set, get_elem?-lt, get_elem?-set_self, get_elem?-set_ne,
}

module _ {ℓ} {A : Type ℓ} where
  pub get_elem?-in : (xs : List A) (i : ℕ) → i < length xs → (x : A) × (get_elem? xs i ≡ some x)
  get_elem?-in [] i h = absurd (omega arith)
  get_elem?-in (x ∷ xs) zero h = (x, refl)
  get_elem?-in (x ∷ xs) (suc i) h = get_elem?-in xs i (omega arith)

  pub get_elem?-snoc :
      (xs : List A) (y : A) (i : ℕ) {x : A}
      → get_elem? (xs ++ y ∷ []) i ≡ some x
      → ((i ≡ length xs) × (x ≡ y)) ⊎ ((i < length xs) × (get_elem? xs i ≡ some x))
  get_elem?-snoc [] y zero {x} h = inl (refl, cc h)
  get_elem?-snoc [] y (suc i) h = absurd (cc h)
  get_elem?-snoc (z ∷ xs) y zero h = inr (omega arith, h)
  get_elem?-snoc (z ∷ xs) y (suc i) h = elim (get_elem?-snoc xs y i h) [
    | inl (e, f) ↦ inl (ap suc e, f)
    | inr (e, f) ↦ inr (omega arith, f)
  ]

  pub get_elem?-set :
      (xs : List A) (k : ℕ) (v : A) (i : ℕ) {x : A}
      → get_elem? (set xs k v) i ≡ some x
      → ((i ≡ k) × (x ≡ v)) ⊎ ((i ≢ k) × (get_elem? xs i ≡ some x))
  get_elem?-set xs k v i {x} h = elim (Bool-cases (k == i)) [
    | inl e ↦
        let same : k ≡ i = ground arith in
        let inside : i < length xs =
          omega (arith, get_elem?-lt (set xs k v) i h, length-set xs k v) in
        let self = get_elem?-set_self xs k v (omega arith) in inl (sym same, cc (h, self, same))
    | inr e ↦
        let apart : k ≢ i = ground arith in
        inr (λ f. apart (sym f), sym (get_elem?-set_ne xs v apart) ∙ h)
  ]
