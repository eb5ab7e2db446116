-- ===== src/Prelude/Columns.antt =====
-- A relation that holds of every two members of a list, and what an update leaves of a column.
use mathlib.Core.Path.{◌≡◌, refl, ap₂}
use mathlib.Core.Logic.{inl, inr}
use mathlib.Core.Bool.{Bool}
use mathlib.Core.List.{List, [], ◌∷◌, ◌++◌, map}
use dokan.Prelude.Tests.{Bool-cases}
use dokan.Prelude.Lists.{All, All-append, filter, update_where}

abbrev pub Pairwise {ℓ κ} : {A : Type ℓ} → (A → A → Type κ) → List A → Type κ
Pairwise R [] = Unit
Pairwise R (x ∷ xs) = All (R x) xs × Pairwise R xs

module _ {ℓ κ} {A : Type ℓ} (R : A → A → Type κ) where
  -- A new last member that stands in the relation behind all the others.
  pub Pairwise-concat :
      (xs : List A) (y : A) → Pairwise R xs → All (λ x. R x y) xs → Pairwise R (xs ++ y ∷ [])
  Pairwise-concat [] y h k = (tt, tt)
  Pairwise-concat (x ∷ xs) y h k =
      (All-append (R x) xs (y ∷ []) h.0 (k.0, tt), Pairwise-concat xs y h.1 k.1)

module _ {ℓ κ} {A : Type ℓ} {B : Type κ} (g : A → B) where
  -- A column that the assignment leaves alone is the same after the update.
  pub map-update_where :
      (p : A → Bool) (f : A → A) (xs : List A)
      → ((x : A) → g (f x) ≡ g x)
      → map g (update_where p f xs) ≡ map g xs
  unfolding update_where
  map-update_where p f [] same = refl
  map-update_where p f (x ∷ xs) same = elim (Bool-cases (p x)) [
    | inl e ↦ rw e (ap₂ ◌∷◌ (same x) (map-update_where p f xs same))
    | inr e ↦ rw e (ap₂ ◌∷◌ refl (map-update_where p f xs same))
  ]

  pub map-append_lem : (xs ys : List A) → map g (xs ++ ys) ≡ map g xs ++ map g ys
  map-append_lem [] ys = refl
  map-append_lem (x ∷ xs) ys = ap₂ ◌∷◌ refl (map-append_lem xs ys)

module _ {ℓ κ μ} {A : Type ℓ} {B : Type κ} (g : A → B) where
  pub All-map-filter :
      (P : B → Type μ) (p : A → Bool) (xs : List A) → All P (map g xs) → All P (map g (filter p xs))
  unfolding filter
  All-map-filter P p [] h = tt
  All-map-filter P p (x ∷ xs) h = elim (Bool-cases (p x)) [
    | inl e ↦ rw e (h.0, All-map-filter P p xs h.1)
    | inr e ↦ rw e (All-map-filter P p xs h.1)
  ]

  pub Pairwise-map-filter :
      (R : B → B → Type μ) (p : A → Bool) (xs : List A)
      → Pairwise R (map g xs)
      → Pairwise R (map g (filter p xs))
  unfolding filter
  Pairwise-map-filter R p [] h = tt
  Pairwise-map-filter R p (x ∷ xs) h = elim (Bool-cases (p x)) [
    | inl e ↦ rw e (All-map-filter (R (g x)) p xs h.0, Pairwise-map-filter R p xs h.1)
    | inr e ↦ rw e (Pairwise-map-filter R p xs h.1)
  ]
