-- ===== src/Prelude/Order.antt =====
-- The order of texts, which is that of their bytes, and the sorting of a list of texts.
use Prim.Native.Char.{Char, code}
use Prim.Native.String.{String, [], ◌∷◌}
use mathlib.Core.Path.{◌≡◌, refl, ap₂, ◌∙◌}
use mathlib.Core.Logic.{inl, inr}
use mathlib.Core.Bool.{Bool, true, false, ◌&&◌, ◌||◌}
use mathlib.Core.List.{List, Permᴰ}
use native.Mathlib.Omega.{arith}
use text.Mathlib.TextEquality.{codes_equal}
use dokan.Prelude.Tests.{ltb, ◌==◌, if◌then◌else◌, Bool-cases}

unfoldable pub leb_text : String → String → Bool
leb_text [] t = true
leb_text (c ∷ s) [] = false
leb_text (c ∷ s) (d ∷ t) = ltb (code c) (code d) || (code c == code d && leb_text s t)

pub leb_text-total : (s t : String) → leb_text s t ≡ false → leb_text t s ≡ true
unfolding leb_text
leb_text-total [] t h = absurd (cc)
leb_text-total (c ∷ s) [] h = refl
leb_text-total (c ∷ s) (d ∷ t) h = ground (arith, leb_text-total s t)

pub leb_text_trans :
    (s t u : String) → leb_text s t ≡ true → leb_text t u ≡ true → leb_text s u ≡ true
unfolding leb_text
leb_text_trans [] t u h k = refl
leb_text_trans (c ∷ s) [] u h k = absurd (cc)
leb_text_trans (c ∷ s) (d ∷ t) [] h k = absurd (cc)
leb_text_trans (c ∷ s) (d ∷ t) (e ∷ u) h k = ground (arith, leb_text_trans s t u)

same_code : (c d : Char) → (code c == code d) ≡ true → c ≡ d
same_code c d h = codes_equal c d (ground arith)

pub leb_text-antisym : (s t : String) → leb_text s t ≡ true → leb_text t s ≡ true → s ≡ t
unfolding leb_text
leb_text-antisym [] [] h k = refl
leb_text-antisym [] (d ∷ t) h k = absurd (cc)
leb_text-antisym (c ∷ s) [] h k = absurd (cc)
leb_text-antisym (c ∷ s) (d ∷ t) h k =
    ap₂ ◌∷◌ (same_code c d (ground arith)) (leb_text-antisym s t (ground arith) (ground arith))

-- `Vec::sort` on texts.
unfoldable pub insert_text : String → List String → List String
insert_text s List.[] = List.◌∷◌ s List.[]
insert_text s (List.◌∷◌ t ts) =
    let rest = insert_text s ts in
    if leb_text s t then List.◌∷◌ s (List.◌∷◌ t ts) else List.◌∷◌ t rest

unfoldable pub sort_texts : List String → List String
unfolding insert_text
sort_texts List.[] = List.[]
sort_texts (List.◌∷◌ s ss) = insert_text s (sort_texts ss)

-- Two insertions may be made in either order.
insert_text-swap :
    (x y : String) (ts : List String)
    → insert_text x (insert_text y ts) ≡ insert_text y (insert_text x ts)
unfolding insert_text
insert_text-swap x y List.[] = elim (Bool-cases (leb_text x y)) [
  | inr xy ↦ rw (xy, leb_text-total x y xy) refl
  | inl xy ↦ elim (Bool-cases (leb_text y x)) [
    | inr yx ↦ rw (xy, yx) refl
    | inl yx ↦ rw (leb_text-antisym x y xy yx) refl
  ]
]
insert_text-swap x y (List.◌∷◌ t ts) = ground (
  arith,
  insert_text-swap x y ts,
  leb_text-total x y,
  leb_text-total x t,
  leb_text-total y t,
  leb_text_trans x y t,
  leb_text_trans y x t,
  leb_text-antisym x y,
)

-- The order in which the texts came does not show once they are sorted.
pub sort_texts-Permᴰ : {ss ts : List String} → Permᴰ ss ts → sort_texts ss ≡ sort_texts ts
unfolding sort_texts
sort_texts-Permᴰ Permᴰ.nil = refl
sort_texts-Permᴰ (Permᴰ.cons e p) = ap₂ insert_text e (sort_texts-Permᴰ p)
sort_texts-Permᴰ (Permᴰ.swap {a = a} {b = b} {l = l} e f) =
    insert_text-swap a b (sort_texts l)
    ∙ ap₂ (λ x y. insert_text x (insert_text y (sort_texts l))) f e
sort_texts-Permᴰ (Permᴰ.trans p q) = sort_texts-Permᴰ p ∙ sort_texts-Permᴰ q
