-- ===== src/Prelude/Lists.antt =====
-- Lists read by Boolean tests, measured by native numbers, and predicates on their members.
use Prim.Native.Nat.{ℕ, zero, suc, ◌+◌, ◌≤◌}
use mathlib.Core.Path.{◌≡◌, refl, ap}
use mathlib.Core.Logic.{inl, inr}
use mathlib.Core.Bool.{Bool, true, false, ◌&&◌, ◌||◌}
use mathlib.Core.Option.{Option, none, some}
use mathlib.Core.List.{List, [], ◌∷◌, ◌++◌, Memᴰ}
use mathlib.Core.List.Memᴰ
use native.Mathlib.Omega.{arith}
use dokan.Prelude.Tests.{if◌then◌else◌, Bool-cases}

module _ {ℓ} {A : Type ℓ} where
  abbrev pub length : List A → ℕ
  length [] = 0
  length (x ∷ xs) = suc (length xs)

  abbrev pub take : ℕ → List A → List A
  take zero xs = []
  take (suc n) [] = []
  take (suc n) (x ∷ xs) = x ∷ take n xs

  abbrev pub drop : ℕ → List A → List A
  drop zero xs = xs
  drop (suc n) [] = []
  drop (suc n) (x ∷ xs) = drop n xs

  abbrev pub any : (A → Bool) → List A → Bool
  any p [] = false
  any p (x ∷ xs) = p x || any p xs

  abbrev pub all : (A → Bool) → List A → Bool
  all p [] = true
  all p (x ∷ xs) = p x && all p xs

  -- The library's `filter`, by a Boolean test.
  unfoldable pub filter : (A → Bool) → List A → List A
  filter p [] = []
  filter p (x ∷ xs) = let rest = filter p xs in if p x then x ∷ rest else rest

  abbrev pub count : (A → Bool) → List A → ℕ
  count p [] = 0
  count p (x ∷ xs) = if p x then suc (count p xs) else count p xs

  abbrev pub find? : (A → Bool) → List A → Option A
  find? p [] = none
  find? p (x ∷ xs) = let rest = find? p xs in if p x then some x else rest

  -- `UPDATE … SET … WHERE p`
  unfoldable pub update_where : (A → Bool) → (A → A) → List A → List A
  update_where p f [] = []
  update_where p f (x ∷ xs) = (if p x then f x else x) ∷ update_where p f xs

  abbrev pub All {κ} : (A → Type κ) → List A → Type κ
  All P [] = Unit
  All P (x ∷ xs) = P x × All P xs

module _ {ℓ} {A : Type ℓ} where
  pub length-append : (xs ys : List A) → length (xs ++ ys) ≡ length xs + length ys
  length-append [] ys = omega arith
  length-append (x ∷ xs) ys = omega (arith, length-append xs ys)

  pub length-filter : (p : A → Bool) (xs : List A) → length (filter p xs) ≤ length xs
  unfolding filter
  length-filter p [] = omega arith
  length-filter p (x ∷ xs) = ground (arith, length-filter p xs)

  module _ {κ} (P : A → Type κ) where
    pub All-mem : {a : A} {xs : List A} → Memᴰ a xs → All P xs → P a
    All-mem (Memᴰ.head e) h = rw e h.0
    All-mem (Memᴰ.tail m) h = All-mem m h.1

    pub All-of-mem : (xs : List A) → ((a : A) → Memᴰ a xs → P a) → All P xs
    All-of-mem [] h = tt
    All-of-mem (x ∷ xs) h = (h x (Memᴰ.head refl), All-of-mem xs (λ a m. h a (Memᴰ.tail m)))

    pub All-append : (xs ys : List A) → All P xs → All P ys → All P (xs ++ ys)
    All-append [] ys hx hy = hy
    All-append (x ∷ xs) ys hx hy = (hx.0, All-append xs ys hx.1 hy)

    pub All-update_where :
        (p : A → Bool) (f : A → A) (xs : List A)
        → ((x : A) → p x ≡ true → P x → P (f x))
        → All P xs
        → All P (update_where p f xs)
    unfolding update_where
    All-update_where p f [] keep h = tt
    All-update_where p f (x ∷ xs) keep h = (
      elim (Bool-cases (p x)) [ inl e ↦ rw e (keep x e h.0) | inr e ↦ rw e h.0 ],
      All-update_where p f xs keep h.1,
    )

    pub All-filter : (p : A → Bool) (xs : List A) → All P xs → All P (filter p xs)
    unfolding filter
    All-filter p [] h = tt
    All-filter p (x ∷ xs) h = elim (Bool-cases (p x)) [
      | inl e ↦ rw e (h.0, All-filter p xs h.1)
      | inr e ↦ rw e (All-filter p xs h.1)
    ]

  -- A list that a Boolean test filtered holds what was there and passes, and no more.
  pub mem-filter :
      {a : A} (p : A → Bool) (xs : List A) → Memᴰ a (filter p xs) → Memᴰ a xs × (p a ≡ true)
  unfolding filter
  mem-filter p [] m = elim m [ ]
  mem-filter {a} p (x ∷ xs) m = elim (Bool-cases (p x)) [
    | inl e ↦ elim (Memᴰ.cases_cons (rw e at m)) [
      | inl q ↦ (Memᴰ.head q, rw q e)
      | inr r ↦ let (i, t) = mem-filter p xs r in (Memᴰ.tail i, t)
    ]
    | inr e ↦ let (i, t) = mem-filter p xs (rw e at m) in (Memᴰ.tail i, t)
  ]

  pub filter-mem :
      {a : A} (p : A → Bool) {xs : List A} → Memᴰ a xs → p a ≡ true → Memᴰ a (filter p xs)
  unfolding filter
  filter-mem {a} p (Memᴰ.head {x = x} q) t = rw ((rw q at t)) (Memᴰ.head q)
  filter-mem {a} p (Memᴰ.tail {x = x} m) t = elim (Bool-cases (p x)) [
    | inl e ↦ rw e (Memᴰ.tail (filter-mem p m t))
    | inr e ↦ rw e (filter-mem p m t)
  ]

  -- A found element is a member that passes, and nothing passes where none is found.
  pub find?-some :
      (p : A → Bool) (xs : List A) {a : A} → find? p xs ≡ some a → Memᴰ a xs × (p a ≡ true)
  find?-some p [] h = cc
  find?-some p (x ∷ xs) {a} h = elim (Bool-cases (p x)) [
    | inl e ↦ let q : a ≡ x = cc (h, e) in (Memᴰ.head q, rw q e)
    | inr e ↦ let (i, t) = find?-some p xs (rw e at h) in (Memᴰ.tail i, t)
  ]

  pub find?-none : (p : A → Bool) (xs : List A) → find? p xs ≡ none → All (λ x. p x ≡ false) xs
  find?-none p [] h = tt
  find?-none p (x ∷ xs) h = elim (Bool-cases (p x)) [
    | inl e ↦ absurd (ground arith)
    | inr e ↦ (e, find?-none p xs (rw e at h))
  ]

  pub mem-update_where :
      {a : A} (p : A → Bool) (f : A → A) {xs : List A}
      → Memᴰ a xs
      → Memᴰ (if p a then f a else a) (update_where p f xs)
  unfolding update_where
  mem-update_where p f (Memᴰ.head e) = Memᴰ.head (ap (λ a. if p a then f a else a) e)
  mem-update_where p f (Memᴰ.tail m) = Memᴰ.tail (mem-update_where p f m)

  -- Every row of an updated table comes from a row of the old one.
  pub mem-of-update_where :
      {b : A} (p : A → Bool) (f : A → A) (xs : List A)
      → Memᴰ b (update_where p f xs)
      → (a : A) × Memᴰ a xs × (b ≡ (if p a then f a else a))
  unfolding update_where
  mem-of-update_where p f [] m = elim m [ ]
  mem-of-update_where p f (x ∷ xs) (Memᴰ.head e) = (x, Memᴰ.head refl, e)
  mem-of-update_where p f (x ∷ xs) (Memᴰ.tail m) =
      let (a, i, e) = mem-of-update_where p f xs m in (a, Memᴰ.tail i, e)

  abbrev pub assign : (A → Bool) → (A → A) → Option A → Option A
  assign p f none = none
  assign p f (some a) = some (if p a then f a else a)

  -- A search by a column that the assignment leaves alone finds the row updated.
  pub find?-update_where :
      (q p : A → Bool) (f : A → A) (xs : List A)
      → ((x : A) → q (f x) ≡ q x)
      → find? q (update_where p f xs) ≡ assign p f (find? q xs)
  unfolding update_where
  find?-update_where q p f [] same = refl
  find?-update_where q p f (x ∷ xs) same = ground (arith, same x, find?-update_where q p f xs same)

  pub any-mem : (p : A → Bool) (xs : List A) → any p xs ≡ true → (a : A) × Memᴰ a xs × (p a ≡ true)
  any-mem p [] h = cc
  any-mem p (x ∷ xs) h = elim (Bool-cases (p x)) [
    | inl e ↦ (x, Memᴰ.head refl, e)
    | inr e ↦ let (a, m, t) = any-mem p xs (ground arith) in (a, Memᴰ.tail m, t)
  ]

  pub mem-any : {a : A} (p : A → Bool) {xs : List A} → Memᴰ a xs → p a ≡ true → any p xs ≡ true
  mem-any {a} p (Memᴰ.head {x = x} e) t = let q : p x ≡ true = rw e at t in rw q
  mem-any p (Memᴰ.tail {x = x} m) t = ground (arith, mem-any p m t)

  pub find?-append :
      (p : A → Bool) (xs ys : List A) → any p xs ≡ false → find? p (xs ++ ys) ≡ find? p ys
  find?-append p [] ys h = refl
  find?-append p (x ∷ xs) ys h = ground (arith, find?-append p xs ys)

  pub any-append : (p : A → Bool) (xs ys : List A) → any p (xs ++ ys) ≡ (any p xs || any p ys)
  any-append p [] ys = refl
  any-append p (x ∷ xs) ys = ground (arith, any-append p xs ys)

  pub any-of-find? : (p : A → Bool) (xs : List A) {a : A} → find? p xs ≡ some a → any p xs ≡ true
  any-of-find? p xs h = let (m, t) = find?-some p xs h in mem-any p m t

  pub count-append : (p : A → Bool) (xs ys : List A) → count p (xs ++ ys) ≡ count p xs + count p ys
  count-append p [] ys = omega arith
  count-append p (x ∷ xs) ys = ground (arith, count-append p xs ys)
