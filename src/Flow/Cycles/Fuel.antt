-- ===== src/Flow/Cycles/Fuel.antt =====
-- One unit of fuel more than there are steps is enough for the search.
use dokan.Prelude.{
  ℕ, zero, suc, ◌≤◌, ◌<◌, String, Bool, true, false, ◌≡◌, refl, inl, inr, ◌⊎◌, Option, some, List,
  [], ◌∷◌, arith, Bool-cases, eq_iff, str_eq, length, count,
}
use text.Mathlib.TextPositions.{eq_refl}
use dokan.Flow.Cycles.{
  Edges, Mark, Mark-cases, Marks, mark, deps_of, after, visit, dfs, search, has_cycle,
}

abbrev fresh : Mark → Bool
fresh Mark.unseen = true
fresh _ = false

abbrev fresh_at : Marks → String × List String → Bool
fresh_at st e = fresh (mark e.0 st)

-- The steps that the search has not seen.
abbrev left : Edges → Marks → ℕ
left es st = count (fresh_at st) es

-- A colour is never taken back.
abbrev Seen : Marks → Marks → Type 0
Seen st st' = (x : String) → fresh (mark x st') ≡ true → fresh (mark x st) ≡ true

left-Seen : (es : Edges) (st st' : Marks) → Seen st st' → left es st' ≤ left es st
left-Seen [] st st' s = omega arith
left-Seen (e ∷ es) st st' s = ground (arith, left-Seen es st st' s, s e.0)

Seen-push : (n : String) (c : Mark) (st : Marks) → fresh c ≡ false → Seen st ((n, c) ∷ st)
unfolding mark
Seen-push n c st used x h = ground arith

str_eq-flip : (m n : String) → str_eq m n ≡ false → str_eq n m ≡ false
str_eq-flip m n e = elim (Bool-cases (str_eq n m)) [
  | inr f ↦ f
  | inl t ↦
      let same : n ≡ m = (eq_iff _ _).0 t in
      let e' : str_eq m m ≡ false = rw same at e in absurd (ground (arith, e', eq_refl m))
]

-- A node that is entered is a step no more to be seen, or no step.
left-push :
    (es : Edges) (n : String) (st : Marks)
    → fresh (mark n st) ≡ true
    → (left es ((n, Mark.in_stack) ∷ st) < left es st) ⊎ (deps_of es n ≡ [])
unfolding deps_of mark
left-push [] n st h = inr refl
left-push ((m, ds) ∷ es) n st h =
    let fewer = left-Seen es st ((n, Mark.in_stack) ∷ st) (Seen-push n Mark.in_stack st refl) in
    elim (Bool-cases (str_eq m n)) [
      | inl e ↦
          let same : m ≡ n = (eq_iff _ _).0 e in
          let fresh_m : fresh (mark m st) ≡ true = rw same h in
          let self : str_eq n m ≡ true = rw same (eq_refl n) in
          inl (ground (arith, fewer, fresh_m, self))
      | inr e ↦
          let other : str_eq n m ≡ false = str_eq-flip m n e in
          elim (left-push es n st h) [
            | inl lt ↦ inl (ground (arith, lt, other))
            | inr none_there ↦ inr (rw e none_there)
          ]
    ]

module _ (edges : Edges) where
  abbrev Stops : Option (Bool × Marks) → Marks → Bool → Type 0
  Stops o st b = (st' : Marks) × (o ≡ some (b, st')) × Seen st st'

  abbrev Returns : Option (Bool × Marks) → Marks → Type 0
  Returns o st = Stops o st true ⊎ Stops o st false

  abbrev Ends : ℕ → (String → Marks → Option (Bool × Marks)) → Type 0
  Ends fuel self =
      (n : String) (st : Marks)
      → fresh (mark n st) ≡ true
      → left edges st < fuel
      → Returns (self n st) st

  is_fresh : (d : String) (st : Marks) → mark d st ≡ Mark.unseen → fresh (mark d st) ≡ true
  is_fresh d st e = rw e refl

  -- A part that found nothing, and then the rest.
  then-ends :
      (st st' : Marks) (k : Marks → Option (Bool × Marks))
      → Seen st st'
      → Returns (k st') st'
      → Returns (k st') st
  then-ends st st' k seen (inl (st2, r, seen2)) = inl (st2, r, λ x f. seen x (seen2 x f))
  then-ends st st' k seen (inr (st2, r, seen2)) = inr (st2, r, λ x f. seen x (seen2 x f))

  after-ends :
      (fuel : ℕ) (st : Marks) (o : Option (Bool × Marks)) (k : Marks → Option (Bool × Marks))
      → left edges st < fuel
      → Returns o st
      → ((st' : Marks) → left edges st' < fuel → Returns (k st') st')
      → Returns (after o k) st
  after-ends fuel st o k h (inl (st', r, seen)) rest = rw r (inl (st', refl, seen))
  after-ends fuel st o k h (inr (st', r, seen)) rest =
      rw r (then-ends st st' k seen (rest st' (ground (arith, left-Seen edges st st' seen))))

  visit-Ends :
      (fuel : ℕ) (self : String → Marks → Option (Bool × Marks))
      → Ends fuel self
      → (ds : List String) (st : Marks) → left edges st < fuel
      → Returns (visit self ds st) st
  unfolding visit
  visit-Ends fuel self ends [] st h = inr (st, refl, λ x f. f)
  visit-Ends fuel self ends (d ∷ ds) st h = elim (Mark-cases (mark d st)) [
    | inr (inl e) ↦ rw e (inl (st, refl, λ x f. f))
    | inr (inr e) ↦ rw e (visit-Ends fuel self ends ds st h)
    | inl e ↦ rw e (
        after-ends fuel st (self d st) (visit self ds) h (ends d st (is_fresh d st e) h)
          (visit-Ends fuel self ends ds))
  ]

  finish-ends :
      (n : String) (st : Marks) (o : Option (Bool × Marks))
      → Returns o ((n, Mark.in_stack) ∷ st)
      → Returns (after o (λ st'. some (false, (n, Mark.done) ∷ st'))) st
  finish-ends n st o (inl (st', r, seen)) =
      rw r (inl (st', refl, λ x g. Seen-push n Mark.in_stack st refl x (seen x g)))
  finish-ends n st o (inr (st', r, seen)) = rw r (
      inr (
        (n, Mark.done) ∷ st',
        refl,
        λ x g. Seen-push n Mark.in_stack st refl x (seen x (Seen-push n Mark.done st' refl x g)),
      ))

  dfs-Ends : (fuel : ℕ) → Ends fuel (dfs edges fuel)
  unfolding dfs
  dfs-Ends zero n st f h = absurd (ground arith)
  dfs-Ends (suc fuel) n st f h =
      finish-ends n st (visit (dfs edges fuel) (deps_of edges n) ((n, Mark.in_stack) ∷ st))
        (elim (left-push edges n st f) [
          | inl fewer ↦
              visit-Ends fuel (dfs edges fuel) (dfs-Ends fuel) (deps_of edges n) _
                (ground (arith, fewer, h))
          | inr no_deps ↦ rw (no_deps, visit) (inr (_, refl, λ x g. g))
        ])

  search-ends :
      (fuel : ℕ) (es : Edges) (st : Marks)
      → left edges st < fuel
      → Returns (search edges fuel es st) st
  unfolding search
  search-ends fuel [] st h = inr (st, refl, λ x f. f)
  search-ends fuel ((n, ds) ∷ es) st h = elim (Mark-cases (mark n st)) [
    | inr (inl e) ↦ rw e (search-ends fuel es st h)
    | inr (inr e) ↦ rw e (search-ends fuel es st h)
    | inl e ↦ rw e (
        after-ends fuel st (dfs edges fuel n st) (search edges fuel es) h
          (dfs-Ends fuel n st (is_fresh n st e) h) (search-ends fuel es))
  ]

  left-le : (es : Edges) (st : Marks) → left es st ≤ length es
  left-le [] st = omega arith
  left-le (e ∷ es) st = ground (arith, left-le es st)

  -- The fuel is enough for every spec: the search answers.
  pub has_cycle-total : (b : Bool) × (has_cycle edges ≡ some b)
  unfolding has_cycle
  has_cycle-total =
      elim (search-ends (suc (length edges)) edges [] (ground (arith, left-le edges []))) [
        | inl (st, r, seen) ↦ (true, rw r refl)
        | inr (st, r, seen) ↦ (false, rw r refl)
      ]
