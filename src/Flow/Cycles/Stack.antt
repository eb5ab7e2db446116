-- ===== src/Flow/Cycles/Stack.antt =====
-- The nodes on the stack lead to the node at its top, and a search that stops has met one of them.
use dokan.Prelude.{
  ℕ, zero, suc, String, Bool, true, false, ◌≡◌, refl, sym, subst, inl, inr, Option, some, List, [],
  ◌∷◌, Memᴰ, arith, Bool-cases, eq_iff, str_eq, length,
}
use dokan.Flow.Cycles.{
  Edges, Mark, Mark-cases, result-cases, Marks, mark, deps_of, visit, dfs, search, has_cycle,
  Reaches,
}

abbrev pub OnStack : Marks → String → Type 0
OnStack st x = mark x st ≡ Mark.in_stack

-- A part of the search that finds nothing leaves nothing more on the stack.
abbrev pub Unwinds : (String → Marks → Option (Bool × Marks)) → Type 0
Unwinds self =
    (n : String) (st st' : Marks)
    → self n st ≡ some (false, st')
    → (x : String) → OnStack st' x
    → OnStack st x

visit-Unwinds :
    (self : String → Marks → Option (Bool × Marks))
    → Unwinds self
    → (ds : List String) (st st' : Marks) → visit self ds st ≡ some (false, st')
    → (x : String) → OnStack st' x
    → OnStack st x
unfolding visit
visit-Unwinds self u [] st st' h x s = let same : st ≡ st' = ground arith in rw same s
visit-Unwinds self u (d ∷ ds) st st' h x s = elim (Mark-cases (mark d st)) [
  | inr (inl e) ↦ absurd (ground (arith, e, h))
  | inr (inr e) ↦ visit-Unwinds self u ds st st' (rw e at h) x s
  | inl e ↦ elim (result-cases (self d st)) [
    | inl r ↦ absurd (ground (arith, e, r, h))
    | inr (inl (mid, r)) ↦ absurd (ground (arith, e, r, h))
    | inr (inr (mid, r)) ↦ u d st mid r x (visit-Unwinds self u ds mid st' (rw (e, r) at h) x s)
  ]
]

module _ (edges : Edges) where
  pub dfs-Unwinds : (fuel : ℕ) → Unwinds (dfs edges fuel)
  unfolding dfs mark
  dfs-Unwinds zero n st st' h x s = absurd (ground arith)
  dfs-Unwinds (suc fuel) n st st' h x s =
      elim (result-cases (visit (dfs edges fuel) (deps_of edges n) ((n, Mark.in_stack) ∷ st))) [
        | inl r ↦ absurd (ground (arith, r, h))
        | inr (inl (mid, r)) ↦ absurd (ground (arith, r, h))
        | inr (inr (mid, r)) ↦
            let same : (n, Mark.done) ∷ mid ≡ st' = ground (arith, r, h) in
            let s' : OnStack ((n, Mark.done) ∷ mid) x = subst (λ m. OnStack m x) (sym same) s in
            elim (Bool-cases (str_eq n x)) [
              | inl e ↦ absurd (ground (arith, e, s'))
              | inr e ↦
                  let below =
                    visit-Unwinds (dfs edges fuel) (dfs-Unwinds fuel) (deps_of edges n) _ mid r x
                      (rw e at s') in
                  rw e at below
            ]
      ]

  -- Every node on the stack leads to `n`.
  abbrev Leads : Marks → String → Type 0
  Leads st n = (x : String) → OnStack st x → Reaches edges x n

  Cyclic : Type 0
  Cyclic = (x : String) × Reaches edges x x

  abbrev Finds : (String → Marks → Option (Bool × Marks)) → Type 0
  Finds self = (n : String) (st st' : Marks) → self n st ≡ some (true, st') → Leads st n → Cyclic

  extend : {x n d : String} → Memᴰ d (deps_of edges n) → Reaches edges x n → Reaches edges x d
  extend m (Reaches.direct k) = Reaches.via k (Reaches.direct m)
  extend m (Reaches.via k r) = Reaches.via k (extend m r)

  -- What is on the stack below `n`, `n` itself included, leads to its dependencies.
  visit-finds :
      (self : String → Marks → Option (Bool × Marks))
      → Finds self
      → Unwinds self
      → (ds : List String) (st st' : Marks) → visit self ds st ≡ some (true, st')
      → ((d x : String) → Memᴰ d ds → OnStack st x → Reaches edges x d)
      → Cyclic
  unfolding visit Cyclic
  visit-finds self f u [] st st' h lead = absurd (ground arith)
  visit-finds self f u (d ∷ ds) st st' h lead = elim (Mark-cases (mark d st)) [
    | inr (inl e) ↦ (d, lead d d (Memᴰ.head refl) e)
    | inr (inr e) ↦
        visit-finds self f u ds st st' (rw e at h) (λ d' x m s. lead d' x (Memᴰ.tail m) s)
    | inl e ↦ elim (result-cases (self d st)) [
      | inl r ↦ absurd (ground (arith, e, r, h))
      | inr (inl (mid, r)) ↦ f d st mid r (λ x s. lead d x (Memᴰ.head refl) s)
      | inr (inr (mid, r)) ↦
          visit-finds self f u ds mid st' (rw (e, r) at h)
            (λ d' x m s. lead d' x (Memᴰ.tail m) (u d st mid r x s))
    ]
  ]

  on_top :
      (n : String) (st : Marks)
      → Leads st n
      → (d x : String) → Memᴰ d (deps_of edges n)
      → OnStack ((n, Mark.in_stack) ∷ st) x
      → Reaches edges x d
  unfolding mark
  on_top n st lead d x m s = elim (Bool-cases (str_eq n x)) [
    | inl e ↦ let same : n ≡ x = (eq_iff _ _).0 e in rw⁻¹ same (Reaches.direct m)
    | inr e ↦ extend m (lead x (rw e at s))
  ]

  dfs-Finds : (fuel : ℕ) → Finds (dfs edges fuel)
  unfolding dfs
  dfs-Finds zero n st st' h lead = absurd (ground arith)
  dfs-Finds (suc fuel) n st st' h lead =
      elim (result-cases (visit (dfs edges fuel) (deps_of edges n) ((n, Mark.in_stack) ∷ st))) [
        | inl r ↦ absurd (ground (arith, r, h))
        | inr (inr (mid, r)) ↦ absurd (ground (arith, r, h))
        | inr (inl (mid, r)) ↦
            visit-finds (dfs edges fuel) (dfs-Finds fuel) (dfs-Unwinds fuel) (deps_of edges n) _ mid
              r (on_top n st lead)
      ]

  -- Between the roots the stack is empty.
  search-finds :
      (fuel : ℕ) (es : Edges) (st st' : Marks)
      → search edges fuel es st ≡ some (true, st')
      → ((x : String) → OnStack st x → ⊥)
      → Cyclic
  unfolding search
  search-finds fuel [] st st' h empty = absurd (ground arith)
  search-finds fuel ((n, ds) ∷ es) st st' h empty = elim (Mark-cases (mark n st)) [
    | inr (inl e) ↦ absurd (empty n e)
    | inr (inr e) ↦ search-finds fuel es st st' (rw e at h) empty
    | inl e ↦ elim (result-cases (dfs edges fuel n st)) [
      | inl r ↦ absurd (ground (arith, e, r, h))
      | inr (inl (mid, r)) ↦ dfs-Finds fuel n st mid r (λ x s. absurd (empty x s))
      | inr (inr (mid, r)) ↦
          search-finds fuel es mid st' (rw (e, r) at h)
            (λ x s. empty x (dfs-Unwinds fuel n st mid r x s))
    ]
  ]

  -- A spec that the search calls cyclic has a step that depends on itself, along a chain of
  -- dependencies.
  pub has_cycle-Reaches : has_cycle edges ≡ some true → (x : String) × Reaches edges x x
  unfolding has_cycle Cyclic mark
  has_cycle-Reaches h = elim (result-cases (search edges (suc (length edges)) edges [])) [
    | inl r ↦ absurd (ground (arith, r, h))
    | inr (inl (st, r)) ↦ search-finds (suc (length edges)) edges [] st r (λ x s. ground arith)
    | inr (inr (st, r)) ↦ absurd (ground (arith, r, h))
  ]
