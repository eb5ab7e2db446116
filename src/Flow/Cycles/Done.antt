-- ===== src/Flow/Cycles/Done.antt =====
-- A search that finds no cycle leaves none: every finished node has finished dependencies below it.
use dokan.Prelude.{
  ℕ, zero, suc, String, Bool, false, ◌≡◌, refl, ap, inl, inr, Option, some, List, [], ◌∷◌, Memᴰ,
  All, All-mem, length, arith, Bool-cases, eq_iff, str_eq,
}
use dokan.Flow.Cycles.Stack.{OnStack, dfs-Unwinds}
use dokan.Flow.Cycles.{
  Edges, Mark, Mark-cases, result-cases, Marks, mark, deps_of, visit, dfs, search, has_cycle,
  Reaches,
}

abbrev IsDone : Marks → String → Type 0
IsDone st n = Memᴰ (n, Mark.done) st

-- The colour of a node is one of its entries.
mark-done : (n : String) (st : Marks) → mark n st ≡ Mark.done → IsDone st n
unfolding mark
mark-done n [] h = absurd (ground arith)
mark-done n ((m, c) ∷ st) h = elim (Bool-cases (str_eq m n)) [
  | inl e ↦
      let same : m ≡ n = (eq_iff _ _).0 e in
      let col : c ≡ Mark.done = rw e at h in rw (same, col) (Memᴰ.head refl)
  | inr e ↦ Memᴰ.tail (mark-done n st (rw e at h))
]

module _ (edges : Edges) where
  -- The dependencies of a finished node were finished before it.
  abbrev IsTopo : Marks → Type 0
  IsTopo [] = Unit
  IsTopo ((n, Mark.done) ∷ st) = All (IsDone st) (deps_of edges n) × IsTopo st
  IsTopo ((n, Mark.unseen) ∷ st) = IsTopo st
  IsTopo ((n, Mark.in_stack) ∷ st) = IsTopo st

  abbrev Grows : Marks → Marks → Type 0
  Grows st st' = (x : String × Mark) → Memᴰ x st → Memᴰ x st'

  All-Grows :
      {st st' : Marks} (ds : List String) → Grows st st' → All (IsDone st) ds → All (IsDone st') ds
  All-Grows [] g h = tt
  All-Grows (d ∷ ds) g (h, hs) = (g _ h, All-Grows ds g hs)

  abbrev Finishes : (String → Marks → Option (Bool × Marks)) → Type 0
  Finishes self =
      (n : String) (st st' : Marks)
      → self n st ≡ some (false, st')
      → IsTopo st
      → IsTopo st' × IsDone st' n × Grows st st'

  visit-Finishes :
      (self : String → Marks → Option (Bool × Marks))
      → Finishes self
      → (ds : List String) (st st' : Marks) → visit self ds st ≡ some (false, st')
      → IsTopo st
      → IsTopo st' × All (IsDone st') ds × Grows st st'
  unfolding visit
  visit-Finishes self fin [] st st' h t =
      let same : st ≡ st' = ground arith in rw⁻¹ same (t, tt, λ x m. m)
  visit-Finishes self fin (d ∷ ds) st st' h t = elim (Mark-cases (mark d st)) [
    | inr (inl e) ↦ absurd (ground (arith, e, h))
    | inr (inr e) ↦
        let (t', all_done, g) = visit-Finishes self fin ds st st' (rw e at h) t in
        (t', (g _ (mark-done d st e), all_done), g)
    | inl e ↦ elim (result-cases (self d st)) [
      | inl r ↦ absurd (ground (arith, e, r, h))
      | inr (inl (mid, r)) ↦ absurd (ground (arith, e, r, h))
      | inr (inr (mid, r)) ↦
          let (t1, d_done, g1) = fin d st mid r t in
          let (t2, all_done, g2) = visit-Finishes self fin ds mid st' (rw (e, r) at h) t1 in
          (t2, (g2 _ d_done, all_done), λ x m. g2 x (g1 x m))
    ]
  ]

  dfs-Finishes : (fuel : ℕ) → Finishes (dfs edges fuel)
  unfolding dfs
  dfs-Finishes zero n st st' h t = absurd (ground arith)
  dfs-Finishes (suc fuel) n st st' h t =
      elim (result-cases (visit (dfs edges fuel) (deps_of edges n) ((n, Mark.in_stack) ∷ st))) [
        | inl r ↦ absurd (ground (arith, r, h))
        | inr (inl (mid, r)) ↦ absurd (ground (arith, r, h))
        | inr (inr (mid, r)) ↦
            let (t', all_done, g) =
              visit-Finishes (dfs edges fuel) (dfs-Finishes fuel) (deps_of edges n) _ mid r t in
            let same : (n, Mark.done) ∷ mid ≡ st' = ground (arith, r, h) in
            rw⁻¹ same ((all_done, t'), Memᴰ.head refl, λ x m. Memᴰ.tail (g x (Memᴰ.tail m)))
      ]

  abbrev AllDone : Edges → Marks → Type 0
  AllDone [] st = Unit
  AllDone ((n, ds) ∷ es) st = IsDone st n × AllDone es st

  -- Every root is finished at the end, since the stack is empty between roots.
  search-finishes :
      (fuel : ℕ) (es : Edges) (st st' : Marks)
      → search edges fuel es st ≡ some (false, st')
      → ((x : String) → OnStack st x → ⊥)
      → IsTopo st
      → IsTopo st' × AllDone es st' × Grows st st'
  unfolding search
  search-finishes fuel [] st st' h empty t =
      let same : st ≡ st' = ground arith in rw⁻¹ same (t, tt, λ x m. m)
  search-finishes fuel ((n, ds) ∷ es) st st' h empty t = elim (Mark-cases (mark n st)) [
    | inr (inl e) ↦ absurd (empty n e)
    | inr (inr e) ↦
        let (t', all_done, g) = search-finishes fuel es st st' (rw e at h) empty t in
        (t', (g _ (mark-done n st e), all_done), g)
    | inl e ↦ elim (result-cases (dfs edges fuel n st)) [
      | inl r ↦ absurd (ground (arith, e, r, h))
      | inr (inl (mid, r)) ↦ absurd (ground (arith, e, r, h))
      | inr (inr (mid, r)) ↦
          let (t1, n_done, g1) = dfs-Finishes fuel n st mid r t in
          let (t2, all_done, g2) =
            search-finishes fuel es mid st' (rw (e, r) at h)
              (λ x s. empty x (dfs-Unwinds edges fuel n st mid r x s)) t1 in
          (t2, (g2 _ n_done, all_done), λ x m. g2 x (g1 x m))
    ]
  ]

  AllDone-mem :
      (st : Marks) (n : String) (ds : List String) (es : Edges)
      → AllDone es st
      → Memᴰ (n, ds) es
      → IsDone st n
  AllDone-mem st n ds es h (Memᴰ.head {x = x} e) =
      let same : n ≡ x.0 = ap (λ (p : String × List String). p.0) e in rw same (h.0)
  AllDone-mem st n ds es h (Memᴰ.tail m) = AllDone-mem st n ds _ h.1 m

  -- The dependencies of a finished node are finished, and so is all that it reaches.
  topo-deps :
      (st : Marks) (n : String) → IsTopo st → IsDone st n → All (IsDone st) (deps_of edges n)
  topo-deps ((m, Mark.done) ∷ st) n (ds, t) (Memᴰ.head e) =
      let same : n ≡ m = ap (λ (p : String × Mark). p.0) e in
      rw same (All-Grows (deps_of edges m) (λ x k. Memᴰ.tail k) ds)
  topo-deps ((m, Mark.unseen) ∷ st) n t (Memᴰ.head e) =
      let other : Mark.done ≡ Mark.unseen = ap (λ (p : String × Mark). p.1) e in absurd cc
  topo-deps ((m, Mark.in_stack) ∷ st) n t (Memᴰ.head e) =
      let other : Mark.done ≡ Mark.in_stack = ap (λ (p : String × Mark). p.1) e in absurd cc
  topo-deps ((m, Mark.done) ∷ st) n (ds, t) (Memᴰ.tail k) =
      All-Grows (deps_of edges n) (λ x j. Memᴰ.tail j) (topo-deps st n t k)
  topo-deps ((m, Mark.unseen) ∷ st) n t (Memᴰ.tail k) =
      All-Grows (deps_of edges n) (λ x j. Memᴰ.tail j) (topo-deps st n t k)
  topo-deps ((m, Mark.in_stack) ∷ st) n t (Memᴰ.tail k) =
      All-Grows (deps_of edges n) (λ x j. Memᴰ.tail j) (topo-deps st n t k)
  topo-deps [] n t m = elim m [ ]

  Reaches-IsDone :
      {n m : String} → (st : Marks) → IsTopo st → IsDone st n → Reaches edges n m → IsDone st m
  Reaches-IsDone {n} st t k (Reaches.direct d) = All-mem (IsDone st) d (topo-deps st n t k)
  Reaches-IsDone {n} st t k (Reaches.via d r) =
      Reaches-IsDone st t (All-mem (IsDone st) d (topo-deps st n t k)) r

  -- From the newest finished node every chain goes down, never back to it.
  topo-acyclic : (st : Marks) (n : String) → IsTopo st → IsDone st n → ¬ Reaches edges n n
  topo-acyclic ((m, Mark.done) ∷ st) n (ds, t) (Memᴰ.head e) r =
      let same : n ≡ m = ap (λ (p : String × Mark). p.0) e in
      topo-acyclic st n t (below r (rw same ds)) r
    where
      below : {k : String} → Reaches edges n k → All (IsDone st) (deps_of edges n) → IsDone st k
      below (Reaches.direct d) ds' = All-mem (IsDone st) d ds'
      below (Reaches.via d s) ds' = Reaches-IsDone st t (All-mem (IsDone st) d ds') s
  topo-acyclic ((m, Mark.unseen) ∷ st) n t (Memᴰ.head e) r =
      let other : Mark.done ≡ Mark.unseen = ap (λ (p : String × Mark). p.1) e in absurd cc
  topo-acyclic ((m, Mark.in_stack) ∷ st) n t (Memᴰ.head e) r =
      let other : Mark.done ≡ Mark.in_stack = ap (λ (p : String × Mark). p.1) e in absurd cc
  topo-acyclic ((m, Mark.done) ∷ st) n (ds, t) (Memᴰ.tail k) r = topo-acyclic st n t k r
  topo-acyclic ((m, Mark.unseen) ∷ st) n t (Memᴰ.tail k) r = topo-acyclic st n t k r
  topo-acyclic ((m, Mark.in_stack) ∷ st) n t (Memᴰ.tail k) r = topo-acyclic st n t k r
  topo-acyclic [] n t m r = elim m [ ]

  deps_of-mem :
      (es : Edges) (n m : String) → Memᴰ m (deps_of es n) → (ds : List String) × Memᴰ (n, ds) es
  unfolding deps_of
  deps_of-mem [] n m k = elim k [ ]
  deps_of-mem ((j, ds) ∷ es) n m k = elim (Bool-cases (str_eq j n)) [
    | inl e ↦ let same : j ≡ n = (eq_iff _ _).0 e in (ds, Memᴰ.head (rw same refl))
    | inr e ↦ let (ds', i) = deps_of-mem es n m (rw e at k) in (ds', Memᴰ.tail i)
  ]

  starts : {n m : String} → Reaches edges n m → (ds : List String) × Memᴰ (n, ds) edges
  starts {n} (Reaches.direct d) = deps_of-mem edges n _ d
  starts {n} (Reaches.via d r) = deps_of-mem edges n _ d

  -- A spec that the search calls acyclic has no step that depends on itself, along a chain of
  -- dependencies of any length.
  pub has_cycle-acyclic : has_cycle edges ≡ some false → (n : String) → ¬ Reaches edges n n
  unfolding has_cycle mark
  has_cycle-acyclic h n r = elim (result-cases (search edges (suc (length edges)) edges [])) [
    | inl q ↦ absurd (ground (arith, q, h))
    | inr (inl (st, q)) ↦ absurd (ground (arith, q, h))
    | inr (inr (st, q)) ↦
        let (t, all_done, g) =
          search-finishes (suc (length edges)) edges [] st q (λ x s. ground arith) tt in
        let (ds, m) = starts r in topo-acyclic st n t (AllDone-mem st n ds edges all_done m) r
  ]
