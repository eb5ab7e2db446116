-- ===== src/Flow/Spec/Accepted.antt =====
-- What an accepted spec is: the graph of its steps is a DAG over distinct ids.
use dokan.Prelude.{
  String, Bool, true, false, ◌≡◌, ◌≢◌, refl, sym, ◌∙◌, subst, inl, inr, Option, none, some, List,
  [], ◌∷◌, ◌++◌, map, any, All, All-append, Pairwise, Pairwise-concat, str_eq, arith, Bool-cases,
  Option-cases, contains_char,
}
use mathlib.Core.List.{append-nil, append_assoc}
use text.Mathlib.TextPositions.{eq_refl}
use dokan.Json.{Value, get, as_array}
use dokan.Db.Flows.{and_then, depends_on, step_of_spec}
use dokan.Flow.Cycles.{Edges, has_cycle, Reaches}
use dokan.Flow.Cycles.Done.{has_cycle-acyclic}
use dokan.Flow.Cycles.Fuel.{has_cycle-total}
use dokan.Flow.Spec.{
  check_step, id_of, Collected, err, ok, collect, unknown_dep, unknown_deps, Verdict, judge,
  of_steps, acyclic_verdict, validate_spec,
}

-- The node of a step: its id and dependencies, as the ledger holds them.
unfoldable pub node : Value → String × List String
unfolding step_of_spec
node st = ((step_of_spec 0 st).step_id, (step_of_spec 0 st).depends_on)

abbrev pub HasNoHash : String → Type 0
HasNoHash id = contains_char 35 id ≡ false

abbrev pub Distinct : List String → Type 0
Distinct ids = Pairwise (λ a b. a ≢ b) ids

check-fresh :
    (ids : List String) (id : String) (st : Value)
    → check_step ids id st ≡ none
    → any (str_eq id) ids ≡ false
unfolding check_step
check-fresh ids id st h = ground arith

check-HasNoHash :
    (ids : List String) (id : String) (st : Value) → check_step ids id st ≡ none → HasNoHash id
unfolding check_step
check-HasNoHash ids id st h = ground arith

fresh-differs :
    (id : String) (ids : List String) → any (str_eq id) ids ≡ false → All (λ x. x ≢ id) ids
fresh-differs id [] h = tt
fresh-differs id (x ∷ xs) h = (
  λ same.
      let self : str_eq id id ≡ true = eq_refl id in
      let h' : any (str_eq id) (id ∷ xs) ≡ false = rw same at h in ground (arith, self, h'),
  fresh-differs id xs (ground arith),
)

abbrev Gathers : List String → Edges → List Value → List String → Edges → Type 0
Gathers ids edges sts ids' edges' =
    (ids' ≡ ids ++ map (λ st. (node st).0) sts)
    × (edges' ≡ edges ++ map node sts)
    × Distinct ids'
    × All HasNoHash ids'

node-id : (st : Value) (id : String) → id_of st ≡ some id → node st ≡ (id, depends_on st)
unfolding id_of node
node-id st id e = rw e refl

gathers :
    (sts : List Value) (ids : List String) (edges : Edges) (ids' : List String) (edges' : Edges)
    → collect sts ids edges ≡ ok ids' edges'
    → Distinct ids
    → All HasNoHash ids
    → Gathers ids edges sts ids' edges'
unfolding collect
gathers [] ids edges ids' edges' h d n =
    let same_ids : ids ≡ ids' = ground arith in
    let same_edges : edges ≡ edges' = ground arith in
    rw⁻¹ (same_ids, same_edges) (sym (append-nil ids), sym (append-nil edges), d, n)
gathers (st ∷ sts) ids edges ids' edges' h d n = elim (Option-cases (id_of st)) [
  | inl e ↦ absurd (ground (arith, e, h))
  | inr (id, e) ↦ elim (Option-cases (check_step ids id st)) [
    | inr (msg, c) ↦ absurd (ground (arith, e, c, h))
    | inl c ↦
        let (i, g, d', n') =
          gathers sts (ids ++ id ∷ []) (edges ++ (id, depends_on st) ∷ []) ids' edges'
            (rw (e, c, collect) at h)
            (Pairwise-concat (λ a b. a ≢ b) ids id d
              (fresh-differs id ids (check-fresh ids id st c)))
            (All-append HasNoHash ids (id ∷ []) n (check-HasNoHash ids id st c, tt)) in
        (
          i ∙ append_assoc ids (id ∷ []) (map (λ st. (node st).0) sts) ∙ rw (node-id st id e) refl,
          g
              ∙ append_assoc edges ((id, depends_on st) ∷ []) (map node sts)
              ∙ rw (node-id st id e) refl,
          d',
          n',
        )
  ]
]

-- Every dependency of every step is the id of a step.
abbrev pub Known : List String → Edges → Type 0
Known ids edges = All (λ e. All (λ d. any (str_eq d) ids ≡ true) e.1) edges

known-deps :
    (ids : List String) (id : String) (ds : List String)
    → unknown_dep ids id ds ≡ none
    → All (λ d. any (str_eq d) ids ≡ true) ds
known-deps ids id [] h = tt
known-deps ids id (d ∷ ds) h = elim (Bool-cases (any (str_eq d) ids)) [
  | inl e ↦ (e, known-deps ids id ds (rw e at h))
  | inr e ↦ absurd (ground (arith, e, h))
]

known : (ids : List String) (edges : Edges) → unknown_deps ids edges ≡ none → Known ids edges
known ids [] h = tt
known ids ((id, ds) ∷ es) h = elim (Option-cases (unknown_dep ids id ds)) [
  | inl e ↦ (known-deps ids id ds e, known ids es (rw e at h))
  | inr (msg, e) ↦ absurd (ground (arith, e, h))
]

-- The ids of the steps are distinct and hold no `#`, every dependency is one of them, and no step
-- depends on itself along a chain of dependencies.
pub record IsDag (steps : List Value) : Type 0 where
  pub distinct : Distinct (map (λ st. (node st).0) steps)
  pub no_hash : All HasNoHash (map (λ st. (node st).0) steps)
  pub known_deps : Known (map (λ st. (node st).0) steps) (map node steps)
  pub acyclic : (n : String) → ¬ Reaches (map node steps) n n

judged : (steps : List Value) → judge (collect steps [] []) ≡ some Verdict.valid → IsDag steps
judged steps h = go (collect steps [] []) refl h
  where
    go : (c : Collected) → collect steps [] [] ≡ c → judge c ≡ some Verdict.valid → IsDag steps
    go (err e) same h' = absurd (ground arith)
    go (ok ids edges) same h' =
        let (i, g, d, n) = gathers steps [] [] ids edges same tt tt in
        elim (Option-cases (unknown_deps ids edges)) [
          | inr (msg, e) ↦ absurd (ground (arith, e, h'))
          | inl e ↦
              let verdict : acyclic_verdict (has_cycle edges) ≡ some Verdict.valid =
                rw (e, judge) at h' in
              record {
                distinct = rw i at d;
                no_hash = rw i at n;
                known_deps =
                    subst (λ js. Known js (map node steps)) i
                      (subst (λ es. Known ids es) g (known ids edges e));
                acyclic =
                    subst (λ es. (n : String) → ¬ Reaches es n n) g
                      (has_cycle-acyclic edges (accepts (has_cycle edges) verdict));
              }
        ]
      where
        accepts : (o : Option Bool) → acyclic_verdict o ≡ some Verdict.valid → o ≡ some false
        accepts none v = ground arith
        accepts (some true) v = ground arith
        accepts (some false) v = refl

-- An accepted spec has one step or more, and the rows that its ledger will hold form a DAG over
-- distinct ids.
pub validate_spec-IsDag :
    (spec : Value)
    → validate_spec spec ≡ some Verdict.valid
    → (st : Value) × (sts : List Value) × (and_then (get "steps" spec) as_array ≡ some (st ∷ sts))
      × IsDag (st ∷ sts)
unfolding validate_spec
validate_spec-IsDag spec h = go (and_then (get "steps" spec) as_array) refl h
  where
    go :
        (o : Option (List Value))
        → and_then (get "steps" spec) as_array ≡ o
        → of_steps o ≡ some Verdict.valid
        → (st : Value) × (sts : List Value) × (and_then (get "steps" spec) as_array
            ≡ some (st ∷ sts))
          × IsDag (st ∷ sts)
    go none same h' = absurd (ground arith)
    go (some []) same h' = absurd (ground arith)
    go (some (st ∷ sts)) same h' = (st, sts, same, judged (st ∷ sts) h')

-- Every spec gets a verdict: the fuel of the search for a cycle is enough.
pub validate_spec-total : (spec : Value) → (v : Verdict) × (validate_spec spec ≡ some v)
unfolding validate_spec
validate_spec-total spec = go (and_then (get "steps" spec) as_array)
  where
    of_search : (edges : Edges) → (v : Verdict) × (acyclic_verdict (has_cycle edges) ≡ some v)
    of_search edges =
        let (b, e) = has_cycle-total edges in
        elim (Bool-cases b) [
          | inl t ↦ (Verdict.invalid "flow spec has a cycle", rw (e, t) refl)
          | inr f ↦ (Verdict.valid, rw (e, f) refl)
        ]

    of_collected : (c : Collected) → (v : Verdict) × (judge c ≡ some v)
    of_collected (err e) = (Verdict.invalid e, refl)
    of_collected (ok ids edges) = elim (Option-cases (unknown_deps ids edges)) [
      | inl n ↦ rw (n, judge) (of_search edges)
      | inr (msg, n) ↦ (Verdict.invalid msg, rw (n, judge) refl)
    ]

    go : (o : Option (List Value)) → (v : Verdict) × (of_steps o ≡ some v)
    go none = (Verdict.invalid "spec.steps must be an array", refl)
    go (some []) = (Verdict.invalid "spec.steps is empty", refl)
    go (some (st ∷ sts)) = of_collected (collect (st ∷ sts) [] [])
