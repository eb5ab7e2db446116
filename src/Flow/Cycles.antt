-- ===== src/Flow/Cycles.antt =====
-- src/flow.rs, `has_cycle`: depth-first search with three colours over the dependencies of a spec.
-- The search takes fuel, and `has_cycle` gives it one more than there are steps.
pub mod Done
pub mod Stack
pub mod Fuel
pub mod Decides
use dokan.Prelude.{
  ℕ, zero, suc, String, Bool, true, false, Option, none, some, List, [], ◌∷◌, Memᴰ, length, str_eq,
  ◌≡◌, refl, ◌⊎◌, inl, inr, if◌then◌else◌,
}

-- The dependencies of each step id, in some order: the source iterates over a HashMap.
abbrev pub Edges : Type 0
Edges = List (String × List String)

pub data Mark : Type 0 where
  unseen in_stack done : Mark

-- The newest entry of a node is its colour.
abbrev pub Marks : Type 0
Marks = List (String × Mark)

unfoldable pub mark : String → Marks → Mark
mark n [] = Mark.unseen
mark n ((m, c) ∷ st) = if str_eq m n then c else mark n st

unfoldable pub deps_of : Edges → String → List String
deps_of [] n = []
deps_of ((m, ds) ∷ es) n = if str_eq m n then ds else deps_of es n

-- The search stops at the first cycle.
abbrev pub after : Option (Bool × Marks) → (Marks → Option (Bool × Marks)) → Option (Bool × Marks)
after none k = none
after (some (true, st)) k = some (true, st)
after (some (false, st)) k = k st

abbrev pub by_mark {ℓ} : {A : Type ℓ} → Mark → A → A → A → A
by_mark Mark.unseen u i d = u
by_mark Mark.in_stack u i d = i
by_mark Mark.done u i d = d

pub Mark-cases : (c : Mark) → (c ≡ Mark.unseen) ⊎ (c ≡ Mark.in_stack) ⊎ (c ≡ Mark.done)
Mark-cases Mark.unseen = inl refl
Mark-cases Mark.in_stack = inr (inl refl)
Mark-cases Mark.done = inr (inr refl)

-- What a part of the search comes to.
pub result-cases :
    (o : Option (Bool × Marks))
    → (o ≡ none) ⊎ ((st : Marks) × (o ≡ some (true, st))) ⊎ ((st : Marks) × (o ≡ some (false, st)))
result-cases none = inl refl
result-cases (some (true, st)) = inr (inl (st, refl))
result-cases (some (false, st)) = inr (inr (st, refl))

unfoldable pub visit :
    (String → Marks → Option (Bool × Marks)) → List String → Marks → Option (Bool × Marks)
unfolding mark
visit self [] st = some (false, st)
visit self (d ∷ ds) st =
    by_mark (mark d st) (after (self d st) (visit self ds)) (some (true, st)) (visit self ds st)

module _ (edges : Edges) where
  -- `none`: out of fuel.
  unfoldable pub dfs : ℕ → String → Marks → Option (Bool × Marks)
  unfolding visit deps_of
  dfs zero n st = none
  dfs (suc fuel) n st =
      after (visit (dfs fuel) (deps_of edges n) ((n, Mark.in_stack) ∷ st))
        (λ st'. some (false, (n, Mark.done) ∷ st'))

  unfoldable pub search : ℕ → Edges → Marks → Option (Bool × Marks)
  unfolding dfs
  search fuel [] st = some (false, st)
  search fuel ((n, ds) ∷ es) st =
      by_mark (mark n st) (after (dfs fuel n st) (search fuel es)) (search fuel es st)
        (search fuel es st)

abbrev pub answer : Option (Bool × Marks) → Option Bool
answer none = none
answer (some (b, st)) = some b

unfoldable pub has_cycle : Edges → Option Bool
unfolding search
has_cycle edges = answer (search edges (suc (length edges)) edges [])

-- `m` is reached from `n` along one dependency or more.
pub data Reaches (edges : Edges) : String → String → Type 0 where
  direct : {n m : String} → Memᴰ m (deps_of edges n) → Reaches edges n m
  via : {n m k : String} → Memᴰ m (deps_of edges n) → Reaches edges m k → Reaches edges n k
