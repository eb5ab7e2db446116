-- ===== src/Flow/Cycles/Decides.antt =====
-- The search decides whether a spec is acyclic.
use dokan.Prelude.{String, Bool, false, ◌≡◌, ◌↔◌, some, inl, inr, Bool-cases}
use dokan.Flow.Cycles.{Edges, has_cycle, Reaches}
use dokan.Flow.Cycles.Done.{has_cycle-acyclic}
use dokan.Flow.Cycles.Stack.{has_cycle-Reaches}
use dokan.Flow.Cycles.Fuel.{has_cycle-total}

-- Over any dependencies the search answers whether there is a cycle, and it answers that there is
-- none exactly when no step depends on itself along a chain of dependencies.
pub has_cycle-false_iff :
    (edges : Edges)
    → ((b : Bool) × (has_cycle edges ≡ some b))
      × ((has_cycle edges ≡ some false) ↔ ((n : String) → ¬ Reaches edges n n))
has_cycle-false_iff edges = (
  has_cycle-total edges,
  (
    has_cycle-acyclic edges,
    λ none_at.
        let (b, answers) = has_cycle-total edges in
        elim (Bool-cases b) [
          | inl cyclic ↦
              let (x, r) = has_cycle-Reaches edges (rw cyclic at answers) in absurd (none_at x r)
          | inr acyclic ↦ rw acyclic at answers
        ],
  ),
)
