-- ===== src/Flow/Aggregate.antt =====
-- When a fan-out is over, and with what.
use mathlib.Core.List.{Perm}
use mathlib.Core.List.Perm
use dokan.Prelude.{
  ◌≤◌, String, true, false, ◌≡◌, ◌↔◌, ◌⊎◌, ◌||◌, inl, inr, refl, none, some, List, [], ◌∷◌, map,
  any, filter, leb, arith, Bool-cases,
}
use dokan.Json.{Value, of_list}
use dokan.Db.{FlowStep}
use dokan.Flow.{
  Serde, Agg, child_index, insert_by_index, sort_by_index, child_of, slot, is_active, has_failed,
  aggregate, aggregate_children,
}

-- In the order of the children's indices.
abbrev pub IsOrdered : List FlowStep → Type 0
IsOrdered [] = Unit
IsOrdered (c ∷ []) = Unit
IsOrdered (c ∷ d ∷ ds) = (child_index c ≤ child_index d) × IsOrdered (d ∷ ds)

insert-Perm : (c : FlowStep) (cs : List FlowStep) → Perm (insert_by_index c cs) (c ∷ cs)
insert-Perm c [] = Perm.refl _
insert-Perm c (d ∷ ds) = elim (Bool-cases (leb (child_index c) (child_index d))) [
  | inl e ↦ rw e (Perm.refl _)
  | inr e ↦ rw e (Perm.trans (Perm.cons d (insert-Perm c ds)) (Perm.swap c d ds))
]

sort_by_index-Perm : (cs : List FlowStep) → Perm (sort_by_index cs) cs
unfolding sort_by_index
sort_by_index-Perm [] = Perm.refl _
sort_by_index-Perm (c ∷ cs) =
    Perm.trans (insert-Perm c (sort_by_index cs)) (Perm.cons c (sort_by_index-Perm cs))

insert-IsOrdered :
    (c : FlowStep) (cs : List FlowStep) → IsOrdered cs → IsOrdered (insert_by_index c cs)
insert-IsOrdered c [] h = tt
insert-IsOrdered c (d ∷ []) h = elim (Bool-cases (leb (child_index c) (child_index d))) [
  | inl e ↦ rw e (ground arith, tt)
  | inr e ↦ rw e (ground arith, tt)
]
insert-IsOrdered c (d ∷ e ∷ es) (h, hs) =
    let rest = insert-IsOrdered c (e ∷ es) hs in
    elim (Bool-cases (leb (child_index c) (child_index d))) [
      | inl q ↦ rw q (ground arith, (h, hs))
      | inr q ↦ elim (Bool-cases (leb (child_index c) (child_index e))) [
        | inl t ↦ rw (q, t) (ground arith, (ground arith, hs))
        | inr t ↦ rw (q, t) (h, rw t at rest)
      ]
    ]

sort_by_index-IsOrdered : (cs : List FlowStep) → IsOrdered (sort_by_index cs)
unfolding sort_by_index
sort_by_index-IsOrdered [] = tt
sort_by_index-IsOrdered (c ∷ cs) =
    insert-IsOrdered c (sort_by_index cs) (sort_by_index-IsOrdered cs)

abbrev pub children : List FlowStep → String → List FlowStep
children steps parent = filter (child_of parent) steps

module _ (serde : Serde) (steps : List FlowStep) (parent : String) where
  -- A fan-out is not over exactly while it has no child or a child that is pending, running or
  -- itself expanded.
  pub aggregate_children-none_iff : (aggregate_children serde steps parent ≡ none) ↔ (
      (children steps parent ≡ []) ⊎ (any (λ s. is_active s.status) (children steps parent) ≡ true))
  unfolding aggregate_children
  aggregate_children-none_iff = go (children steps parent)
    where
      go :
          (cs : List FlowStep)
          → (aggregate serde cs ≡ none) ↔ ((cs ≡ []) ⊎ (any (λ s. is_active s.status) cs ≡ true))
      go [] = (λ h. inl refl, λ h. refl)
      go (c ∷ cs) = ground arith

  -- It fails exactly when every child has ended and one of them has failed.
  pub aggregate_children-failed_iff : (aggregate_children serde steps parent ≡ some Agg.failed) ↔ (
      (any (λ s. is_active s.status) (children steps parent) ≡ false)
      × (any (λ s. has_failed s.status) (children steps parent) ≡ true))
  unfolding aggregate_children
  aggregate_children-failed_iff = go (children steps parent)
    where
      go :
          (cs : List FlowStep)
          → (aggregate serde cs ≡ some Agg.failed) ↔ (
              (any (λ s. is_active s.status) cs ≡ false)
              × (any (λ s. has_failed s.status) cs ≡ true))
      go [] = ground arith
      go (c ∷ cs) = ground arith

  -- It succeeds with the JSON array of the children's slots, each child once, in the order of the
  -- numbers behind their `#`; no child is then active or failed.
  pub aggregate_children-succeeded :
      (out : String)
      → aggregate_children serde steps parent ≡ some (Agg.succeeded out)
      → (cs : List FlowStep) × Perm cs (children steps parent)
        × IsOrdered cs
        × (out ≡ serde.to_string (Value.array (of_list (map slot cs))))
        × (any (λ s. is_active s.status || has_failed s.status) (children steps parent) ≡ false)
  unfolding aggregate_children
  aggregate_children-succeeded out = go (children steps parent)
    where
      quiet :
          (cs : List FlowStep)
          → any (λ s. is_active s.status) cs ≡ false
          → any (λ s. has_failed s.status) cs ≡ false
          → any (λ s. is_active s.status || has_failed s.status) cs ≡ false
      quiet [] a f = refl
      quiet (c ∷ cs) a f = ground (arith, quiet cs)

      go :
          (cs : List FlowStep)
          → aggregate serde cs ≡ some (Agg.succeeded out)
          → (ds : List FlowStep) × Perm ds cs
            × IsOrdered ds
            × (out ≡ serde.to_string (Value.array (of_list (map slot ds))))
            × (any (λ s. is_active s.status || has_failed s.status) cs ≡ false)
      go [] h = absurd (ground arith)
      go (c ∷ cs) h = (
        sort_by_index (c ∷ cs),
        sort_by_index-Perm (c ∷ cs),
        sort_by_index-IsOrdered (c ∷ cs),
        ground arith,
        quiet (c ∷ cs) (ground arith) (ground arith),
      )
