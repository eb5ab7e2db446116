-- ===== src/Flow/Drive/Rollback.antt =====
-- What a failed flow run undoes, and in which order.
use mathlib.Core.List.{Perm}
use mathlib.Core.List.Perm
use dokan.Prelude.{true, false, ◌≡◌, some, List, [], ◌∷◌}
use dokan.Prelude.Int.{ℤ}
use dokan.Db.{StepStatus, FlowStep}
use dokan.Flow.Moves.{no_earlier}

-- Each step finished no earlier than the next; a step with no time comes last.
abbrev pub IsLatestFirst : List FlowStep → Type 0
IsLatestFirst [] = Unit
IsLatestFirst (c ∷ []) = Unit
IsLatestFirst (c ∷ d ∷ ds) =
    (no_earlier c.finished_at d.finished_at ≡ true) × IsLatestFirst (d ∷ ds)

-- A succeeded step that declares a compensation and has not been compensated.
abbrev pub Owes : FlowStep → Type 0
Owes st =
    (st.status ≡ StepStatus.succeeded)
    × (st.compensated ≡ false)
    × ((script : ℤ) × (st.compensate ≡ some script))
