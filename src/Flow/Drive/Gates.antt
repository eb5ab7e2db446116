-- ===== src/Flow/Drive/Gates.antt =====
-- No step starts before the steps that it depends on.
use dokan.Prelude.{
  String, Bool, true, false, ◌&&◌, ◌||◌, ◌≡◌, List, [], ◌∷◌, any, all, All, arith, str_eq,
}
use dokan.Json.{Value, is_some}
use dokan.Db.{FlowStep}
use dokan.Flow.{Serde, build_deps, has_succeeded, output_of}
use dokan.Flow.Moves.{Move, decide_move, gate_open, outputs_of, skipped_of}

abbrev pub starts : Move → Bool
starts Move.wait = false
starts Move.skip = false
starts (Move.fan_out deps mref) = true
starts (Move.run deps) = true

abbrev pub succeeded_as : String → FlowStep → Bool
succeeded_as d st = str_eq st.step_id d && has_succeeded st.status

output-succeeded :
    (d : String) (steps : List FlowStep)
    → is_some (output_of d (outputs_of steps)) ≡ true
    → any (succeeded_as d) steps ≡ true
unfolding outputs_of
output-succeeded d [] h = absurd (ground arith)
output-succeeded d (st ∷ steps) h = ground (arith, output-succeeded d steps)

all-succeeded :
    (steps : List FlowStep) (skipped : List String) (ds : List String)
    → all (λ d. is_some (output_of d (outputs_of steps)) || any (str_eq d) skipped) ds ≡ true
    → any (λ d. any (str_eq d) skipped) ds ≡ false
    → All (λ d. any (succeeded_as d) steps ≡ true) ds
all-succeeded steps skipped [] ready live = tt
all-succeeded steps skipped (d ∷ ds) ready live = (
  output-succeeded d steps (ground arith),
  all-succeeded steps skipped ds (ground arith) (ground arith),
)

-- A pass runs or expands a step only when each of its dependencies has a succeeded row in the
-- ledger, and its gate is open.
pub decide_move-starts :
    (serde : Serde) (input : Value) (steps : List FlowStep) (step : FlowStep)
    → starts (decide_move serde input (outputs_of steps) (skipped_of steps) step) ≡ true
    → All (λ d. any (succeeded_as d) steps ≡ true) step.depends_on
      × (gate_open serde step.when_cond input (build_deps step.depends_on (outputs_of steps))
          ≡ true)
unfolding decide_move
decide_move-starts serde input steps step h = (
  all-succeeded steps (skipped_of steps) step.depends_on (ground arith) (ground arith),
  ground arith,
)
