-- ===== src/Flow/Moves.antt =====
-- src/flow.rs: what a pass of the engine makes of the steps that it reads, before any query.
use Prim.Native.String.{◌++◌ as ◌++ˢ◌}
use dokan.Prelude.{
  ℕ, suc, String, Bool, true, false, not, ◌&&◌, ◌||◌, Option, none, some, List, [], ◌∷◌, any, all,
  filter, leb, str_eq, decimal, if◌then◌else◌,
}
use dokan.Prelude.Int.{ℤ, pos, negsuc}
use dokan.Json.{Value, is_some}
use dokan.Db.{Script, StepStatus, FlowStep, Db}
use dokan.Db.Scripts.{get_script}
use dokan.Db.Flows.{or_else}
use dokan.Db.Flows.Drive.{Child}
use dokan.Flow.{Serde, has_succeeded, eval_when, output_of, build_deps}

abbrev pub is_skipped : StepStatus → Bool
is_skipped StepStatus.skipped = true
is_skipped _ = false

abbrev pub is_expanded : StepStatus → Bool
is_expanded StepStatus.expanded = true
is_expanded _ = false

abbrev pub is_to_do : StepStatus → Bool
is_to_do StepStatus.pending = true
is_to_do _ = false

-- The outputs of the succeeded steps: a step without one counts as the empty text.
unfoldable pub outputs_of : List FlowStep → List (String × String)
outputs_of [] = []
outputs_of (st ∷ sts) =
    let rest = outputs_of sts in
    if has_succeeded st.status then (st.step_id, or_else st.output "") ∷ rest else rest

unfoldable pub skipped_of : List FlowStep → List String
skipped_of [] = []
skipped_of (st ∷ sts) =
    let rest = skipped_of sts in if is_skipped st.status then st.step_id ∷ rest else rest

-- What a pass makes of one pending step.
pub data Move : Type 0 where
  wait skip : Move
  fan_out : Value → String → Move
  run : Value → Move

abbrev pub gate_open : Serde → Option Value → Value → Value → Bool
gate_open serde none input deps = true
gate_open serde (some cond) input deps = eval_when serde cond input deps

abbrev pub act : Option String → Value → Move
act none deps = Move.run deps
act (some mref) deps = Move.fan_out deps mref

abbrev pub is_ready : List (String × String) → List String → FlowStep → Bool
is_ready outputs skipped step =
    all (λ d. is_some (output_of d outputs) || any (str_eq d) skipped) step.depends_on

unfoldable pub decide_move : Serde → Value → List (String × String) → List String → FlowStep → Move
decide_move serde input outputs skipped step =
    let deps = build_deps step.depends_on outputs in
    if not (is_ready outputs skipped step)
    then Move.wait
    else if any (λ d. any (str_eq d) skipped) step.depends_on
    then Move.skip
    else if gate_open serde step.when_cond input deps
    then act step.map_ref deps
    else Move.skip

-- The children of a fan-out, numbered from `i`.
unfoldable pub children_from : ℕ → FlowStep → List Value → List Child
children_from i step [] = []
children_from i step (v ∷ vs) =
    record {
      step_id = step.step_id ++ˢ ("#" ++ˢ decimal i);
      script_id = step.script_id;
      input = v;
      depends_on = step.depends_on;
    }
    ∷ children_from (suc i) step vs

-- The latest finished first; a step with no time comes last.
abbrev pub no_earlier : Option ℕ → Option ℕ → Bool
no_earlier (some a) (some b) = leb b a
no_earlier (some a) none = true
no_earlier none none = true
no_earlier none (some b) = false

abbrev pub insert_latest : FlowStep → List FlowStep → List FlowStep
insert_latest c [] = c ∷ []
insert_latest c (d ∷ ds) =
    let rest = insert_latest c ds in
    if no_earlier c.finished_at d.finished_at then c ∷ d ∷ ds else d ∷ rest

unfoldable pub latest_first : List FlowStep → List FlowStep
latest_first [] = []
latest_first (c ∷ cs) = insert_latest c (latest_first cs)

abbrev pub owes : FlowStep → Bool
owes st = has_succeeded st.status && not st.compensated && is_some st.compensate

unfoldable pub to_compensate : List FlowStep → List FlowStep
unfolding latest_first
to_compensate steps = latest_first (filter owes steps)

abbrev pub script_of : Option ℤ → Db → Option Script
script_of none db = none
script_of (some (pos id)) db = get_script id db
script_of (some (negsuc n)) db = none
