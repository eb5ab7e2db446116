-- ===== src/Tests/Flows.antt =====
-- Specs, ledgers and fan-outs.
use mathlib.Core.List.{Perm}
use dokan.Prelude.{
  Bool, String, ℕ, ◌≡◌, ◌↔◌, ◌||◌, refl, some, none, true, false, List, [], ◌∷◌, map, any, filter,
  arith, Option, contains_char,
}
use dokan.Json.{
  Value, Number, Items, Fields, get, lookup, as_array, as_str, as_i64, to_list, of_list,
}
use dokan.Db.{StepStatus, FlowStep, Db}
use dokan.Db.Flows.{
  insert_flow_run_idempotent, create_flow_run, step_of_spec, and_then, steps_of_spec, insert_steps,
  insert_step, depends_on, texts,
}
use dokan.Db.Flows.Drive.{Child}
use dokan.Db.Flows.Once.{IsLedger, insert_flow_run_idempotent_once}
use dokan.Flow.{Serde, Agg, slot, is_active, has_failed, aggregate_children}
use dokan.Flow.Aggregate.{children, IsOrdered, aggregate_children-succeeded}
use dokan.Flow.Cycles.{Edges, has_cycle, Reaches, search, dfs, visit, mark, deps_of}
use dokan.Flow.Cycles.Decides.{has_cycle-false_iff}
use dokan.Flow.Spec.{validate_spec, Verdict, collect, check_step, id_of}
use dokan.Flow.Spec.Accepted.{IsDag, validate_spec-IsDag}
use dokan.Tests.{two_pending, empty_object}

-- A printer and a parser that know one text.
abbrev pub tiny : Serde
tiny = record { to_string = λ v. "json"; from_str = λ s. none }

abbrev diamond : Edges
diamond = ("a", []) ∷ ("b", "a" ∷ []) ∷ ("c", "a" ∷ []) ∷ ("d", "b" ∷ "c" ∷ []) ∷ []

has_cycle-false_iff_example :
    ((b : Bool) × (has_cycle diamond ≡ some b))
    × ((has_cycle diamond ≡ some false) ↔ ((n : String) → ¬ Reaches diamond n n))
has_cycle-false_iff_example = has_cycle-false_iff diamond

abbrev step_value : String → Items → Value
step_value id deps = Value.object (
    Fields.field "id" (Value.string id) (
      Fields.field "script_id" (Value.number (Number.pos_int 1))
        (Fields.field "depends_on" (Value.array deps) Fields.end)))

-- Two steps, the second of which waits for the first.
abbrev spec : Value
spec = Value.object (
    Fields.field "steps"
      (Value.array (
        Items.cons (step_value "a" Items.nil)
          (Items.cons (step_value "b" (Items.cons (Value.string "a") Items.nil)) Items.nil)))
      Fields.end)

accepted : validate_spec spec ≡ some Verdict.valid
unfolding validate_spec collect check_step id_of get lookup as_array as_str as_i64 to_list
    depends_on texts has_cycle search dfs visit mark deps_of contains_char
accepted = refl

validate_spec-IsDag_example :
    (st : Value) × (sts : List Value) × (and_then (get "steps" spec) as_array ≡ some (st ∷ sts))
    × IsDag (st ∷ sts)
validate_spec-IsDag_example = validate_spec-IsDag spec accepted

abbrev with_flow : Db
with_flow = record two_pending {
  flows = record { id = 1; name = "etl"; spec = spec } ∷ [];
  next_flow = 2;
}

no_steps : IsLedger with_flow.flow_steps
no_steps fr id = omega arith

first_flow : (insert_flow_run_idempotent 5 1 spec empty_object "hook" with_flow).0 ≡ some (1, true)
unfolding insert_flow_run_idempotent create_flow_run insert_steps insert_step steps_of_spec
    step_of_spec get lookup as_array as_str as_i64 to_list
first_flow = refl

insert_flow_run_idempotent_once_example :
    let u = (insert_flow_run_idempotent 5 1 spec empty_object "hook" with_flow).1 in
    ((insert_flow_run_idempotent 6 2 Value.null Value.null "hook" u).0 ≡ some (1, false))
    × ((insert_flow_run_idempotent 6 2 Value.null Value.null "hook" u).1.flow_runs ≡ u.flow_runs)
    × ((insert_flow_run_idempotent 6 2 Value.null Value.null "hook" u).1.flow_steps ≡ u.flow_steps)
insert_flow_run_idempotent_once_example =
    insert_flow_run_idempotent_once 5 6 1 2 spec Value.null empty_object Value.null "hook" with_flow
      1 true first_flow

abbrev pub ledger_step : String → StepStatus → Option String → FlowStep
ledger_step id status output = record (step_of 1 id) { status = status; output = output }
  where
    step_of : ℕ → String → FlowStep
    step_of fr id = record {
      flow_run_id = fr;
      step_id = id;
      script_id = 1;
      input = empty_object;
      depends_on = [];
      status = StepStatus.pending;
      run_id = none;
      output = none;
      when_cond = none;
      map_ref = none;
      compensate = none;
      compensated = false;
      retries = none;
      finished_at = none;
      cache = false;
    }

abbrev one_child : List Child
one_child = record { step_id = "m#0"; script_id = 1; input = empty_object; depends_on = [] } ∷ []

abbrev with_map : Db
with_map = record with_flow { flow_steps = ledger_step "m" StepStatus.pending none ∷ [] }

-- A fan-out of two, the second child of which stands first.
abbrev over_two : List FlowStep
over_two =
    ledger_step "m#1" StepStatus.succeeded (some "y")
    ∷ ledger_step "m#0" StepStatus.succeeded (some "x")
    ∷ []

both_done : aggregate_children tiny over_two "m" ≡ some (Agg.succeeded "json")
unfolding aggregate_children filter
both_done = refl

aggregate_children-succeeded_example :
    (cs : List FlowStep) × Perm cs (children over_two "m")
    × IsOrdered cs
    × ("json" ≡ tiny.to_string (Value.array (of_list (map slot cs))))
    × (any (λ s. is_active s.status || has_failed s.status) (children over_two "m") ≡ false)
aggregate_children-succeeded_example =
    aggregate_children-succeeded tiny over_two "m" "json" both_done
