-- ===== src/Flow/Drive.antt =====
-- src/flow.rs, `drive_inner`, `expand` and `compensate`: the passes of the engine over the steps of a
-- flow run. The queries succeed here; a query that fails ends the driver, which fails the flow run.
pub mod Gates
pub mod Rollback
pub mod Resume
use Prim.Native.String.{◌++◌ as ◌++ˢ◌}
use dokan.Prelude.{
  ℕ, zero, suc, ◌+◌, String, Bool, true, false, not, ◌&&◌, ◌||◌, Option, none, some, List, [], ◌∷◌,
  ◌++◌, any, all, filter, map, length, ltb, leb, ◌==◌, str_eq, decimal, if◌then◌else◌,
}
use dokan.Prelude.Int.{ℤ, pos, negsuc}
use dokan.Json.{Value, Items, Fields, is_some, to_list}
use dokan.Db.{Status, Script, FlowStatus, StepStatus, FlowStep, Db}
use dokan.Db.Scripts.{get_script}
use dokan.Db.Runs.{insert_run, run_status}
use dokan.Db.Flows.{or_else}
use dokan.Db.Flows.Drive.{
  flow_steps, finish_step, mark_step_skipped, mark_step_compensated, Child, expand_map_step,
  finish_flow_run, touch_flow_run,
}
use dokan.Exec.{runtime_spec}
use dokan.Flow.{
  Serde, Agg, is_active, has_failed, has_succeeded, fanout_within_cap, aggregate_children,
  resolve_ref, eval_when, output_of, build_deps,
}
use dokan.Flow.Engine.{Engine, text_or_null, run_input, has_ended_well, run_step}
use dokan.Flow.Moves.{
  Move, act, children_from, decide_move, gate_open, insert_latest, is_expanded, is_ready,
  is_skipped, is_to_do, latest_first, no_earlier, outputs_of, owes, script_of, skipped_of,
  to_compensate,
}

-- How a pass ends: the flow run is over, the next pass follows at once, or after a pause.
pub data Outcome : Type 0 where
  over : FlowStatus → Outcome
  again idle : Outcome

-- The pending steps in turn: what is skipped or expanded at once, and what is left to run.
pub record Resolved : Type 0 where
  pub progressed : Bool
  pub to_run : List (FlowStep × Value)
  pub state : Db

abbrev pub after_pass : Outcome × Db → (Db → Option FlowStatus × Db) → Option FlowStatus × Db
after_pass (Outcome.over status, db) k = (some status, db)
after_pass (Outcome.again, db) k = k db
after_pass (Outcome.idle, db) k = k db

module _ (engine : Engine) (now flow_run_id : ℕ) (input : Value) where
  abbrev pub comp_input : FlowStep → Value
  comp_input step = Value.object (
      Fields.field "flow_input" input (
        Fields.field "step" step.input
          (Fields.field "output" (text_or_null step.output) Fields.end)))

  -- Whether the compensation failed, and the database after it.
  abbrev pub undo : FlowStep → Script → Option ℕ × Db → Bool × Db
  undo step script (none, db) = (false, db)
  undo step script (some run_id, db) =
      let db' = engine.execute run_id script (run_input script run_id (comp_input step) db) db in
      (
        not (has_ended_well (run_status run_id db')),
        mark_step_compensated flow_run_id step.step_id db',
      )

  unfoldable pub compensate_step : FlowStep → Db → Bool × Db
  unfolding runtime_spec
  compensate_step step db = elim (script_of step.compensate db) [
    | none ↦ (false, db)
    | some script ↦
        if is_some (runtime_spec script.settings.runtime)
        then undo step script (insert_run now script.id (comp_input step) none db)
        else (false, db)
  ]

  -- How many compensations failed.
  unfoldable pub compensate : List FlowStep → Db → ℕ × Db
  unfolding compensate_step
  compensate [] db = (0, db)
  compensate (st ∷ sts) db =
      let (bad, db1) = compensate_step st db in
      let (n, db2) = compensate sts db1 in (if bad then suc n else n, db2)

  abbrev pub expand_items : FlowStep → Option Value → Db → Db
  unfolding fanout_within_cap children_from
  expand_items step (some (Value.array Items.nil)) db =
      finish_step now flow_run_id step.step_id StepStatus.succeeded (some "[]") db
  expand_items step (some (Value.array (Items.cons v vs))) db =
      if fanout_within_cap (length (to_list (Items.cons v vs)))
      then expand_map_step flow_run_id step.step_id
          (children_from 0 step (to_list (Items.cons v vs))) step.cache db
      else finish_step now flow_run_id step.step_id StepStatus.failed (some "map_fanout_too_large")
          db
  expand_items step _ db =
      finish_step now flow_run_id step.step_id StepStatus.failed (some "map_ref_not_array") db

  unfoldable pub expand : FlowStep → Value → String → Db → Db
  unfolding expand_items
  expand step deps mref db = expand_items step (resolve_ref engine.serde mref input deps) db

  -- The fan-outs that are over get their verdict; whether there was one.
  abbrev pub conclude : FlowStep → Option Agg → Bool × Db → Bool × Db
  conclude parent none (progressed, db) = (progressed, db)
  conclude parent (some Agg.failed) (progressed, db) = (
    true,
    finish_step now flow_run_id parent.step_id StepStatus.failed (some "map_child_failed") db,
  )
  conclude parent (some (Agg.succeeded out)) (progressed, db) =
      (true, finish_step now flow_run_id parent.step_id StepStatus.succeeded (some out) db)

  unfoldable pub aggregate_all : List FlowStep → List FlowStep → Bool × Db → Bool × Db
  aggregate_all steps [] state = state
  aggregate_all steps (parent ∷ parents) state =
      aggregate_all steps parents
        (conclude parent (aggregate_children engine.serde steps parent.step_id) state)

  abbrev pub apply : FlowStep → Move → Resolved → Resolved
  unfolding expand
  apply step Move.wait r = r
  apply step Move.skip r = record r {
    progressed = true;
    state = mark_step_skipped now flow_run_id step.step_id r.state;
  }
  apply step (Move.fan_out deps mref) r = record r {
    progressed = true;
    state = expand step deps mref r.state;
  }
  apply step (Move.run deps) r = record r { to_run = r.to_run ++ (step, deps) ∷ [] }

  unfoldable pub resolve_all :
      List (String × String) → List String → List FlowStep → Resolved → Resolved
  unfolding apply decide_move
  resolve_all outputs skipped [] r = r
  resolve_all outputs skipped (st ∷ sts) r =
      resolve_all outputs skipped sts
        (apply st (decide_move engine.serde input outputs skipped st) r)

  unfoldable pub run_all : List (FlowStep × Value) → Db → Db
  run_all [] db = db
  run_all ((st, deps) ∷ sts) db = run_all sts (run_step engine now flow_run_id st input deps db)

  abbrev pub continue : Resolved → Outcome × Db
  unfolding run_all
  continue r =
      if is_some_step r.to_run
      then (Outcome.again, run_all r.to_run r.state)
      else if r.progressed
      then (Outcome.again, r.state)
      else (Outcome.idle, r.state)
    where
      is_some_step : List (FlowStep × Value) → Bool
      is_some_step [] = false
      is_some_step (s ∷ ss) = true

  abbrev pub resolve : List FlowStep → Bool × Db → Outcome × Db
  unfolding resolve_all outputs_of skipped_of
  resolve steps (true, db) = (Outcome.again, db)
  resolve steps (false, db) = continue (
      resolve_all (outputs_of steps) (skipped_of steps) (filter (λ s. is_to_do s.status) steps)
        (record { progressed = false; to_run = []; state = db }))

  abbrev pub roll_back : ℕ × Db → Outcome × Db
  roll_back (n, db) =
      let status = if ltb 0 n then FlowStatus.compensation_failed else FlowStatus.failed in
      (Outcome.over status, finish_flow_run now flow_run_id status db)

  abbrev pub pass_over : List FlowStep → Db → Outcome × Db
  unfolding compensate to_compensate aggregate_all
  pass_over steps db =
      if any (λ s. has_failed s.status) steps
      then roll_back (compensate (to_compensate steps) db)
      else if any (λ s. is_active s.status) steps
      then resolve steps
          (aggregate_all steps (filter (λ s. is_expanded s.status) steps) (false, db))
      else (
        Outcome.over FlowStatus.succeeded,
        finish_flow_run now flow_run_id FlowStatus.succeeded db,
      )

  unfoldable pub pass : Db → Outcome × Db
  unfolding pass_over
  pass db =
      let db' = touch_flow_run now flow_run_id db in pass_over (flow_steps flow_run_id db') db'

module _ (engine : Engine) (flow_run_id : ℕ) (input : Value) (clock : ℕ → ℕ) where
  -- Passes up to a limit, pass `i` at `clock i`: the final status, or `none` while it goes on.
  unfoldable pub drive_inner : ℕ → ℕ → Db → Option FlowStatus × Db
  unfolding pass
  drive_inner zero i db = (none, db)
  drive_inner (suc passes) i db =
      after_pass (pass engine (clock i) flow_run_id input db) (drive_inner passes (suc i))
