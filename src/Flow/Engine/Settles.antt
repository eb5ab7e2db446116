-- ===== src/Flow/Engine/Settles.antt =====
-- A step that was run has a checkpoint, and how often it may be tried.
use dokan.Prelude.{
  ℕ, zero, suc, ◌+◌, ◌<◌, String, Bool, true, false, not, ◌&&◌, ◌≡◌, refl, inl, inr, Option, none,
  some, List, [], ◌∷◌, any, update_where, arith, Bool-cases, Option-cases,
}
use dokan.Prelude.Int.{pos}
use dokan.Json.{Value, is_some}
use dokan.Db.{Script, StepStatus, FlowStep, Db}
use dokan.Db.Scripts.{get_script}
use dokan.Db.Runs.{insert_run, run_status}
use dokan.Db.Flows.{is_step}
use dokan.Db.Flows.Drive.{finish_step}
use dokan.Exec.{runtime_spec}
use dokan.Flow.Engine.{
  Engine, max_attempts, run_input, has_ended_well, launched, settle, attempt, recall_or_run,
  run_script, run_step,
}

abbrev pub is_settled : StepStatus → Bool
is_settled StepStatus.succeeded = true
is_settled StepStatus.failed = true
is_settled _ = false

-- No row of the step is short of a verdict.
abbrev pub IsSettled : ℕ → String → List FlowStep → Type 0
IsSettled fr id steps = any (λ st. is_step fr id st && not (is_settled st.status)) steps ≡ false

finish-IsSettled :
    (now fr : ℕ) (id : String) (status : StepStatus) (output : Option String) (db : Db)
    → is_settled status ≡ true
    → IsSettled fr id (finish_step now fr id status output db).flow_steps
unfolding finish_step update_where
finish-IsSettled now fr id status output db h = go db.flow_steps
  where
    go :
        (steps : List FlowStep)
        → IsSettled fr id (
            update_where
              (is_step fr id)
              (λ st. record st { status = status; output = output; finished_at = some now })
              steps)
    go [] = refl
    go (st ∷ steps) = elim (Bool-cases (is_step fr id st)) [
      | inl e ↦ rw (e, h, e) (go steps)
      | inr e ↦ rw (e, e) (go steps)
    ]

module _ (engine : Engine) (now fr : ℕ) (step : FlowStep) where
  settle-IsSettled :
      (script : Script) (input : Value) (key : Option String) (retry : Db → Db)
      → ((db : Db) → IsSettled fr step.step_id (retry db).flow_steps)
      → (inserted : Option ℕ × Db)
      → IsSettled fr step.step_id
          (settle engine now fr step script input key retry inserted).flow_steps
  settle-IsSettled script input key retry again (none, db) =
      finish-IsSettled now fr step.step_id StepStatus.failed _ db refl
  settle-IsSettled script input key retry again (some run_id, db) =
      elim (Bool-cases (
        has_ended_well (
          run_status run_id (
            engine.execute run_id script
              (run_input script run_id input (launched engine now fr step key run_id db))
              (launched engine now fr step key run_id db))))) [
                | inl e ↦ rw e (finish-IsSettled now fr step.step_id StepStatus.succeeded _ _ refl)
                | inr e ↦ rw e (again _)
              ]

  attempt-IsSettled :
      (n : ℕ) (script : Script) (input : Value) (key : Option String) (db : Db)
      → IsSettled fr step.step_id (attempt engine now fr n step script input key db).flow_steps
  unfolding attempt
  attempt-IsSettled zero script input key db =
      finish-IsSettled now fr step.step_id StepStatus.failed _ db refl
  attempt-IsSettled (suc n) script input key db =
      settle-IsSettled script input key (attempt engine now fr n step script input key)
        (attempt-IsSettled n script input key) (insert_run now step.script_id input none db)

  recall_or_run-IsSettled :
      (script : Script) (input : Value) (key : Option String) (recalled : Option ℕ) (db : Db)
      → IsSettled fr step.step_id
          (recall_or_run engine now fr step script input key recalled db).flow_steps
  unfolding recall_or_run attempt
  recall_or_run-IsSettled script input key (some run_id) db =
      finish-IsSettled now fr step.step_id StepStatus.succeeded _ db refl
  recall_or_run-IsSettled script input key none db =
      attempt-IsSettled (max_attempts step.retries) script input key db

  run_script-IsSettled :
      (script : Script) (input : Value) (db : Db)
      → IsSettled fr step.step_id (run_script engine now fr step input script db).flow_steps
  unfolding run_script
  run_script-IsSettled script input db =
      elim (Bool-cases (is_some (runtime_spec script.settings.runtime))) [
        | inl known ↦ rw known (recall_or_run-IsSettled script input _ _ db)
        | inr unknown ↦
            rw unknown (finish-IsSettled now fr step.step_id StepStatus.failed _ db refl)
      ]

-- Running a step leaves it with a verdict, on every path: a missing script, a runtime that is not
-- known, a recalled result, an insert that fails, a success, and attempts that are used up; whatever
-- the container does to the database. No row of the step is left pending or running.
pub run_step-IsSettled :
    (engine : Engine) (now fr : ℕ) (step : FlowStep) (flow_input deps : Value) (db : Db)
    → IsSettled fr step.step_id (run_step engine now fr step flow_input deps db).flow_steps
unfolding run_step
run_step-IsSettled engine now fr step flow_input deps db =
    elim (Option-cases (get_script step.script_id db)) [
      | inl e ↦ rw (e, run_step) (finish-IsSettled now fr step.step_id StepStatus.failed _ db refl)
      | inr (script, e) ↦ rw (e, run_step) (run_script-IsSettled engine now fr step script _ db)
    ]

-- Fewer than 2^32 - 1 retries give one attempt more than that, and so do 2^32 retries more; but
-- exactly 2^32 - 1 retries wrap around to no attempt at all.
pub max_attempts_lem :
    (r : ℕ)
    → r < 4294967295
    → (max_attempts (some (pos r)) ≡ suc r)
      × (max_attempts (some (pos (r + 4294967296))) ≡ suc r)
      × (max_attempts (some (pos 4294967295)) ≡ 0)
unfolding max_attempts
max_attempts_lem r h = ground arith
