-- ===== src/Flow/Engine.antt =====
-- src/flow.rs: one step of a flow run, from its script to its checkpoint, and what a failed flow
-- undoes. Steps that the source runs in parallel run one after the other here.
pub mod Settles
pub mod Claimable
use Prim.Native.String.{◌++◌ as ◌++ˢ◌}
use dokan.Prelude.{
  ℕ, zero, suc, ◌+◌, ◌%◌, ◌^◌, String, Bool, true, false, not, ◌&&◌, Option, none, some, List, [],
  ◌∷◌, filter, ltb, leb, if◌then◌else◌,
}
use dokan.Prelude.Int.{ℤ, pos, negsuc}
use dokan.Json.{Value, Fields, is_some, as_str}
use dokan.Db.{Status, is_succeeded, Script, StepStatus, FlowStep, Db}
use dokan.Db.Scripts.{get_script}
use dokan.Db.Runs.{insert_run, run_status, set_run_cache_key}
use dokan.Db.Queue.{find_cached_run, last_result_for_script}
use dokan.Db.Retention.{last_stdout}
use dokan.Db.Flows.Drive.{set_step_running, finish_step, mark_step_compensated}
use dokan.Worker.{with_prev_result}
use dokan.Exec.{runtime_spec}
use dokan.Flow.{Serde, has_succeeded}

-- What the engine is given: JSON text, the execution of a run in a container (which finishes the
-- run), the cache key of a run, and the text of a database error.
pub record Engine : Type 0 where
  pub serde : Serde
  pub execute : ℕ → Script → Value → Db → Db
  pub run_cache_key : Script → Value → Db → String
  pub sql_error : String

abbrev pub to_u32 : ℤ → ℕ
to_u32 (pos n) = n % 2 ^ 32
to_u32 (negsuc n) = 0

abbrev pub retries_or_one : Option ℤ → ℤ
retries_or_one none = pos 1
retries_or_one (some r) = r

-- `step.retries.unwrap_or(1).max(0) as u32 + 1`: a release build wraps.
unfoldable pub max_attempts : Option ℤ → ℕ
max_attempts retries = (to_u32 (retries_or_one retries) + 1) % 2 ^ 32

abbrev pub text_or_null : Option String → Value
text_or_null none = Value.null
text_or_null (some s) = Value.string s

abbrev pub step_input : Value → Value → FlowStep → Value
step_input flow_input deps step = Value.object (
    Fields.field "flow_input" flow_input
      (Fields.field "deps" deps (Fields.field "step" step.input Fields.end)))

abbrev pub run_input : Script → ℕ → Value → Db → Value
run_input script run_id input db =
    if script.feed_prev_result
    then with_prev_result (last_result_for_script script.id run_id db) input
    else input

abbrev pub has_ended_well : Option Status → Bool
has_ended_well (some Status.succeeded) = true
has_ended_well _ = false

-- `if let Some(key) = &cache_key`
abbrev pub tag : Option String → ℕ → Db → Db
tag none run_id db = db
tag (some key) run_id db = set_run_cache_key run_id key db

abbrev pub cached : Option String → Db → Option ℕ
cached none db = none
cached (some key) db = elim (find_cached_run key db) [ none ↦ none | some r ↦ some r.id ]

abbrev pub key_if : Bool → String → Option String
key_if false key = none
key_if true key = some key

module _ (engine : Engine) (now flow_run_id : ℕ) where
  abbrev pub finish : FlowStep → StepStatus → Option String → Db → Db
  finish step status output = finish_step now flow_run_id step.step_id status output

  -- The run of an attempt, as the container is about to start.
  abbrev pub launched : FlowStep → Option String → ℕ → Db → Db
  launched step key run_id db = set_step_running flow_run_id step.step_id run_id (tag key run_id db)

  abbrev pub settle : FlowStep → Script → Value → Option String → (Db → Db) → Option ℕ × Db → Db
  settle step script input key retry (none, db) =
      finish step StepStatus.failed (some engine.sql_error) db
  settle step script input key retry (some run_id, db) =
      let db1 = launched step key run_id db in
      let db2 = engine.execute run_id script (run_input script run_id input db1) db1 in
      if has_ended_well (run_status run_id db2)
      then finish step StepStatus.succeeded (last_stdout run_id db2) db2
      else retry db2

  unfoldable pub attempt : ℕ → FlowStep → Script → Value → Option String → Db → Db
  attempt zero step script input key db =
      finish step StepStatus.failed (some "exhausted retries") db
  attempt (suc n) step script input key db =
      settle step script input key (attempt n step script input key)
        (insert_run now step.script_id input none db)

  -- The cache is asked first, where the step opts in.
  abbrev pub recall_or_run : FlowStep → Script → Value → Option String → Option ℕ → Db → Db
  unfolding attempt
  recall_or_run step script input key (some run_id) db =
      finish step StepStatus.succeeded (last_stdout run_id db) db
  recall_or_run step script input key none db =
      attempt (max_attempts step.retries) step script input key db

  abbrev pub run_script : FlowStep → Value → Script → Db → Db
  unfolding runtime_spec
  run_script step input script db =
      if is_some (runtime_spec script.settings.runtime)
      then (let key = key_if step.cache (engine.run_cache_key script input db) in
          recall_or_run step script input key (cached key db) db)
      else finish step StepStatus.failed (some "unknown_runtime") db

  unfoldable pub run_step : FlowStep → Value → Value → Db → Db
  run_step step flow_input deps db = elim (get_script step.script_id db) [
    | none ↦ finish step StepStatus.failed (some "script_not_found") db
    | some script ↦ run_script step (step_input flow_input deps step) script db
  ]
