-- ===== src/Db/Flows/Drive.antt =====
-- src/db.rs: the queries by which the engine claims a flow run and moves its steps.
use dokan.Prelude.{
  ℕ, String, Bool, true, false, ◌&&◌, ◌||◌, Option, none, some, List, [], ◌∷◌, ◌++◌, any, count,
  find?, filter, update_where, ltb, ◌==◌, if◌then◌else◌,
}
use dokan.Json.{Value, Fields}
use dokan.Db.{FlowStatus, FlowRun, StepStatus, FlowStep, Db}
use dokan.Db.Queue.{older}
use dokan.Db.Flows.{is_step, or_else}

abbrev pub is_waiting : FlowStatus → Bool
is_waiting FlowStatus.pending = true
is_waiting _ = false

abbrev pub is_driven : FlowStatus → Bool
is_driven FlowStatus.running = true
is_driven _ = false

abbrev pub or_lower : FlowRun → Option FlowRun → FlowRun
or_lower r none = r
or_lower r (some s) = if ltb s.id r.id then s else r

-- `WHERE status = 'pending' ORDER BY id FOR UPDATE SKIP LOCKED LIMIT 1`
unfoldable pub first_waiting : (ℕ → Bool) → List FlowRun → Option FlowRun
first_waiting locked [] = none
first_waiting locked (r ∷ rs) =
    let rest = first_waiting locked rs in
    if is_waiting r.status && (if locked r.id then false else true)
    then some (or_lower r rest)
    else rest

unfoldable pub claim_flow_run : ℕ → (ℕ → Bool) → Db → Option (ℕ × Value) × Db
unfolding first_waiting
claim_flow_run now locked db = elim (first_waiting locked db.flow_runs) [
  | none ↦ (none, db)
  | some r ↦ (
    some (r.id, or_else r.input (Value.object Fields.end)),
    record db {
      flow_runs =
          update_where (λ s. s.id == r.id)
            (λ s. record s { status = FlowStatus.running; started_at = some now }) db.flow_runs;
    },
  )
]

-- The rows stand in the order of their ids.
unfoldable pub flow_steps : ℕ → Db → List FlowStep
flow_steps flow_run_id db = filter (λ st. st.flow_run_id == flow_run_id) db.flow_steps

abbrev pub update_step : ℕ → String → (FlowStep → FlowStep) → Db → Db
update_step flow_run_id step_id f db = record db {
  flow_steps = update_where (is_step flow_run_id step_id) f db.flow_steps;
}

unfoldable pub set_step_running : ℕ → String → ℕ → Db → Db
set_step_running flow_run_id step_id run_id =
    update_step flow_run_id step_id
      (λ st. record st { status = StepStatus.running; run_id = some run_id })

unfoldable pub finish_step : ℕ → ℕ → String → StepStatus → Option String → Db → Db
finish_step now flow_run_id step_id status output =
    update_step flow_run_id step_id
      (λ st. record st { status = status; output = output; finished_at = some now })

unfoldable pub mark_step_skipped : ℕ → ℕ → String → Db → Db
mark_step_skipped now flow_run_id step_id =
    update_step flow_run_id step_id
      (λ st. record st { status = StepStatus.skipped; finished_at = some now })

unfoldable pub mark_step_compensated : ℕ → String → Db → Db
mark_step_compensated flow_run_id step_id =
    update_step flow_run_id step_id (λ st. record st { compensated = true })

-- One child of a `map` step: id, script, input and dependencies.
pub record Child : Type 0 where
  pub step_id : String
  pub script_id : ℕ
  pub input : Value
  pub depends_on : List String

abbrev pub child_step : ℕ → Bool → Child → FlowStep
child_step flow_run_id cache c = record {
  flow_run_id = flow_run_id;
  step_id = c.step_id;
  script_id = c.script_id;
  input = c.input;
  depends_on = c.depends_on;
  status = StepStatus.pending;
  run_id = none;
  output = none;
  when_cond = none;
  map_ref = none;
  compensate = none;
  compensated = false;
  retries = none;
  finished_at = none;
  cache = cache;
}

-- `ON CONFLICT (flow_run_id, step_id) DO NOTHING`. The parent's script is there, so that the foreign
-- key holds.
unfoldable pub add_children : ℕ → Bool → List Child → List FlowStep → List FlowStep
add_children flow_run_id cache [] steps = steps
add_children flow_run_id cache (c ∷ cs) steps = add_children flow_run_id cache cs (
    if any (is_step flow_run_id c.step_id) steps
    then steps
    else steps ++ child_step flow_run_id cache c ∷ [])

unfoldable pub expand_map_step : ℕ → String → List Child → Bool → Db → Db
unfolding add_children
expand_map_step flow_run_id parent children cache db =
    update_step flow_run_id parent (λ st. record st { status = StepStatus.expanded })
      (record db { flow_steps = add_children flow_run_id cache children db.flow_steps })

abbrev pub update_flow_run : ℕ → (FlowRun → FlowRun) → Db → Db
update_flow_run id f db = record db { flow_runs = update_where (λ r. r.id == id) f db.flow_runs }

unfoldable pub finish_flow_run : ℕ → ℕ → FlowStatus → Db → Db
finish_flow_run now flow_run_id status =
    update_flow_run flow_run_id (λ r. record r { status = status; finished_at = some now })

abbrev pub status_of : Option FlowRun → Option FlowStatus
status_of none = none
status_of (some r) = some r.status

unfoldable pub flow_run_status : ℕ → Db → Option FlowStatus
flow_run_status id db = status_of (find? (λ r. r.id == id) db.flow_runs)

unfoldable pub touch_flow_run : ℕ → ℕ → Db → Db
touch_flow_run now id = update_flow_run id (λ r. record r { started_at = some now })

-- `started_at IS NULL OR started_at < now() - lease`
abbrev pub is_abandoned : ℕ → ℕ → FlowRun → Bool
is_abandoned now lease r =
    is_driven r.status && (absent r.started_at || older r.started_at lease now)
  where
    absent : Option ℕ → Bool
    absent none = true
    absent (some t) = false

-- The flow runs alone: what their steps hold stays.
unfoldable pub reap_orphan_flow_runs : ℕ → ℕ → Db → ℕ × Db
reap_orphan_flow_runs now lease db = (
  count (is_abandoned now lease) db.flow_runs,
  record db {
    flow_runs =
        update_where (is_abandoned now lease) (λ r. record r { status = FlowStatus.pending })
          db.flow_runs;
  },
)
