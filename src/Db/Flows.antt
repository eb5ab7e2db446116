-- ===== src/Db/Flows.antt =====
-- src/db.rs: flows, their runs, and the ledger of a run's steps.
pub mod Drive
pub mod Ledger
pub mod Once
use dokan.Prelude.{
  ℕ, suc, ◌+◌, String, Bool, true, false, not, ◌&&◌, ◌||◌, Option, none, some, List, [], ◌∷◌, ◌++◌,
  any, all, find?, filter, update_where, ltb, ◌==◌, str_eq, if◌then◌else◌,
}
use dokan.Prelude.Int.{ℤ, pos, negsuc}
use dokan.Json.{Value, Fields, get, as_str, as_array, as_i64, as_bool}
use dokan.Db.{Flow, FlowStatus, FlowRun, StepStatus, FlowStep, Db}
use dokan.Db.Scripts.{script_exists}
use dokan.Db.Runs.{opt_eq}

unfoldable pub insert_flow : String → Value → Db → ℕ × Db
insert_flow name spec db = (
  db.next_flow,
  record db {
    flows = db.flows ++ record { id = db.next_flow; name = name; spec = spec } ∷ [];
    next_flow = suc db.next_flow;
  },
)

abbrev pub spec_of : Option Flow → Option Value
spec_of none = none
spec_of (some f) = some f.spec

unfoldable pub get_flow_spec : ℕ → Db → Option Value
get_flow_spec flow_id db = spec_of (find? (λ f. f.id == flow_id) db.flows)

abbrev pub or_else {ℓ} : {A : Type ℓ} → Option A → A → A
or_else none d = d
or_else (some a) d = a

abbrev pub and_then {ℓ κ} : {A : Type ℓ} {B : Type κ} → Option A → (A → Option B) → Option B
and_then none f = none
and_then (some a) f = f a

-- The texts among the elements of an array.
unfoldable pub texts : List Value → List String
texts [] = []
texts (Value.string s ∷ vs) = s ∷ texts vs
texts (_ ∷ vs) = texts vs

abbrev pub texts_of : Option (List Value) → List String
unfolding texts
texts_of none = []
texts_of (some vs) = texts vs

unfoldable pub depends_on : Value → List String
depends_on st = texts_of (and_then (get "depends_on" st) as_array)

-- No script has a negative id, and the foreign key then refuses the step.
abbrev pub has_id_of : ℤ → Db → Bool
has_id_of (pos id) db = script_exists id db
has_id_of (negsuc n) db = false

abbrev pub nat_of : ℤ → ℕ
nat_of (pos id) = id
nat_of (negsuc n) = 0

-- The row of one step of the spec, as far as the column defaults leave it.
unfoldable pub step_of_spec : ℕ → Value → FlowStep
unfolding depends_on
step_of_spec flow_run_id st = record {
  flow_run_id = flow_run_id;
  step_id = or_else (and_then (get "id" st) as_str) "";
  script_id = nat_of (or_else (and_then (get "script_id" st) as_i64) (pos 0));
  input = or_else (get "input" st) (Value.object Fields.end);
  depends_on = depends_on st;
  status = StepStatus.pending;
  run_id = none;
  output = none;
  when_cond = get "when" st;
  map_ref = and_then (get "map" st) as_str;
  compensate = and_then (get "compensate" st) as_i64;
  compensated = false;
  retries = and_then (get "retries" st) as_i64;
  finished_at = none;
  cache = or_else (and_then (get "cache" st) as_bool) false;
}

-- The key of `UNIQUE (flow_run_id, step_id)`.
abbrev pub is_step : ℕ → String → FlowStep → Bool
is_step flow_run_id step_id st = st.flow_run_id == flow_run_id && str_eq st.step_id step_id

abbrev pub has_script : Value → Db → Bool
has_script st db = has_id_of (or_else (and_then (get "script_id" st) as_i64) (pos 0)) db

-- One INSERT of a step: `none` where the script is missing or the step id is taken.
unfoldable pub insert_step : ℕ → Value → Db → Option Db
unfolding step_of_spec
insert_step flow_run_id st db =
    let row = step_of_spec flow_run_id st in
    if has_script st db && not (any (is_step flow_run_id row.step_id) db.flow_steps)
    then some (record db { flow_steps = db.flow_steps ++ row ∷ [] })
    else none

unfoldable pub insert_steps : ℕ → List Value → Db → Option Db
unfolding insert_step
insert_steps flow_run_id [] db = some db
insert_steps flow_run_id (st ∷ sts) db =
    and_then (insert_step flow_run_id st db) (insert_steps flow_run_id sts)

unfoldable pub steps_of_spec : Value → List Value
steps_of_spec spec = or_else (and_then (get "steps" spec) as_array) []

abbrev pub flow_run_of : ℕ → ℕ → ℕ → Value → Option String → FlowRun
flow_run_of id now flow_id input key = record {
  id = id;
  flow_id = flow_id;
  status = FlowStatus.pending;
  input = some input;
  created_at = now;
  started_at = none;
  finished_at = none;
  idempotency_key = key;
}

abbrev pub started : ℕ → ℕ → Value → Option String → Db → Db
started now flow_id input key db = record db {
  flow_runs = db.flow_runs ++ flow_run_of db.next_flow_run now flow_id input key ∷ [];
  next_flow_run = suc db.next_flow_run;
}

abbrev pub has_flow : ℕ → Flow → Bool
has_flow flow_id f = f.id == flow_id

-- The transaction of a new flow run: its row and the ledger of its steps, or neither.
unfoldable pub create_flow_run : ℕ → ℕ → Value → Value → Option String → Db → Option ℕ × Db
unfolding insert_steps steps_of_spec
create_flow_run now flow_id spec input key db =
    if any (has_flow flow_id) db.flows
    then elim (insert_steps db.next_flow_run (steps_of_spec spec)
        (started now flow_id input key db)) [
          | none ↦ (none, record db { next_flow_run = suc db.next_flow_run })
          | some db' ↦ (some db.next_flow_run, db')
        ]
    else (none, record db { next_flow_run = suc db.next_flow_run })

unfoldable pub insert_flow_run : ℕ → ℕ → Value → Value → Db → Option ℕ × Db
unfolding create_flow_run
insert_flow_run now flow_id spec input db = create_flow_run now flow_id spec input none db

abbrev pub has_flow_key : String → FlowRun → Bool
has_flow_key key r = opt_eq r.idempotency_key key

abbrev pub recall : Option FlowRun → Option (ℕ × Bool)
recall none = none
recall (some r) = some (r.id, false)

abbrev pub created : Option ℕ → Option (ℕ × Bool)
created none = none
created (some id) = some (id, true)

-- A key that is taken: its flow run is recalled, and no step is built.
unfoldable pub insert_flow_run_idempotent :
    ℕ → ℕ → Value → Value → String → Db → Option (ℕ × Bool) × Db
unfolding create_flow_run
insert_flow_run_idempotent now flow_id spec input idem_key db =
    if any (has_flow_key idem_key) db.flow_runs
    then (
      recall (find? (has_flow_key idem_key) db.flow_runs),
      record db { next_flow_run = suc db.next_flow_run },
    )
    else (let (id, db') = create_flow_run now flow_id spec input (some idem_key) db in
        (created id, db'))

abbrev higher_flow_run : FlowRun → Option FlowRun → FlowRun
higher_flow_run r none = r
higher_flow_run r (some q) = if ltb r.id q.id then q else r

unfoldable pub newest_keyed : String → List FlowRun → Option FlowRun
newest_keyed key [] = none
newest_keyed key (r ∷ rs) =
    let rest = newest_keyed key rs in
    if has_flow_key key r then some (higher_flow_run r rest) else rest

unfoldable pub find_flow_run_by_idempotency : String → Db → Option (ℕ × FlowStatus)
unfolding newest_keyed
find_flow_run_by_idempotency key db = elim (newest_keyed key db.flow_runs) [
  | none ↦ none
  | some r ↦ some (r.id, r.status)
]
