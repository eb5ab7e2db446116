-- ===== src/Db/Rows.antt =====
-- src/db.rs and migrations.sql: the rows of the tables.
use dokan.Prelude.{ℕ, String, Bool, true, false, Option, none, List}
use dokan.Prelude.Int.{ℤ}
use dokan.Json.{Value}

-- The texts that the `status` column of `runs` holds (migrations.sql).
pub data Status : Type 0 where
  pending running succeeded failed canceled : Status

abbrev pub is_pending : Status → Bool
is_pending Status.pending = true
is_pending _ = false

abbrev pub is_running : Status → Bool
is_running Status.running = true
is_running _ = false

abbrev pub is_succeeded : Status → Bool
is_succeeded Status.succeeded = true
is_succeeded _ = false

abbrev pub is_failed : Status → Bool
is_failed Status.failed = true
is_failed _ = false

abbrev pub is_canceled : Status → Bool
is_canceled Status.canceled = true
is_canceled _ = false

-- What an upload sets beside the name and the source. A CPU limit is the bit pattern of its `f64`.
pub record Settings : Type 0 where
  pub runtime : String
  pub description : Option String
  pub created_by : Option String
  pub network : Bool
  pub mem_limit_mb : Option ℤ
  pub cpu_limit : Option ℕ
  pub feed_prev_result : Bool
  pub timeout_secs : Option ℤ

pub record Script : Type 0 where
  pub id : ℕ
  pub name : String
  pub source : String
  pub version : ℕ
  pub secrets_allowlist : Option (List String)
  pub settings : Settings
  pub open settings use *

pub record Run : Type 0 where
  pub id : ℕ
  pub script_id : ℕ
  pub status : Status
  pub input : Option Value
  pub exit_code : Option ℤ
  pub error : Option String
  pub attempts : ℕ
  pub created_at : ℕ
  pub started_at : Option ℕ
  pub finished_at : Option ℕ
  pub heartbeat_at : Option ℕ
  pub agent_id : Option String
  pub input_blobs : Option Value
  pub output_blobs : Option Value
  pub capture_output : Bool
  pub idempotency_key : Option String
  pub cache_key : Option String
  pub result : Option Value
  pub progress : Option String
  pub receipt : Option Value

pub data Stream : Type 0 where
  stdout stderr : Stream

-- A line of a run's output; `seq` grows with every line of its run.
pub record Log : Type 0 where
  pub run_id : ℕ
  pub seq : ℕ
  pub stream : Stream
  pub line : String

-- Bytes under the SHA-256 of their content.
pub record Blob : Type 0 where
  pub sha : String
  pub bytes : List ℕ
  pub size : ℕ
  pub last_used_at : ℕ

pub record Schedule : Type 0 where
  pub id : ℕ
  pub script_id : ℕ
  pub cron : String
  pub input : Value
  pub enabled : Bool
  pub agent_id : Option String
  pub input_blobs : Option Value
  pub capture_output : Bool
  pub idempotency : Bool
  pub timezone : Option String

pub record Trigger : Type 0 where
  pub id : ℕ
  pub source_script_id : ℕ
  pub predicate : Value
  pub target_script_id : ℕ
  pub agent_id : Option String
  pub enabled : Bool

-- The texts that the `status` column of `flow_steps` holds.
pub data StepStatus : Type 0 where
  pending running succeeded failed skipped expanded : StepStatus

pub record FlowStep : Type 0 where
  pub flow_run_id : ℕ
  pub step_id : String
  pub script_id : ℕ
  pub input : Value
  pub depends_on : List String
  pub status : StepStatus
  pub run_id : Option ℕ
  pub output : Option String
  pub when_cond : Option Value
  pub map_ref : Option String
  pub compensate : Option ℤ
  pub compensated : Bool
  pub retries : Option ℤ
  pub finished_at : Option ℕ
  pub cache : Bool

pub record Flow : Type 0 where
  pub id : ℕ
  pub name : String
  pub spec : Value

-- The texts that the `status` column of `flow_runs` holds.
pub data FlowStatus : Type 0 where
  pending running succeeded failed compensation_failed : FlowStatus

pub record FlowRun : Type 0 where
  pub id : ℕ
  pub flow_id : ℕ
  pub status : FlowStatus
  pub input : Option Value
  pub created_at : ℕ
  pub started_at : Option ℕ
  pub finished_at : Option ℕ
  pub idempotency_key : Option String

-- A secret of every agent; the value is sealed.
pub record Secret : Type 0 where
  pub name : String
  pub value : String

pub record AgentSecret : Type 0 where
  pub agent_id : String
  pub name : String
  pub value : String

-- The texts that the `target_kind` column of `webhooks` holds.
pub data Target : Type 0 where
  script flow : Target

pub record Webhook : Type 0 where
  pub id : ℕ
  pub token : String
  pub kind : Target
  pub target_id : ℕ
  pub agent_id : Option String

-- What `INSERT INTO runs (script_id, input, status)` leaves to the column defaults.
abbrev pub new_run : ℕ → ℕ → ℕ → Option Value → Run
new_run id now script_id input = record {
  id = id;
  script_id = script_id;
  status = Status.pending;
  input = input;
  exit_code = none;
  error = none;
  attempts = 0;
  created_at = now;
  started_at = none;
  finished_at = none;
  heartbeat_at = none;
  agent_id = none;
  input_blobs = none;
  output_blobs = none;
  capture_output = false;
  idempotency_key = none;
  cache_key = none;
  result = none;
  progress = none;
  receipt = none;
}
