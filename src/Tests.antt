-- ===== src/Tests.antt =====
-- Small tables and parameters on which the theorems are run.
pub mod Queue
pub mod Runs
pub mod Jobs
pub mod Sweeps
pub mod Flows
pub mod Engine
pub mod Limits
pub mod Tickers
pub mod Deliveries
pub mod Artifacts
pub mod Calls
pub mod Secrets
pub mod Executor
use dokan.Prelude.{ℕ, String, Bool, true, false, Option, none, some, List, [], ◌∷◌}
use dokan.Json.{Value, Fields}
use dokan.Db.{Status, Settings, Script, Run, Blob, Log, Stream, Db, no_rows, new_run}
use dokan.Db.Queue.{ClaimedJob, start}

abbrev pub python_settings : Settings
python_settings = record {
  runtime = "python";
  description = none;
  created_by = none;
  network = false;
  mem_limit_mb = none;
  cpu_limit = none;
  feed_prev_result = false;
  timeout_secs = none;
}

abbrev pub script_one : Script
script_one = record {
  id = 1;
  name = "nightly";
  source = "print(1)";
  version = 1;
  secrets_allowlist = none;
  settings = python_settings;
}

abbrev pub empty_object : Value
empty_object = Value.object Fields.end

abbrev pub run_one : Run
run_one = new_run 1 10 1 (some empty_object)

abbrev pub run_two : Run
run_two = new_run 2 11 1 (some empty_object)

-- One script and two pending runs of it.
abbrev pub two_pending : Db
two_pending = record no_rows {
  scripts = script_one ∷ [];
  next_script = 2;
  runs = run_one ∷ run_two ∷ [];
  next_run = 3;
}

abbrev pub unlocked : ℕ → Bool
unlocked id = false

abbrev pub job_one : ClaimedJob
job_one = record { run = start 20 run_one; script = some script_one }

abbrev pub job_two : ClaimedJob
job_two = record { run = start 21 run_two; script = some script_one }
