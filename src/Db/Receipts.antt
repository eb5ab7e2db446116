-- ===== src/Db/Receipts.antt =====
-- src/db.rs: the receipt of a run, and what a reproduction reads of the run.
use dokan.Prelude.{ℕ, String, Bool, Option, none, some}
use dokan.Json.{Value, object, end}
use dokan.Db.{Run, Db}
use dokan.Db.Runs.{update_run, find_run}

unfoldable pub set_run_receipt : ℕ → Value → Db → Db
set_run_receipt id receipt = update_run id (λ r. record r { receipt = some receipt })

unfoldable pub run_receipt : ℕ → Db → Option Value
unfolding find_run
run_receipt id db = elim (find_run id db) [ none ↦ none | some r ↦ r.receipt ]

-- The script, its input and files, the agent, and whether the output was captured.
pub record Invocation : Type 0 where
  pub script_id : ℕ
  pub input : Value
  pub input_blobs : Option Value
  pub agent_id : Option String
  pub capture_output : Bool

abbrev or_object : Option Value → Value
or_object none = object end
or_object (some v) = v

abbrev pub invocation : Run → Invocation
invocation r = record {
  script_id = r.script_id;
  input = or_object r.input;
  input_blobs = r.input_blobs;
  agent_id = r.agent_id;
  capture_output = r.capture_output;
}

unfoldable pub run_reproduce_inputs : ℕ → Db → Option Invocation
unfolding find_run
run_reproduce_inputs id db = elim (find_run id db) [ none ↦ none | some r ↦ some (invocation r) ]
