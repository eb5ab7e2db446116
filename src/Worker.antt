-- ===== src/Worker.antt =====
-- src/worker.rs: what a worker does with a run that it has claimed. The execution in a container
-- is an argument here.
pub mod Retry
pub mod Attempts
pub mod Again
pub mod Input
use dokan.Prelude.{
  ℕ, String, Bool, true, false, not, ◌&&◌, Option, none, some, ltb, str_eq, if◌then◌else◌,
}
use dokan.Prelude.Int.{ℤ}
use dokan.Json.{Value, null, object, Fields, field, end, insert, is_some}
use dokan.Db.{Status, is_failed, Run, Script, Db}
use dokan.Db.Runs.{run_outcome, run_error, opt_eq}
use dokan.Db.Queue.{ClaimedJob, mark_attempt, requeue, last_result_for_script}

abbrev pub max_attempts : ℕ
max_attempts = 3

abbrev pub or_null : Option Value → Value
or_null none = null
or_null (some v) = v

-- The previous structured result rides along under `prev_result`.
unfoldable pub with_prev_result : Option Value → Value → Value
unfolding insert
with_prev_result prev (object fs) = object (insert "prev_result" (or_null prev) fs)
with_prev_result prev v = object (field "input" v (field "prev_result" (or_null prev) end))

abbrev pub feeds : Option Script → Bool
feeds none = false
feeds (some s) = s.feed_prev_result

abbrev pub own_limit : Option Script → Bool
own_limit none = false
own_limit (some s) = is_some s.timeout_secs

-- `input` is JSONB and may be NULL: an empty object then.
abbrev pub input_or_empty : Option Value → Value
input_or_empty none = object end
input_or_empty (some v) = v

unfoldable pub job_input : ClaimedJob → Db → Value
unfolding with_prev_result
job_input job db =
    let input = input_or_empty job.run.input in
    if feeds job.script
    then with_prev_result (last_result_for_script job.run.script_id job.run.id db) input
    else input

abbrev pub no_exit : Option (Status × Option ℤ) → Bool
no_exit (some (Status.failed, none)) = true
no_exit _ = false

-- A failure with no exit code of its own, below the limit of attempts; but a script that declared
-- its own time limit and hit it is not run again.
unfoldable pub should_retry : ClaimedJob → ℕ → Db → Bool
should_retry job attempt db =
    no_exit (run_outcome job.run.id db)
    && ltb attempt max_attempts
    && not (own_limit job.script && opt_eq (run_error job.run.id db) "timeout")

abbrev pub or_one : Option ℕ → ℕ
or_one none = 1
or_one (some n) = n

-- `mark_attempt(..).unwrap_or(1)`: `marks` says whether that query succeeded.
unfoldable pub count_attempt : Bool → ℕ → Db → ℕ × Db
count_attempt false id db = (1, db)
count_attempt true id db = let (n, db') = mark_attempt id db in (or_one n, db')

module _ (execute : ClaimedJob → Value → Db → Db) where
  -- The database when the execution is over, before the retry decision.
  abbrev pub executed : Bool → ClaimedJob → Db → Db
  executed marks job db =
      let db' = (count_attempt marks job.run.id db).1 in execute job (job_input job db') db'

  unfoldable pub run_job : Bool → ClaimedJob → Db → Db
  unfolding count_attempt should_retry
  run_job marks job db =
      let done = executed marks job db in
      if should_retry job (count_attempt marks job.run.id db).0 done
      then requeue job.run.id done
      else done
