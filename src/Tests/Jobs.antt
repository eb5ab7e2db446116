-- ===== src/Tests/Jobs.antt =====
-- Executions: one that succeeds, and one that always fails without an exit code.
use dokan.Prelude.{
  ℕ, ◌≤◌, ◌≡◌, refl, sym, ◌∙◌, some, none, true, false, not, ◌&&◌, ◌==◌, [], ◌∷◌, arith, Option,
  update_where, find?-update_where,
}
use dokan.Prelude.Int.{pos}
use dokan.Json.{Value}
use dokan.Db.{Status, is_canceled, Db, no_rows}
use dokan.Db.Scripts.{insert_script, get_script}
use dokan.Db.Runs.{run_status, find_run, finish_run, insert_run_idempotent, run_outcome, has_id}
use dokan.Db.Runs.Cancel.{run_status-finish_run, map_status, after_finish}
use dokan.Db.Queue.{ClaimedJob, mark_attempt, claim_run, requeue, lowest, eligible, served}
use dokan.Db.Lifecycle.{Step, Reach, badly}
use dokan.Db.Lifecycle.Keys.{Reach-IsKeyed, Step-IsKeyed}
use dokan.Db.Lifecycle.Identity.{IsKeyed}
use dokan.Worker.{run_job, executed, count_attempt}
use dokan.Worker.Retry.{IsEnded, IsExecutor, Executions, attempts_of}
use dokan.Worker.Again.{IsRetryable, run_job-claimed_again}
use dokan.Worker.Attempts.{Executions-le_max}
use dokan.Tests.{two_pending, empty_object, python_settings, job_one, unlocked}

abbrev pub succeed : ClaimedJob → Value → Db → Db
succeed job input db = finish_run 40 job.run.id Status.succeeded (some (pos 0)) none db

abbrev pub crash : ClaimedJob → Value → Db → Db
crash job input db = finish_run 40 job.run.id Status.failed none (some "boom") db

well_ended :
    run_outcome 1 (executed succeed true job_one two_pending)
    ≡ some (Status.succeeded, some (pos 0))
unfolding run_outcome find_run finish_run count_attempt mark_attempt update_where
well_ended = refl

crash-ends :
    (t : Option Status) (s : Status)
    → map_status (after_finish Status.failed) t ≡ some s
    → IsEnded s
crash-ends none s h = absurd (ground arith)
crash-ends (some Status.canceled) s h = let e : Status.canceled ≡ s = ground arith in rw⁻¹ e tt
crash-ends (some Status.pending) s h = let e : Status.failed ≡ s = ground arith in rw⁻¹ e tt
crash-ends (some Status.running) s h = let e : Status.failed ≡ s = ground arith in rw⁻¹ e tt
crash-ends (some Status.succeeded) s h = let e : Status.failed ≡ s = ground arith in rw⁻¹ e tt
crash-ends (some Status.failed) s h = let e : Status.failed ≡ s = ground arith in rw⁻¹ e tt

crash-attempts :
    (id : ℕ) (db : Db)
    → attempts_of id (finish_run 40 id Status.failed none (some "boom") db) ≡ attempts_of id db
unfolding find_run finish_run
crash-attempts id db = ground (
  arith,
  find?-update_where (has_id id) (λ r. r.id == id && not (is_canceled r.status))
      (λ r. record r {
        status = Status.failed;
        exit_code = none;
        error = some "boom";
        finished_at = some 40;
      })
      db.runs (λ r. refl),
)

crash-IsExecutor : IsExecutor crash
crash-IsExecutor = record {
  queries =
      λ job input db. Reach.next Reach.here (Step.finish 40 job.run.id none (some "boom") badly);
  attempts = λ job input db. crash-attempts job.run.id db;
  ends = λ job input db s h.
      crash-ends (run_status job.run.id db) s
        (sym (run_status-finish_run 40 job.run.id Status.failed none (some "boom") db) ∙ h);
}

-- The table of the other examples, as queries leave it.
abbrev queued : Db
queued =
    (insert_run_idempotent 5 1 empty_object none none false "k"
      (insert_script "nightly" "print(1)" python_settings no_rows).1).1

queued-IsKeyed : IsKeyed queued
queued-IsKeyed = Reach-IsKeyed (
    Reach.next (Reach.next Reach.here (Step.upload "nightly" "print(1)" python_settings))
      (Step.insert_idempotent 5 1 empty_object none none false "k"))

untried : attempts_of 1 queued ≡ some 0
unfolding find_run insert_run_idempotent insert_script
untried = refl

abbrev queued_job : ClaimedJob
queued_job = record {
  run = record {
    id = 1;
    script_id = 1;
    status = Status.running;
    input = some empty_object;
    exit_code = none;
    error = none;
    attempts = 0;
    created_at = 5;
    started_at = some 6;
    finished_at = none;
    heartbeat_at = some 6;
    agent_id = none;
    input_blobs = none;
    output_blobs = none;
    capture_output = false;
    idempotency_key = some "k";
    cache_key = none;
    result = none;
    progress = none;
    receipt = none;
  };
  script = some (record {
    id = 1;
    name = "nightly";
    source = "print(1)";
    version = 1;
    secrets_allowlist = none;
    settings = python_settings;
  });
}

queued_claim : (claim_run 6 ("python" ∷ []) unlocked queued).0 ≡ some queued_job
unfolding claim_run lowest eligible served get_script insert_run_idempotent insert_script
queued_claim = refl

one_execution :
    Executions crash 1 queued 1
      (run_job crash true queued_job (claim_run 6 ("python" ∷ []) unlocked queued).1)
one_execution =
    Executions.again Executions.start_here true 6 ("python" ∷ []) unlocked queued_job queued_claim
      refl

Executions-le_max_example : 1 ≤ 3
Executions-le_max_example =
    Executions-le_max crash 1 1 queued
      (run_job crash true queued_job (claim_run 6 ("python" ∷ []) unlocked queued).1)
      crash-IsExecutor queued-IsKeyed untried one_execution

-- The table after the crash, and the job that the next claim makes of it.
abbrev crashed : Db
crashed = run_job crash true queued_job (claim_run 6 ("python" ∷ []) unlocked queued).1

abbrev second_job : ClaimedJob
second_job = record queued_job {
  run = record queued_job.run {
    error = some "boom";
    attempts = 1;
    started_at = some 60;
    finished_at = some 40;
    heartbeat_at = some 60;
  };
}

second_claim : (claim_run 60 ("python" ∷ []) unlocked crashed).0 ≡ some second_job
unfolding claim_run lowest eligible served get_script insert_run_idempotent insert_script run_job
    finish_run mark_attempt run_outcome update_where requeue
second_claim = refl

claimed-IsKeyed : IsKeyed (claim_run 6 ("python" ∷ []) unlocked queued).1
claimed-IsKeyed = Step-IsKeyed (Step.claim 6 ("python" ∷ []) unlocked) queued-IsKeyed

run_job-claimed_again_example :
    IsRetryable queued_job
      (count_attempt true 1 (claim_run 6 ("python" ∷ []) unlocked queued).1).0
      (executed crash true queued_job (claim_run 6 ("python" ∷ []) unlocked queued).1)
run_job-claimed_again_example =
    run_job-claimed_again crash crash-IsExecutor true queued_job
      (claim_run 6 ("python" ∷ []) unlocked queued).1 claimed-IsKeyed crashed 60 ("python" ∷ [])
      unlocked second_job Reach.here refl second_claim refl
