-- ===== src/Worker/Again.antt =====
-- When a run that was executed is claimed again.
use dokan.Prelude.{
  ℕ, ◌<◌, String, Bool, true, ◌&&◌, ◌≡◌, ◌≢◌, refl, sym, ap, ◌∙◌, subst, inl, inr, List, Option,
  none, some, arith, Bool-cases,
}
use dokan.Prelude.Int.{ℤ}
use dokan.Json.{Value}
use dokan.Db.{Status, Run, Db}
use dokan.Db.Runs.{opt_eq, find_run, run_status, run_outcome, run_error}
use dokan.Db.Queue.{ClaimedJob, claim_run}
use dokan.Db.Queue.Claim.{claim_run-lowest, eligible-pending}
use dokan.Db.Lifecycle.{Step, Reach, Reach-keeps}
use dokan.Db.Lifecycle.Keys.{find_run-mem, Step-IsKeyed}
use dokan.Db.Lifecycle.Identity.{IsKeyed}
use dokan.Worker.{executed, own_limit, no_exit, should_retry, count_attempt, job_input, run_job}
use dokan.Worker.Retry.{IsExecutor}
use dokan.Worker.Attempts.{status-claimed, status-same, count_attempt-IsKeyed}

no_exit-true : (o : Option (Status × Option ℤ)) → no_exit o ≡ true → o ≡ some (Status.failed, none)
no_exit-true none h = absurd (ground (arith, h))
no_exit-true (some (Status.failed, none)) h = refl
no_exit-true (some (Status.failed, some c)) h = absurd (ground (arith, h))
no_exit-true (some (Status.pending, c)) h = absurd (ground (arith, h))
no_exit-true (some (Status.running, c)) h = absurd (ground (arith, h))
no_exit-true (some (Status.succeeded, c)) h = absurd (ground (arith, h))
no_exit-true (some (Status.canceled, c)) h = absurd (ground (arith, h))

-- A failure without an exit code, before the last attempt, that was not the script's own limit.
abbrev pub IsRetryable : ClaimedJob → ℕ → Db → Type 0
IsRetryable job attempt db =
    (run_outcome job.run.id db ≡ some (Status.failed, none))
    × (attempt < 3)
    × (own_limit job.script ≡ true → run_error job.run.id db ≢ some "timeout")

should_retry-IsRetryable :
    (job : ClaimedJob) (n : ℕ) (db : Db) → should_retry job n db ≡ true → IsRetryable job n db
unfolding should_retry
should_retry-IsRetryable job n db h = (
  no_exit-true (run_outcome job.run.id db) (ground arith),
  ground arith,
  λ own e.
      let hit : (own_limit job.script && opt_eq (run_error job.run.id db) "timeout") ≡ true =
        rw (own, e) refl in
      ground (arith, h, hit),
)

module _ (execute : ClaimedJob → Value → Db → Db) (contract : IsExecutor execute) (marks : Bool)
    (job : ClaimedJob) (db : Db) (keyed : IsKeyed db) where
  open contract use {queries, ends}

  executed-IsKeyed : IsKeyed (executed execute marks job db)
  executed-IsKeyed =
      let db' = (count_attempt marks job.run.id db).1 in
      Reach-keeps IsKeyed (λ t u. Step-IsKeyed) (queries job (job_input job db') db')
        (count_attempt-IsKeyed marks job.run.id db keyed)

  -- A run that waits after its execution was put back for a failure that may be retried.
  run_job-waits :
      run_status job.run.id (run_job execute marks job db) ≡ some Status.pending
      → IsRetryable job (count_attempt marks job.run.id db).0 (executed execute marks job db)
  unfolding run_job
  run_job-waits h =
      let n = (count_attempt marks job.run.id db).0 in
      let db' = (count_attempt marks job.run.id db).1 in
      let done = executed execute marks job db in
      elim (Bool-cases (should_retry job n done)) [
        | inl e ↦ should_retry-IsRetryable job n done e
        | inr e ↦ absurd (ends job (job_input job db') db' Status.pending (rw (e, run_job) at h))
      ]

  run_job-IsKeyed : IsKeyed (run_job execute marks job db)
  unfolding run_job
  run_job-IsKeyed =
      let n = (count_attempt marks job.run.id db).0 in
      elim (Bool-cases (should_retry job n (executed execute marks job db))) [
        | inl e ↦ rw e (Step-IsKeyed (Step.retry job.run.id) executed-IsKeyed)
        | inr e ↦ rw e executed-IsKeyed
      ]

  -- Given executions that work on the tables by their queries, count no attempt themselves and end
  -- the run: when a worker claims a run again that was executed before, and only queries that left
  -- its row alone came between, then the execution before ended in a failure without an exit code,
  -- its worker had a count of attempts below three, and it was no hit of a time limit that the
  -- script declared.
  pub run_job-claimed_again :
      (t : Db) (now : ℕ) (caps : List String) (locked : ℕ → Bool) (next : ClaimedJob)
      → Reach (run_job execute marks job db) t
      → find_run job.run.id t ≡ find_run job.run.id (run_job execute marks job db)
      → (claim_run now caps locked t).0 ≡ some next
      → next.run.id ≡ job.run.id
      → IsRetryable job (count_attempt marks job.run.id db).0 (executed execute marks job db)
  run_job-claimed_again t now caps locked next reach row e same =
      let c = claim_run-lowest now caps locked t next e in
      let here : c.run.id ≡ job.run.id = sym (ap (λ (r : Run). r.id) c.started) ∙ same in
      let known = Reach-keeps IsKeyed (λ t u. Step-IsKeyed) reach run_job-IsKeyed in
      let found = find_run-mem c.run t known c.lowest.member in
      let pending = eligible-pending caps locked t c.run c.lowest.passes in
      let status : run_status job.run.id t ≡ some Status.pending =
        subst (λ i. run_status i t ≡ some Status.pending) here
          (status-claimed c.run t c.run.id found ∙ ap some pending) in
      run_job-waits (status-same job.run.id (run_job execute marks job db) t row ∙ status)
