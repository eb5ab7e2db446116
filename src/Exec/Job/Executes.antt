-- ===== src/Exec/Job/Executes.antt =====
-- What a worker relies on of an execution holds of `run`: it works by the queries of the tables, it
-- counts no attempt, and it drives its run to an end.
use Prim.Native.String.{[] as []ˢ}
use dokan.Prelude.{
  ◌≤◌, subst, eq_of_some, ℕ, false, ◌≡◌, refl, sym, ◌∙◌, Option, none, some, arith, Option-cases,
  inl, inr,
}
use dokan.Json.{Value}
use dokan.Db.{Status, Run, Script, Db}
use dokan.Db.Runs.{find_run, run_status}
use dokan.Db.Queue.{ClaimedJob}
use dokan.Worker.Retry.{IsEnded, attempts_of, attempts_in, IsExecutor}
use dokan.Exec.Job.{Libraries, Executor, Job, Host, run}
use dokan.Exec.Job.Quiet.{view, view_in}
use dokan.Exec.Job.Works.{count_in, EndedView, Finish}
use dokan.Exec.Job.Outcomes.{run-Finish}
use dokan.Db.Lifecycle.Identity.{IsKeyed}
use dokan.Worker.Retry.{Executions}
use dokan.Worker.Attempts.{Executions-le_max}

attempts_in-view : (o : Option Run) → count_in (view_in o) ≡ attempts_in o
attempts_in-view none = refl
attempts_in-view (some r) = refl

abbrev job_for : Run → Option Script → Value → Job
job_for r none input = record {
  run_id = r.id;
  runtime = []ˢ;
  source = []ˢ;
  input = input;
  agent_id = r.agent_id;
  network = false;
  mem_limit_mb = none;
  cpu_limit = none;
  input_blobs = r.input_blobs;
  capture_output = r.capture_output;
  timeout_secs = none;
}
job_for r (some s) input = record {
  run_id = r.id;
  runtime = s.runtime;
  source = s.source;
  input = input;
  agent_id = r.agent_id;
  network = s.network;
  mem_limit_mb = s.mem_limit_mb;
  cpu_limit = s.cpu_limit;
  input_blobs = r.input_blobs;
  capture_output = r.capture_output;
  timeout_secs = s.timeout_secs;
}

module _ (lib : Libraries) (exec : Executor) (host : ClaimedJob → Db → Host) where
  -- The call of `run` in src/worker.rs: what happens in it may differ from one execution to another.
  -- The foreign key leaves no run without its script.
  unfoldable pub execute : ClaimedJob → Value → Db → Db
  unfolding run
  execute claimed input db =
      run lib exec (host claimed db) (job_for claimed.run claimed.script input) db

  execute-Finish :
      (r : Run) (s : Option Script) (input : Value) (db : Db) (h : Host)
      → Finish r.id db (run lib exec h (job_for r s input) db)
  execute-Finish r none input db h = run-Finish lib exec h (job_for r none input) db
  execute-Finish r (some s) input db h = run-Finish lib exec h (job_for r (some s) input) db

  attempts-view :
      (id : ℕ) (t u : Db)
      → count_in (view id u) ≡ count_in (view id t)
      → attempts_of id u ≡ attempts_of id t
  attempts-view id t u e =
      sym (attempts_in-view (find_run id u)) ∙ e ∙ attempts_in-view (find_run id t)

  status-view :
      (id : ℕ) (u : Db) (s : Status) → EndedView (view id u) → run_status id u ≡ some s → IsEnded s
  unfolding run_status
  status-view id u s h e = elim (Option-cases (find_run id u)) [
    | inl f ↦ absurd (ground (arith, f, e))
    | inr (r, f) ↦
        let ends : IsEnded r.status = rw f at h in
        subst IsEnded (eq_of_some (rw (f, run_status) at e)) ends
  ]

  -- Whatever Docker, the pool and the host do in an execution - refuse a container, break the stream
  -- off, let the time run out, lose the exit code or a write - the execution changes the tables by
  -- their queries alone, counts no attempt of its run, and leaves the run ended.
  pub execute-IsExecutor : IsExecutor execute
  unfolding execute
  execute-IsExecutor = record {
    queries =
        λ job input db. (execute-Finish job.run job.script input db (host job db)).works.reach;
    attempts = λ job input db.
        let u = run lib exec (host job db) (job_for job.run job.script input) db in
        attempts-view job.run.id db u
          (execute-Finish job.run job.script input db (host job db)).works.counted;
    ends = λ job input db s.
        let u = run lib exec (host job db) (job_for job.run job.script input) db in
        status-view job.run.id u s (execute-Finish job.run job.script input db (host job db)).ended;
  }

  -- Of the executions of a run that no worker has tried, at most three are counted, however many
  -- workers claim it, whatever happens in the executions, and whatever queries that leave its row
  -- alone run between them.
  pub execute-le_max :
      (id n : ℕ) (db u : Db)
      → IsKeyed db
      → attempts_of id db ≡ some 0
      → Executions execute id db n u
      → n ≤ 3
  execute-le_max id n db u = Executions-le_max execute id n db u execute-IsExecutor
