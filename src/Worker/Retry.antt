-- ===== src/Worker/Retry.antt =====
-- Which runs a worker runs again, and how often.
use dokan.Prelude.{
  ℕ, zero, suc, String, Bool, true, false, ◌≡◌, refl, List, Option, none, some, arith,
  find?-update_where,
}
use dokan.Json.{Value}
use dokan.Db.{Status, Run, Db}
use dokan.Db.Runs.{has_id, find_run, run_status, update_run}
use dokan.Db.Queue.{ClaimedJob, start, back_to_queue, claim_run, requeue}
use dokan.Db.Lifecycle.{Step, Reach}
use dokan.Worker.{run_job}

-- What the row of a run says, as a function of what `find_run` finds.
abbrev pub attempts_in : Option Run → Option ℕ
attempts_in none = none
attempts_in (some r) = some r.attempts

abbrev pub attempts_of : ℕ → Db → Option ℕ
attempts_of id db = attempts_in (find_run id db)

abbrev pub IsEnded : Status → Type 0
IsEnded Status.pending = ⊥
IsEnded Status.running = ⊥
IsEnded _ = Unit

-- What the worker relies on of an execution: it works on the tables by their queries, it counts no
-- attempt itself, and it drives the run to an end.
pub record IsExecutor (execute : ClaimedJob → Value → Db → Db) : Type 0 where
  pub queries : (job : ClaimedJob) (input : Value) (db : Db) → Reach db (execute job input db)
  pub attempts :
      (job : ClaimedJob) (input : Value) (db : Db)
      → attempts_of job.run.id (execute job input db) ≡ attempts_of job.run.id db
  pub ends :
      (job : ClaimedJob) (input : Value) (db : Db) (s : Status)
      → run_status job.run.id (execute job input db) ≡ some s
      → IsEnded s

abbrev pub tally : Bool → ℕ → ℕ
tally true n = suc n
tally false n = n

-- Executions of the run `id`, each by a worker that claimed it, of which `n` were counted in the
-- row: where `mark_attempt` failed (`marks` is false), the execution takes place uncounted. Between
-- them any queries that leave the row of the run alone.
pub data Executions (execute : ClaimedJob → Value → Db → Db) (id : ℕ) (db : Db)
    : ℕ → Db → Type 0 where
  start_here : Executions execute id db zero db
  elsewhere :
      {n : ℕ} {t u : Db}
      → Executions execute id db n t
      → Step t u
      → find_run id u ≡ find_run id t
      → Executions execute id db n u
  again :
      {n : ℕ} {t : Db}
      → Executions execute id db n t
      → (marks : Bool) (now : ℕ) (caps : List String) (locked : ℕ → Bool) (job : ClaimedJob)
      → (claim_run now caps locked t).0 ≡ some job
      → job.run.id ≡ id
      → Executions execute id db
          (tally marks n)
          (run_job execute marks job (claim_run now caps locked t).1)

-- The effect of the worker's own queries on the row of the run.
pub attempts-requeue : (id : ℕ) (db : Db) → attempts_of id (requeue id db) ≡ attempts_of id db
unfolding requeue find_run
attempts-requeue id db =
    ground (arith, find?-update_where (has_id id) (has_id id) back_to_queue db.runs (λ r. refl))

pub attempts-started :
    (now id j : ℕ) (db : Db) → attempts_of id (update_run j (start now) db) ≡ attempts_of id db
unfolding find_run
attempts-started now id j db =
    ground (arith, find?-update_where (has_id id) (has_id j) (start now) db.runs (λ r. refl))
