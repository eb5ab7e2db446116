-- ===== src/Worker/Attempts.antt =====
-- The bound on the attempts of a run, whatever the workers, the executions and the order.
use dokan.Prelude.{
  ℕ, suc, ◌≤◌, ◌<◌, String, Bool, true, false, ◌≡◌, refl, sym, ap, ◌∙◌, subst, ◌≢◌, ◌⊎◌, inl, inr,
  Option, none, some, arith, Bool-cases, Option-cases, find?, find?-update_where, find?-some, List,
}
use dokan.Json.{Value}
use dokan.Db.{Status, Run, Db}
use dokan.Db.Runs.{has_id, find_run, run_status}
use dokan.Db.Queue.{ClaimedJob, claim_run, mark_attempt, requeue}
use dokan.Db.Queue.Claim.{claim_run-lowest, eligible-pending}
use dokan.Db.Lifecycle.{Step, Reach-keeps}
use dokan.Db.Lifecycle.Keys.{find_run-mem, Step-IsKeyed}
use dokan.Db.Lifecycle.Identity.{IsKeyed}
use dokan.Worker.{executed, should_retry, count_attempt, job_input, run_job}
use dokan.Worker.Retry.{
  attempts_in, attempts_of, IsEnded, IsExecutor, Executions, start_here, elsewhere, again,
  attempts-requeue, attempts-started, tally,
}

-- The count of a marked attempt is the one that the row then has; an unmarked one leaves the row.
mark_attempt-counts :
    (marks : Bool) (id n : ℕ) (db : Db)
    → attempts_of id db ≡ some n
    → ((marks ≡ true) → (count_attempt marks id db).0 ≡ suc n)
      × (attempts_of id (count_attempt marks id db).1 ≡ some (tally marks n))
unfolding count_attempt mark_attempt find_run
mark_attempt-counts false id n db h = (λ e. absurd (ground (arith, e)), h)
mark_attempt-counts true id n db h = elim (Option-cases (find? (has_id id) db.runs)) [
  | inl e ↦ absurd (ground arith)
  | inr (r, e) ↦
      let found =
        find?-update_where (has_id id) (has_id id) (λ r. record r { attempts = suc r.attempts })
          db.runs (λ r. refl) in
      (λ _. ground (arith, e, h), ground (arith, e, h, found, (find?-some (has_id id) db.runs e).1))
]

pub status-claimed :
    (r : Run) (db : Db) (id : ℕ) → find_run id db ≡ some r → run_status id db ≡ some r.status
unfolding run_status find_run
status-claimed r db id e = ground (arith, e)

abbrev status_in : Option Run → Option Status
status_in none = none
status_in (some r) = some r.status

pub status-same :
    (id : ℕ) (t u : Db) → find_run id u ≡ find_run id t → run_status id t ≡ run_status id u
unfolding run_status
status-same id t u e = ap status_in (sym e)

pub count_attempt-IsKeyed :
    (marks : Bool) (id : ℕ) (db : Db) → IsKeyed db → IsKeyed (count_attempt marks id db).1
unfolding count_attempt
count_attempt-IsKeyed true id db k = Step-IsKeyed (Step.attempt id) k
count_attempt-IsKeyed false id db k = k

-- Where the run is after `n` counted executions.
record Within (id n : ℕ) (db : Db) : Type 0 where
  keyed : IsKeyed db
  counted : attempts_of id db ≡ some n
  room : run_status id db ≡ some Status.pending → n < 3

run_job-cases :
    (execute : ClaimedJob → Value → Db → Db) (marks : Bool) (job : ClaimedJob) (db : Db)
    → ((run_job execute marks job db ≡ requeue job.run.id (executed execute marks job db))
        × ((count_attempt marks job.run.id db).0 < 3))
      ⊎ (run_job execute marks job db ≡ executed execute marks job db)
unfolding run_job
run_job-cases execute marks job db =
    let n = (count_attempt marks job.run.id db).0 in
    elim (Bool-cases (should_retry job n (executed execute marks job db))) [
      | inl e ↦ inl (rw e, ground arith)
      | inr e ↦ inr (rw e)
    ]

tally-room :
    (marks : Bool) (n m : ℕ) → n < 3 → (marks ≡ true → m ≡ suc n) → m < 3 → tally marks n < 3
tally-room true n m h e lt = omega (arith, e refl, lt)
tally-room false n m h e lt = h

tally-le : (marks : Bool) (n : ℕ) → n < 3 → tally marks n ≤ 3
tally-le true n h = omega (arith, h)
tally-le false n h = omega (arith, h)

ended-not-pending : (s : Status) → IsEnded s → s ≢ Status.pending
ended-not-pending s h e = subst IsEnded e h

module _ (execute : ClaimedJob → Value → Db → Db) (contract : IsExecutor execute) where
  open contract use {queries, attempts, ends}

  -- The database when the execution is over.
  executed-Within :
      (marks : Bool) (job : ClaimedJob) (n : ℕ) (db : Db)
      → IsKeyed db
      → attempts_of job.run.id db ≡ some n
      → Within job.run.id (tally marks n) (executed execute marks job db)
  executed-Within marks job n db keyed counted =
      let (number, marked) = mark_attempt-counts marks job.run.id n db counted in
      let db' = (count_attempt marks job.run.id db).1 in
      record {
        keyed =
            Reach-keeps IsKeyed (λ t u. Step-IsKeyed) (queries job (job_input job db') db')
              (count_attempt-IsKeyed marks job.run.id db keyed);
        counted = attempts job (job_input job db') db' ∙ marked;
        room = λ p. absurd (ends job (job_input job db') db' Status.pending p);
      }

  -- One execution, from the claimed row to the retry decision.
  run_job-Within :
      (marks : Bool) (job : ClaimedJob) (n : ℕ) (db : Db)
      → IsKeyed db
      → attempts_of job.run.id db ≡ some n
      → n < 3
      → Within job.run.id (tally marks n) (run_job execute marks job db)
  run_job-Within marks job n db keyed counted room =
      let done = executed-Within marks job n db keyed counted in
      elim (run_job-cases execute marks job db) [
        | inr e ↦ rw e done
        | inl (e, lt) ↦
            let number = (mark_attempt-counts marks job.run.id n db counted).0 in
            rw e (record {
              keyed = Step-IsKeyed (Step.retry job.run.id) done.keyed;
              counted = attempts-requeue job.run.id (executed execute marks job db) ∙ done.counted;
              room = λ p. tally-room marks n (count_attempt marks job.run.id db).0 room number lt;
            })
      ]

  -- What a claim of the run says of the state that it was made in.
  claim-Within :
      (id n now : ℕ) (caps : List String) (locked : ℕ → Bool) (job : ClaimedJob) (db : Db)
      → Within id n db
      → (claim_run now caps locked db).0 ≡ some job
      → job.run.id ≡ id
      → (n < 3)
        × IsKeyed (claim_run now caps locked db).1
        × (attempts_of id (claim_run now caps locked db).1 ≡ some n)
  claim-Within id n now caps locked job db w e same =
      let c = claim_run-lowest now caps locked db job e in
      let here : c.run.id ≡ id = sym (ap (λ (r : Run). r.id) c.started) ∙ same in
      let found = find_run-mem c.run db w.keyed c.lowest.member in
      let pending = eligible-pending caps locked db c.run c.lowest.passes in
      let status : run_status id db ≡ some Status.pending =
        subst (λ i. run_status i db ≡ some Status.pending) here
          (status-claimed c.run db c.run.id found ∙ ap some pending) in
      (
        w.room status,
        Step-IsKeyed (Step.claim now caps locked) w.keyed,
        subst (λ u. attempts_of id u ≡ some n) (sym c.after)
            (attempts-started now id c.run.id db ∙ w.counted),
      )

  Executions-Within :
      {id : ℕ} {db : Db} {n : ℕ} {u : Db}
      → Executions execute id db n u
      → Within id 0 db
      → Within id n u × (n ≤ 3)
  Executions-Within start_here w = (w, omega arith)
  Executions-Within {id} (elsewhere {n = n} {t = t} {u = u} h step same) w =
      let (k, le) = Executions-Within h w in
      (
        record {
          keyed = Step-IsKeyed step k.keyed;
          counted = ap attempts_in same ∙ k.counted;
          room = λ p. k.room (status-same id t u same ∙ p);
        },
        le,
      )
  Executions-Within {id} (again {n = n} {t = t} h marks now caps locked job e same) w =
      let (k, le) = Executions-Within h w in
      let (lt, keyed, counted) = claim-Within id n now caps locked job t k e same in
      (
        subst
            (λ i.
              Within i (tally marks n) (run_job execute marks job (claim_run now caps locked t).1))
            same
            (run_job-Within marks job n (claim_run now caps locked t).1 keyed
              (subst (λ i. attempts_of i (claim_run now caps locked t).1 ≡ some n) (sym same)
                counted)
              lt),
        tally-le marks n lt,
      )

-- Given executions that work on the tables by their queries, count no attempt themselves and end
-- the run: of the executions of a run that no worker has tried, at most three are counted, however
-- many workers claim it, whichever counts fail, and whatever other queries run in between, as long
-- as those leave its row alone. So where every count succeeds, there are at most three executions.
pub Executions-le_max :
    (execute : ClaimedJob → Value → Db → Db) (id n : ℕ) (db u : Db)
    → IsExecutor execute
    → IsKeyed db
    → attempts_of id db ≡ some 0
    → Executions execute id db n u
    → n ≤ 3
Executions-le_max execute id n db u contract keyed fresh h =
    (Executions-Within execute contract h
      (record { keyed = keyed; counted = fresh; room = λ p. omega arith })).1
