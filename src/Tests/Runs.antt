-- ===== src/Tests/Runs.antt =====
-- Runs that are inserted, canceled and retried, and an execution that fails without an exit code.
use dokan.Prelude.{◌≡◌, ◌≢◌, refl, some, none, true, false, [], ◌∷◌}
use dokan.Json.{Value}
use dokan.Db.{Status, Db, no_rows}
use dokan.Db.Scripts.{insert_script}
use dokan.Db.Runs.{run_status, find_run, finish_run, cancel_run, insert_run_idempotent}
use dokan.Db.Runs.Cancel.{cancel_wins}
use dokan.Db.Runs.Idempotency.{insert_run_idempotent_once}
use dokan.Db.Queue.{claim_run}
use dokan.Db.Lifecycle.{Step, Reach}
use dokan.Db.Lifecycle.Rows.{AreTimed, Reach-AreTimed}
use dokan.Db.Lifecycle.Keys.{Reach-IsKeyed}
use dokan.Db.Lifecycle.Identity.{IsKeyed}
use dokan.Tests.{two_pending, empty_object, python_settings, unlocked}

status_one : run_status 1 two_pending ≡ some Status.pending
unfolding run_status find_run
status_one = refl

pending-ne : Status.pending ≢ Status.succeeded
pending-ne h = cc

cancel_wins_example :
    (run_status 1 (
        finish_run 31 1 Status.failed none
          (some "killed")
          (cancel_run 30 1 "operator" two_pending).1)
      ≡ some Status.canceled)
    × (run_status 1
          (cancel_run 31 1 "operator"
            (finish_run 30 1 Status.failed none (some "killed") two_pending)).1
        ≡ some Status.canceled)
cancel_wins_example =
    cancel_wins 30 31 1 "operator" none (some "killed") Status.pending two_pending status_one
      pending-ne

first_answer :
    (insert_run_idempotent 40 1 empty_object none none false "hook" two_pending).0 ≡ some (3, true)
unfolding insert_run_idempotent
first_answer = refl

insert_run_idempotent_once_example :
    let u = (insert_run_idempotent 40 1 empty_object none none false "hook" two_pending).1 in
    ((insert_run_idempotent 50 1 Value.null none none false "hook" u).0 ≡ some (3, false))
    × ((insert_run_idempotent 50 1 Value.null none none false "hook" u).1.runs ≡ u.runs)
insert_run_idempotent_once_example =
    insert_run_idempotent_once 40 50 1 1 empty_object Value.null none none none none false false
      "hook" two_pending 3 true first_answer

-- An upload, a run under a key, and a claim of it.
abbrev uploaded : Db
uploaded = (insert_script "nightly" "print(1)" python_settings no_rows).1

abbrev enqueued : Db
enqueued = (insert_run_idempotent 5 1 empty_object none none false "k" uploaded).1

abbrev claimed : Db
claimed = (claim_run 6 ("python" ∷ []) unlocked enqueued).1

three_steps : Reach no_rows claimed
three_steps =
    Reach.next
      (Reach.next (Reach.next Reach.here (Step.upload "nightly" "print(1)" python_settings))
        (Step.insert_idempotent 5 1 empty_object none none false "k"))
      (Step.claim 6 ("python" ∷ []) unlocked)

Reach-AreTimed_example : AreTimed claimed
Reach-AreTimed_example = Reach-AreTimed three_steps

Reach-IsKeyed_example : IsKeyed claimed
Reach-IsKeyed_example = Reach-IsKeyed three_steps
