-- ===== src/Tests/Queue.antt =====
-- The queue on two pending runs.
use dokan.Prelude.{String, update_where, ◌≡◌, ◌≢◌, refl, some, List, [], ◌∷◌, Memᴰ, arith}
use dokan.Db.{Run, Db}
use dokan.Db.Queue.{claim_run, lowest, eligible, served, reap_orphan_runs, touch_run, start}
use dokan.Db.Scripts.{get_script}
use dokan.Db.Queue.Claim.{Claimed, claim_run-lowest, claim_run-claim_run_ne}
use dokan.Db.Queue.Lease.{reap_orphan_runs-touch_run}
use dokan.Tests.{two_pending, run_one, unlocked, job_one, job_two}

abbrev pub caps : List String
caps = "python" ∷ []

first_claim : (claim_run 20 caps unlocked two_pending).0 ≡ some job_one
unfolding claim_run lowest eligible served get_script
first_claim = refl

second_claim :
    (claim_run 21 caps unlocked (claim_run 20 caps unlocked two_pending).1).0 ≡ some job_two
unfolding claim_run lowest eligible served get_script update_where
second_claim = refl

claim_run-lowest_example : Claimed 20 caps unlocked two_pending job_one
claim_run-lowest_example = claim_run-lowest 20 caps unlocked two_pending job_one first_claim

claim_run-claim_run_ne_example : job_two.run.id ≢ job_one.run.id
claim_run-claim_run_ne_example =
    claim_run-claim_run_ne 20 21 caps caps unlocked unlocked two_pending job_one job_two first_claim
      second_claim

-- A run started at 100, and its table.
abbrev running_run : Run
running_run = start 100 run_one

abbrev one_running : Db
one_running = record two_pending { runs = running_run ∷ [] }

abbrev beaten : Run
beaten = record running_run { heartbeat_at = some 500 }

beat : Memᴰ beaten (touch_run 500 1 one_running).runs
unfolding touch_run update_where
beat = Memᴰ.head refl

reap_orphan_runs-touch_run_example :
    Memᴰ beaten (reap_orphan_runs 1100 600 (touch_run 500 1 one_running)).1.runs
reap_orphan_runs-touch_run_example =
    reap_orphan_runs-touch_run 500 1100 600 1 one_running beaten (omega arith) beat refl refl
