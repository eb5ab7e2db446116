-- ===== src/Tests/Engine.antt =====
-- The engine over a container that succeeds, and a flow run that an engine left behind.
use dokan.Prelude.{
  Memᴰ, Option, String, ◌+◌, ◌≡◌, ◌≢◌, refl, some, none, true, List, [], ◌∷◌, any, filter, All,
}
use dokan.Prelude.Int.{pos}
use dokan.Db.{Status, StepStatus, FlowStep, FlowStatus, Db, new_run}
use dokan.Db.Runs.{finish_run}
use dokan.Db.Queue.{eligible, served, claim_run}
use dokan.Db.Flows.Drive.{flow_steps, claim_flow_run, reap_orphan_flow_runs}
use dokan.Flow.{build_deps}
use dokan.Flow.Engine.{Engine, run_step}
use dokan.Flow.Engine.Settles.{IsSettled, run_step-IsSettled}
use dokan.Flow.Engine.Claimable.{row, in_flight, launched-claimable}
use dokan.Flow.Drive.{drive_inner}
use dokan.Flow.Moves.{outputs_of, skipped_of, decide_move, gate_open}
use dokan.Flow.Drive.Gates.{starts, succeeded_as, decide_move-starts}
use dokan.Flow.Drive.Resume.{IsLeft, drive_inner-never_ends}
use dokan.Tests.{two_pending, empty_object, unlocked}
use dokan.Tests.Flows.{tiny, ledger_step}

abbrev engine : Engine
engine = record {
  serde = tiny;
  execute = λ run_id script input db. finish_run 40 run_id Status.succeeded (some (pos 0)) none db;
  run_cache_key = λ script input db. "key";
  sql_error = "error";
}

abbrev fetch : FlowStep
fetch = ledger_step "fetch" StepStatus.succeeded (some "data")

abbrev load : FlowStep
load = record (ledger_step "load" StepStatus.pending none) { depends_on = "fetch" ∷ [] }

abbrev at_load : Db
at_load = record two_pending { flow_steps = fetch ∷ load ∷ [] }

run_step-IsSettled_example :
    IsSettled 1 load.step_id
      (run_step engine 30 1 load empty_object empty_object at_load).flow_steps
run_step-IsSettled_example = run_step-IsSettled engine 30 1 load empty_object empty_object at_load

load_is_due :
    starts (
      decide_move tiny empty_object
        (outputs_of at_load.flow_steps)
        (skipped_of at_load.flow_steps)
        load)
    ≡ true
unfolding decide_move outputs_of skipped_of
load_is_due = refl

decide_move-starts_example :
    All (λ d. any (succeeded_as d) at_load.flow_steps ≡ true) load.depends_on
    × (gate_open tiny load.when_cond empty_object
          (build_deps load.depends_on (outputs_of at_load.flow_steps))
        ≡ true)
decide_move-starts_example =
    decide_move-starts tiny empty_object at_load.flow_steps load load_is_due

abbrev undoable : List FlowStep
undoable =
    record fetch { compensate = some (pos 1); finished_at = some 10 }
    ∷ record (ledger_step "store" StepStatus.succeeded none) {
      compensate = some (pos 1);
      finished_at = some 20;
    }
    ∷ []

load_served : served ("python" ∷ []) at_load (new_run 3 30 1 (some empty_object)) ≡ true
unfolding served
load_served = refl

launched-claimable_example :
    (k : Option String) × Memᴰ
      (record (row 3 30 load empty_object) { cache_key = k })
      (in_flight engine 30 1 load none empty_object at_load).runs
    × (eligible
          ("python" ∷ [])
          unlocked
          (in_flight engine 30 1 load none empty_object at_load)
          (record (row 3 30 load empty_object) { cache_key = k })
        ≡ true)
    × ((claim_run 31
          ("python" ∷ [])
          unlocked
          (in_flight engine 30 1 load none empty_object at_load)).0
        ≢ none)
launched-claimable_example =
    launched-claimable engine 30 31 1 load none empty_object ("python" ∷ []) unlocked at_load refl
      load_served refl

-- The engine died while `load` ran, and `report` waits for it.
abbrev left_steps : List FlowStep
left_steps =
    fetch
    ∷ record load { status = StepStatus.running }
    ∷ record (ledger_step "report" StepStatus.pending none) { depends_on = "load" ∷ [] }
    ∷ []

abbrev left_behind : Db
left_behind = record two_pending {
  flow_runs =
      record {
        id = 1;
        flow_id = 1;
        status = FlowStatus.running;
        input = some empty_object;
        created_at = 0;
        started_at = some 1;
        finished_at = none;
        idempotency_key = none;
      }
      ∷ [];
  flow_steps = left_steps;
}

left : IsLeft (flow_steps 1 left_behind)
unfolding flow_steps filter outputs_of skipped_of
left = record { running = refl; not_failed = refl; not_expanded = refl; waiting = (refl, tt) }

drive_inner-never_ends_example :
    let claimed = (claim_flow_run 2000 unlocked (reap_orphan_flow_runs 2000 600 left_behind).1).1 in
    ((drive_inner engine 1 empty_object (λ i. 2000 + i) 100 0 claimed).0 ≡ none)
    × ((drive_inner engine 1 empty_object (λ i. 2000 + i) 100 0 claimed).1.flow_steps
        ≡ left_behind.flow_steps)
drive_inner-never_ends_example =
    drive_inner-never_ends engine 1 empty_object (λ i. 2000 + i) 2000 600 100 unlocked left_behind
      left
