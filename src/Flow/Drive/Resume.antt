-- ===== src/Flow/Drive/Resume.antt =====
-- A flow run that was reclaimed from an engine that died while a step of it was running.
use dokan.Prelude.{
  ℕ, zero, suc, String, Bool, true, false, ◌≡◌, refl, inl, inr, none, List, [], ◌∷◌, any, filter,
  All, arith, Option-cases,
}
use dokan.Json.{Value}
use dokan.Db.{StepStatus, FlowStep, Db}
use dokan.Db.Flows.Drive.{
  flow_steps, touch_flow_run, claim_flow_run, reap_orphan_flow_runs, first_waiting,
}
use dokan.Flow.{is_active, has_failed}
use dokan.Flow.Engine.{Engine}
use dokan.Flow.Drive.{
  Outcome, Resolved, resolve_all, resolve, continue, aggregate_all, pass_over, pass, drive_inner,
}
use dokan.Flow.Moves.{is_to_do, is_expanded, is_ready, outputs_of, skipped_of, decide_move}

abbrev pub is_running_step : StepStatus → Bool
is_running_step StepStatus.running = true
is_running_step _ = false

-- A step is marked running, none failed, no fan-out is open, and each pending step waits for a
-- dependency.
pub record IsLeft (steps : List FlowStep) : Type 0 where
  pub running : any (λ s. is_running_step s.status) steps ≡ true
  pub not_failed : any (λ s. has_failed s.status) steps ≡ false
  pub not_expanded : filter (λ s. is_expanded s.status) steps ≡ []
  pub waiting :
      All
        (λ s. is_ready (outputs_of steps) (skipped_of steps) s ≡ false)
        (filter (λ s. is_to_do s.status) steps)

running-active :
    (steps : List FlowStep)
    → any (λ s. is_running_step s.status) steps ≡ true
    → any (λ s. is_active s.status) steps ≡ true
running-active [] h = absurd (ground arith)
running-active (st ∷ steps) h = ground (arith, running-active steps)

module _ (engine : Engine) (now fr : ℕ) (input : Value) where
  resolve_all-waits :
      (outputs : List (String × String)) (skipped : List String) (sts : List FlowStep)
      (r : Resolved)
      → All (λ s. is_ready outputs skipped s ≡ false) sts
      → resolve_all engine now fr input outputs skipped sts r ≡ r
  unfolding resolve_all decide_move
  resolve_all-waits outputs skipped [] r h = refl
  resolve_all-waits outputs skipped (st ∷ sts) r (h, hs) =
      rw h (resolve_all-waits outputs skipped sts r hs)

  -- The pass finds nothing to do.
  pass-idles :
      (db : Db)
      → IsLeft (flow_steps fr db)
      → pass engine now fr input db ≡ (Outcome.idle, touch_flow_run now fr db)
  unfolding pass pass_over resolve continue aggregate_all flow_steps touch_flow_run
  pass-idles db left =
      rw
        (
          left.not_failed,
          running-active (flow_steps fr db) left.running,
          left.not_expanded,
          resolve_all-waits (outputs_of (flow_steps fr db)) (skipped_of (flow_steps fr db)) _
              (record { progressed = false; to_run = []; state = touch_flow_run now fr db })
              left.waiting,
        )
        refl

module _ (engine : Engine) (fr : ℕ) (input : Value) (clock : ℕ → ℕ) where
  drive-unfinished :
      (passes i : ℕ) (db : Db)
      → IsLeft (flow_steps fr db)
      → ((drive_inner engine fr input clock passes i db).0 ≡ none)
        × ((drive_inner engine fr input clock passes i db).1.flow_steps ≡ db.flow_steps)
  unfolding drive_inner touch_flow_run flow_steps
  drive-unfinished zero i db left = (refl, refl)
  drive-unfinished (suc passes) i db left =
      rw (pass-idles engine (clock i) fr input db left)
        (drive-unfinished passes (suc i) (touch_flow_run (clock i) fr db) left)

-- An engine dies while a step of its flow run is running, and the flow run is reclaimed: reaped,
-- and claimed again. If no step failed, no fan-out is open and each pending step waits for
-- another, the new driver has not finished after any number of passes, and every step is as the
-- dead engine left it.
pub drive_inner-never_ends :
    (engine : Engine) (fr : ℕ) (input : Value) (clock : ℕ → ℕ) (now lease passes : ℕ)
    (locked : ℕ → Bool) (db : Db)
    → IsLeft (flow_steps fr db)
    → let claimed = (claim_flow_run now locked (reap_orphan_flow_runs now lease db).1).1 in
      ((drive_inner engine fr input clock passes 0 claimed).0 ≡ none)
      × ((drive_inner engine fr input clock passes 0 claimed).1.flow_steps ≡ db.flow_steps)
unfolding flow_steps claim_flow_run reap_orphan_flow_runs
drive_inner-never_ends engine fr input clock now lease passes locked db left =
    let reaped = (reap_orphan_flow_runs now lease db).1 in
    elim (Option-cases (first_waiting locked reaped.flow_runs)) [
      | inl e ↦ rw (e, claim_flow_run) (drive-unfinished engine fr input clock passes 0 reaped left)
      | inr (r, e) ↦ rw (e, claim_flow_run) (drive-unfinished engine fr input clock passes 0 _ left)
    ]
