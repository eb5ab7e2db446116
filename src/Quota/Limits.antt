-- ===== src/Quota/Limits.antt =====
-- When an enqueue is refused, and why.
use dokan.Prelude.{ℕ, ◌+◌, ◌<◌, String, ◌≡◌, ◌↔◌, none, some, true, arith}
use dokan.Prelude.Int.{pos, ◌<ℤ◌}
use dokan.Db.{Run, Db}
use dokan.Db.Runs.{opt_eq}
use dokan.Db.Queue.{agent_running_count}
use dokan.Quota.{agent_budget_window, decide, agent_compute_seconds, service_time, check}

-- The two-query check gives the answer of the decision on both measurements.
check-decide :
    (agent : String) (now : ℕ) (db : Db)
    → check agent now db
      ≡ decide
          (agent_running_count agent db)
          (agent_compute_seconds agent now agent_budget_window db)
unfolding check
check-decide agent now db = ground arith

-- An agent may enqueue exactly when fewer than 25 of its runs are pending or running, and its runs
-- took less than an hour of compute in the last day.
pub check-none_iff :
    (agent : String) (now : ℕ) (db : Db)
    → (check agent now db ≡ none) ↔ (
        (agent_running_count agent db < 25)
        × (agent_compute_seconds agent now agent_budget_window db <ℤ pos 3600000000))
check-none_iff agent now db = rw check-decide (unfold decide in ground arith)

-- A retried run keeps the time of its failed attempt while it runs again: its new start lies behind
-- that time, and the run counts for less than nothing in the agent's compute.
pub service_time_negative :
    (agent : String) (now window started ended : ℕ) (r : Run)
    → opt_eq r.agent_id agent ≡ true
    → r.finished_at ≡ some ended
    → r.started_at ≡ some started
    → ended < started
    → now < ended + window
    → service_time agent now window r <ℤ pos 0
service_time_negative agent now window started ended r a f s h w = ground arith
