-- ===== src/Quota.antt =====
-- src/quota.rs: the limits on what an agent may enqueue. Seconds of compute are microseconds here,
-- the resolution of PostgreSQL's intervals; a negative total is possible.
pub mod Limits
use Prim.Native.String.{◌++◌}
use dokan.Prelude.{
  ℕ, ◌+◌, ◌*◌, String, Option, none, some, Bool, List, [], ◌∷◌, ◌&&◌, ltb, leb, if◌then◌else◌,
  decimal,
}
use dokan.Prelude.Int.{ℤ, pos, sub_ℕ, leb_ℤ, ◌+ℤ◌}
use dokan.Db.{Run, Db}
use dokan.Db.Runs.{opt_eq}
use dokan.Db.Queue.{agent_running_count}

abbrev pub agent_max_concurrent : ℕ
agent_max_concurrent = 25

abbrev pub agent_compute_budget : ℕ
agent_compute_budget = 3600 * 1000000

abbrev pub agent_budget_window : ℕ
agent_budget_window = 86400 * 1000000

-- Why an enqueue was refused.
pub data Refusal : Type 0 where
  concurrency : (in_flight : ℕ) → Refusal
  budget : (spent : ℤ) → Refusal

unfoldable pub code : Refusal → String
code (concurrency _) = "quota_exceeded"
code (budget _) = "budget_exceeded"

-- `whole_seconds` prints a number of microseconds as seconds without a fraction, `{spent:.0}`.
unfoldable pub reason : (ℤ → String) → Refusal → String
reason whole_seconds (concurrency in_flight) =
    "quota_exceeded: "
    ++ (decimal in_flight ++ (" runs in flight (limit " ++ (decimal agent_max_concurrent ++ ")")))
reason whole_seconds (budget spent) =
    "budget_exceeded: "
    ++ (whole_seconds spent
        ++ (" s of compute in 24 h (budget "
            ++ (whole_seconds (pos agent_compute_budget) ++ " s)")))

unfoldable pub decide : ℕ → ℤ → Option Refusal
decide in_flight spent =
    if leb agent_max_concurrent in_flight
    then some (concurrency in_flight)
    else if leb_ℤ (pos agent_compute_budget) spent
    then some (budget spent)
    else none

-- `finished_at - started_at`, of a run that was started and finished within the window.
abbrev pub service_span : ℕ → ℕ → Option ℕ → Option ℕ → ℤ
service_span now window (some s) (some f) = if ltb now (f + window) then sub_ℕ f s else pos 0
service_span now window _ _ = pos 0

abbrev pub service_time : String → ℕ → ℕ → Run → ℤ
service_time agent now window r =
    if opt_eq r.agent_id agent then service_span now window r.started_at r.finished_at else pos 0

total : (Run → ℤ) → List Run → ℤ
total f [] = pos 0
total f (r ∷ rs) = f r +ℤ total f rs

-- `COALESCE(sum(finished_at - started_at), 0)` over the window.
unfoldable pub agent_compute_seconds : String → ℕ → ℕ → Db → ℤ
unfolding total ◌+ℤ◌
agent_compute_seconds agent now window db = total (service_time agent now window) db.runs

-- The concurrency limit is looked at first, without the second query.
unfoldable pub check : String → ℕ → Db → Option Refusal
unfolding decide
check agent now db =
    let in_flight = agent_running_count agent db in
    if leb agent_max_concurrent in_flight
    then decide in_flight (pos 0)
    else decide in_flight (agent_compute_seconds agent now agent_budget_window db)
