-- ===== src/Cron/Tickers.antt =====
-- src/cron.rs, `Cron`: the tickers of the schedules. A ticker is a job of tokio-cron-scheduler or a
-- task of its own; here both are numbers. An aborted task is gone at once; the removal of a job that
-- was spawned is a step of its own, which may come late or never. A call of `add` or `remove` is one
-- step.
pub mod Live
use dokan.Prelude.{
  ℕ, suc, String, Bool, true, false, not, ◌&&◌, Option, none, some, List, [], ◌∷◌, filter, ltb,
  ◌==◌, if◌then◌else◌,
}
use dokan.Db.{Schedule, Db}
use dokan.Db.Scripts.{set_schedule_enabled, enabled_schedules}

pub data Ticker : Type 0 where
  utc zoned : ℕ → Ticker

abbrev pub handle : Ticker → ℕ
handle (utc n) = n
handle (zoned n) = n

-- A ticker that runs, and its schedule.
pub record Task : Type 0 where
  pub ticker : Ticker
  pub schedule : ℕ

-- `tasks` is what runs in the process, `jobs` the source's map, and `leaving` the jobs whose removal
-- was asked for, and may be under way, done, or have failed.
pub record Cron : Type 0 where
  pub db : Db
  pub jobs : List (ℕ × Ticker)
  pub tasks : List Task
  pub leaving : List Ticker
  pub next_ticker : ℕ

unfoldable pub job_of : ℕ → List (ℕ × Ticker) → Option Ticker
job_of id [] = none
job_of id ((j, t) ∷ js) = if j == id then some t else job_of id js

unfoldable pub forget_job : ℕ → List (ℕ × Ticker) → List (ℕ × Ticker)
forget_job id [] = []
forget_job id ((j, t) ∷ js) = let rest = forget_job id js in if j == id then rest else (j, t) ∷ rest

abbrev pub is_task : Ticker → Task → Bool
is_task t k = handle k.ticker == handle t

abbrev pub without : Ticker → Cron → Cron
without t c = record c { tasks = filter (λ k. not (is_task t k)) c.tasks }

-- The spawned removal of a job, or the abort of a task.
abbrev pub stop : Option Ticker → Cron → Cron
stop none c = c
stop (some (utc n)) c = record c { leaving = utc n ∷ c.leaving }
stop (some (zoned n)) c = without (zoned n) c

abbrev pub ticker_for : Option String → ℕ → Ticker
ticker_for none n = utc n
ticker_for (some tz) n = zoned n

-- The new ticker runs, and stands in the map.
unfoldable pub begin : Schedule → Cron → Cron
unfolding forget_job
begin s c = record c {
  jobs = (s.id, ticker_for s.timezone c.next_ticker) ∷ forget_job s.id c.jobs;
  tasks = record { ticker = ticker_for s.timezone c.next_ticker; schedule = s.id } ∷ c.tasks;
  next_ticker = suc c.next_ticker;
}

-- `parses`: whether croner and chrono-tz take the expression and the zone. The old ticker of the
-- schedule is told to stop after the new one has taken its place.
module _ (parses : Schedule → Bool) where
  unfoldable pub add : Schedule → Cron → Bool × Cron
  unfolding begin job_of
  add s c = if parses s then (true, stop (job_of s.id c.jobs) (begin s c)) else (false, c)

  abbrev pub add_all : List Schedule → Cron → Cron
  unfolding add
  add_all [] c = c
  add_all (s ∷ ss) c = add_all ss (add s c).1

  -- A schedule that cannot be added is skipped.
  unfoldable pub start : Db → Cron
  unfolding add_all
  start db =
      add_all (enabled_schedules db)
        (record { db = db; jobs = []; tasks = []; leaving = []; next_ticker = 0 })

-- `remove` awaits the removal of a job, and ignores its error: `removes` says whether it succeeds.
abbrev pub take_away : Bool → Option Ticker → Cron → Cron
take_away removes none c = c
take_away removes (some (zoned n)) c = without (zoned n) c
take_away true (some (utc n)) c = without (utc n) c
take_away false (some (utc n)) c = record c { leaving = utc n ∷ c.leaving }

-- Whether the schedule was there.
unfoldable pub remove : Bool → ℕ → Cron → Bool × Cron
unfolding job_of forget_job
remove removes id c =
    let stopped = take_away removes (job_of id c.jobs) (record c { jobs = forget_job id c.jobs }) in
    (
      ltb 0 (set_schedule_enabled id false c.db).0,
      record stopped { db = (set_schedule_enabled id false c.db).1 },
    )
