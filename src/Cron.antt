-- ===== src/Cron.antt =====
-- src/cron.rs: one tick of a schedule, and the table of live tickers. Cron expressions and time
-- zones are the work of croner and chrono-tz.
pub mod Ticks
pub mod Bounds
pub mod Tickers
use Prim.Native.String.{◌++◌}
use dokan.Prelude.{
  ℕ, String, Bool, true, false, Option, none, some, List, [], ◌∷◌, if◌then◌else◌, decimal, ◌==◌,
}
use dokan.Json.{Value}
use dokan.Db.{Schedule, Db}
use dokan.Db.Runs.{insert_run_idempotent, insert_run_with_blobs, insert_refused_run}
use dokan.Db.Scripts.{set_schedule_enabled}
use dokan.Prelude.Int.{ℤ}
use dokan.Quota.{Refusal, reason, check}

-- How a number of seconds is printed, and which queries of the tick fail.
pub record Host : Type 0 where
  pub whole_seconds : ℤ → String
  pub check_fails : Bool
  pub insert_fails : Bool

unfoldable pub tick_key : ℕ → ℕ → String
tick_key schedule_id tick_epoch =
    "schedule:" ++ (decimal schedule_id ++ (":" ++ decimal tick_epoch))

unfoldable pub key_of : Schedule → ℕ → Option String
key_of s tick_epoch = if s.idempotency then some (tick_key s.id tick_epoch) else none

module _ (host : Host) where
  abbrev created_only : Option (ℕ × Bool) → Option ℕ
  created_only (some (id, true)) = some id
  created_only _ = none

  -- The insert of an accepted tick. A query that fails is logged, and enqueues nothing.
  unfoldable pub enqueue : ℕ → Schedule → Option String → Db → Option ℕ × Db
  enqueue now s (some k) db =
      let (answer, db') =
        insert_run_idempotent now s.script_id s.input s.agent_id s.input_blobs s.capture_output k
          db in
      if host.insert_fails then (none, db) else (created_only answer, db')
  enqueue now s none db =
      if host.insert_fails
      then (none, db)
      else insert_run_with_blobs now s.script_id s.input s.agent_id s.input_blobs s.capture_output
          db

  -- A refused tick is recorded as a failed run that never started.
  unfoldable pub record_refusal : ℕ → Schedule → Option String → Refusal → Db → Db
  record_refusal now s key refusal db =
      if host.insert_fails
      then db
      else (insert_refused_run now s.script_id s.input s.agent_id
          (reason host.whole_seconds refusal) key db).1

  unfoldable pub checked : ℕ → Schedule → Option String → Option Refusal → Db → Option ℕ × Db
  unfolding enqueue record_refusal
  checked now s key none db = enqueue now s key db
  checked now s key (some refusal) db = (none, record_refusal now s key refusal db)

  -- The quota is read from the tables as they were `seen`, the insert works on those of its own time.
  unfoldable pub for_agent : ℕ → Schedule → Option String → Option String → Db → Db → Option ℕ × Db
  unfolding checked
  for_agent now s key none seen db = enqueue now s key db
  for_agent now s key (some agent) seen db =
      if host.check_fails then (none, db) else checked now s key (check agent now seen) db

  -- `between`: what other daemons and tasks do after the check and before the insert, which are
  -- queries of their own without a lock.
  unfoldable pub enqueue_tick : ℕ → Schedule → ℕ → (Db → Db) → Db → Option ℕ × Db
  unfolding for_agent key_of
  enqueue_tick now s tick_epoch between db =
      for_agent now s (key_of s tick_epoch) s.agent_id db (between db)
