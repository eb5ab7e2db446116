-- ===== src/Db/Lifecycle.antt =====
-- The queries of src/db.rs on `runs` as the steps of one shared table: workers, the engine, the
-- cron ticker, the operator and the sweeps take them in any order.
pub mod Tables
pub mod Rows
pub mod Identity
pub mod Keys
use dokan.Prelude.{ℕ, String, Bool, ◌≡◌, Option, some, List}
use dokan.Prelude.Int.{ℤ}
use dokan.Json.{Value}
use dokan.Db.{Status, Settings, Stream, Db}
use dokan.Db.Scripts.{
  insert_script, update_script, update_script_meta, ScheduleOpts, insert_trigger, delete_trigger,
  insert_schedule, set_schedule_enabled, set_script_secrets,
}
use dokan.Db.Runs.{
  insert_run_with_blobs, insert_run_idempotent, insert_refused_run, finish_run, cancel_run,
  set_run_result, set_run_output_blobs, update_run_progress, set_run_cache_key,
}
use dokan.Db.Queue.{
  claim_run, mark_attempt, requeue, reap_orphan_runs, touch_run, fail_stale_pending,
}
use dokan.Db.Receipts.{set_run_receipt}
use dokan.Db.Retention.{append_log, append_logs_batch, put_blob, get_blob, gc_old, delete_script}
use dokan.Db.Triggers.{fire_triggers}

-- The callers of `finish_run` pass one of these two texts.
pub data Ends : Status → Type 0 where
  well : Ends Status.succeeded
  badly : Ends Status.failed

pub data Step (db : Db) : Db → Type 0 where
  insert :
      (now script_id : ℕ) (input : Value) (agent : Option String) (blobs : Option Value)
      (capture : Bool)
      → Step db (insert_run_with_blobs now script_id input agent blobs capture db).1
  insert_idempotent :
      (now script_id : ℕ) (input : Value) (agent : Option String) (blobs : Option Value)
      (capture : Bool) (key : String)
      → Step db (insert_run_idempotent now script_id input agent blobs capture key db).1
  insert_refused :
      (now script_id : ℕ) (input : Value) (agent : Option String) (reason : String)
      (key : Option String)
      → Step db (insert_refused_run now script_id input agent reason key db).1
  fire :
      (contains : Value → Value → Bool) (now run_id : ℕ) (result : Value)
      → Step db (fire_triggers contains now run_id result db).1
  claim :
      (now : ℕ) (caps : List String) (locked : ℕ → Bool) → Step db (claim_run now caps locked db).1
  attempt : (run_id : ℕ) → Step db (mark_attempt run_id db).1
  touch : (now run_id : ℕ) → Step db (touch_run now run_id db)
  finish :
      (now run_id : ℕ) {status : Status} (code : Option ℤ) (error : Option String)
      → Ends status
      → Step db (finish_run now run_id status code error db)
  cancel : (now run_id : ℕ) (reason : String) → Step db (cancel_run now run_id reason db).1
  retry : (run_id : ℕ) → Step db (requeue run_id db)
  reap : (now lease : ℕ) → Step db (reap_orphan_runs now lease db).1
  fail_stale : (now max_age : ℕ) → Step db (fail_stale_pending now max_age db).1
  result : (run_id : ℕ) (v : Value) → Step db (set_run_result run_id v db)
  outputs : (run_id : ℕ) (v : Value) → Step db (set_run_output_blobs run_id v db)
  progress : (run_id : ℕ) (msg : String) → Step db (update_run_progress run_id msg db)
  cache : (run_id : ℕ) (key : String) → Step db (set_run_cache_key run_id key db)
  delete : (script_id : ℕ) → Step db (delete_script script_id db).1
  upload : (name source : String) (s : Settings) → Step db (insert_script name source s db).1
  upgrade : (id : ℕ) (source : String) (s : Settings) → Step db (update_script id source s db).1
  retune : (id : ℕ) (s : Settings) → Step db (update_script_meta id s db).1
  arm :
      (source : ℕ) (predicate : Value) (target : ℕ) (agent : Option String)
      → Step db (insert_trigger source predicate target agent db).1
  disarm : (id : ℕ) → Step db (delete_trigger id db).1
  schedule :
      (script_id : ℕ) (cron : String) (input : Value) (opts : ScheduleOpts)
      → Step db (insert_schedule script_id cron input opts db).1
  enable : (id : ℕ) (on : Bool) → Step db (set_schedule_enabled id on db).1
  receipt : (run_id : ℕ) (v : Value) → Step db (set_run_receipt run_id v db)
  allow :
      (script_id : ℕ) (names : Option (List String))
      → Step db (set_script_secrets script_id names db)
  log :
      {u : Db} (run_id seq : ℕ) (stream : Stream) (line : String)
      → append_log run_id seq stream line db ≡ some u
      → Step db u
  log_batch :
      {u : Db} (run_id : ℕ) (rows : List (ℕ × Stream × String))
      → append_logs_batch run_id rows db ≡ some u
      → Step db u
  store :
      (sha256_hex : List ℕ → String) (now : ℕ) (bytes : List ℕ)
      → Step db (put_blob sha256_hex now bytes db).1
  fetch : (now : ℕ) (sha : String) → Step db (get_blob now sha db).1
  collect : (now age : ℕ) → Step db (gc_old now age db).1

pub data Reach (db : Db) : Db → Type 0 where
  here : Reach db db
  next : {t u : Db} → Reach db t → Step t u → Reach db u

-- What every step keeps, every run of the system keeps.
pub Reach-keeps :
    (P : Db → Type 0) → ((t u : Db) → Step t u → P t → P u) → {s t : Db} → Reach s t → P s → P t
Reach-keeps P keep here h = h
Reach-keeps P keep (next r st) h = keep _ _ st (Reach-keeps P keep r h)
