-- ===== src/Mcp/Runs.antt =====
-- src/mcp.rs, `run_script` and `cancel`: a call enqueues a run, or recalls one, or is refused.
pub mod Enqueued
use dokan.Prelude.{
  ℕ, String, Bool, true, false, Option, none, some, List, [], ◌∷◌, is_empty, trim, if◌then◌else◌,
}
use dokan.Prelude.Int.{ℤ}
use dokan.Prelude.Result.{Result}
use dokan.Json.{Value, Fields}
use dokan.Db.{Status, Run, Script, Db}
use dokan.Db.Scripts.{get_script}
use dokan.Db.Runs.{insert_run_with_blobs, insert_run_idempotent, set_run_cache_key, cancel_run}
use dokan.Db.Queue.{find_cached_run, find_run_by_idempotency}
use dokan.Quota.{Refusal, check}
use dokan.Mcp.{Printer, FileError, destringify, resolve_files, run_cache_key}

pub record RunArgs : Type 0 where
  pub script_id : ℕ
  pub input : Option Value
  pub agent_id : String
  pub files : List (String × String)
  pub capture_output : Bool
  pub cache : Bool
  pub idempotency_key : Option String

pub data RunAnswer : Type 0 where
  pending : ℕ → Option String → RunAnswer
  recalled : ℕ → Option ℤ → String → Option Value → RunAnswer
  idempotent : ℕ → Status → RunAnswer
  script_not_found : RunAnswer
  bad_files : FileError → RunAnswer
  agent_id_required : RunAnswer
  refused : Refusal → RunAnswer
  internal_error : RunAnswer

-- What the call takes from the daemon: the printer of JSON, the hash, and the digests of images.
pub record Daemon : Type 0 where
  pub printer : Printer
  pub sha256_hex : List ℕ → String
  pub image_digest : String → Option String

abbrev or_empty_object : Option Value → Value
or_empty_object none = Value.object Fields.end
or_empty_object (some v) = v

abbrev text_or_empty : Option String → String
text_or_empty none = ""
text_or_empty (some s) = s

abbrev status_or : Option (ℕ × Status) → Status
status_or none = Status.pending
status_or (some (id, st)) = st

abbrev mark_key : ℕ → Option String → Db → Db
mark_key id none db = db
mark_key id (some key) db = set_run_cache_key id key db

module _ (daemon : Daemon) (now : ℕ) (a : RunArgs) where
  abbrev created : Option String → Option ℕ × Db → RunAnswer × Db
  created key (none, db) = (RunAnswer.internal_error, db)
  created key (some id, db) = (RunAnswer.pending id key, mark_key id key db)

  abbrev inserted_once : Option String → String → Option (ℕ × Bool) × Db → RunAnswer × Db
  inserted_once key idem (none, db) = (RunAnswer.internal_error, db)
  inserted_once key idem (some (id, true), db) = (RunAnswer.pending id key, mark_key id key db)
  inserted_once key idem (some (id, false), db) =
      (RunAnswer.idempotent id (status_or (find_run_by_idempotency idem db)), db)

  abbrev insert_as : Option String → Option String → Value → Option Value → Db → RunAnswer × Db
  insert_as none key input blobs db = created key (
      insert_run_with_blobs now a.script_id input (some (trim a.agent_id)) blobs a.capture_output
        db)
  insert_as (some idem) key input blobs db = inserted_once key idem (
      insert_run_idempotent now a.script_id input (some (trim a.agent_id)) blobs a.capture_output
        idem db)

  abbrev within_quota : Option Refusal → RunAnswer × Db → Db → RunAnswer × Db
  within_quota none go db = go
  within_quota (some r) go db = (RunAnswer.refused r, db)

  -- Behind the cache: the agent, its quota, the insert.
  unfoldable pub enqueue : Option String → Value → Option Value → Db → RunAnswer × Db
  unfolding trim is_empty check insert_run_with_blobs insert_run_idempotent find_run_by_idempotency
      set_run_cache_key
  enqueue key input blobs db =
      if is_empty (trim a.agent_id)
      then (RunAnswer.agent_id_required, db)
      else within_quota (check (trim a.agent_id) now db)
          (insert_as a.idempotency_key key input blobs db) db

  abbrev recall_or : String → Option Run → RunAnswer × Db → Db → RunAnswer × Db
  recall_or key none go db = go
  recall_or key (some r) go db = (RunAnswer.recalled r.id r.exit_code key r.result, db)

  -- The secrets enter the key by their generation.
  abbrev pub cache_key : Script → Value → Option Value → Db → String
  cache_key s input blobs db =
      run_cache_key daemon.sha256_hex daemon.printer s.runtime
        (text_or_empty (daemon.image_digest s.runtime)) s.source input db.secrets_generation blobs

  unfoldable pub recall_or_enqueue : Script → Value → Option Value → Db → RunAnswer × Db
  unfolding run_cache_key find_cached_run enqueue
  recall_or_enqueue s input blobs db =
      let key = cache_key s input blobs db in
      if a.cache
      then recall_or key (find_cached_run key db) (enqueue (some key) input blobs db) db
      else enqueue none input blobs db

  abbrev with_files : Script → Result (Option Value) FileError → Db → RunAnswer × Db
  with_files s (Result.err e) db = (RunAnswer.bad_files e, db)
  with_files s (Result.ok blobs) db =
      recall_or_enqueue s (destringify daemon.printer (or_empty_object a.input)) blobs db

  abbrev of_script : Option Script → Db → RunAnswer × Db
  of_script none db = (RunAnswer.script_not_found, db)
  of_script (some s) db = with_files s (resolve_files db a.files) db

  unfoldable pub run_script : Db → RunAnswer × Db
  unfolding get_script resolve_files destringify recall_or_enqueue
  run_script db = of_script (get_script a.script_id db) db

-- Whether the run was canceled; the answer of any other run is "already_succeeded".
unfoldable pub cancel : ℕ → ℕ → Db → Bool × Db
unfolding cancel_run
cancel now run_id db = cancel_run now run_id "canceled by operator" db
