-- ===== src/Mcp/Scripts.antt =====
-- src/mcp.rs: the tools on scripts, triggers and blobs. An answer is a value of `Answer`; the texts of
-- hints and messages are output only.
pub mod Upsert
use dokan.Prelude.{
  ℕ, String, Bool, true, false, ◌&&◌, Option, none, some, List, [], ◌∷◌, length, str_eq,
  if◌then◌else◌,
}
use dokan.Prelude.Int.{ℤ}
use dokan.Prelude.Result.{Result}
use dokan.Json.{Value, Fields}
use dokan.Db.{Settings, Script, Db}
use dokan.Db.Scripts.{
  insert_script, get_script, find_script_by_name, update_script, update_script_meta, insert_trigger,
  delete_trigger, set_script_secrets,
}
use dokan.Db.Retention.{
  DeleteResult, not_found, blocked_by_flow, deleted, delete_script, put_blob, get_blob,
}
use dokan.Mcp.{validate_timeout, validate_blob_bytes}

pub record UploadArgs : Type 0 where
  pub name : String
  pub source : String
  pub settings : Settings
  pub upsert : Bool
  pub secrets : Option (List String)

pub data UploadStatus : Type 0 where
  uploaded updated metadata_updated unchanged : UploadStatus

-- `uploaded` with the identifier of another script of that name is the warning.
pub data UploadAnswer : Type 0 where
  script : ℕ → ℕ → UploadStatus → Option ℕ → UploadAnswer
  invalid_timeout : String → UploadAnswer
  internal_error : UploadAnswer

abbrev pub with_secrets : Option (List String) → ℕ → Db → Db
with_secrets none id db = db
with_secrets (some names) id db = set_script_secrets id (some names) db

abbrev id_of : Option Script → Option ℕ
id_of none = none
id_of (some s) = some s.id

abbrev meta_status : Bool → UploadStatus
meta_status true = UploadStatus.metadata_updated
meta_status false = UploadStatus.unchanged

module _ (a : UploadArgs) where
  -- The script of that name is updated in place.
  abbrev pub same_source : Script → Db → UploadAnswer × Db
  same_source s db =
      let (changed, db2) = update_script_meta s.id a.settings db in
      (
        UploadAnswer.script s.id s.version (meta_status changed) none,
        with_secrets a.secrets s.id db2,
      )

  abbrev pub answer_update : ℕ → Option ℕ × Db → UploadAnswer × Db
  answer_update id (none, db) = (UploadAnswer.internal_error, db)
  answer_update id (some version, db) =
      (UploadAnswer.script id version UploadStatus.updated none, with_secrets a.secrets id db)

  unfoldable pub reprovision : Script → Db → UploadAnswer × Db
  unfolding update_script_meta update_script set_script_secrets
  reprovision s db =
      if str_eq s.source a.source
      then same_source s db
      else answer_update s.id (update_script s.id a.source a.settings db)

  unfoldable pub plain_upload : Db → UploadAnswer × Db
  unfolding insert_script find_script_by_name set_script_secrets
  plain_upload db =
      let prior = id_of (find_script_by_name a.name db) in
      let ((id, version), db2) = insert_script a.name a.source a.settings db in
      (UploadAnswer.script id version UploadStatus.uploaded prior, with_secrets a.secrets id db2)

  abbrev upload_as : Option Script → Db → UploadAnswer × Db
  upload_as none db = plain_upload db
  upload_as (some s) db = reprovision s db

  abbrev if_upsert : Bool → Option Script → Option Script
  if_upsert true o = o
  if_upsert false o = none

  abbrev pub timed : Result (Unit {0}) String → Db → UploadAnswer × Db
  timed (Result.err e) db = (UploadAnswer.invalid_timeout e, db)
  timed (Result.ok _) db = upload_as (if_upsert a.upsert (find_script_by_name a.name db)) db

  unfoldable pub upload_script : ℕ → Db → UploadAnswer × Db
  unfolding validate_timeout reprovision plain_upload find_script_by_name
  upload_script max_timeout db = timed (validate_timeout a.settings.timeout_secs max_timeout) db

pub data TriggerAnswer : Type 0 where
  armed : ℕ → TriggerAnswer
  no_script : ℕ → TriggerAnswer
  predicate_must_be_object : TriggerAnswer
  trigger_error : TriggerAnswer

abbrev is_object : Value → Bool
is_object (Value.object fs) = true
is_object _ = false

abbrev or_empty_object : Option Value → Value
or_empty_object none = Value.object Fields.end
or_empty_object (some v) = v

abbrev is_there : Option Script → Bool
is_there none = false
is_there (some s) = true

abbrev answer_trigger : Option ℕ × Db → TriggerAnswer × Db
answer_trigger (none, db) = (TriggerAnswer.trigger_error, db)
answer_trigger (some id, db) = (TriggerAnswer.armed id, db)

unfoldable pub on_result : ℕ → Option Value → ℕ → Option String → Db → TriggerAnswer × Db
unfolding get_script insert_trigger
on_result source predicate target agent_id db =
    if is_there (get_script source db)
    then (if is_there (get_script target db)
        then (if is_object (or_empty_object predicate)
            then answer_trigger
                (insert_trigger source (or_empty_object predicate) target agent_id db)
            else (TriggerAnswer.predicate_must_be_object, db))
        else (TriggerAnswer.no_script target, db))
    else (TriggerAnswer.no_script source, db)

-- Base64 of the caller is decoded by the base64 crate: `none` is its error.
pub data BlobAnswer : Type 0 where
  stored : String → ℕ → BlobAnswer
  not_base64 : BlobAnswer
  bad_size : String → BlobAnswer

abbrev sized : Result (Unit {0}) String → (String × ℕ) × Db → Db → BlobAnswer × Db
sized (Result.err e) after db = (BlobAnswer.bad_size e, db)
sized (Result.ok _) ((sha, size), u) db = (BlobAnswer.stored sha size, u)

unfoldable pub upload_blob :
    (String → Option (List ℕ)) → (List ℕ → String) → ℕ → String → Db → BlobAnswer × Db
unfolding validate_blob_bytes put_blob
upload_blob b64_decode sha256_hex now text db = elim (b64_decode text) [
  | none ↦ (BlobAnswer.not_base64, db)
  | some bytes ↦ sized (validate_blob_bytes (length bytes)) (put_blob sha256_hex now bytes db) db
]

abbrev encoded : (List ℕ → String) → Option (List ℕ) × Db → Option (String × ℕ) × Db
encoded b64_encode (none, db) = (none, db)
encoded b64_encode (some bytes, db) = (some (b64_encode bytes, length bytes), db)

-- `none`: the handle is unknown.
unfoldable pub download_blob : (List ℕ → String) → ℕ → String → Db → Option (String × ℕ) × Db
unfolding get_blob
download_blob b64_encode now handle db = encoded b64_encode (get_blob now handle db)
