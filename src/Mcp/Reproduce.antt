-- ===== src/Mcp/Reproduce.antt =====
-- src/mcp.rs, `verify` and `reproduce_run`: a receipt is checked, and a recorded run is executed again
-- and compared with it. `waited` is what the others make of the database while the call waits.
pub mod Reproduced
use dokan.Prelude.{
  zero, suc, ◌*◌, List, ℕ, String, Bool, true, false, not, ◌&&◌, ◌||◌, Option, none, some, is_empty,
  trim, str_eq, as_bytes, if◌then◌else◌,
}
use dokan.Prelude.Result.{Result}
use dokan.Json.{Value, get, as_str, as_bool}
use dokan.Db.{Status, Script, Db}
use dokan.Db.Scripts.{get_script}
use dokan.Db.Runs.{insert_run_with_blobs, run_status}
use dokan.Db.Receipts.{Invocation, run_receipt, run_reproduce_inputs}
use dokan.Db.Flows.{or_else, and_then}
use dokan.Receipt.{Crypto, Signer, sha256_hex, verify_hmac}
use dokan.Receipt.Verify.{VerifyReport, is_ok, verify_receipt_with, trusted_receipt_keys}
use dokan.Mcp.{canonical_input_blobs}

-- The answer of `verify`; `none` where the check of the receipt panics.
pub data VerifyAnswer : Type 0 where
  no_receipt : VerifyAnswer
  checked : Bool → VerifyReport → Bool → VerifyAnswer

pub data Verdict : Type 0 where
  reproduced : ℕ → Verdict
  diverged : ℕ → Verdict
  tampered : Verdict
  inconclusive : String → Verdict
  repro_error : Verdict

unfoldable pub exit_code : Verdict → ℕ
exit_code (Verdict.reproduced id) = 0
exit_code (Verdict.diverged id) = 6
exit_code Verdict.tampered = 5
exit_code (Verdict.inconclusive reason) = 7
exit_code Verdict.repro_error = 1

abbrev pub text_at : String → Value → String
text_at key receipt = or_else (and_then (get key receipt) as_str) ""

abbrev pub networked : Value → Bool
networked receipt = or_else (and_then (get "network" receipt) as_bool) true

-- What a reproduction compares: the hash of the result, and the files.
abbrev pub same_output : Value → Value → Bool
same_output orig repro =
    str_eq (text_at "output_sha256" repro) (text_at "output_sha256" orig)
    && str_eq (canonical_input_blobs (get "output_blobs" repro))
        (canonical_input_blobs (get "output_blobs" orig))

abbrev pub ended : Option Status → Bool
ended (some Status.succeeded) = true
ended (some Status.failed) = true
ended (some Status.canceled) = true
ended _ = false

abbrev pub ran : Option Status → Bool
ran (some Status.succeeded) = true
ran (some Status.failed) = true
ran _ = false

abbrev nonblank : Option String → Option String
nonblank none = none
nonblank (some t) = let aid = trim t in if is_empty aid then none else some aid

abbrev or_agent : Option String → Option String → String
or_agent (some a) orig = a
or_agent none (some o) = o
or_agent none none = "reproduce"

module _ (crypto : Crypto) (signer : Signer) (trusted : Option (List String)) where
  abbrev answered : Value → Option VerifyReport → Option VerifyAnswer
  answered receipt none = none
  answered receipt (some rep) =
      let hmac = verify_hmac crypto signer receipt in
      some (VerifyAnswer.checked (is_ok rep && hmac) rep hmac)

  unfoldable pub verify : ℕ → Db → Option VerifyAnswer
  unfolding run_receipt verify_receipt_with verify_hmac
  verify run_id db = elim (run_receipt run_id db) [
    | none ↦ some VerifyAnswer.no_receipt
    | some receipt ↦ answered receipt (verify_receipt_with crypto receipt trusted)
  ]

  -- Every half second the status is read, until the run has ended or the polls are used up.
  unfoldable pub poll : (Db → Db) → ℕ → ℕ → Option Status → Db → Option Status × Db
  poll waited zero run_id st db = (st, db)
  poll waited (suc n) run_id st db =
      let now = run_status run_id db in
      let rest = poll waited n run_id now (waited db) in if ended now then (now, db) else rest

  -- The new receipt against the old one.
  abbrev pub compared : Value → ℕ → Option Value → Verdict
  compared orig id none = Verdict.inconclusive "no_repro_receipt"
  compared orig id (some repro) =
      if same_output orig repro then Verdict.reproduced id else Verdict.diverged id

  abbrev pub polled : Value → ℕ → Option Status × Db → Verdict × Db
  polled orig id (st, db) =
      if ran st
      then (compared orig id (run_receipt id db), db)
      else (Verdict.inconclusive "timeout_or_unrunnable", db)

  abbrev pub inserted : (Db → Db) → ℕ → Value → Option ℕ × Db → Verdict × Db
  inserted waited timeout_secs orig (none, db) = (Verdict.repro_error, db)
  inserted waited timeout_secs orig (some id, db) =
      polled orig id (poll waited (timeout_secs * 2) id (some Status.pending) db)

  abbrev pub with_script :
      (Db → Db) → ℕ → ℕ → Option String → Value → Invocation → Option Script → Db → Verdict × Db
  with_script waited now timeout_secs agent orig inv none db =
      (Verdict.inconclusive "script_not_found", db)
  with_script waited now timeout_secs agent orig inv (some s) db =
      if str_eq (sha256_hex crypto (as_bytes s.source)) (text_at "source_sha256" orig)
      then inserted waited timeout_secs orig (
          insert_run_with_blobs now inv.script_id inv.input
            (some (or_agent (nonblank agent) inv.agent_id)) inv.input_blobs inv.capture_output db)
      else (Verdict.inconclusive "source_changed", db)

  abbrev pub with_inputs :
      (Db → Db) → ℕ → ℕ → Option String → Value → Option Invocation → Db → Verdict × Db
  with_inputs waited now timeout_secs agent orig none db =
      (Verdict.inconclusive "run_not_found", db)
  with_inputs waited now timeout_secs agent orig (some inv) db =
      with_script waited now timeout_secs agent orig inv (get_script inv.script_id db) db

  abbrev pub with_report :
      (Db → Db)
      → ℕ
      → ℕ
      → Option String
      → ℕ
      → Value
      → Option VerifyReport
      → Db
      → Option (Verdict × Db)
  with_report waited now timeout_secs agent run_id orig none db = none
  with_report waited now timeout_secs agent run_id orig (some rep) db = some (
      if is_ok rep && verify_hmac crypto signer orig
      then with_inputs waited now timeout_secs agent orig (run_reproduce_inputs run_id db) db
      else (Verdict.tampered, db))

  unfoldable pub reproduce_run : (Db → Db) → ℕ → ℕ → Option String → ℕ → Db → Option (Verdict × Db)
  unfolding run_receipt get verify_receipt_with verify_hmac run_reproduce_inputs get_script
      sha256_hex canonical_input_blobs insert_run_with_blobs poll trim is_empty
  reproduce_run waited now timeout_secs agent run_id db = elim (run_receipt run_id db) [
    | none ↦ some (Verdict.inconclusive "no_receipt", db)
    | some orig ↦
        if networked orig
        then some (Verdict.inconclusive "non_deterministic", db)
        else with_report waited now timeout_secs agent run_id orig
            (verify_receipt_with crypto orig trusted) db
  ]
