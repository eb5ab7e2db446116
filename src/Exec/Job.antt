-- ===== src/Exec/Job.antt =====
-- src/exec.rs, `exec_job`, `run_inner` and `run`: one execution of a claimed run. What Docker, the
-- warm pool and the host do in it is a `Host`, what the libraries compute is a `Libraries`.
pub mod Quiet
pub mod Pumping
pub mod Works
pub mod Outcomes
pub mod Executes
pub mod Provenance
pub mod Given
use Prim.Native.Nat.{◌^◌}
use Prim.Native.String.{[] as []ˢ, ◌++◌ as ◌++ˢ◌}
use dokan.Prelude.{
  ℕ, suc, ◌+◌, ◌*◌, ◌-◌, ◌%◌, String, Bool, true, false, not, ◌&&◌, ◌||◌, Option, none, some, List,
  [], ◌∷◌, ◌++◌, map, filter, any, ltb, leb, ◌==◌, length, str_eq, as_bytes, join, decimal,
  if◌then◌else◌,
}
use dokan.Prelude.Int.{ℤ, pos, negsuc}
use dokan.Prelude.Result.{Result}
use dokan.Json.{Value, is_some}
use dokan.Db.{Status, stderr, Db}
use dokan.Db.Runs.{finish_run, set_run_result, set_run_output_blobs}
use dokan.Db.Receipts.{set_run_receipt}
use dokan.Db.Retention.{append_log, max_log_seq}
use dokan.Db.Secrets.{run_secrets_allowlist}
use dokan.Db.Secrets.Cache.{all_secrets_for}
use dokan.Db.Triggers.{fire_triggers}
use dokan.Receipt.{Crypto, Signer, sha256_hex}
use dokan.Receipt.Build.{Finished, build_receipt}
use dokan.Exec.{runtime_spec, effective_timeout_secs}
use dokan.Exec.Pump.{Item, Ending, pumped, failed, pump_logs, interrupt_logs}
pub use dokan.Exec.Host.{
  Libraries, Executor, Job, Docker, answers, not_found, refuses, Container, warm, isolated,
  with_caps, Host, secret_allowed, injected, masked, as_i32, mem_bytes_of, stale_container,
}
use dokan.Exec.Files.{Files, Dir, materialize_input, prepare_output_dir, capture_output}

abbrev pub code_or_zero : Option ℤ → ℤ
code_or_zero none = pos 0
code_or_zero (some c) = c

abbrev pub status_of : ℤ → Status
status_of (pos n) = if n == 0 then Status.succeeded else Status.failed
status_of (negsuc n) = Status.failed

abbrev some_dir : Result String String → Result (Option String) String
some_dir (Result.ok d) = Result.ok (some d)
some_dir (Result.err e) = Result.err e

-- A result that is no JSON is kept as a text.
abbrev or_text : String → Option Value → Value
or_text s none = Value.string s
or_text s (some v) = v

abbrev pub parsed : (String → Option Value) → Option String → Option Value
parsed from_str none = none
parsed from_str (some s) = some (or_text s (from_str s))

module _ (lib : Libraries) (exec : Executor) (host : Host) (job : Job) where
  open job use {run_id, source, input, network}

  abbrev pub limit : ℕ
  limit = effective_timeout_secs job.timeout_secs exec.max_timeout_secs

  abbrev variable : String → String → String
  variable name value = name ++ˢ ("=" ++ˢ value)

  -- The environment of the job: secrets stand in it under their names.
  unfoldable pub env : List (String × String) → List String
  unfolding join decimal
  env secrets =
      (variable "DOKAN_SRC" (lib.b64_encode source)
        ∷ variable "DOKAN_INPUT" (lib.to_string input)
        ∷ variable "DOKAN_RUN_ID" (decimal run_id)
        ∷ "HOME=/tmp"
        ∷ map (λ s. variable s.0 s.1) secrets)
      ++ variable "DOKAN_SECRET_NAMES" (join "," (map (λ s. s.0) secrets)) ∷ []

  abbrev pub ended : Option Db → (Db → Db) → Db → Result (Unit {0}) String × Db
  ended none finish db = (Result.err lib.db_error, db)
  ended (some db2) finish db = (Result.ok tt, finish db2)

  -- A failure that ends the run here, with a line of its own in the log.
  unfoldable pub end_failed : String → String → Db → Result (Unit {0}) String × Db
  unfolding append_log max_log_seq finish_run
  end_failed line error db =
      ended (append_log run_id (suc (max_log_seq run_id db)) stderr line db)
        (finish_run host.now run_id Status.failed none (some error)) db

  abbrev pub or_nothing : Result (Option Value) String × Db → Option Value × Db
  or_nothing (Result.ok o, db) = (o, db)
  or_nothing (Result.err e, db) = (none, db)

  -- The files of /output; a fault in the capture does not fail the run.
  unfoldable pub outputs : Option String → Db → Option Value × Db
  unfolding capture_output sha256_hex
  outputs none db = (none, db)
  outputs (some dir) db =
      or_nothing (capture_output (sha256_hex lib.crypto) host.now host.output db)

  abbrev pub written : Bool → (Value → Db → Db) → Option Value → Db → Bool × Db
  written succeeds write none db = (true, db)
  written true write (some v) db = (true, write v db)
  written false write (some v) db = (false, db)

  abbrev pub finished_run : String → Option Value → ℤ → Option Value → Db → Finished
  finished_run image result exit_code output_blobs db = record {
    run_id = run_id;
    image = image;
    image_digest = exec.image_digest image;
    source = source;
    input = input;
    result = result;
    exit_code = exit_code;
    network = network;
    input_blobs = job.input_blobs;
    output_blobs = output_blobs;
    secrets_generation = pos db.secrets_generation;
  }

  abbrev pub receipt_of : String → Option Value → ℤ → Option Value → Db → Value
  receipt_of image result exit_code output_blobs db =
      build_receipt lib.crypto exec.signer lib.to_string lib.version
        (finished_run image result exit_code output_blobs db)

  abbrev pub fire : Option Value → Db → Db
  fire none db = db
  fire (some r) db = (fire_triggers lib.contains host.now run_id r db).1

  -- The outputs and the result of a run that has its exit code, then its receipt, which is recorded
  -- only if they were; then the triggers.
  unfoldable pub record_provenance : String → Option Value → ℤ → Option Value → Db → Db
  unfolding set_run_output_blobs set_run_result set_run_receipt build_receipt fire_triggers
  record_provenance image result exit_code output_blobs db =
      let (outputs_ok, db1) =
        written host.outputs_written (set_run_output_blobs run_id) output_blobs db in
      let (result_ok, db2) = written host.result_written (set_run_result run_id) result db1 in
      let receipt = receipt_of image result exit_code output_blobs db2 in
      let db3 =
        if outputs_ok && result_ok && host.receipt_written
        then set_run_receipt run_id receipt db2
        else db2 in
      fire result db3

  unfoldable pub conclude : String → Option String → Option Value → ℤ → Db → Db
  unfolding finish_run as_i32 outputs record_provenance
  conclude image output_dir result exit_code db =
      let db1 =
        finish_run host.now run_id (status_of exit_code) (some (as_i32 exit_code)) none db in
      let (output_blobs, db2) = outputs output_dir db1 in
      record_provenance image result exit_code output_blobs db2

  abbrev pub inspected :
      String → Option String → Option Value → Docker (Option ℤ) → Db → Result (Unit {0}) String × Db
  inspected image output_dir result (answers code) db =
      (Result.ok tt, conclude image output_dir result (code_or_zero code) db)
  inspected image output_dir result not_found db =
      end_failed "dokan: container vanished before exit code; marking failed" "container vanished"
        db
  inspected image output_dir result (refuses e) db = (Result.err e, db)

  abbrev pub timed_out : Option String × Db → Result (Unit {0}) String × Db
  timed_out (some e, db) = (Result.err e, db)
  timed_out (none, db) =
      end_failed ("dokan: timeout after " ++ˢ (decimal limit ++ˢ " s, container killed")) "timeout"
        db

  abbrev pub after_pump : String → Option String → Ending × Db → Result (Unit {0}) String × Db
  after_pump image output_dir (failed e, db) = (Result.err e, db)
  after_pump image output_dir (pumped seq result, db) =
      inspected image output_dir (parsed lib.from_str result) host.inspect_exec db

  -- A read that fails counts as no allowlist, and as no secrets.
  abbrev pub job_secrets : Db → List (String × String)
  job_secrets db =
      if host.secrets_fail
      then []
      else injected (if host.allowlist_fails then none else run_secrets_allowlist run_id db)
          (all_secrets_for lib.decrypt job.agent_id host.secrets_cache db).0

  -- The output of the job while it runs, and what comes of its end.
  abbrev pub attached : String → Option String → Db → Result (Unit {0}) String × Db
  attached image output_dir db =
      let secrets = masked (job_secrets db) in
      if host.cut_short
      then timed_out (interrupt_logs lib.db_error lib.from_utf8_lossy run_id secrets host.items db)
      else after_pump image output_dir
          (pump_logs lib.db_error lib.from_utf8_lossy run_id secrets host.items db)

  abbrev pub started :
      String → Option String → Db → Result Bool String → Result (Unit {0}) String × Db
  started image output_dir db (Result.err e) = (Result.err e, db)
  started image output_dir db (Result.ok false) = (Result.err "exec detached unexpectedly", db)
  started image output_dir db (Result.ok true) = attached image output_dir db

  abbrev pub created :
      String → Option String → Db → Result String String → Result (Unit {0}) String × Db
  created image output_dir db (Result.err e) = (Result.err e, db)
  created image output_dir db (Result.ok id) =
      started image output_dir db (stale_container host.start_exec)

  unfoldable pub exec_job : String → String → Option String → Db → Result (Unit {0}) String × Db
  unfolding run_secrets_allowlist all_secrets_for injected masked env effective_timeout_secs decimal
      pump_logs interrupt_logs end_failed conclude
  exec_job cid image output_dir db =
      created image output_dir db (stale_container (host.create_exec cid (env (job_secrets db))))

  abbrev caps_mem : Option ℤ → ℤ
  caps_mem none = exec.mem_bytes
  caps_mem (some mb) = mem_bytes_of mb

  abbrev caps_cpu : Option ℕ → ℤ
  caps_cpu none = exec.nano_cpus
  caps_cpu (some c) = lib.nano_cpus c

  -- A warm container only for a run without limits of its own and without files.
  unfoldable pub container : String → Option (String × Files) → Option String → Container
  unfolding mem_bytes_of
  container image input_dir output_dir =
      if is_some job.mem_limit_mb
        || is_some job.cpu_limit
        || is_some input_dir
        || is_some output_dir
      then Container.with_caps image (caps_mem job.mem_limit_mb) (caps_cpu job.cpu_limit)
          (not network) input_dir output_dir
      else if network
      then Container.warm image
      else Container.isolated image

  abbrev pub output_dir_of : Bool → Result (Option String) String
  output_dir_of false = Result.ok none
  output_dir_of true = some_dir (prepare_output_dir exec.home run_id)

  abbrev pub in_container :
      String → Option String → Db → Result String String → Result (Unit {0}) String × Db
  in_container image output_dir db (Result.err e) = (Result.err e, db)
  in_container image output_dir db (Result.ok cid) = exec_job cid image output_dir db

  abbrev pub with_output :
      String
      → Option (String × Files)
      → Db
      → Result (Option String) String
      → Result (Unit {0}) String × Db
  with_output image input_dir db (Result.err e) = (Result.err e, db)
  with_output image input_dir db (Result.ok output_dir) =
      in_container image output_dir db (host.acquire (container image input_dir output_dir))

  abbrev pub with_input :
      String → Result (Option (String × Files)) String × Db → Result (Unit {0}) String × Db
  with_input image (Result.err e, db) = (Result.err e, db)
  with_input image (Result.ok input_dir, db) =
      with_output image input_dir db (output_dir_of job.capture_output)

  abbrev pub with_spec : Option (String × String) → Db → Result (Unit {0}) String × Db
  with_spec none db = (Result.err ("unknown runtime: " ++ˢ job.runtime), db)
  with_spec (some spec) db =
      with_input spec.0 (materialize_input lib.debug host.now exec.home run_id job.input_blobs db)

  unfoldable pub run_inner : Db → Result (Unit {0}) String × Db
  unfolding runtime_spec materialize_input prepare_output_dir container exec_job
  run_inner db = with_spec (runtime_spec job.runtime) db

  abbrev pub or_same : Db → Option Db → Db
  or_same db none = db
  or_same db (some u) = u

  -- An error on this side fails the run, with a line in its log if that can be written.
  abbrev pub recorded : Result (Unit {0}) String × Db → Db
  recorded (Result.ok _, db) = db
  recorded (Result.err msg, db) =
      finish_run host.now run_id Status.failed none (some msg)
        (or_same db (append_log run_id (suc (max_log_seq run_id db)) stderr ("dokan: " ++ˢ msg) db))

  unfoldable pub run : Db → Db
  unfolding run_inner append_log max_log_seq finish_run
  run db = recorded (run_inner db)
