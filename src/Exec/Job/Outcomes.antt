-- ===== src/Exec/Job/Outcomes.antt =====
-- However an execution goes, it ends its run or answers with an error that ends it.
use Prim.Native.String.{◌++◌ as ◌++ˢ◌}
use dokan.Prelude.{
  suc, String, Bool, true, false, ◌≡◌, refl, Option, none, some, Bool-cases, Option-cases, inl, inr,
  if◌then◌else◌, ◌==◌,
}
use dokan.Prelude.Int.{ℤ, pos, negsuc}
use dokan.Prelude.Result.{Result}
use dokan.Json.{Value}
use dokan.Db.{Status, stderr, Db}
use dokan.Db.Runs.{set_run_result, set_run_output_blobs}
use dokan.Db.Receipts.{set_run_receipt}
use dokan.Db.Retention.{append_log, max_log_seq}
use dokan.Db.Lifecycle.{Step, Ends, well, badly}
use dokan.Db.Lifecycle.Tables.{append_log-SameRuns}
use dokan.Receipt.{sha256_hex}
use dokan.Exec.{runtime_spec}
use dokan.Exec.Files.{Files, capture_output}
use dokan.Exec.Pump.{Ending, pump_logs, interrupt_logs}
use dokan.Exec.Job.{
  Libraries, Executor, Job, Host, Docker, status_of, as_i32, end_failed, outputs, or_nothing,
  written, fire, record_provenance, conclude, inspected, timed_out, after_pump, attached, started,
  created, exec_job, in_container, with_output, with_input, with_spec, run_inner, recorded, run,
  job_secrets, masked,
}
use dokan.Exec.Job.Quiet.{
  Quiet, Quiet-refl, Quiet-trans, SameRuns-Quiet, update_run-Quiet, fire_triggers-Quiet, view,
}
use dokan.Exec.Job.Pumping.{pump_logs-Quiet, interrupt_logs-Quiet}
use dokan.Exec.Job.Works.{
  EndedView, Works, Quiet-Works, Works-trans, Finish, finish_run-Finish, work-Finish, before-Finish,
  after-Finish, materialize_input-Quiet, capture_output-Quiet,
}

module _ (lib : Libraries) (exec : Executor) (host : Host) (job : Job) where
  open job use {run_id}

  -- An execution that answers `ok` has ended its run.
  EndsIf : Result (Unit {0}) String → Db → Type 0
  EndsIf (Result.ok _) u = EndedView (view run_id u)
  EndsIf (Result.err e) u = Unit

  record Outcome (t : Db) (x : Result (Unit {0}) String × Db) : Type 0 where
    works : Works run_id t x.1
    ends : EndsIf x.0 x.1

  written-Quiet :
      (b : Bool) (o : Option Value) (write : Value → Db → Db) (db : Db)
      → ((v : Value) (d : Db) → Quiet run_id d (write v d))
      → Quiet run_id db (written lib exec host job b write o db).1
  written-Quiet b none write db h = Quiet-refl run_id db
  written-Quiet true (some v) write db h = h v db
  written-Quiet false (some v) write db h = Quiet-refl run_id db

  result-Quiet : (v : Value) (db : Db) → Quiet run_id db (set_run_result run_id v db)
  unfolding set_run_result
  result-Quiet v db =
      update_run-Quiet run_id run_id (λ r. record r { result = some v }) db (Step.result run_id v)
        (λ r. refl) (λ r. refl)

  outputs-Quiet : (v : Value) (db : Db) → Quiet run_id db (set_run_output_blobs run_id v db)
  unfolding set_run_output_blobs
  outputs-Quiet v db =
      update_run-Quiet run_id run_id (λ r. record r { output_blobs = some v }) db
        (Step.outputs run_id v) (λ r. refl) (λ r. refl)

  receipt-Quiet : (v : Value) (db : Db) → Quiet run_id db (set_run_receipt run_id v db)
  unfolding set_run_receipt
  receipt-Quiet v db =
      update_run-Quiet run_id run_id (λ r. record r { receipt = some v }) db (Step.receipt run_id v)
        (λ r. refl) (λ r. refl)

  fire-Quiet : (o : Option Value) (db : Db) → Quiet run_id db (fire lib exec host job o db)
  fire-Quiet none db = Quiet-refl run_id db
  fire-Quiet (some r) db = fire_triggers-Quiet lib.contains host.now run_id r db

  if-Quiet :
      (b : Bool) (v : Value) (db : Db)
      → Quiet run_id db (if b then set_run_receipt run_id v db else db)
  if-Quiet true v db = receipt-Quiet v db
  if-Quiet false v db = Quiet-refl run_id db

  record_provenance-Quiet :
      (image : String) (result : Option Value) (code : ℤ) (blobs : Option Value) (db : Db)
      → Quiet run_id db (record_provenance lib exec host job image result code blobs db)
  unfolding record_provenance
  record_provenance-Quiet image result code blobs db =
      Quiet-trans run_id
        (Quiet-trans run_id
          (Quiet-trans run_id
            (written-Quiet host.outputs_written blobs (set_run_output_blobs run_id) db
              outputs-Quiet)
            (written-Quiet host.result_written result (set_run_result run_id) _ result-Quiet))
          (if-Quiet _ _ _))
        (fire-Quiet result _)

  status_of-Ends : (c : ℤ) → Ends (status_of c)
  status_of-Ends (pos n) = elim (Bool-cases (n == 0)) [ inl e ↦ rw e well | inr e ↦ rw e badly ]
  status_of-Ends (negsuc n) = badly

  or_nothing-db : (x : Result (Option Value) String × Db) → (or_nothing lib exec host job x).1 ≡ x.1
  or_nothing-db (Result.ok o, db) = refl
  or_nothing-db (Result.err e, db) = refl

  output_files-Quiet :
      (dir : Option String) (db : Db) → Quiet run_id db (outputs lib exec host job dir db).1
  unfolding outputs
  output_files-Quiet none db = Quiet-refl run_id db
  output_files-Quiet (some d) db =
      rw (or_nothing-db (capture_output (sha256_hex lib.crypto) host.now host.output db))
        (capture_output-Quiet (sha256_hex lib.crypto) host.now run_id host.output db)

  conclude-Finish :
      (image : String) (dir : Option String) (result : Option Value) (code : ℤ) (db : Db)
      → Finish run_id db (conclude lib exec host job image dir result code db)
  unfolding conclude
  conclude-Finish image dir result code db =
      after-Finish
        (finish_run-Finish host.now run_id (status_of code) (some (as_i32 code)) none db
          (status_of-Ends code))
        (Quiet-trans run_id (output_files-Quiet dir _)
          (record_provenance-Quiet image result code _ _))

  Finish-Outcome : (t u : Db) → Finish run_id t u → Outcome t (Result.ok tt, u)
  unfolding EndsIf
  Finish-Outcome t u f = record { works = f.works; ends = f.ended }

  failed-Outcome : (t u : Db) (e : String) → Quiet run_id t u → Outcome t (Result.err e, u)
  unfolding EndsIf
  failed-Outcome t u e q = record { works = Quiet-Works q; ends = tt }

  -- Quiet work comes before.
  before-Outcome :
      (t u : Db) (x : Result (Unit {0}) String × Db) → Quiet run_id t u → Outcome u x → Outcome t x
  before-Outcome t u x q o = record { works = Works-trans (Quiet-Works q) o.works; ends = o.ends }

  end_failed-Outcome :
      (line error : String) (db : Db) → Outcome db (end_failed lib exec host job line error db)
  unfolding end_failed
  end_failed-Outcome line error db =
      let n = suc (max_log_seq run_id db) in
      elim (Option-cases (append_log run_id n stderr line db)) [
        | inl e ↦ rw e (failed-Outcome db db lib.db_error (Quiet-refl run_id db))
        | inr (u, e) ↦ rw e (
            Finish-Outcome db _ (
              before-Finish
                (SameRuns-Quiet run_id (Step.log run_id n stderr line e)
                  (append_log-SameRuns run_id n stderr line db u e))
                (finish_run-Finish host.now run_id Status.failed none (some error) u badly)))
      ]

  inspected-Outcome :
      (image : String) (dir : Option String) (result : Option Value) (d : Docker (Option ℤ))
      (db : Db)
      → Outcome db (inspected lib exec host job image dir result d db)
  inspected-Outcome image dir result (Docker.answers c) db =
      Finish-Outcome db _ (conclude-Finish image dir result _ db)
  inspected-Outcome image dir result Docker.not_found db = end_failed-Outcome _ _ db
  inspected-Outcome image dir result (Docker.refuses e) db =
      failed-Outcome db db e (Quiet-refl run_id db)

  timed_out-Outcome :
      (t : Db) (x : Option String × Db)
      → Quiet run_id t x.1
      → Outcome t (timed_out lib exec host job x)
  timed_out-Outcome t (some e, db) q = failed-Outcome t db e q
  timed_out-Outcome t (none, db) q = before-Outcome t db _ q (end_failed-Outcome _ _ db)

  after_pump-Outcome :
      (t : Db) (image : String) (dir : Option String) (x : Ending × Db)
      → Quiet run_id t x.1
      → Outcome t (after_pump lib exec host job image dir x)
  after_pump-Outcome t image dir (Ending.failed e, db) q = failed-Outcome t db e q
  after_pump-Outcome t image dir (Ending.pumped n result, db) q =
      before-Outcome t db _ q (inspected-Outcome image dir _ host.inspect_exec db)

  if-Outcome :
      (b : Bool) (t : Db) (x y : Result (Unit {0}) String × Db)
      → Outcome t x
      → Outcome t y
      → Outcome t (if b then x else y)
  if-Outcome true t x y p q = p
  if-Outcome false t x y p q = q

  attached-Outcome :
      (image : String) (dir : Option String) (db : Db)
      → Outcome db (attached lib exec host job image dir db)
  attached-Outcome image dir db =
      let hidden = masked (job_secrets lib exec host job db) in
      let cut_off = interrupt_logs lib.db_error lib.from_utf8_lossy run_id hidden host.items db in
      let pumped = pump_logs lib.db_error lib.from_utf8_lossy run_id hidden host.items db in
      if-Outcome host.cut_short db (timed_out lib exec host job cut_off)
        (after_pump lib exec host job image dir pumped)
        (timed_out-Outcome db cut_off
          (interrupt_logs-Quiet lib.db_error lib.from_utf8_lossy run_id hidden host.items db))
        (after_pump-Outcome db image dir pumped
          (pump_logs-Quiet lib.db_error lib.from_utf8_lossy run_id hidden host.items db))

  started-Outcome :
      (image : String) (dir : Option String) (db : Db) (x : Result Bool String)
      → Outcome db (started lib exec host job image dir db x)
  started-Outcome image dir db (Result.err e) = failed-Outcome db db e (Quiet-refl run_id db)
  started-Outcome image dir db (Result.ok false) = failed-Outcome db db _ (Quiet-refl run_id db)
  started-Outcome image dir db (Result.ok true) = attached-Outcome image dir db

  created-Outcome :
      (image : String) (dir : Option String) (db : Db) (x : Result String String)
      → Outcome db (created lib exec host job image dir db x)
  created-Outcome image dir db (Result.err e) = failed-Outcome db db e (Quiet-refl run_id db)
  created-Outcome image dir db (Result.ok id) = started-Outcome image dir db _

  exec_job-Outcome :
      (cid image : String) (dir : Option String) (db : Db)
      → Outcome db (exec_job lib exec host job cid image dir db)
  unfolding exec_job
  exec_job-Outcome cid image dir db = created-Outcome image dir db _

  in_container-Outcome :
      (image : String) (dir : Option String) (db : Db) (x : Result String String)
      → Outcome db (in_container lib exec host job image dir db x)
  in_container-Outcome image dir db (Result.err e) = failed-Outcome db db e (Quiet-refl run_id db)
  in_container-Outcome image dir db (Result.ok cid) = exec_job-Outcome cid image dir db

  with_output-Outcome :
      (image : String) (input : Option (String × Files)) (db : Db)
      (x : Result (Option String) String)
      → Outcome db (with_output lib exec host job image input db x)
  with_output-Outcome image input db (Result.err e) = failed-Outcome db db e (Quiet-refl run_id db)
  with_output-Outcome image input db (Result.ok dir) = in_container-Outcome image dir db _

  with_input-Outcome :
      (t : Db) (image : String) (x : Result (Option (String × Files)) String × Db)
      → Quiet run_id t x.1
      → Outcome t (with_input lib exec host job image x)
  with_input-Outcome t image (Result.err e, db) q = failed-Outcome t db e q
  with_input-Outcome t image (Result.ok input, db) q =
      before-Outcome t db _ q (with_output-Outcome image input db _)

  run_inner-Outcome : (db : Db) → Outcome db (run_inner lib exec host job db)
  unfolding run_inner
  run_inner-Outcome db = with_spec-Outcome (runtime_spec job.runtime)
    where
      with_spec-Outcome :
          (s : Option (String × String)) → Outcome db (with_spec lib exec host job s db)
      with_spec-Outcome none = failed-Outcome db db _ (Quiet-refl run_id db)
      with_spec-Outcome (some s) =
          with_input-Outcome db s.0 _
            (materialize_input-Quiet lib.debug host.now run_id run_id exec.home job.input_blobs db)

  recorded-Finish :
      (t : Db) (x : Result (Unit {0}) String × Db)
      → Outcome t x
      → Finish run_id t (recorded lib exec host job x)
  unfolding EndsIf
  recorded-Finish t (Result.ok _, db) o = record { works = o.works; ended = o.ends }
  recorded-Finish t (Result.err e, db) o =
      let n = suc (max_log_seq run_id db) in
      let line = "dokan: " ++ˢ e in
      let last =
        λ (u : Db). finish_run-Finish host.now run_id Status.failed none (some e) u badly in
      elim (Option-cases (append_log run_id n stderr line db)) [
        | inl f ↦ rw f (work-Finish o.works (last db))
        | inr (u, f) ↦ rw f (
            work-Finish o.works (
              before-Finish
                (SameRuns-Quiet run_id (Step.log run_id n stderr line f)
                  (append_log-SameRuns run_id n stderr line db u f))
                (last u)))
      ]

  -- An execution, however it goes, ends its run and counts no attempt.
  pub run-Finish : (db : Db) → Finish run_id db (run lib exec host job db)
  unfolding run
  run-Finish db = recorded-Finish db (run_inner lib exec host job db) (run_inner-Outcome db)
