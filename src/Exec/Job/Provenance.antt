-- ===== src/Exec/Job/Provenance.antt =====
-- A receipt is recorded only for what the row of the run shows.
use dokan.Prelude.{
  subst, arith, ℕ, String, Bool, true, false, ◌≡◌, refl, ◌∙◌, ap, ◌⊎◌, inl, inr, Option, none, some,
  find?-update_where, find?-some, ◌&&◌, if◌then◌else◌,
}
use dokan.Prelude.Int.{ℤ}
use dokan.Json.{Value}
use dokan.Db.{Run, Db}
use dokan.Db.Runs.{has_id, find_run, update_run, set_run_result, set_run_output_blobs}
use dokan.Db.Receipts.{set_run_receipt}
use dokan.Exec.Job.{Libraries, Executor, Job, Host, written, receipt_of, fire, record_provenance}
use dokan.Exec.Job.Quiet.{fire_triggers-found}

found-update :
    (id : ℕ) (f : Run → Run) (db : Db) (r : Run)
    → ((s : Run) → has_id id (f s) ≡ has_id id s)
    → find_run id db ≡ some r
    → find_run id (update_run id f db) ≡ some (f r)
unfolding find_run
found-update id f db r keeps h =
    let own : has_id id r ≡ true = (find?-some (has_id id) db.runs h).1 in
    find?-update_where (has_id id) (has_id id) f db.runs keeps ∙ rw (h, own) refl

-- What was produced is what a column holds.
abbrev pub Shows : Option Value → Option Value → Type 0
Shows none column = Unit
Shows (some v) column = column ≡ some v

module _ (lib : Libraries) (exec : Executor) (host : Host) (job : Job) where
  open job use {run_id}

  outputs-Shows :
      (b : Bool) (blobs : Option Value) (db : Db) (r : Run)
      → find_run run_id db ≡ some r
      → let (ok, u) = written lib exec host job b (set_run_output_blobs run_id) blobs db in
        (s : Run) × (find_run run_id u ≡ some s)
        × (s.receipt ≡ r.receipt)
        × (ok ≡ true → Shows blobs s.output_blobs)
  unfolding set_run_output_blobs
  outputs-Shows b none db r h = (r, h, refl, λ e. tt)
  outputs-Shows true (some v) db r h = (
    record r { output_blobs = some v },
    found-update run_id (λ q. record q { output_blobs = some v }) db r (λ q. refl) h,
    refl,
    λ e. refl,
  )
  outputs-Shows false (some v) db r h = (r, h, refl, λ e. absurd (ground (arith, e)))

  result-Shows :
      (b : Bool) (result : Option Value) (db : Db) (r : Run)
      → find_run run_id db ≡ some r
      → let (ok, u) = written lib exec host job b (set_run_result run_id) result db in
        (s : Run) × (find_run run_id u ≡ some s)
        × (s.receipt ≡ r.receipt)
        × (s.output_blobs ≡ r.output_blobs)
        × (ok ≡ true → Shows result s.result)
  unfolding set_run_result
  result-Shows b none db r h = (r, h, refl, refl, λ e. tt)
  result-Shows true (some v) db r h = (
    record r { result = some v },
    found-update run_id (λ q. record q { result = some v }) db r (λ q. refl) h,
    refl,
    refl,
    λ e. refl,
  )
  result-Shows false (some v) db r h = (r, h, refl, refl, λ e. absurd (ground (arith, e)))

  fire-found :
      (result : Option Value) (db : Db) (r : Run)
      → find_run run_id db ≡ some r
      → find_run run_id (fire lib exec host job result db) ≡ some r
  fire-found none db r h = h
  fire-found (some v) db r h = fire_triggers-found lib.contains host.now run_id v db run_id r h

  -- The row has its old receipt, or the new one together with what that attests.
  abbrev pub Attests : Option Value → Option Value → Value → Run → Run → Type 0
  Attests blobs result receipt r s =
      (s.receipt ≡ r.receipt)
      ⊎ ((s.receipt ≡ some receipt) × Shows blobs s.output_blobs × Shows result s.result)

  receipt-Attests :
      (o1 o2 written : Bool) (blobs result : Option Value) (receipt : Value) (db : Db) (r s : Run)
      → find_run run_id db ≡ some s
      → s.receipt ≡ r.receipt
      → (o1 ≡ true → Shows blobs s.output_blobs)
      → (o2 ≡ true → Shows result s.result)
      → (t : Run) × (find_run run_id
            (if o1 && o2 && written then set_run_receipt run_id receipt db else db)
          ≡ some t)
        × Attests blobs result receipt r t
  unfolding set_run_receipt
  receipt-Attests true true true blobs result receipt db r s h e bs rs = (
    record s { receipt = some receipt },
    found-update run_id (λ q. record q { receipt = some receipt }) db s (λ q. refl) h,
    inr (refl, bs refl, rs refl),
  )
  receipt-Attests false o2 w blobs result receipt db r s h e bs rs = (s, h, inl e)
  receipt-Attests true false w blobs result receipt db r s h e bs rs = (s, h, inl e)
  receipt-Attests true true false blobs result receipt db r s h e bs rs = (s, h, inl e)

  written-generation :
      (b : Bool) (write : Value → Db → Db) (o : Option Value) (db : Db)
      → ((v : Value) (d : Db) → (write v d).secrets_generation ≡ d.secrets_generation)
      → (written lib exec host job b write o db).1.secrets_generation ≡ db.secrets_generation
  written-generation b write none db h = refl
  written-generation true write (some v) db h = h v db
  written-generation false write (some v) db h = refl

  set_run_output_blobs-generation :
      (v : Value) (d : Db)
      → (set_run_output_blobs run_id v d).secrets_generation ≡ d.secrets_generation
  unfolding set_run_output_blobs
  set_run_output_blobs-generation v d = refl

  set_run_result-generation :
      (v : Value) (d : Db) → (set_run_result run_id v d).secrets_generation ≡ d.secrets_generation
  unfolding set_run_result
  set_run_result-generation v d = refl

  -- All that a receipt reads of the tables.
  receipt_of-generation :
      (image : String) (result : Option Value) (code : ℤ) (blobs : Option Value) (t u : Db)
      → t.secrets_generation ≡ u.secrets_generation
      → receipt_of lib exec host job image result code blobs t
        ≡ receipt_of lib exec host job image result code blobs u
  receipt_of-generation image result code blobs t u e =
      ap
        (λ g.
          receipt_of lib exec host job image result code blobs
            (record t { secrets_generation = g }))
        e

  -- When the outputs and the result of a run are recorded, whichever of the writes fail: its row has
  -- the receipt that it had, or the receipt of these outputs and this result, and then it shows both.
  pub record_provenance-Attests :
      (image : String) (result : Option Value) (code : ℤ) (blobs : Option Value) (db : Db) (r : Run)
      → find_run run_id db ≡ some r
      → (s : Run) × (find_run run_id
            (record_provenance lib exec host job image result code blobs db)
          ≡ some s)
        × Attests blobs result (receipt_of lib exec host job image result code blobs db) r s
  unfolding record_provenance
  record_provenance-Attests image result code blobs db r h =
      let (ok1, u1) =
        written lib exec host job host.outputs_written (set_run_output_blobs run_id) blobs db in
      let (ok2, u2) =
        written lib exec host job host.result_written (set_run_result run_id) result u1 in
      let (s1, f1, r1, b1) = outputs-Shows host.outputs_written blobs db r h in
      let (s2, f2, r2, b2, c2) = result-Shows host.result_written result u1 s1 f1 in
      let receipt = receipt_of lib exec host job image result code blobs u2 in
      let (s3, f3, a3) =
        receipt-Attests ok1 ok2 host.receipt_written blobs result receipt u2 r s2 f2 (r2 ∙ r1)
          (λ e. rw b2 (b1 e)) c2 in
      let same : u2.secrets_generation ≡ db.secrets_generation =
        written-generation host.result_written (set_run_result run_id) result u1
          (set_run_result-generation)
        ∙ written-generation host.outputs_written (set_run_output_blobs run_id) blobs db
            (set_run_output_blobs-generation) in
      (
        s3,
        fire-found result _ s3 f3,
        subst (λ v. Attests blobs result v r s3)
            (receipt_of-generation image result code blobs u2 db same) a3,
      )
