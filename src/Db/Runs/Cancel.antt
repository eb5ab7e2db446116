-- ===== src/Db/Runs/Cancel.antt =====
-- The race between the operator's cancel and the finish of the killed container.
use dokan.Prelude.{
  ℕ, String, Bool, not, ◌&&◌, ◌≡◌, refl, ◌≢◌, inl, inr, Option, none, some, arith, ap, ◌∙◌, find?,
  find?-update_where, find?-some, update_where, Option-cases, ◌==◌, if◌then◌else◌,
}
use dokan.Prelude.Int.{ℤ}
use dokan.Db.{Status, is_canceled, is_succeeded, Run, Db}
use dokan.Db.Runs.{has_id, finish_run, cancel_run, run_status}
use dokan.Db.Queue.{back_to_queue, requeue}

-- The status that a query leaves a run in, by the status that it finds.
abbrev pub after_cancel : Status → Status
after_cancel Status.succeeded = Status.succeeded
after_cancel _ = Status.canceled

abbrev pub after_finish : Status → Status → Status
after_finish ends Status.canceled = Status.canceled
after_finish ends _ = ends

abbrev pub map_status : (Status → Status) → Option Status → Option Status
map_status f none = none
map_status f (some s) = some (f s)

module _ (id : ℕ) (p : Run → Bool) (f : Run → Run) (g : Status → Status) (db u : Db)
    (updated : u.runs ≡ update_where (λ r. r.id == id && p r) f db.runs)
    (same_id : (r : Run) → has_id id (f r) ≡ has_id id r)
    (row : (r : Run) → (if p r then f r else r).status ≡ g r.status) where
  -- A guarded UPDATE of one run, by what it does to the status of a row.
  run_status-update : run_status id u ≡ map_status g (run_status id db)
  unfolding run_status
  run_status-update =
      let found =
        ap (find? (has_id id)) updated
        ∙ find?-update_where (has_id id) (λ r. r.id == id && p r) f db.runs same_id in
      elim (Option-cases (find? (has_id id) db.runs)) [
        | inl e ↦ ground (arith, found, e)
        | inr (r, e) ↦ ground (arith, found, e, (find?-some (has_id id) db.runs e).1, row r)
      ]

-- A cancel overrules every status but `succeeded`.
pub run_status-cancel_run :
    (now id : ℕ) (reason : String) (db : Db)
    → run_status id (cancel_run now id reason db).1 ≡ map_status after_cancel (run_status id db)
unfolding cancel_run
run_status-cancel_run now id reason db =
    run_status-update id (λ r. not (is_succeeded r.status))
      (λ r. record r { status = Status.canceled; error = some reason; finished_at = some now })
      after_cancel db _ refl (λ r. refl) (λ r. ground arith)

-- A finish does not overrule `canceled`.
pub run_status-finish_run :
    (now id : ℕ) (ends : Status) (code : Option ℤ) (error : Option String) (db : Db)
    → run_status id (finish_run now id ends code error db)
      ≡ map_status (after_finish ends) (run_status id db)
unfolding finish_run
run_status-finish_run now id ends code error db =
    run_status-update id (λ r. not (is_canceled r.status))
      (λ r. record r { status = ends; exit_code = code; error = error; finished_at = some now })
      (after_finish ends) db _ refl (λ r. refl) (λ r. ground arith)

-- The operator cancels a run that has not succeeded, and the killed container's own path finishes
-- it as failed: whichever query comes first, the run ends canceled.
pub cancel_wins :
    (now later id : ℕ) (reason : String) (code : Option ℤ) (error : Option String) (s : Status)
    (db : Db)
    → run_status id db ≡ some s
    → s ≢ Status.succeeded
    → (run_status id (finish_run later id Status.failed code error (cancel_run now id reason db).1)
        ≡ some Status.canceled)
      × (run_status id
            (cancel_run later id reason (finish_run now id Status.failed code error db)).1
          ≡ some Status.canceled)
cancel_wins now later id reason code error s db h ne = (
  ground (
    arith,
    h,
    run_status-finish_run later id Status.failed code error (cancel_run now id reason db).1,
    run_status-cancel_run now id reason db,
  ),
  ground (
    arith,
    h,
    run_status-cancel_run later id reason (finish_run now id Status.failed code error db),
    run_status-finish_run now id Status.failed code error db,
  ),
)

-- A requeue puts a run back into the queue, whatever its status.
pub run_status-requeue :
    (id : ℕ) (db : Db)
    → run_status id (requeue id db) ≡ map_status (λ _. Status.pending) (run_status id db)
unfolding requeue run_status
run_status-requeue id db =
    let found = find?-update_where (has_id id) (has_id id) back_to_queue db.runs (λ r. refl) in
    elim (Option-cases (find? (has_id id) db.runs)) [
      | inl e ↦ ground (arith, found, e)
      | inr (r, e) ↦ ground (arith, found, e, (find?-some (has_id id) db.runs e).1)
    ]

-- `requeue` has no guard on the status: a retry that was decided before a cancel landed puts the
-- canceled run back into the queue, whatever its status was.
pub requeue-cancel_run :
    (now id : ℕ) (reason : String) (s : Status) (db : Db)
    → run_status id db ≡ some s
    → run_status id (requeue id (cancel_run now id reason db).1) ≡ some Status.pending
requeue-cancel_run now id reason s db h = ground (
  arith,
  h,
  run_status-cancel_run now id reason db,
  run_status-requeue id (cancel_run now id reason db).1,
)
