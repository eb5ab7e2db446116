-- ===== src/Db/Runs/Idempotency.antt =====
-- One idempotency key stands for one run.
use dokan.Prelude.{
  ℕ, suc, String, Bool, false, ◌≡◌, ap, ◌∙◌, inl, inr, Option, some, arith, any, find?,
  find?-append, any-of-find?, Bool-cases, Option-cases,
}
use text.Mathlib.TextPositions.{eq_refl}
use dokan.Json.{Value}
use dokan.Db.{Run, Db}
use dokan.Db.Scripts.{script_exists}
use dokan.Db.Runs.{has_key, keyed_run, insert_run_idempotent}

-- The table after the insert holds the key, and the row found by it is the one that was answered.
module _ (now script_id : ℕ) (input : Value) (agent : Option String) (blobs : Option Value)
    (capture : Bool) (key : String) (db : Db) where
  abbrev pub inserted : Option (ℕ × Bool) × Db
  inserted = insert_run_idempotent now script_id input agent blobs capture key db

  -- A key that is taken, whatever the table.
  recalled :
      (u : Db) (r : Run)
      → find? (has_key key) u.runs ≡ some r
      → (insert_run_idempotent now script_id input agent blobs capture key u
          ≡ (some (r.id, false), record u { next_run = suc u.next_run }))
  unfolding insert_run_idempotent
  recalled u r e = rw (any-of-find? (has_key key) u.runs e, e)

  -- The row found by the key, after an insert that answered.
  answered_row :
      {id : ℕ} {created : Bool}
      → inserted.0 ≡ some (id, created)
      → (r : Run) × (find? (has_key key) inserted.1.runs ≡ some r) × (r.id ≡ id)
  unfolding insert_run_idempotent
  answered_row h = elim (Bool-cases (any (has_key key) db.runs)) [
    | inl taken ↦ elim (Option-cases (find? (has_key key) db.runs)) [
      | inl e ↦ absurd (ground (arith, taken, e, h))
      | inr (r, e) ↦ (r, rw taken e, ground (arith, taken, e, h))
    ]
    | inr free ↦ elim (Bool-cases (script_exists script_id db)) [
      | inr gone ↦ absurd (ground (arith, free, gone, h))
      | inl there ↦ (
        keyed_run db.next_run now script_id input agent blobs capture key,
        rw (free, there) (find?-append (has_key key) db.runs _ free ∙ rw (eq_refl key)),
        ground (arith, free, there, h),
      )
    ]
  ]

-- Redelivery: after an insert under a key that answered with a run, a second insert under that
-- key, with whatever other arguments, answers with the same run as not created and adds no row.
pub insert_run_idempotent_once :
    (now later script script' : ℕ) (input input' : Value) (agent agent' : Option String)
    (blobs blobs' : Option Value) (capture capture' : Bool) (key : String) (db : Db) (id : ℕ)
    (created : Bool)
    → (insert_run_idempotent now script input agent blobs capture key db).0 ≡ some (id, created)
    → let u = (insert_run_idempotent now script input agent blobs capture key db).1 in
      ((insert_run_idempotent later script' input' agent' blobs' capture' key u).0
        ≡ some (id, false))
      × ((insert_run_idempotent later script' input' agent' blobs' capture' key u).1.runs ≡ u.runs)
insert_run_idempotent_once now later script script' input input' agent agent' blobs blobs' capture
      capture' key db id created h =
    let u = (insert_run_idempotent now script input agent blobs capture key db).1 in
    let (r, found, same) = answered_row now script input agent blobs capture key db h in
    let again = recalled later script' input' agent' blobs' capture' key db u r found in
    (
      ap (λ (x : Option (ℕ × Bool) × Db). x.0) again ∙ rw same,
      ap (λ (x : Option (ℕ × Bool) × Db). x.1.runs) again,
    )
