-- ===== src/Db/Lifecycle/Tables.antt =====
-- What the queries on other tables leave of `runs`.
use dokan.Prelude.{
  ℕ, String, ◌≡◌, refl, ◌⊎◌, inl, inr, Option, any, count, ltb, Bool-cases, Option-cases, find?,
  ◌==◌, ◌&&◌, List, [], ◌∷◌, some, sym, eq_of_some, arith,
}
use dokan.Json.{Value}
use dokan.Db.{Settings, Stream, Db}
use dokan.Db.Scripts.{
  has_script_id, script_exists, update_script, ScheduleOpts, insert_trigger, insert_schedule,
}
use dokan.Db.Retention.{
  uses_script, cascade, delete_script, run_exists, append_log, append_logs_batch, has_sha, put_blob,
  get_blob,
}

-- `u` has the runs of `db`, and its sequence.
pub record SameRuns (db u : Db) : Type 0 where
  pub runs : u.runs ≡ db.runs
  pub next_run : u.next_run ≡ db.next_run

-- A script is deleted with all that hangs on it, or nothing is changed.
pub delete_script-cases :
    (id : ℕ) (db : Db) → ((delete_script id db).1 ≡ db) ⊎ ((delete_script id db).1 ≡ cascade id db)
unfolding delete_script
delete_script-cases id db = elim (Bool-cases (any (has_script_id id) db.scripts)) [
  | inr gone ↦ inl (rw gone)
  | inl found ↦ elim (Bool-cases (ltb 0 (count (λ st. st.script_id == id) db.flow_steps))) [
    | inl flow ↦ inl (rw (found, flow))
    | inr free ↦ elim (Bool-cases (any (uses_script id) db.triggers)) [
      | inl armed ↦ inl (rw (found, free, armed))
      | inr unused ↦ inr (rw (found, free, unused))
    ]
  ]
]

pub update_script-SameRuns :
    (id : ℕ) (source : String) (s : Settings) (db : Db)
    → SameRuns db (update_script id source s db).1
unfolding update_script
update_script-SameRuns id source s db = elim (Option-cases (find? (has_script_id id) db.scripts)) [
  | inl e ↦ rw (e, update_script) (record { runs = refl; next_run = refl })
  | inr (r, e) ↦ rw (e, update_script) (record { runs = refl; next_run = refl })
]

pub insert_trigger-SameRuns :
    (source : ℕ) (predicate : Value) (target : ℕ) (agent : Option String) (db : Db)
    → SameRuns db (insert_trigger source predicate target agent db).1
unfolding insert_trigger
insert_trigger-SameRuns source predicate target agent db =
    elim (Bool-cases (script_exists source db && script_exists target db)) [
      | inl e ↦ rw e (record { runs = refl; next_run = refl })
      | inr e ↦ rw e (record { runs = refl; next_run = refl })
    ]

pub insert_schedule-SameRuns :
    (script_id : ℕ) (cron : String) (input : Value) (opts : ScheduleOpts) (db : Db)
    → SameRuns db (insert_schedule script_id cron input opts db).1
unfolding insert_schedule
insert_schedule-SameRuns script_id cron input opts db =
    elim (Bool-cases (script_exists script_id db)) [
      | inl e ↦ rw e (record { runs = refl; next_run = refl })
      | inr e ↦ rw e (record { runs = refl; next_run = refl })
    ]

pub append_log-SameRuns :
    (run_id seq : ℕ) (stream : Stream) (line : String) (db u : Db)
    → append_log run_id seq stream line db ≡ some u
    → SameRuns db u
unfolding append_log
append_log-SameRuns run_id seq stream line db u h = elim (Bool-cases (run_exists run_id db)) [
  | inl e ↦ rw (sym (eq_of_some (rw e at h))) (record { runs = refl; next_run = refl })
  | inr e ↦ absurd (ground (arith, e, h))
]

pub append_logs_batch-SameRuns :
    (run_id : ℕ) (rows : List (ℕ × Stream × String)) (db u : Db)
    → append_logs_batch run_id rows db ≡ some u
    → SameRuns db u
unfolding append_logs_batch
append_logs_batch-SameRuns run_id [] db u h =
    rw (sym (eq_of_some h)) (record { runs = refl; next_run = refl })
append_logs_batch-SameRuns run_id (row ∷ rows) db u h = elim (Bool-cases (run_exists run_id db)) [
  | inl e ↦ rw (sym (eq_of_some (rw e at h))) (record { runs = refl; next_run = refl })
  | inr e ↦ absurd (ground (arith, e, h))
]

pub put_blob-SameRuns :
    (sha256_hex : List ℕ → String) (now : ℕ) (bytes : List ℕ) (db : Db)
    → SameRuns db (put_blob sha256_hex now bytes db).1
unfolding put_blob
put_blob-SameRuns sha256_hex now bytes db =
    elim (Bool-cases (any (has_sha (sha256_hex bytes)) db.blobs)) [
      | inl e ↦ rw e (record { runs = refl; next_run = refl })
      | inr e ↦ rw e (record { runs = refl; next_run = refl })
    ]

pub get_blob-SameRuns : (now : ℕ) (sha : String) (db : Db) → SameRuns db (get_blob now sha db).1
unfolding get_blob
get_blob-SameRuns now sha db = elim (Option-cases (find? (has_sha sha) db.blobs)) [
  | inl e ↦ rw (e, get_blob) (record { runs = refl; next_run = refl })
  | inr (b, e) ↦ rw (e, get_blob) (record { runs = refl; next_run = refl })
]
