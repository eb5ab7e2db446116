-- ===== src/Db/Runs.antt =====
-- src/db.rs: the queries that insert runs, finish and cancel them, and read them back.
pub mod Cancel
pub mod Idempotency
use dokan.Prelude.{
  ℕ, suc, String, Bool, true, false, not, ◌&&◌, Option, none, some, [], ◌∷◌, ◌++◌, any, count,
  find?, update_where, ltb, ◌==◌, str_eq, if◌then◌else◌,
}
use dokan.Prelude.Int.{ℤ}
use dokan.Json.{Value}
use dokan.Db.Scripts.{script_exists}
use dokan.Db.{Status, is_succeeded, is_canceled, Run, Db, new_run}

abbrev pub opt_eq : Option String → String → Bool
opt_eq none k = false
opt_eq (some j) k = str_eq j k

abbrev pub has_id : ℕ → Run → Bool
has_id id r = r.id == id

abbrev pub has_key : String → Run → Bool
has_key key r = opt_eq r.idempotency_key key

abbrev pub update_run : ℕ → (Run → Run) → Db → Db
update_run id f db = record db { runs = update_where (has_id id) f db.runs }

-- A row is appended with the next value of the sequence.
abbrev pub append_run : Run → Db → Db
append_run r db = record db { runs = db.runs ++ r ∷ []; next_run = suc db.next_run }

-- `none`: the foreign key `runs.script_id` refuses the row. The sequence has moved all the same.
unfoldable pub insert_run_with_blobs :
    ℕ → ℕ → Value → Option String → Option Value → Bool → Db → Option ℕ × Db
insert_run_with_blobs now script_id input agent_id input_blobs capture_output db =
    if script_exists script_id db
    then (
      some db.next_run,
      append_run
          (record (new_run db.next_run now script_id (some input)) {
            agent_id = agent_id;
            input_blobs = input_blobs;
            capture_output = capture_output;
          })
          db,
    )
    else (none, record db { next_run = suc db.next_run })

unfoldable pub insert_run : ℕ → ℕ → Value → Option String → Db → Option ℕ × Db
unfolding insert_run_with_blobs
insert_run now script_id input agent_id =
    insert_run_with_blobs now script_id input agent_id none false

abbrev recall : Option Run → Option (ℕ × Bool)
recall none = none
recall (some r) = some (r.id, false)

-- The row of an INSERT that carries a key.
abbrev pub keyed_run : ℕ → ℕ → ℕ → Value → Option String → Option Value → Bool → String → Run
keyed_run id now script_id input agent_id input_blobs capture_output idem_key =
    record (new_run id now script_id (some input)) {
      agent_id = agent_id;
      input_blobs = input_blobs;
      capture_output = capture_output;
      idempotency_key = some idem_key;
    }

-- `ON CONFLICT (idempotency_key) DO NOTHING`, then the row of the key is recalled. The sequence
-- moves on a conflict too.
unfoldable pub insert_run_idempotent :
    ℕ → ℕ → Value → Option String → Option Value → Bool → String → Db → Option (ℕ × Bool) × Db
insert_run_idempotent now script_id input agent_id input_blobs capture_output idem_key db =
    if any (has_key idem_key) db.runs
    then (recall (find? (has_key idem_key) db.runs), record db { next_run = suc db.next_run })
    else if script_exists script_id db
    then (
      some (db.next_run, true),
      append_run
          (keyed_run db.next_run now script_id input agent_id input_blobs capture_output idem_key)
          db,
    )
    else (none, record db { next_run = suc db.next_run })

abbrev pub key_taken : Option String → Db → Bool
key_taken none db = false
key_taken (some k) db = any (has_key k) db.runs

-- The outer `none` is an error of the database, the inner one a key that is taken.
unfoldable pub insert_refused_run :
    ℕ → ℕ → Value → Option String → String → Option String → Db → Option (Option ℕ) × Db
insert_refused_run now script_id input agent_id reason idem_key db =
    if key_taken idem_key db
    then (some none, record db { next_run = suc db.next_run })
    else if script_exists script_id db
    then (
      some (some db.next_run),
      append_run
          (record (new_run db.next_run now script_id (some input)) {
            status = Status.failed;
            agent_id = agent_id;
            error = some reason;
            finished_at = some now;
            idempotency_key = idem_key;
          })
          db,
    )
    else (none, record db { next_run = suc db.next_run })

-- `WHERE id = $1 AND status <> 'canceled'`
unfoldable pub finish_run : ℕ → ℕ → Status → Option ℤ → Option String → Db → Db
finish_run now run_id status exit_code error db = record db {
  runs =
      update_where (λ r. r.id == run_id && not (is_canceled r.status))
        (λ r. record r {
          status = status;
          exit_code = exit_code;
          error = error;
          finished_at = some now;
        })
        db.runs;
}

abbrev cancelable : ℕ → Run → Bool
cancelable run_id r = r.id == run_id && not (is_succeeded r.status)

-- Whether a row was canceled, and the new state.
unfoldable pub cancel_run : ℕ → ℕ → String → Db → Bool × Db
cancel_run now run_id reason db = (
  ltb 0 (count (cancelable run_id) db.runs),
  record db {
    runs =
        update_where (cancelable run_id)
          (λ r. record r { status = Status.canceled; error = some reason; finished_at = some now })
          db.runs;
  },
)

unfoldable pub find_run : ℕ → Db → Option Run
find_run id db = find? (has_id id) db.runs

unfoldable pub run_status : ℕ → Db → Option Status
unfolding find_run
run_status id db = elim (find_run id db) [ none ↦ none | some r ↦ some r.status ]

unfoldable pub run_outcome : ℕ → Db → Option (Status × Option ℤ)
unfolding find_run
run_outcome id db = elim (find_run id db) [ none ↦ none | some r ↦ some (r.status, r.exit_code) ]

unfoldable pub run_error : ℕ → Db → Option String
unfolding find_run
run_error id db = elim (find_run id db) [ none ↦ none | some r ↦ r.error ]

unfoldable pub set_run_result : ℕ → Value → Db → Db
set_run_result id result = update_run id (λ r. record r { result = some result })

unfoldable pub set_run_output_blobs : ℕ → Value → Db → Db
set_run_output_blobs id blobs = update_run id (λ r. record r { output_blobs = some blobs })

unfoldable pub update_run_progress : ℕ → String → Db → Db
update_run_progress id msg = update_run id (λ r. record r { progress = some msg })

unfoldable pub set_run_cache_key : ℕ → String → Db → Db
set_run_cache_key id key = update_run id (λ r. record r { cache_key = some key })
