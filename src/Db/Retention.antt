-- ===== src/Db/Retention.antt =====
-- src/db.rs: logs and blobs, what the retention sweeps delete, and the deletion of a script.
pub mod Sweeps
pub mod Blobs
pub mod Deletion
use dokan.Prelude.{
  ℕ, ◌+◌, String, Bool, true, false, not, ◌&&◌, ◌||◌, Option, none, some, List, [], ◌∷◌, ◌++◌, any,
  count, filter, find?, update_where, length, map, ltb, ◌==◌, str_eq, if◌then◌else◌,
}
use dokan.Json.{Value, Fields, end, field, string, object}
use dokan.Db.{Stream, stdout, stderr, Log, Blob, Trigger, Run, Db}
use dokan.Db.Queue.{older}

abbrev pub is_stdout : Stream → Bool
is_stdout stdout = true
is_stdout stderr = false

abbrev pub at_seq : ℕ → ℕ → Log → Bool
at_seq run_id seq l = l.run_id == run_id && l.seq == seq

-- `PRIMARY KEY (run_id, seq)` with `ON CONFLICT DO NOTHING`
unfoldable pub add_log : Log → List Log → List Log
add_log l logs = if any (at_seq l.run_id l.seq) logs then logs else logs ++ l ∷ []

abbrev pub run_exists : ℕ → Db → Bool
run_exists id db = any (λ r. r.id == id) db.runs

-- `none`: the foreign key `logs.run_id` refuses the line.
unfoldable pub append_log : ℕ → ℕ → Stream → String → Db → Option Db
unfolding add_log
append_log run_id seq stream line db =
    if run_exists run_id db
    then some (record db {
      logs = add_log (record { run_id = run_id; seq = seq; stream = stream; line = line }) db.logs;
    })
    else none

unfoldable pub add_rows : ℕ → List (ℕ × Stream × String) → List Log → List Log
unfolding add_log
add_rows run_id [] logs = logs
add_rows run_id ((seq, stream, line) ∷ rows) logs =
    add_rows run_id rows
      (add_log (record { run_id = run_id; seq = seq; stream = stream; line = line }) logs)

-- One statement for all the lines: an empty batch makes no query.
unfoldable pub append_logs_batch : ℕ → List (ℕ × Stream × String) → Db → Option Db
unfolding add_rows
append_logs_batch run_id [] db = some db
append_logs_batch run_id (row ∷ rows) db =
    if run_exists run_id db
    then some (record db { logs = add_rows run_id (row ∷ rows) db.logs })
    else none

abbrev pub greater_seq : Option ℕ → ℕ → ℕ
greater_seq none n = n
greater_seq (some m) n = if ltb n m then m else n

unfoldable pub max_seq : ℕ → List Log → Option ℕ
max_seq run_id [] = none
max_seq run_id (l ∷ ls) =
    let rest = max_seq run_id ls in
    if l.run_id == run_id then some (greater_seq rest l.seq) else rest

unfoldable pub max_log_seq : ℕ → Db → ℕ
unfolding max_seq
max_log_seq run_id db = elim (max_seq run_id db.logs) [ none ↦ 0 | some n ↦ n ]

abbrev later_log : Log → Option Log → Log
later_log l none = l
later_log l (some m) = if ltb l.seq m.seq then m else l

last_log : (Log → Bool) → List Log → Option Log
last_log p [] = none
last_log p (l ∷ ls) = let rest = last_log p ls in if p l then some (later_log l rest) else rest

-- The step's output: the last line that its run printed to stdout.
unfoldable pub last_stdout : ℕ → Db → Option String
unfolding last_log
last_stdout run_id db = elim (last_log (λ l. l.run_id == run_id && is_stdout l.stream) db.logs) [
  | none ↦ none
  | some l ↦ some l.line
]

-- Finished, and longer ago than the retention.
unfoldable pub is_expired : ℕ → ℕ → Run → Bool
is_expired now age r = older r.finished_at age now

unfoldable pub run_expired : ℕ → ℕ → Db → ℕ → Bool
unfolding is_expired
run_expired now age db id = any (λ r. r.id == id && is_expired now age r) db.runs

unfoldable pub gc_logs : ℕ → ℕ → Db → ℕ × Db
unfolding run_expired
gc_logs now age db = (
  count (λ l. run_expired now age db l.run_id) db.logs,
  record db { logs = filter (λ l. not (run_expired now age db l.run_id)) db.logs },
)

-- One transaction: the logs of the expired runs, then the runs.
unfoldable pub gc_old : ℕ → ℕ → Db → (ℕ × ℕ) × Db
unfolding gc_logs
gc_old now age db =
    let (logs, db') = gc_logs now age db in
    (
      (count (is_expired now age) db'.runs, logs),
      record db' { runs = filter (λ r. not (is_expired now age r)) db'.runs },
    )

-- `jsonb_each_text`: the texts of an object's fields.
unfoldable pub names_sha : String → Fields → Bool
names_sha sha end = false
names_sha sha (field k (string v) fs) = str_eq v sha || names_sha sha fs
names_sha sha (field k v fs) = names_sha sha fs

unfoldable pub refers : String → Option Value → Bool
unfolding names_sha
refers sha (some (object fs)) = names_sha sha fs
refers sha blobs = false

unfoldable pub is_referenced : Db → String → Bool
unfolding refers
is_referenced db sha =
    any (λ r. refers sha r.input_blobs) db.runs
    || any (λ r. refers sha r.output_blobs) db.runs
    || any (λ sc. sc.enabled && refers sha sc.input_blobs) db.schedules

unfoldable pub is_garbage : ℕ → ℕ → Db → Blob → Bool
unfolding is_referenced
is_garbage now age db b = ltb (b.last_used_at + age) now && not (is_referenced db b.sha)

unfoldable pub gc_blobs : ℕ → ℕ → Db → ℕ × Db
unfolding is_garbage
gc_blobs now age db = (
  count (is_garbage now age db) db.blobs,
  record db { blobs = filter (λ b. not (is_garbage now age db b)) db.blobs },
)

abbrev pub has_sha : String → Blob → Bool
has_sha sha b = str_eq b.sha sha

-- `sha256_hex` is the hash of the sha2 crate.
unfoldable pub put_blob : (List ℕ → String) → ℕ → List ℕ → Db → (String × ℕ) × Db
put_blob sha256_hex now bytes db =
    let sha = sha256_hex bytes in
    (
      (sha, length bytes),
      (if any (has_sha sha) db.blobs
          then record db {
            blobs = update_where (has_sha sha) (λ b. record b { last_used_at = now }) db.blobs;
          }
          else record db {
            blobs =
                db.blobs
                ++ record { sha = sha; bytes = bytes; size = length bytes; last_used_at = now }
                  ∷ [];
          }),
    )

unfoldable pub get_blob : ℕ → String → Db → Option (List ℕ) × Db
get_blob now sha db = elim (find? (has_sha sha) db.blobs) [
  | none ↦ (none, db)
  | some b ↦ (
    some b.bytes,
    record db {
      blobs = update_where (has_sha sha) (λ c. record c { last_used_at = now }) db.blobs;
    },
  )
]

unfoldable pub blob_exists : String → Db → Bool
blob_exists sha db = ltb 0 (count (has_sha sha) db.blobs)

pub data DeleteResult : Type 0 where
  not_found : DeleteResult
  blocked_by_flow : ℕ → DeleteResult
  deleted : ℕ → List ℕ → DeleteResult

abbrev pub of_script : ℕ → Run → Bool
of_script id r = r.script_id == id

abbrev pub log_of_script : ℕ → Db → Log → Bool
log_of_script id db l = any (λ r. r.id == l.run_id && of_script id r) db.runs

abbrev pub cascade : ℕ → Db → Db
cascade id db = record db {
  logs = filter (λ l. not (log_of_script id db l)) db.logs;
  runs = filter (λ r. not (of_script id r)) db.runs;
  schedules = filter (λ sc. not (sc.script_id == id)) db.schedules;
  scripts = filter (λ s. not (s.id == id)) db.scripts;
}

abbrev pub uses_script : ℕ → Trigger → Bool
uses_script id t = t.source_script_id == id || t.target_script_id == id

-- A script that a flow step refers to is kept, with all that hangs on it. `none`: the foreign key
-- of a trigger refuses the last statement, and the transaction is rolled back.
unfoldable pub delete_script : ℕ → Db → Option DeleteResult × Db
delete_script id db =
    let flow_refs = count (λ st. st.script_id == id) db.flow_steps in
    if any (λ s. s.id == id) db.scripts
    then if ltb 0 flow_refs
      then (some (blocked_by_flow flow_refs), db)
      else if any (uses_script id) db.triggers
      then (none, db)
      else (
        some (
            deleted (count (of_script id) db.runs)
              (map (λ sc. sc.id) (filter (λ sc. sc.script_id == id) db.schedules))),
        cascade id db,
      )
    else (some not_found, db)
