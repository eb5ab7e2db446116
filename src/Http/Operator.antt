-- ===== src/Http/Operator.antt =====
-- src/http.rs: the operator's handlers that change state, and the paged read of a log.
use dokan.Prelude.{
  ℕ, ◌&&◌, Option, none, some, List, [], ◌∷◌, filter, take, ltb, ◌==◌, if◌then◌else◌,
}
use dokan.Json.{Value, Fields}
use dokan.Db.{Status, Log, Db}
use dokan.Db.Runs.{insert_run, run_status}
use dokan.Db.Runs

pub data CancelReply : Type 0 where
  already_terminal : Status → CancelReply
  canceled : CancelReply

abbrev pub terminal_of : Option Status → Option Status
terminal_of (some Status.succeeded) = some Status.succeeded
terminal_of (some Status.failed) = some Status.failed
terminal_of (some Status.canceled) = some Status.canceled
terminal_of _ = none

-- A run that is not there answers "canceled" too.
unfoldable pub cancel_run : ℕ → ℕ → Db → CancelReply × Db
unfolding run_status Runs.cancel_run
cancel_run now id db = elim (terminal_of (run_status id db)) [
  | some st ↦ (CancelReply.already_terminal st, db)
  | none ↦ (CancelReply.canceled, (Runs.cancel_run now id "canceled by operator" db).1)
]

abbrev or_empty_object : Option Value → Value
or_empty_object none = Value.object Fields.end
or_empty_object (some v) = v

-- `none`: 400, with the error of the database.
unfoldable pub trigger_run : ℕ → ℕ → Option Value → Db → Option ℕ × Db
unfolding insert_run
trigger_run now script_id input = insert_run now script_id (or_empty_object input) none

-- `ORDER BY seq ASC`
abbrev insert_log : Log → List Log → List Log
insert_log l [] = l ∷ []
insert_log l (m ∷ ls) =
    let rest = insert_log l ls in if ltb m.seq l.seq then m ∷ rest else l ∷ m ∷ ls

unfoldable pub sort_logs : List Log → List Log
sort_logs [] = []
sort_logs (l ∷ ls) = insert_log l (sort_logs ls)

unfoldable pub read_logs_after : ℕ → ℕ → ℕ → Db → List Log
unfolding sort_logs
read_logs_after run_id after limit db =
    take limit (sort_logs (filter (λ l. l.run_id == run_id && ltb after l.seq) db.logs))

abbrev pub last_seq : ℕ → List Log → ℕ
last_seq after [] = after
last_seq after (l ∷ ls) = last_seq l.seq ls

-- A page of at most 500 lines, and the cursor of the next.
unfoldable pub run_logs : ℕ → ℕ → Db → List Log × ℕ
unfolding read_logs_after
run_logs id after db = let lines = read_logs_after id after 500 db in (lines, last_seq after lines)
