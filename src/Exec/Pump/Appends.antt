-- ===== src/Exec/Pump/Appends.antt =====
-- What the pump leaves in the log: each line of output once, in order and redacted.
use Prim.Native.String.{[] as []ˢ}
use mathlib.Core.List.{append_assoc, append-nil}
use dokan.Prelude.{
  ℕ, suc, ◌≤◌, String, true, false, ◌≡◌, refl, ◌∙◌, sym, ap, Option, none, some, List, [], ◌∷◌,
  ◌++◌, any, ◌==◌, arith, Bool-cases, Option-cases, inl, inr, All, All-append,
}
use dokan.Db.{Stream, Log, Db}
use dokan.Db.Runs.{update_run_progress}
use dokan.Db.Retention.{at_seq, add_log, run_exists, max_log_seq, max_seq}
use dokan.Exec.Redact.{redact_secrets}
use dokan.Exec.Redact.Hidden.{Hides, redact_secrets-Hides}
use dokan.Exec.Pump.{Item, Line, Ending, read_line, pump_logs}
use dokan.Exec.Pump.Plain.{lines_of, Written, row_of, write_read, write_lines}
use dokan.Exec.Pump.Streams.{pump_logs-write_lines}

abbrev shown_as : Stream → String → Line → List (Stream × String) → List (Stream × String)
shown_as stream line Line.log_line rest = (stream, line) ∷ rest
shown_as stream line _ rest = rest

-- The lines that are no control lines.
unfoldable pub shown : List (Stream × String) → List (Stream × String)
unfolding read_line
shown [] = []
shown ((stream, line) ∷ ls) = shown_as stream line (read_line stream line) (shown ls)

abbrev last_of : Line → Option String → Option String
last_of (Line.result_line s) result = some s
last_of _ result = result

-- The result of the last control line that has one.
unfoldable pub last_result : List (Stream × String) → Option String → Option String
unfolding read_line
last_result [] result = result
last_result ((stream, line) ∷ ls) result = last_result ls (last_of (read_line stream line) result)

module _ (run_id : ℕ) (secrets : List String) where
  -- Redacted, and numbered from the one after `n` on.
  unfoldable pub numbered : ℕ → List (Stream × String) → List Log
  unfolding redact_secrets
  numbered n [] = []
  numbered n ((stream, line) ∷ ls) = row_of run_id secrets (suc n) stream line ∷ numbered (suc n) ls

  abbrev Below : ℕ → List Log → Type 0
  Below n logs = All (λ l. l.run_id ≡ run_id → l.seq ≤ n) logs

  Below-le : (m n : ℕ) (logs : List Log) → m ≤ n → Below m logs → Below n logs
  Below-le m n [] le h = tt
  Below-le m n (l ∷ logs) le h = (λ e. let below = h.0 e in omega arith, Below-le m n logs le h.1)

  new_seq : (n : ℕ) (logs : List Log) → Below n logs → any (at_seq run_id (suc n)) logs ≡ false
  new_seq n [] h = refl
  new_seq n (l ∷ logs) h = ground (arith, h, new_seq n logs)

  add_log-append :
      (n : ℕ) (stream : Stream) (line : String) (logs : List Log)
      → Below n logs
      → add_log (row_of run_id secrets (suc n) stream line) logs
        ≡ logs ++ row_of run_id secrets (suc n) stream line ∷ []
  unfolding add_log
  add_log-append n stream line logs h = rw (new_seq n logs h) refl

  Appended : ℕ → List Log → List (Stream × String) → Option String → Written → Type 0
  Appended n logs ls result (seq, last, db) =
      (db.logs ≡ logs ++ numbered n (shown ls)) × (last ≡ last_result ls result)

  -- One line, of either kind, and the ones after it.
  line-Appended :
      (stream : Stream) (line : String) (ls : List (Stream × String)) (n : ℕ)
      (result : Option String) (db : Db) (kind : Line)
      → read_line stream line ≡ kind
      → Below n db.logs
      → ((m : ℕ) (r : Option String) (d : Db)
          → Below m d.logs
          → Appended m d.logs ls r (write_lines run_id secrets ls (m, r, d)))
      → Appended n db.logs ((stream, line) ∷ ls) result (
          write_lines run_id secrets ls
            (write_read run_id secrets stream line kind (n, result, db)))
  unfolding Appended shown last_result numbered update_run_progress
  line-Appended stream line ls n result db (Line.result_line s) e h later =
      rw e (later n (some s) db h)
  line-Appended stream line ls n result db (Line.progress_line s) e h later =
      rw e (later n result (update_run_progress run_id s db) h)
  line-Appended stream line ls n result db Line.log_line e h later =
      let row = row_of run_id secrets (suc n) stream line in
      let added = add_log-append n stream line db.logs h in
      let below : Below (suc n) (db.logs ++ row ∷ []) =
        All-append (λ l. l.run_id ≡ run_id → l.seq ≤ suc n) db.logs (row ∷ [])
          (Below-le n (suc n) db.logs (omega arith) h) (λ f. omega arith, tt) in
      let rest = later (suc n) result (record db { logs = add_log row db.logs }) (rw added below) in
      rw e (
        rest.0
            ∙ ap (λ x. x ++ numbered (suc n) (shown ls)) added
            ∙ append_assoc db.logs (row ∷ []) (numbered (suc n) (shown ls)),
        rest.1,
      )

  write_lines-appends :
      (ls : List (Stream × String)) (n : ℕ) (result : Option String) (db : Db)
      → Below n db.logs
      → Appended n db.logs ls result (write_lines run_id secrets ls (n, result, db))
  unfolding write_lines Appended numbered shown last_result
  write_lines-appends [] n result db h = (sym (append-nil db.logs), refl)
  write_lines-appends ((stream, line) ∷ ls) n result db h =
      line-Appended stream line ls n result db (read_line stream line) refl h
        (write_lines-appends ls)

  abbrev seq_or : Option ℕ → ℕ
  seq_or none = 0
  seq_or (some n) = n

  max_seq-bounds :
      (l : Log) (logs : List Log)
      → (l.run_id ≡ run_id → l.seq ≤ seq_or (max_seq run_id (l ∷ logs)))
        × (seq_or (max_seq run_id logs) ≤ seq_or (max_seq run_id (l ∷ logs)))
  unfolding max_seq
  max_seq-bounds l logs = elim (Bool-cases (l.run_id == run_id)) [
    | inr e ↦ rw e (λ f. absurd (ground (arith, e, f)), omega arith)
    | inl e ↦ elim (Option-cases (max_seq run_id logs)) [
      | inl f ↦ rw (e, f) (λ g. omega arith, omega arith)
      | inr (m, f) ↦ rw (e, f) (λ g. ground arith, ground arith)
    ]
  ]

  max_seq-Below : (logs : List Log) → Below (seq_or (max_seq run_id logs)) logs
  max_seq-Below [] = tt
  max_seq-Below (l ∷ logs) =
      let (own, others) = max_seq-bounds l logs in
      (own, Below-le (seq_or (max_seq run_id logs)) _ logs others (max_seq-Below logs))

  max_log_seq-Below : (db : Db) → Below (max_log_seq run_id db) db.logs
  unfolding max_log_seq
  max_log_seq-Below db = max_seq-Below db.logs

  -- Of a run that is there and a stream that does not break off in an error: the log gains each line
  -- that is no control line once, redacted, in the order of the stream, under the numbers that
  -- follow the highest one so far; the last result line gives the result.
  pub pump_logs-appends :
      (db_error : String) (from_utf8_lossy : List ℕ → String) (items : List Item) (db : Db)
      (ls : List (Stream × String))
      → run_exists run_id db ≡ true
      → lines_of from_utf8_lossy []ˢ []ˢ items ≡ some ls
      → let (end, after) = pump_logs db_error from_utf8_lossy run_id secrets items db in
        (after.logs ≡ db.logs ++ numbered (max_log_seq run_id db) (shown ls))
        × ((seq : ℕ) × (end ≡ Ending.pumped seq (last_result ls none)))
  unfolding Appended
  pump_logs-appends db_error from_utf8_lossy items db ls h e =
      let w = write_lines run_id secrets ls (max_log_seq run_id db, none, db) in
      let (logs, last) =
        write_lines-appends ls (max_log_seq run_id db) none db (max_log_seq-Below db) in
      rw (pump_logs-write_lines run_id secrets db_error from_utf8_lossy items db ls h e)
        (logs, (w.0, ap (Ending.pumped w.0) last))

  numbered-Hides :
      (n : ℕ) (ls : List (Stream × String)) → All (λ l. Hides l.line secrets) (numbered n ls)
  unfolding numbered
  numbered-Hides n [] = tt
  numbered-Hides n ((stream, line) ∷ ls) =
      (redact_secrets-Hides line secrets, numbered-Hides (suc n) ls)

  -- No line that the pump adds to the log shows a secret, of those that are not empty and have no
  -- character of the mask.
  pub pump_logs-Hides :
      (db_error : String) (from_utf8_lossy : List ℕ → String) (items : List Item) (db : Db)
      (ls : List (Stream × String))
      → run_exists run_id db ≡ true
      → lines_of from_utf8_lossy []ˢ []ˢ items ≡ some ls
      → (new : List Log) × ((pump_logs db_error from_utf8_lossy run_id secrets items db).1.logs
          ≡ db.logs ++ new)
        × All (λ l. Hides l.line secrets) new
  pump_logs-Hides db_error from_utf8_lossy items db ls h e =
      let new = numbered (max_log_seq run_id db) (shown ls) in
      (
        new,
        (pump_logs-appends db_error from_utf8_lossy items db ls h e).0,
        numbered-Hides (max_log_seq run_id db) (shown ls),
      )
