-- ===== src/Exec/Pump/Plain.antt =====
-- What `pump_logs` comes to: the lines of a stream, and the log that has each written at once.
use Prim.Native.String.{◌++◌ as ◌++ˢ◌}
use dokan.Prelude.{
  ℕ, suc, String, Option, none, some, List, [], ◌∷◌, ◌++◌, map, is_empty, if◌then◌else◌,
}
use dokan.Db.{Stream, stdout, stderr, Log, Db}
use dokan.Db.Runs.{update_run_progress}
use dokan.Db.Retention.{add_log}
use dokan.Exec.Redact.{redact_secrets}
use dokan.Exec.Pump.{Item, Line, stream_name, message, cut, trim_cr, read_line}

-- The lines of an output in the order in which they are written, each buffer's rest at the end;
-- `none` for a stream that breaks off in an error.
abbrev pub of_stream : Stream → List String → List (Stream × String)
of_stream stream ls = map (λ l. (stream, l)) ls

abbrev pub rest_line : Stream → String → List (Stream × String)
rest_line stream s = if is_empty s then [] else (stream, s) ∷ []

abbrev pub before :
    List (Stream × String) → Option (List (Stream × String)) → Option (List (Stream × String))
before ls none = none
before ls (some ms) = some (ls ++ ms)

abbrev pub rests : String → String → List (Stream × String)
rests out err = rest_line stdout out ++ rest_line stderr err

abbrev pub pick : {A : Type 0} → Stream → A → A → A
pick stdout a b = a
pick stderr a b = b

module _ (from_utf8_lossy : List ℕ → String) where
  unfoldable pub lines_of : String → String → List Item → Option (List (Stream × String))
  unfolding cut trim_cr
  lines_of out err [] = some (rests out err)
  lines_of out err (Item.gone ∷ items) = some (rests out err)
  lines_of out err (Item.broken e ∷ items) = none
  lines_of out err (Item.output o ∷ items) =
      let stream = stream_name o in
      let (ls, rest) = cut (pick stream out err ++ˢ from_utf8_lossy (message o)) in
      before (of_stream stream (map trim_cr ls))
        (lines_of (pick stream rest out) (pick stream err rest) items)

-- The last number, the result and the database.
abbrev pub Written : Type 0
Written = ℕ × Option String × Db

module _ (run_id : ℕ) (secrets : List String) where
  abbrev pub row_of : ℕ → Stream → String → Log
  row_of seq stream line = record {
    run_id = run_id;
    seq = seq;
    stream = stream;
    line = redact_secrets line secrets;
  }

  abbrev pub write_read : Stream → String → Line → Written → Written
  write_read stream line (Line.result_line s) (seq, result, db) = (seq, some s, db)
  write_read stream line (Line.progress_line s) (seq, result, db) =
      (seq, result, update_run_progress run_id s db)
  write_read stream line Line.log_line (seq, result, db) =
      (suc seq, result, record db { logs = add_log (row_of (suc seq) stream line) db.logs })

  -- Each line written at once.
  unfoldable pub write_lines : List (Stream × String) → Written → Written
  unfolding read_line update_run_progress redact_secrets add_log
  write_lines [] w = w
  write_lines ((stream, line) ∷ ls) w =
      write_lines ls (write_read stream line (read_line stream line) w)
