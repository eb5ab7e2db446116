-- ===== src/Exec/Pump.antt =====
-- src/exec.rs, `pump_logs`: the output of a container becomes the lines of its run's log, written in
-- batches; control lines carry the result and the progress. Docker's stream is a list here.
pub mod Plain
pub mod Batches
pub mod Streams
pub mod Appends
use Prim.Native.Char.{Char, code}
use Prim.Native.String.{[] as []ˢ, ◌∷◌ as ◌∷ˢ◌, ◌++◌ as ◌++ˢ◌}
use dokan.Prelude.{
  ℕ, suc, String, Bool, Option, none, some, List, [], ◌∷◌, ◌++◌, length, map, leb, ◌==◌, trim,
  trim_start, strip_prefix, is_empty, if◌then◌else◌,
}
use dokan.Db.{Stream, stdout, stderr, Db}
use dokan.Db.Runs.{update_run_progress}
use dokan.Db.Retention.{append_logs_batch, max_log_seq}
use dokan.Exec.Redact.{redact_secrets}

abbrev pub result_marker : String
result_marker = "::dokan:result::"

abbrev pub progress_marker : String
progress_marker = "::dokan:progress::"

pub data LogOutput : Type 0 where
  std_out std_err console std_in : List ℕ → LogOutput

-- What the stream yields; `gone` is Docker's 404 for a container that was torn down.
pub data Item : Type 0 where
  output : LogOutput → Item
  gone : Item
  broken : String → Item

abbrev pub stream_name : LogOutput → Stream
stream_name (LogOutput.std_err m) = stderr
stream_name _ = stdout

abbrev pub message : LogOutput → List ℕ
message (LogOutput.std_out m) = m
message (LogOutput.std_err m) = m
message (LogOutput.console m) = m
message (LogOutput.std_in m) = m

abbrev with_first : Char → List String × String → List String × String
with_first c ([], rest) = ([], c ∷ˢ rest)
with_first c (l ∷ ls, rest) = ((c ∷ˢ l) ∷ ls, rest)

-- The complete lines of a buffer, without their ends, and what is left of it.
unfoldable pub cut : String → List String × String
cut []ˢ = ([], []ˢ)
cut (c ∷ˢ s) =
    let (ls, rest) = cut s in if code c == 10 then ([]ˢ ∷ ls, rest) else with_first c (ls, rest)

cons_unless_cr : Char → String → String
cons_unless_cr c []ˢ = if code c == 13 then []ˢ else c ∷ˢ []ˢ
cons_unless_cr c (d ∷ˢ s) = c ∷ˢ d ∷ˢ s

-- `trim_end_matches('\r')`
unfoldable pub trim_cr : String → String
unfolding cons_unless_cr
trim_cr []ˢ = []ˢ
trim_cr (c ∷ˢ s) = cons_unless_cr c (trim_cr s)

pub data Line : Type 0 where
  result_line progress_line : String → Line
  log_line : Line

abbrev progress_or_log : Option String → Line
progress_or_log none = Line.log_line
progress_or_log (some rest) = Line.progress_line (trim rest)

abbrev control : Option String → Option String → Line
control (some rest) p = Line.result_line (trim rest)
control none p = progress_or_log p

-- Only a line of stdout may be a control line.
unfoldable pub read_line : Stream → String → Line
unfolding trim trim_start strip_prefix
read_line stdout line =
    control (strip_prefix result_marker (trim_start line))
      (strip_prefix progress_marker (trim_start line))
read_line stderr line = Line.log_line

pub record Pump : Type 0 where
  pub seq : ℕ
  pub buf_out : String
  pub buf_err : String
  pub result : Option String
  pub batch : List (ℕ × Stream × String)
  pub db : Db

-- The pump goes on, or an error ends it.
pub data Pumped : Type 0 where
  going : Pump → Pumped
  stopped : String → Db → Pumped

-- How the pump ended: with the last number and the result, or in an error.
pub data Ending : Type 0 where
  pumped : ℕ → Option String → Ending
  failed : String → Ending

abbrev pub then_pump : Pumped → (Pump → Pumped) → Pumped
then_pump (going p) f = f p
then_pump (stopped e db) f = stopped e db

abbrev pub buffer : Stream → Pump → String
buffer stdout p = p.buf_out
buffer stderr p = p.buf_err

abbrev pub set_buffer : Stream → String → Pump → Pump
set_buffer stdout s p = record p { buf_out = s }
set_buffer stderr s p = record p { buf_err = s }

-- The text of the database's error is a parameter.
module _ (db_error : String) (from_utf8_lossy : List ℕ → String) (run_id : ℕ)
    (secrets : List String) where
  abbrev flushed : Pump → Option Db → Pumped
  flushed p none = stopped db_error p.db
  flushed p (some db) = going (record p { batch = []; db = db })

  unfoldable pub flush : Pump → Pumped
  unfolding append_logs_batch
  flush p = flushed p (append_logs_batch run_id p.batch p.db)

  -- The pump with one more line in its batch.
  abbrev pub pushed : Stream → String → Pump → Pump
  pushed stream line p = record p {
    seq = suc p.seq;
    batch = p.batch ++ (suc p.seq, stream, redact_secrets line secrets) ∷ [];
  }

  abbrev pub on_read : (Pump → Pumped) → Stream → String → Line → Pump → Pumped
  on_read full stream line (Line.result_line s) p = going (record p { result = some s })
  on_read full stream line (Line.progress_line s) p =
      going (record p { db = update_run_progress run_id s p.db })
  on_read full stream line Line.log_line p = full (pushed stream line p)

  -- A batch of 256 lines is written out.
  abbrev pub flush_full : Pump → Pumped
  flush_full p = if leb 256 (length p.batch) then flush p else going p

  unfoldable pub on_line : Stream → String → Pump → Pumped
  unfolding read_line update_run_progress redact_secrets flush
  on_line stream line = on_read flush_full stream line (read_line stream line)

  unfoldable pub on_lines : Stream → List String → Pump → Pumped
  unfolding on_line
  on_lines stream [] p = going p
  on_lines stream (l ∷ ls) p = then_pump (on_line stream l p) (on_lines stream ls)

  unfoldable pub on_output : Stream → List ℕ → Pump → Pumped
  unfolding cut trim_cr on_lines flush
  on_output stream bytes p =
      let (lines, rest) = cut (buffer stream p ++ˢ from_utf8_lossy bytes) in
      then_pump (on_lines stream (map trim_cr lines) (set_buffer stream rest p)) flush

  unfoldable pub on_items : List Item → Pump → Pumped
  unfolding on_output
  on_items [] p = going p
  on_items (Item.gone ∷ items) p = going p
  on_items (Item.broken e ∷ items) p = stopped ("log stream: " ++ˢ e) p.db
  on_items (Item.output o ∷ items) p =
      then_pump (on_output (stream_name o) (message o) p) (on_items items)

  -- A last line without its end.
  unfoldable pub on_rest : Stream → Pump → Pumped
  unfolding is_empty read_line update_run_progress redact_secrets
  on_rest stream p =
      let line = buffer stream p in
      if is_empty line then going p else on_read going stream line (read_line stream line) p

  abbrev pub ending : Pumped → Ending × Db
  ending (going p) = (pumped p.seq p.result, p.db)
  ending (stopped e db) = (failed e, db)

  abbrev pub fresh_pump : Db → Pump
  fresh_pump db = record {
    seq = max_log_seq run_id db;
    buf_out = []ˢ;
    buf_err = []ˢ;
    result = none;
    batch = [];
    db = db;
  }

  unfoldable pub pump_logs : List Item → Db → Ending × Db
  unfolding max_log_seq on_items on_rest flush
  pump_logs items db = ending (
      then_pump
        (then_pump (then_pump (on_items items (fresh_pump db)) (on_rest stdout)) (on_rest stderr))
        flush)

  -- A pump that is dropped while it waits for the next item: the lines of its chunks are written,
  -- the rests of its buffers are lost. `none`: the time was up; else the error that came before.
  abbrev pub dropped : Pumped → Option String × Db
  dropped (going p) = (none, p.db)
  dropped (stopped e db) = (some e, db)

  unfoldable pub interrupt_logs : List Item → Db → Option String × Db
  unfolding on_items max_log_seq
  interrupt_logs items db = dropped (on_items items (fresh_pump db))
