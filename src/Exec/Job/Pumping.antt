-- ===== src/Exec/Job/Pumping.antt =====
-- The log pump changes neither the status nor the attempts of its run, however its stream ends.
use Prim.Native.String.{◌++◌ as ◌++ˢ◌}
use dokan.Prelude.{
  ℕ, String, ◌≡◌, refl, some, List, [], ◌∷◌, map, length, leb, Bool-cases, Option-cases, inl, inr,
  is_empty,
}
use dokan.Db.{Stream, stdout, stderr, Db}
use dokan.Db.Runs.{update_run_progress}
use dokan.Db.Retention.{append_logs_batch}
use dokan.Db.Lifecycle.{Step}
use dokan.Db.Lifecycle.Tables.{append_logs_batch-SameRuns}
use dokan.Exec.Pump.{
  Item, Line, Pump, Pumped, going, stopped, then_pump, stream_name, message, cut, trim_cr,
  read_line, buffer, set_buffer, flush, flush_full, on_read, on_line, on_lines, on_output, on_items,
  on_rest, fresh_pump, pump_logs, interrupt_logs, ending, dropped,
}
use dokan.Exec.Job.Quiet.{Quiet, Quiet-refl, Quiet-trans, SameRuns-Quiet, update_run-Quiet}

abbrev db_of : Pumped → Db
db_of (going p) = p.db
db_of (stopped e db) = db

module _ (db_error : String) (from_utf8_lossy : List ℕ → String) (run_id : ℕ)
    (secrets : List String) where
  IsQuiet : (Pump → Pumped) → Type 0
  IsQuiet f = (p : Pump) → Quiet run_id p.db (db_of (f p))

  going-IsQuiet : IsQuiet (λ p. going p)
  unfolding IsQuiet
  going-IsQuiet p = Quiet-refl run_id p.db

  then_pump-Quiet :
      (t : Db) (x : Pumped) (f : Pump → Pumped)
      → Quiet run_id t (db_of x)
      → IsQuiet f
      → Quiet run_id t (db_of (then_pump x f))
  unfolding IsQuiet
  then_pump-Quiet t (going p) f q h = Quiet-trans run_id q (h p)
  then_pump-Quiet t (stopped e db) f q h = q

  flush-IsQuiet : IsQuiet (flush db_error from_utf8_lossy run_id secrets)
  unfolding IsQuiet flush
  flush-IsQuiet p = elim (Option-cases (append_logs_batch run_id p.batch p.db)) [
    | inl e ↦ rw e (Quiet-refl run_id p.db)
    | inr (u, e) ↦ rw e (
        SameRuns-Quiet run_id (Step.log_batch run_id p.batch e)
          (append_logs_batch-SameRuns run_id p.batch p.db u e))
  ]

  flush_full-IsQuiet : IsQuiet (flush_full db_error from_utf8_lossy run_id secrets)
  unfolding IsQuiet
  flush_full-IsQuiet p = elim (Bool-cases (leb 256 (length p.batch))) [
    | inl e ↦ rw e (flush-IsQuiet p)
    | inr e ↦ rw e (Quiet-refl run_id p.db)
  ]

  on_read-IsQuiet :
      (full : Pump → Pumped) (stream : Stream) (line : String) (kind : Line)
      → IsQuiet full
      → IsQuiet (on_read db_error from_utf8_lossy run_id secrets full stream line kind)
  unfolding IsQuiet update_run_progress
  on_read-IsQuiet full stream line (Line.result_line s) h p = Quiet-refl run_id p.db
  on_read-IsQuiet full stream line (Line.progress_line s) h p =
      update_run-Quiet run_id run_id (λ r. record r { progress = some s }) p.db
        (Step.progress run_id s) (λ r. refl) (λ r. refl)
  on_read-IsQuiet full stream line Line.log_line h p = h _

  on_lines-IsQuiet :
      (stream : Stream) (ls : List String)
      → IsQuiet (on_lines db_error from_utf8_lossy run_id secrets stream ls)
  unfolding IsQuiet on_lines on_line
  on_lines-IsQuiet stream [] p = Quiet-refl run_id p.db
  on_lines-IsQuiet stream (l ∷ ls) p =
      then_pump-Quiet p.db (on_line db_error from_utf8_lossy run_id secrets stream l p)
        (on_lines db_error from_utf8_lossy run_id secrets stream ls)
        (on_read-IsQuiet (flush_full db_error from_utf8_lossy run_id secrets) stream l
          (read_line stream l) flush_full-IsQuiet p)
        (on_lines-IsQuiet stream ls)

  on_output-IsQuiet :
      (stream : Stream) (bytes : List ℕ)
      → IsQuiet (on_output db_error from_utf8_lossy run_id secrets stream bytes)
  unfolding IsQuiet on_output
  on_output-IsQuiet stdout bytes p =
      let (ls, rest) = cut (p.buf_out ++ˢ from_utf8_lossy bytes) in
      let q = set_buffer stdout rest p in
      then_pump-Quiet p.db
        (on_lines db_error from_utf8_lossy run_id secrets stdout (map trim_cr ls) q)
        (flush db_error from_utf8_lossy run_id secrets) (on_lines-IsQuiet stdout (map trim_cr ls) q)
        flush-IsQuiet
  on_output-IsQuiet stderr bytes p =
      let (ls, rest) = cut (p.buf_err ++ˢ from_utf8_lossy bytes) in
      let q = set_buffer stderr rest p in
      then_pump-Quiet p.db
        (on_lines db_error from_utf8_lossy run_id secrets stderr (map trim_cr ls) q)
        (flush db_error from_utf8_lossy run_id secrets) (on_lines-IsQuiet stderr (map trim_cr ls) q)
        flush-IsQuiet

  on_items-IsQuiet :
      (items : List Item) → IsQuiet (on_items db_error from_utf8_lossy run_id secrets items)
  unfolding IsQuiet on_items
  on_items-IsQuiet [] p = Quiet-refl run_id p.db
  on_items-IsQuiet (Item.gone ∷ items) p = Quiet-refl run_id p.db
  on_items-IsQuiet (Item.broken e ∷ items) p = Quiet-refl run_id p.db
  on_items-IsQuiet (Item.output o ∷ items) p =
      then_pump-Quiet p.db
        (on_output db_error from_utf8_lossy run_id secrets (stream_name o) (message o) p)
        (on_items db_error from_utf8_lossy run_id secrets items)
        (on_output-IsQuiet (stream_name o) (message o) p) (on_items-IsQuiet items)

  on_rest-IsQuiet :
      (stream : Stream) → IsQuiet (on_rest db_error from_utf8_lossy run_id secrets stream)
  unfolding IsQuiet on_rest
  on_rest-IsQuiet stream p = elim (Bool-cases (is_empty (buffer stream p))) [
    | inl e ↦ rw e (Quiet-refl run_id p.db)
    | inr e ↦ rw e (
        on_read-IsQuiet (λ p. going p) stream (buffer stream p) (read_line stream (buffer stream p))
          going-IsQuiet p)
  ]

  ending-db : (x : Pumped) → (ending db_error from_utf8_lossy run_id secrets x).1 ≡ db_of x
  ending-db (going p) = refl
  ending-db (stopped e db) = refl

  dropped-db : (x : Pumped) → (dropped db_error from_utf8_lossy run_id secrets x).1 ≡ db_of x
  dropped-db (going p) = refl
  dropped-db (stopped e db) = refl

  pub pump_logs-Quiet :
      (items : List Item) (db : Db)
      → Quiet run_id db (pump_logs db_error from_utf8_lossy run_id secrets items db).1
  unfolding pump_logs IsQuiet
  pump_logs-Quiet items db =
      let rest = on_rest db_error from_utf8_lossy run_id secrets in
      let read =
        on_items db_error from_utf8_lossy run_id secrets items
          (fresh_pump db_error from_utf8_lossy run_id secrets db) in
      let flush_it = flush db_error from_utf8_lossy run_id secrets in
      rw (ending-db (then_pump (then_pump (then_pump read (rest stdout)) (rest stderr)) flush_it)) (
        then_pump-Quiet db (then_pump (then_pump read (rest stdout)) (rest stderr)) flush_it
          (then_pump-Quiet db (then_pump read (rest stdout)) (rest stderr)
            (then_pump-Quiet db read (rest stdout)
              (on_items-IsQuiet items (fresh_pump db_error from_utf8_lossy run_id secrets db))
              (on_rest-IsQuiet stdout))
            (on_rest-IsQuiet stderr))
          flush-IsQuiet)

  pub interrupt_logs-Quiet :
      (items : List Item) (db : Db)
      → Quiet run_id db (interrupt_logs db_error from_utf8_lossy run_id secrets items db).1
  unfolding interrupt_logs IsQuiet
  interrupt_logs-Quiet items db =
      rw dropped-db (on_items-IsQuiet items (fresh_pump db_error from_utf8_lossy run_id secrets db))
