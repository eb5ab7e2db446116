-- ===== src/Exec/Pump/Streams.antt =====
-- Writing the log in batches comes to writing every line at once: the whole stream.
use Prim.Native.String.{[] as []ˢ, ◌++◌ as ◌++ˢ◌}
use dokan.Prelude.{
  eq_of_some, Option-cases, ℕ, String, true, ◌≡◌, refl, ◌∙◌, sym, ap, none, some, List, [], ◌∷◌,
  ◌++◌, map, arith, inl, inr,
}
use dokan.Db.{Stream, stdout, stderr, Db}
use dokan.Db.Retention.{add_rows, append_logs_batch, run_exists, max_log_seq}
use dokan.Exec.Pump.{
  Item, Pump, Pumped, Ending, going, stopped, then_pump, stream_name, message, cut, trim_cr,
  set_buffer, flush, on_lines, on_output, on_items, on_rest, ending, pump_logs,
}
use dokan.Exec.Pump.Plain.{of_stream, before, rests, pick, lines_of, Written, write_lines}
use dokan.Exec.Pump.Batches.{
  Keeps, commit, finished, write_lines-append, then-Keeps, on_lines-Keeps, flush-Keeps,
  finished-Keeps,
}

module _ (run_id : ℕ) (secrets : List String) where
  module _ (db_error : String) (from_utf8_lossy : List ℕ → String) where
    chunk-Keeps :
        (stream : Stream) (ls : List String) (p : Pump)
        → run_exists run_id p.db ≡ true
        → Keeps run_id secrets p
            (write_lines run_id secrets (of_stream stream ls) (commit run_id secrets p))
            (then_pump
              (on_lines db_error from_utf8_lossy run_id secrets stream ls p)
              (flush db_error from_utf8_lossy run_id secrets))
    chunk-Keeps stream ls p h =
        then-Keeps run_id secrets db_error from_utf8_lossy p _ (λ w. w) _
          (flush db_error from_utf8_lossy run_id secrets)
          (on_lines-Keeps run_id secrets db_error from_utf8_lossy stream ls p h)
          (λ q h out err. flush-Keeps run_id secrets db_error from_utf8_lossy q h)

    abbrev Writes : Written → Pumped → Type 0
    Writes w x = (q : Pump) × (x ≡ going q) × (commit run_id secrets q ≡ w)

    then-Writes :
        (p : Pump) (x : Pumped) (g : Pump → Pumped) (f : Written → Written) (w : Written)
        → Keeps run_id secrets p w x
        → ((q : Pump)
            → run_exists run_id q.db ≡ true
            → q.buf_out ≡ p.buf_out
            → q.buf_err ≡ p.buf_err
            → Writes (f (commit run_id secrets q)) (g q))
        → Writes (f w) (then_pump x g)
    then-Writes p x g f w k h =
        let (q, goes, writes) = h k.at k.run k.out k.err in
        (q, ap (λ y. then_pump y g) k.goes ∙ goes, writes ∙ ap f k.commits)

    then_pump_assoc :
        (x : Pumped) (f g : Pump → Pumped)
        → then_pump (then_pump x f) g ≡ then_pump x (λ p. then_pump (f p) g)
    then_pump_assoc (going p) f g = refl
    then_pump_assoc (stopped e db) f g = refl

    module _ (items : List Item)
        (later : (q : Pump) (ls : List (Stream × String))
          → run_exists run_id q.db ≡ true
          → lines_of from_utf8_lossy q.buf_out q.buf_err items ≡ some ls
          → Writes (write_lines run_id secrets ls (commit run_id secrets q)) (
              then_pump
                (on_items db_error from_utf8_lossy run_id secrets items q)
                (finished run_id secrets db_error from_utf8_lossy))) where
      lines_then-Writes :
          (stream : Stream) (ls more : List (Stream × String)) (p : Pump) (x : Pumped)
          → Keeps run_id secrets p (write_lines run_id secrets ls (commit run_id secrets p)) x
          → lines_of from_utf8_lossy p.buf_out p.buf_err items ≡ some more
          → Writes (write_lines run_id secrets (ls ++ more) (commit run_id secrets p)) (
              then_pump
                (then_pump x (on_items db_error from_utf8_lossy run_id secrets items))
                (finished run_id secrets db_error from_utf8_lossy))
      lines_then-Writes stream ls more p x k e =
          rw (then_pump_assoc, write_lines-append run_id secrets ls more (commit run_id secrets p))
            (then-Writes p x _ (write_lines run_id secrets more) _ k
              (λ q h out err. later q more h (rw (out, err) e)))

      output-Writes :
          (stream : Stream) (bytes : List ℕ) (p : Pump) (ls : List (Stream × String))
          → run_exists run_id p.db ≡ true
          → let (new, rest) = cut (pick stream p.buf_out p.buf_err ++ˢ from_utf8_lossy bytes) in
            before (of_stream stream (map trim_cr new)) (
                lines_of from_utf8_lossy
                  (pick stream rest p.buf_out)
                  (pick stream p.buf_err rest)
                  items)
              ≡ some ls
            → Writes (write_lines run_id secrets ls (commit run_id secrets p)) (
                then_pump
                  (then_pump
                    (on_output db_error from_utf8_lossy run_id secrets stream bytes p)
                    (on_items db_error from_utf8_lossy run_id secrets items))
                  (finished run_id secrets db_error from_utf8_lossy))
      unfolding on_output
      output-Writes stdout bytes p ls h e =
          let (new, rest) = cut (p.buf_out ++ˢ from_utf8_lossy bytes) in
          elim (Option-cases (lines_of from_utf8_lossy rest p.buf_err items)) [
            | inl f ↦ absurd (ground (arith, e, f))
            | inr (more, f) ↦ rw⁻¹ (eq_of_some (rw f at e)) (
                lines_then-Writes stdout (of_stream stdout (map trim_cr new)) more
                  (set_buffer stdout rest p) _
                  (chunk-Keeps stdout (map trim_cr new) (set_buffer stdout rest p) h) f)
          ]
      output-Writes stderr bytes p ls h e =
          let (new, rest) = cut (p.buf_err ++ˢ from_utf8_lossy bytes) in
          elim (Option-cases (lines_of from_utf8_lossy p.buf_out rest items)) [
            | inl f ↦ absurd (ground (arith, e, f))
            | inr (more, f) ↦ rw⁻¹ (eq_of_some (rw f at e)) (
                lines_then-Writes stderr (of_stream stderr (map trim_cr new)) more
                  (set_buffer stderr rest p) _
                  (chunk-Keeps stderr (map trim_cr new) (set_buffer stderr rest p) h) f)
          ]

    finished-Writes :
        (p : Pump) (ls : List (Stream × String))
        → run_exists run_id p.db ≡ true
        → some (rests p.buf_out p.buf_err) ≡ some ls
        → Writes
            (write_lines run_id secrets ls (commit run_id secrets p))
            ((finished run_id secrets db_error from_utf8_lossy) p)
    finished-Writes p ls h e =
        let k = finished-Keeps run_id secrets db_error from_utf8_lossy p h in
        (
          k.at,
          k.goes,
          k.commits
              ∙ ap (λ ls. write_lines run_id secrets ls (commit run_id secrets p)) (eq_of_some e),
        )

    on_items-Writes :
        (items : List Item) (p : Pump) (ls : List (Stream × String))
        → run_exists run_id p.db ≡ true
        → lines_of from_utf8_lossy p.buf_out p.buf_err items ≡ some ls
        → Writes (write_lines run_id secrets ls (commit run_id secrets p)) (
            then_pump
              (on_items db_error from_utf8_lossy run_id secrets items p)
              (finished run_id secrets db_error from_utf8_lossy))
    unfolding on_items lines_of
    on_items-Writes [] p ls h e = finished-Writes p ls h e
    on_items-Writes (Item.gone ∷ items) p ls h e = finished-Writes p ls h e
    on_items-Writes (Item.broken b ∷ items) p ls h e = absurd (ground (arith, e))
    on_items-Writes (Item.output o ∷ items) p ls h e =
        output-Writes items (on_items-Writes items) (stream_name o) (message o) p ls h e

    abbrev batch_of : Pumped → List (ℕ × Stream × String)
    batch_of (going p) = p.batch
    batch_of (stopped e db) = []

    flush-batch :
        (x : Pumped) → batch_of (then_pump x (flush db_error from_utf8_lossy run_id secrets)) ≡ []
    unfolding flush
    flush-batch (stopped e db) = refl
    flush-batch (going p) = elim (Option-cases (append_logs_batch run_id p.batch p.db)) [
      | inl e ↦ rw e refl
      | inr (db, e) ↦ rw e refl
    ]

    abbrev committed : Pump → List (ℕ × Stream × String) → Written
    committed q b = (q.seq, q.result, record q.db { logs = add_rows run_id b q.db.logs })

    ending-Writes :
        (x : Pumped) (w : Written)
        → Writes w x
        → batch_of x ≡ []
        → ending db_error from_utf8_lossy run_id secrets x ≡ (Ending.pumped w.0 w.1, w.2)
    unfolding add_rows
    ending-Writes x w (q, goes, writes) b =
        let none_left : q.batch ≡ [] = sym (ap batch_of goes) ∙ b in
        let all : (q.seq, q.result, q.db) ≡ w = sym (ap (committed q) none_left) ∙ writes in
        ap (ending db_error from_utf8_lossy run_id secrets) goes
        ∙ ap (λ (v : Written). (Ending.pumped v.0 v.1, v.2)) all

    -- Of a run that is there and a stream that does not break off in an error, the log, the progress
    -- and the result come out as if each line were written by itself the moment it was complete.
    pub pump_logs-write_lines :
        (items : List Item) (db : Db) (ls : List (Stream × String))
        → run_exists run_id db ≡ true
        → lines_of from_utf8_lossy []ˢ []ˢ items ≡ some ls
        → let (seq, result, db2) =
            write_lines run_id secrets ls (max_log_seq run_id db, none, db) in
          pump_logs db_error from_utf8_lossy run_id secrets items db
          ≡ (Ending.pumped seq result, db2)
    unfolding pump_logs add_rows
    pump_logs-write_lines items db ls h e =
        let fresh : Pump = record {
          seq = max_log_seq run_id db;
          buf_out = []ˢ;
          buf_err = []ˢ;
          result = none;
          batch = [];
          db = db;
        } in
        let read = on_items db_error from_utf8_lossy run_id secrets items fresh in
        let rest = on_rest db_error from_utf8_lossy run_id secrets in
        let flush_it = flush db_error from_utf8_lossy run_id secrets in
        let w = write_lines run_id secrets ls (max_log_seq run_id db, none, db) in
        let same : then_pump (then_pump (then_pump read (rest stdout)) (rest stderr)) flush_it
            ≡ then_pump read (finished run_id secrets db_error from_utf8_lossy) =
          ap (λ x. then_pump x flush_it) (then_pump_assoc read (rest stdout) (rest stderr))
          ∙ then_pump_assoc read (λ p. then_pump (rest stdout p) (rest stderr)) flush_it in
        ending-Writes (then_pump (then_pump (then_pump read (rest stdout)) (rest stderr)) flush_it)
          w (rw same (on_items-Writes items fresh ls h e))
          (flush-batch (then_pump (then_pump read (rest stdout)) (rest stderr)))
