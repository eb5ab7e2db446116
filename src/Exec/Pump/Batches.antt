-- ===== src/Exec/Pump/Batches.antt =====
-- Writing the log in batches comes to writing every line at once: the lines of one chunk.
use dokan.Prelude.{
  ℕ, suc, String, true, ◌≡◌, refl, ◌∙◌, ap, some, List, [], ◌∷◌, ◌++◌, any, length, leb, ◌==◌,
  is_empty, arith, Bool-cases, inl, inr, update_where,
}
use dokan.Db.{Stream, stdout, stderr, Run, Log, Db}
use dokan.Db.Runs.{update_run_progress, has_id}
use dokan.Db.Retention.{add_rows, append_logs_batch, run_exists}
use dokan.Exec.Redact.{redact_secrets}
use dokan.Exec.Pump.{
  Line, Pump, Pumped, going, then_pump, read_line, buffer, flush, pushed, on_read, flush_full,
  on_lines, on_rest,
}
use dokan.Exec.Pump.Plain.{of_stream, rest_line, rests, Written, write_read, write_lines}

module _ (run_id : ℕ) (secrets : List String) where
  any-progress :
      (s : String) (runs : List Run)
      → any
          (λ r. r.id == run_id)
          (update_where (has_id run_id) (λ r. record r { progress = some s }) runs)
        ≡ any (λ r. r.id == run_id) runs
  unfolding update_where
  any-progress s [] = refl
  any-progress s (r ∷ runs) = ground (arith, any-progress s runs)

  pub write_lines-append :
      (ls more : List (Stream × String)) (w : Written)
      → write_lines run_id secrets (ls ++ more) w
        ≡ write_lines run_id secrets more (write_lines run_id secrets ls w)
  unfolding write_lines
  write_lines-append [] more w = refl
  write_lines-append ((stream, line) ∷ ls) more w = write_lines-append ls more _

  add_rows-append :
      (rows more : List (ℕ × Stream × String)) (logs : List Log)
      → add_rows run_id (rows ++ more) logs ≡ add_rows run_id more (add_rows run_id rows logs)
  unfolding add_rows
  add_rows-append [] more logs = refl
  add_rows-append (r ∷ rows) more logs = add_rows-append rows more _

  -- What the pump has written once its batch is.
  abbrev pub commit : Pump → Written
  commit p = (p.seq, p.result, record p.db { logs = add_rows run_id p.batch p.db.logs })

  -- `x` goes on from `p`, with the same buffers, to a pump that has written `w`.
  pub record Keeps (p : Pump) (w : Written) (x : Pumped) : Type 0 where
    pub at : Pump
    pub goes : x ≡ going at
    pub commits : commit at ≡ w
    pub run : run_exists run_id at.db ≡ true
    pub out : at.buf_out ≡ p.buf_out
    pub err : at.buf_err ≡ p.buf_err

  module _ (db_error : String) (from_utf8_lossy : List ℕ → String) where
    flush-Keeps_of :
        (p : Pump) (b : List (ℕ × Stream × String))
        → p.batch ≡ b
        → run_exists run_id p.db ≡ true
        → Keeps p (commit p) (flush db_error from_utf8_lossy run_id secrets p)
    unfolding flush append_logs_batch add_rows
    flush-Keeps_of p [] e h = record {
      at = record p { batch = [] };
      goes = rw e refl;
      commits = rw e refl;
      run = h;
      out = refl;
      err = refl;
    }
    flush-Keeps_of p (r ∷ rows) e h = record {
      at = record p {
        batch = [];
        db = record p.db { logs = add_rows run_id (r ∷ rows) p.db.logs };
      };
      goes = rw (e, h) refl;
      commits = rw e refl;
      run = h;
      out = refl;
      err = refl;
    }

    pub flush-Keeps :
        (p : Pump)
        → run_exists run_id p.db ≡ true
        → Keeps p (commit p) (flush db_error from_utf8_lossy run_id secrets p)
    flush-Keeps p h = flush-Keeps_of p p.batch refl h

    going-Keeps : (p : Pump) → run_exists run_id p.db ≡ true → Keeps p (commit p) (going p)
    going-Keeps p h = record {
      at = p;
      goes = refl;
      commits = refl;
      run = h;
      out = refl;
      err = refl;
    }

    flush_full-Keeps :
        (p : Pump)
        → run_exists run_id p.db ≡ true
        → Keeps p (commit p) (flush_full db_error from_utf8_lossy run_id secrets p)
    flush_full-Keeps p h = elim (Bool-cases (leb 256 (length p.batch))) [
      | inl e ↦ rw e (flush-Keeps p h)
      | inr e ↦ rw e (going-Keeps p h)
    ]

    exists-progress :
        (s : String) (db : Db)
        → run_exists run_id (update_run_progress run_id s db) ≡ run_exists run_id db
    unfolding update_run_progress
    exists-progress s db = any-progress s db.runs

    on_read-Keeps :
        (full : Pump → Pumped)
        → ((p : Pump) → run_exists run_id p.db ≡ true → Keeps p (commit p) (full p))
        → (stream : Stream) (line : String) (kind : Line) (p : Pump) → run_exists run_id p.db ≡ true
        → Keeps p
            (write_read run_id secrets stream line kind (commit p))
            (on_read db_error from_utf8_lossy run_id secrets full stream line kind p)
    unfolding update_run_progress add_rows
    on_read-Keeps full keeps stream line (Line.result_line s) p h = record {
      at = _;
      goes = refl;
      commits = refl;
      run = h;
      out = refl;
      err = refl;
    }
    on_read-Keeps full keeps stream line (Line.progress_line s) p h = record {
      at = record p { db = update_run_progress run_id s p.db };
      goes = refl;
      commits = refl;
      run = exists-progress s p.db ∙ h;
      out = refl;
      err = refl;
    }
    on_read-Keeps full keeps stream line Line.log_line p h =
        let q = pushed db_error from_utf8_lossy run_id secrets stream line p in
        let k = keeps q h in
        record {
          at = k.at;
          goes = k.goes;
          commits =
              k.commits
              ∙ ap (λ logs. (suc p.seq, p.result, record p.db { logs = logs }))
                  (add_rows-append p.batch ((suc p.seq, stream, redact_secrets line secrets) ∷ [])
                    p.db.logs);
          run = k.run;
          out = k.out;
          err = k.err;
        }

    -- One after the other.
    pub then-Keeps :
        (p : Pump) (w : Written) (f : Written → Written) (x : Pumped) (g : Pump → Pumped)
        → Keeps p w x
        → ((q : Pump)
            → run_exists run_id q.db ≡ true
            → q.buf_out ≡ p.buf_out
            → q.buf_err ≡ p.buf_err
            → Keeps q (f (commit q)) (g q))
        → Keeps p (f w) (then_pump x g)
    then-Keeps p w f x g k h =
        let k2 = h k.at k.run k.out k.err in
        record {
          at = k2.at;
          goes = ap (λ y. then_pump y g) k.goes ∙ k2.goes;
          commits = k2.commits ∙ ap f k.commits;
          run = k2.run;
          out = k2.out ∙ k.out;
          err = k2.err ∙ k.err;
        }

    pub on_lines-Keeps :
        (stream : Stream) (ls : List String) (p : Pump)
        → run_exists run_id p.db ≡ true
        → Keeps p
            (write_lines run_id secrets (of_stream stream ls) (commit p))
            (on_lines db_error from_utf8_lossy run_id secrets stream ls p)
    unfolding on_lines write_lines
    on_lines-Keeps stream [] p h = going-Keeps p h
    on_lines-Keeps stream (l ∷ ls) p h =
        then-Keeps p _ (write_lines run_id secrets (of_stream stream ls)) _
          (on_lines db_error from_utf8_lossy run_id secrets stream ls)
          (on_read-Keeps (flush_full db_error from_utf8_lossy run_id secrets) flush_full-Keeps
            stream l (read_line stream l) p h)
          (λ q h out err. on_lines-Keeps stream ls q h)

    on_rest-Keeps :
        (stream : Stream) (p : Pump)
        → run_exists run_id p.db ≡ true
        → Keeps p
            (write_lines run_id secrets (rest_line stream (buffer stream p)) (commit p))
            (on_rest db_error from_utf8_lossy run_id secrets stream p)
    unfolding on_rest write_lines
    on_rest-Keeps stream p h = elim (Bool-cases (is_empty (buffer stream p))) [
      | inl e ↦ rw e (going-Keeps p h)
      | inr e ↦ rw e (
          on_read-Keeps going going-Keeps stream (buffer stream p)
            (read_line stream (buffer stream p)) p h)
    ]

    -- What follows the stream's end.
    abbrev pub finished : Pump → Pumped
    finished p =
        then_pump
          (then_pump (on_rest db_error from_utf8_lossy run_id secrets stdout p)
            (on_rest db_error from_utf8_lossy run_id secrets stderr))
          (flush db_error from_utf8_lossy run_id secrets)

    pub finished-Keeps :
        (p : Pump)
        → run_exists run_id p.db ≡ true
        → Keeps p (write_lines run_id secrets (rests p.buf_out p.buf_err) (commit p)) (finished p)
    finished-Keeps p h =
        rw (write_lines-append (rest_line stdout p.buf_out) (rest_line stderr p.buf_err) (commit p))
          (then-Keeps p _ (λ w. w) _ (flush db_error from_utf8_lossy run_id secrets)
            (then-Keeps p _ (write_lines run_id secrets (rest_line stderr p.buf_err)) _
              (on_rest db_error from_utf8_lossy run_id secrets stderr) (on_rest-Keeps stdout p h)
              (λ q h out err. rw⁻¹ err (on_rest-Keeps stderr q h)))
            (λ q h out err. flush-Keeps q h))
