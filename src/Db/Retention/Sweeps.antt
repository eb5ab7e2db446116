-- ===== src/Db/Retention/Sweeps.antt =====
-- What the retention sweeps delete and keep, and the references between the tables.
use dokan.Prelude.{
  ℕ, ◌+◌, ◌<◌, true, false, not, ◌≡◌, refl, ◌↔◌, inl, inr, some, Memᴰ, arith, All, All-of-mem,
  All-mem, mem-filter, filter-mem, any, any-mem, mem-any, filter, Bool-cases, ◌==◌, ◌&&◌,
}
use dokan.Db.{Status, Run, Db}
use dokan.Db.Queue.{back_to_queue}
use dokan.Db.Retention.{is_expired, run_expired, gc_logs, gc_old, run_exists}

-- Every log line belongs to a run that is there (the foreign key `logs.run_id`).
abbrev pub IsReferring : Db → Type 0
IsReferring db = All (λ l. run_exists l.run_id db ≡ true) db.logs

-- The sweep deletes the runs that finished longer ago than the retention, and no other.
pub gc_old-runs_iff :
    (now age : ℕ) (db : Db) (r : Run)
    → Memᴰ r (gc_old now age db).1.runs ↔ (Memᴰ r db.runs × (is_expired now age r ≡ false))
unfolding gc_old gc_logs
gc_old-runs_iff now age db r = (
  λ m. let (i, t) = mem-filter (λ s. not (is_expired now age s)) db.runs m in (i, ground arith),
  λ (i, t). filter-mem (λ s. not (is_expired now age s)) i (rw t),
)

kept_run :
    (now age : ℕ) (db : Db) (id : ℕ)
    → run_exists id db ≡ true
    → run_expired now age db id ≡ false
    → any (λ r. r.id == id) (filter (λ r. not (is_expired now age r)) db.runs) ≡ true
unfolding run_expired
kept_run now age db id there fresh =
    let (r, m, e) = any-mem (λ s. s.id == id) db.runs there in
    elim (Bool-cases (is_expired now age r)) [
      | inl old ↦
          let bad = mem-any (λ s. s.id == id && is_expired now age s) m (rw (e, old)) in
          ground arith
      | inr ok ↦
          mem-any (λ s. s.id == id) (filter-mem (λ s. not (is_expired now age s)) m (rw ok)) e
    ]

-- The sweep of old runs leaves no log line behind without its run.
pub gc_old-IsReferring :
    (now age : ℕ) (db : Db) → IsReferring db → IsReferring (gc_old now age db).1
unfolding gc_old gc_logs
gc_old-IsReferring now age db h = All-of-mem _ _ λ l m.
    let (i, t) = mem-filter (λ l. not (run_expired now age db l.run_id)) db.logs m in
    kept_run now age db l.run_id (All-mem (λ l. run_exists l.run_id db ≡ true) i h) (ground arith)

-- A retried run keeps the time of its failed attempt: when that is older than the retention, the
-- sweep deletes the run although it is pending.
pub requeued_expires :
    (now age ended : ℕ) (db : Db) (r : Run)
    → r.finished_at ≡ some ended
    → ended + age < now
    → ((back_to_queue r).status ≡ Status.pending)
      × ¬ Memᴰ (back_to_queue r) (gc_old now age db).1.runs
unfolding is_expired
requeued_expires now age ended db r e h =
    (refl, λ m. let (i, t) = (gc_old-runs_iff now age db (back_to_queue r)).0 m in ground arith)
