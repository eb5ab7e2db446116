-- ===== src/Db/Queue/Lease.antt =====
-- The lease of a running job: the orphan reaper takes what has stopped beating, and nothing else.
use dokan.Prelude.{
  ℕ, ◌+◌, ◌≤◌, ◌<◌, true, false, ◌≡◌, subst, none, some, Memᴰ, arith, mem-update_where,
  mem-of-update_where, if◌then◌else◌, ◌==◌, ◌&&◌,
}
use dokan.Db.{Status, is_running, Run, Db}
use dokan.Db.Queue.{coalesce, is_orphan, back_to_queue, reap_orphan_runs, touch_run}

-- Beating, or started, within the lease.
abbrev pub IsAlive : ℕ → ℕ → Run → Type 0
IsAlive now lease r = (t : ℕ) × (coalesce r.heartbeat_at r.started_at ≡ some t) × (now ≤ t + lease)

abbrev pub IsOverdue : ℕ → ℕ → Run → Type 0
IsOverdue now lease r =
    (t : ℕ) × (coalesce r.heartbeat_at r.started_at ≡ some t) × (t + lease < now)

alive-not-orphan : (now lease : ℕ) (r : Run) → IsAlive now lease r → is_orphan now lease r ≡ false
unfolding is_orphan
alive-not-orphan now lease r (t, e, h) = ground arith

overdue-orphan :
    (now lease : ℕ) (r : Run)
    → r.status ≡ Status.running
    → IsOverdue now lease r
    → is_orphan now lease r ≡ true
unfolding is_orphan
overdue-orphan now lease r s (t, e, h) = ground arith

-- A run with a heartbeat, or else a start, within the lease keeps its row, whatever its status.
pub reap_orphan_runs-alive :
    (now lease : ℕ) (db : Db) (r : Run)
    → Memᴰ r db.runs
    → IsAlive now lease r
    → Memᴰ r (reap_orphan_runs now lease db).1.runs
unfolding reap_orphan_runs
reap_orphan_runs-alive now lease db r m alive =
    subst (λ b. Memᴰ (if b then back_to_queue r else r) (reap_orphan_runs now lease db).1.runs)
      (alive-not-orphan now lease r alive) (mem-update_where (is_orphan now lease) back_to_queue m)

-- A running run whose last heartbeat, or else its start, is older than the lease goes back to the
-- queue: its row is pending, with no start and no heartbeat, and otherwise as it was.
pub reap_orphan_runs-overdue :
    (now lease : ℕ) (db : Db) (r : Run)
    → Memᴰ r db.runs
    → r.status ≡ Status.running
    → IsOverdue now lease r
    → Memᴰ
        (record r { status = Status.pending; started_at = none; heartbeat_at = none })
        (reap_orphan_runs now lease db).1.runs
unfolding reap_orphan_runs
reap_orphan_runs-overdue now lease db r m s late =
    subst (λ b. Memᴰ (if b then back_to_queue r else r) (reap_orphan_runs now lease db).1.runs)
      (overdue-orphan now lease r s late) (mem-update_where (is_orphan now lease) back_to_queue m)

-- A beat protects: a row that a heartbeat at `now` left running is still there, unchanged, after a
-- reap within the lease, however long ago the job started.
pub reap_orphan_runs-touch_run :
    (now later lease id : ℕ) (db : Db) (r : Run)
    → later ≤ now + lease
    → Memᴰ r (touch_run now id db).runs
    → r.id ≡ id
    → r.status ≡ Status.running
    → Memᴰ r (reap_orphan_runs later lease (touch_run now id db)).1.runs
unfolding touch_run
reap_orphan_runs-touch_run now later lease id db r h m same running =
    let (a, i, e) =
      mem-of-update_where (λ s. s.id == id && is_running s.status)
        (λ s. record s { heartbeat_at = some now }) db.runs m in
    let beat : r.heartbeat_at ≡ some now = ground arith in
    reap_orphan_runs-alive later lease (touch_run now id db) r m (now, rw beat, h)
