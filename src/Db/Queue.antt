-- ===== src/Db/Queue.antt =====
-- src/db.rs: the run queue (claim, retry, lease and staleness sweeps) and what is recalled from it.
pub mod Claim
pub mod Lease
use dokan.Prelude.{
  ℕ, suc, ◌+◌, String, Bool, true, false, ◌&&◌, ◌||◌, Option, none, some, List, [], ◌∷◌, any, count,
  update_where, ltb, ◌==◌, str_eq, if◌then◌else◌,
}
use dokan.Json.{Value, is_some}
use dokan.Db.{Status, is_pending, is_running, is_succeeded, Script, Run, Db}
use dokan.Db.Scripts.{get_script}
use dokan.Db.Runs.{opt_eq, has_key, find_run, update_run}

-- `ORDER BY id LIMIT 1`, whatever the order of the rows.
abbrev pub or_lower : Run → Option Run → Run
or_lower r none = r
or_lower r (some s) = if ltb s.id r.id then s else r

abbrev pub or_higher : Run → Option Run → Run
or_higher r none = r
or_higher r (some s) = if ltb r.id s.id then s else r

unfoldable pub lowest : (Run → Bool) → List Run → Option Run
lowest p [] = none
lowest p (r ∷ rs) = let rest = lowest p rs in if p r then some (or_lower r rest) else rest

-- `ORDER BY id DESC LIMIT 1`
unfoldable pub highest : (Run → Bool) → List Run → Option Run
highest p [] = none
highest p (r ∷ rs) = let rest = highest p rs in if p r then some (or_higher r rest) else rest

-- `JOIN scripts s ON s.id = r.script_id WHERE s.runtime = ANY(caps)`
unfoldable pub served : List String → Db → Run → Bool
served caps db r = any (λ s. s.id == r.script_id && any (str_eq s.runtime) caps) db.scripts

-- `SKIP LOCKED` passes over a row that another transaction holds.
unfoldable pub eligible : List String → (ℕ → Bool) → Db → Run → Bool
eligible caps locked db r =
    is_pending r.status && served caps db r && (if locked r.id then false else true)

pub record ClaimedJob : Type 0 where
  pub run : Run
  pub script : Option Script

abbrev pub start : ℕ → Run → Run
start now r = record r { status = Status.running; started_at = some now; heartbeat_at = some now }

unfoldable pub claim_run : ℕ → List String → (ℕ → Bool) → Db → Option ClaimedJob × Db
unfolding get_script
claim_run now caps locked db = elim (lowest (eligible caps locked db) db.runs) [
  | none ↦ (none, db)
  | some r ↦ (
    some (record { run = start now r; script = get_script r.script_id db }),
    update_run r.id (start now) db,
  )
]

unfoldable pub mark_attempt : ℕ → Db → Option ℕ × Db
unfolding find_run
mark_attempt run_id db = elim (find_run run_id db) [
  | none ↦ (none, db)
  | some r ↦
      (some (suc r.attempts), update_run run_id (λ r. record r { attempts = suc r.attempts }) db)
]

abbrev pub back_to_queue : Run → Run
back_to_queue r = record r { status = Status.pending; started_at = none; heartbeat_at = none }

unfoldable pub requeue : ℕ → Db → Db
requeue run_id = update_run run_id back_to_queue

abbrev coalesce : Option ℕ → Option ℕ → Option ℕ
coalesce none o = o
coalesce (some t) o = some t

-- `t < now() - lease`, where a NULL is not less than anything.
abbrev pub older : Option ℕ → ℕ → ℕ → Bool
older none lease now = false
older (some t) lease now = ltb (t + lease) now

unfoldable pub is_orphan : ℕ → ℕ → Run → Bool
is_orphan now lease r =
    is_running r.status && older (coalesce r.heartbeat_at r.started_at) lease now

unfoldable pub reap_orphan_runs : ℕ → ℕ → Db → ℕ × Db
unfolding is_orphan
reap_orphan_runs now lease db = (
  count (is_orphan now lease) db.runs,
  record db { runs = update_where (is_orphan now lease) back_to_queue db.runs },
)

unfoldable pub touch_run : ℕ → ℕ → Db → Db
touch_run now run_id db = record db {
  runs =
      update_where (λ r. r.id == run_id && is_running r.status)
        (λ r. record r { heartbeat_at = some now }) db.runs;
}

unfoldable pub is_stale : ℕ → ℕ → Run → Bool
is_stale now max_age r = is_pending r.status && ltb (r.created_at + max_age) now

unfoldable pub fail_stale_pending : ℕ → ℕ → Db → ℕ × Db
unfolding is_stale
fail_stale_pending now max_age db = (
  count (is_stale now max_age) db.runs,
  record db {
    runs =
        update_where (is_stale now max_age)
          (λ r. record r {
            status = Status.failed;
            error = some "unclaimed: pending past timeout";
            finished_at = some now;
          })
          db.runs;
  },
)

unfoldable pub agent_running_count : String → Db → ℕ
agent_running_count agent_id db =
    count (λ r. opt_eq r.agent_id agent_id && (is_pending r.status || is_running r.status)) db.runs

unfoldable pub arrivals_last_secs : ℕ → ℕ → Db → ℕ
arrivals_last_secs now window db = count (λ r. ltb now (r.created_at + window)) db.runs

-- Only a succeeded run is recalled from the cache.
unfoldable pub find_cached_run : String → Db → Option Run
unfolding highest
find_cached_run key db = highest (λ r. opt_eq r.cache_key key && is_succeeded r.status) db.runs

unfoldable pub last_result_for_script : ℕ → ℕ → Db → Option Value
unfolding highest
last_result_for_script script_id before_run_id db =
    elim (highest (λ r. r.script_id == script_id && ltb r.id before_run_id && is_some r.result)
      db.runs) [ none ↦ none | some r ↦ r.result ]

unfoldable pub find_run_by_idempotency : String → Db → Option (ℕ × Status)
unfolding highest
find_run_by_idempotency key db = elim (highest (has_key key) db.runs) [
  | none ↦ none
  | some r ↦ some (r.id, r.status)
]
