-- ===== src/Cron/Ticks.antt =====
-- Two ticks for the same second.
use dokan.Prelude.{
  ℕ, String, Bool, true, false, ◌≡◌, refl, ◌∙◌, inl, inr, Option, none, some, any, any-append,
  find?, Bool-cases, Option-cases,
}
use text.Mathlib.TextPositions.{eq_refl}
use dokan.Json.{Value}
use dokan.Db.{Schedule, Db}
use dokan.Db.Scripts.{script_exists}
use dokan.Db.Runs.{has_key, insert_run_idempotent, insert_refused_run}
use dokan.Quota.{Refusal, reason, check}
use dokan.Cron.{Host, key_of, tick_key, enqueue, record_refusal, checked, for_agent, enqueue_tick}

abbrev pub Taken : String → Db → Type 0
Taken k db = any (has_key k) db.runs ≡ true

-- After an insert under a key, whether it added a row or found one, the key is taken.
idempotent-Taken :
    (now script : ℕ) (input : Value) (agent : Option String) (blobs : Option Value) (capture : Bool)
    (k : String) (db : Db)
    → script_exists script db ≡ true
    → Taken k (insert_run_idempotent now script input agent blobs capture k db).1
unfolding insert_run_idempotent
idempotent-Taken now script input agent blobs capture k db there =
    elim (Bool-cases (any (has_key k) db.runs)) [
      | inl t ↦ rw t t
      | inr f ↦ rw (f, there) (any-append (has_key k) db.runs _ ∙ rw (f, eq_refl k))
    ]

refused-Taken :
    (now script : ℕ) (input : Value) (agent : Option String) (reason : String) (k : String)
    (db : Db)
    → script_exists script db ≡ true
    → Taken k (insert_refused_run now script input agent reason (some k) db).1
unfolding insert_refused_run
refused-Taken now script input agent reason k db there =
    elim (Bool-cases (any (has_key k) db.runs)) [
      | inl t ↦ rw t t
      | inr f ↦ rw (f, there) (any-append (has_key k) db.runs _ ∙ rw (f, eq_refl k))
    ]

-- Nothing new comes of a tick whose key is taken.
abbrev IsIdle : Option ℕ × Db → Db → Type 0
IsIdle (id, db') db = (id ≡ none) × (db'.runs ≡ db.runs)

enqueue-IsIdle :
    (host : Host) (now : ℕ) (s : Schedule) (k : String) (db : Db)
    → Taken k db
    → IsIdle (enqueue host now s (some k) db) db
unfolding enqueue insert_run_idempotent
enqueue-IsIdle host now s k db t = elim (Bool-cases host.insert_fails) [
  | inl e ↦ rw e (refl, refl)
  | inr e ↦ elim (Option-cases (find? (has_key k) db.runs)) [
    | inl n ↦ rw (e, t, n) (refl, refl)
    | inr (r, n) ↦ rw (e, t, n) (refl, refl)
  ]
]

refusal-idle :
    (host : Host) (now : ℕ) (s : Schedule) (k : String) (refusal : Refusal) (db : Db)
    → Taken k db
    → (record_refusal host now s (some k) refusal db).runs ≡ db.runs
unfolding record_refusal insert_refused_run
refusal-idle host now s k refusal db t = elim (Bool-cases host.insert_fails) [
  | inl e ↦ rw e refl
  | inr e ↦ rw (e, t) refl
]

checked-IsIdle :
    (host : Host) (now : ℕ) (s : Schedule) (k : String) (q : Option Refusal) (db : Db)
    → Taken k db
    → IsIdle (checked host now s (some k) q db) db
unfolding checked
checked-IsIdle host now s k none db t = enqueue-IsIdle host now s k db t
checked-IsIdle host now s k (some refusal) db t = (refl, refusal-idle host now s k refusal db t)

for_agent-IsIdle :
    (host : Host) (now : ℕ) (s : Schedule) (k : String) (agent : Option String) (seen db : Db)
    → Taken k db
    → IsIdle (for_agent host now s (some k) agent seen db) db
unfolding for_agent
for_agent-IsIdle host now s k none seen db t = enqueue-IsIdle host now s k db t
for_agent-IsIdle host now s k (some a) seen db t = elim (Bool-cases host.check_fails) [
  | inl e ↦ rw e (refl, refl)
  | inr e ↦ rw e (checked-IsIdle host now s k (check a now seen) db t)
]

-- A tick whose queries work leaves its key taken, accepted or refused.
module _ (host : Host) (works : host.insert_fails ≡ false)
    (answers : host.check_fails ≡ false) where
  enqueue-Taken :
      (now : ℕ) (s : Schedule) (k : String) (db : Db)
      → script_exists s.script_id db ≡ true
      → Taken k (enqueue host now s (some k) db).1
  unfolding enqueue
  enqueue-Taken now s k db there = rw works (
      idempotent-Taken now s.script_id s.input s.agent_id s.input_blobs s.capture_output k db there)

  checked-Taken :
      (now : ℕ) (s : Schedule) (k : String) (q : Option Refusal) (db : Db)
      → script_exists s.script_id db ≡ true
      → Taken k (checked host now s (some k) q db).1
  unfolding checked record_refusal
  checked-Taken now s k none db there = enqueue-Taken now s k db there
  checked-Taken now s k (some refusal) db there = rw works (
      refused-Taken now s.script_id s.input s.agent_id (reason host.whole_seconds refusal) k db
        there)

  for_agent-Taken :
      (now : ℕ) (s : Schedule) (k : String) (agent : Option String) (seen db : Db)
      → script_exists s.script_id db ≡ true
      → Taken k (for_agent host now s (some k) agent seen db).1
  unfolding for_agent
  for_agent-Taken now s k none seen db there = enqueue-Taken now s k db there
  for_agent-Taken now s k (some a) seen db there =
      rw answers (checked-Taken now s k (check a now seen) db there)

  -- Two daemons tick one schedule that has `idempotency` set, for the same second. The queries of
  -- the first tick work and the script exists at its insert; `between` and `between'` are what
  -- others do between the check and the insert of the two ticks, and the latter does not delete the
  -- row of the first tick. Then the second tick, at whatever time and whichever of its queries fail,
  -- enqueues nothing and leaves the table of runs as it found it, whether the first was accepted or
  -- refused by the quota.
  pub enqueue_tick_once :
      (other : Host) (now later : ℕ) (s : Schedule) (second : ℕ) (between between' : Db → Db)
      (db : Db)
      → s.idempotency ≡ true
      → script_exists s.script_id (between db) ≡ true
      → (Taken (tick_key s.id second) (enqueue_tick host now s second between db).1
          → Taken (tick_key s.id second) (between' (enqueue_tick host now s second between db).1))
      → let u = (enqueue_tick host now s second between db).1 in
        ((enqueue_tick other later s second between' u).0 ≡ none)
        × ((enqueue_tick other later s second between' u).1.runs ≡ (between' u).runs)
  unfolding enqueue_tick key_of
  enqueue_tick_once other now later s second between between' db idem there kept =
      let kept' = rw idem at kept in
      rw idem (
        for_agent-IsIdle other later s (tick_key s.id second) s.agent_id _ _
          (kept' (for_agent-Taken now s (tick_key s.id second) s.agent_id db (between db) there)))
