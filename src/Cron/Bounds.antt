-- ===== src/Cron/Bounds.antt =====
-- Ticks respect the limit on an agent's runs in flight.
use dokan.Prelude.{
  ℕ, suc, ◌≤◌, String, Bool, false, ◌≡◌, refl, inl, inr, Option, none, some, arith, any,
  count-append, str_eq, Bool-cases, Option-cases, eq_iff,
}
use dokan.Json.{Value}
use dokan.Db.{Schedule, Db}
use dokan.Db.Scripts.{script_exists}
use dokan.Db.Runs.{
  has_key, opt_eq, key_taken, insert_run_idempotent, insert_refused_run, insert_run_with_blobs,
}
use dokan.Db.Queue.{agent_running_count}
use dokan.Quota.{Refusal, reason, check}
use dokan.Quota.Limits.{check-none_iff}
use dokan.Cron.{Host, key_of, enqueue, record_refusal, checked, for_agent, enqueue_tick}

-- What an insert adds to the runs in flight of `a`: one at most, and only for its own agent.
abbrev AddsFor : Option String → String → Db → Db → Type 0
AddsFor agent a db db' =
    (agent_running_count a db' ≤ suc (agent_running_count a db))
    × (opt_eq agent a ≡ false → agent_running_count a db' ≡ agent_running_count a db)

idempotent-adds :
    (now script : ℕ) (input : Value) (agent : Option String) (blobs : Option Value) (capture : Bool)
    (k : String) (a : String) (db : Db)
    → AddsFor agent a db (insert_run_idempotent now script input agent blobs capture k db).1
unfolding insert_run_idempotent agent_running_count
idempotent-adds now script input agent blobs capture k a db =
    elim (Bool-cases (any (has_key k) db.runs)) [
      | inl t ↦ rw t (ground arith, λ _. refl)
      | inr f ↦ elim (Bool-cases (script_exists script db)) [
        | inr n ↦ rw (f, n) (ground arith, λ _. refl)
        | inl y ↦ elim (Bool-cases (opt_eq agent a)) [
          | inl e ↦ rw (f, y) (rw count-append (ground arith), λ e'. absurd (ground arith))
          | inr e ↦
              rw (f, y)
                (rw count-append (rw e (ground arith)), λ _. rw count-append (rw e (omega arith)))
        ]
      ]
    ]

plain-adds :
    (now script : ℕ) (input : Value) (agent : Option String) (blobs : Option Value) (capture : Bool)
    (a : String) (db : Db)
    → AddsFor agent a db (insert_run_with_blobs now script input agent blobs capture db).1
unfolding insert_run_with_blobs agent_running_count
plain-adds now script input agent blobs capture a db = elim (Bool-cases (script_exists script db)) [
  | inr n ↦ rw n (ground arith, λ _. refl)
  | inl y ↦ elim (Bool-cases (opt_eq agent a)) [
    | inl e ↦ rw y (rw count-append (ground arith), λ e'. absurd (ground arith))
    | inr e ↦
        rw y (rw count-append (rw e (ground arith)), λ _. rw count-append (rw e (omega arith)))
  ]
]

-- A refused run has failed already.
refused-adds :
    (now script : ℕ) (input : Value) (agent : Option String) (reason : String) (key : Option String)
    (a : String) (db : Db)
    → agent_running_count a (insert_refused_run now script input agent reason key db).1
      ≡ agent_running_count a db
unfolding insert_refused_run agent_running_count
refused-adds now script input agent reason key a db = elim (Bool-cases (key_taken key db)) [
  | inl t ↦ rw t refl
  | inr f ↦ elim (Bool-cases (script_exists script db)) [
    | inr n ↦ rw (f, n) refl
    | inl y ↦ elim (Bool-cases (opt_eq agent a)) [
      | inl e ↦ rw (f, y) (rw count-append (rw e (omega arith)))
      | inr e ↦ rw (f, y) (rw count-append (rw e (omega arith)))
    ]
  ]
]

enqueue-adds :
    (host : Host) (now : ℕ) (s : Schedule) (key : Option String) (a : String) (db : Db)
    → AddsFor s.agent_id a db (enqueue host now s key db).1
unfolding enqueue
enqueue-adds host now s none a db = elim (Bool-cases host.insert_fails) [
  | inl e ↦ rw e (ground arith, λ _. refl)
  | inr e ↦ rw e (plain-adds now s.script_id s.input s.agent_id s.input_blobs s.capture_output a db)
]
enqueue-adds host now s (some k) a db = elim (Bool-cases host.insert_fails) [
  | inl e ↦ rw e (ground arith, λ _. refl)
  | inr e ↦
      rw e
        (idempotent-adds now s.script_id s.input s.agent_id s.input_blobs s.capture_output k a db)
]

refusal-adds :
    (host : Host) (now : ℕ) (s : Schedule) (key : Option String) (refusal : Refusal) (a : String)
    (db : Db)
    → agent_running_count a (record_refusal host now s key refusal db) ≡ agent_running_count a db
unfolding record_refusal
refusal-adds host now s key refusal a db = elim (Bool-cases host.insert_fails) [
  | inl e ↦ rw e refl
  | inr e ↦
      rw e (
        refused-adds now s.script_id s.input s.agent_id (reason host.whole_seconds refusal) key a
          db)
]

-- What happens to the runs of the agent `a`, when its checks and inserts are queries of their own
-- and interleave with those of other ticks and daemons. The number is that of the ticks which have
-- passed the check and have yet to insert: `most` at a time.
pub data Ticking (host : Host) (a : String) (most : ℕ) (db : Db) : ℕ → Db → Type 0 where
  start : Ticking host a most db 0 db
  passed :
      {n : ℕ} {t : Db}
      → Ticking host a most db n t
      → suc n ≤ most
      → (now : ℕ) → check a now t ≡ none
      → Ticking host a most db (suc n) t
  inserted :
      {n : ℕ} {t : Db}
      → Ticking host a most db (suc n) t
      → (now : ℕ) (s : Schedule) (key : Option String)
      → Ticking host a most db n (enqueue host now s key t).1
  refused :
      {n : ℕ} {t : Db}
      → Ticking host a most db n t
      → (now : ℕ) (s : Schedule) (key : Option String) (refusal : Refusal)
      → Ticking host a most db n (record_refusal host now s key refusal t)
  others :
      {n : ℕ} {t : Db}
      → Ticking host a most db n t
      → (now : ℕ) (s : Schedule) (key : Option String) → opt_eq s.agent_id a ≡ false
      → Ticking host a most db n (enqueue host now s key t).1
  elsewhere :
      {n : ℕ} {t : Db}
      → Ticking host a most db n t
      → (u : Db) → agent_running_count a u ≤ agent_running_count a t
      → Ticking host a most db n u

for_agent-bounded :
    (host : Host) (now : ℕ) (s : Schedule) (key agent : Option String) (a : String) (seen db : Db)
    → s.agent_id ≡ agent
    → agent_running_count a seen ≤ 25
    → agent_running_count a db ≤ agent_running_count a seen
    → agent_running_count a (for_agent host now s key agent seen db).1 ≤ 25
unfolding for_agent checked
for_agent-bounded host now s key none a seen db same h fewer =
    let adds = enqueue-adds host now s key a db in
    let kept = adds.1 (rw same refl) in omega (arith, kept, h, fewer)
for_agent-bounded host now s key (some b) a seen db of_b h fewer =
    elim (Bool-cases host.check_fails) [
      | inl e ↦ rw e (omega (arith, h, fewer))
      | inr e ↦ rw e (elim (Option-cases (check b now seen)) [
        | inr (refusal, r) ↦
            rw (r, refusal-adds host now s key refusal a db) (omega (arith, h, fewer))
        | inl n ↦ elim (Bool-cases (str_eq b a)) [
          | inl same ↦
              let room = ((check-none_iff b now seen).0 n).0 in
              let adds = (enqueue-adds host now s key a db).0 in
              let same_agent : b ≡ a = (eq_iff _ _).0 same in
              rw n (ground (arith, adds, room, same_agent, fewer))
          | inr other ↦
              let kept = (enqueue-adds host now s key a db).1 (rw of_b other) in
              rw n (omega (arith, kept, h, fewer))
        ]
      ])
    ]

-- A tick between whose check and insert no other run of the agent comes in does not take the agent
-- beyond 25 runs in flight, whatever schedule ticks, of that agent, of another or of none.
pub enqueue_tick-bounded :
    (host : Host) (now : ℕ) (s : Schedule) (second : ℕ) (between : Db → Db) (a : String) (db : Db)
    → agent_running_count a db ≤ 25
    → agent_running_count a (between db) ≤ agent_running_count a db
    → agent_running_count a (enqueue_tick host now s second between db).1 ≤ 25
unfolding enqueue_tick
enqueue_tick-bounded host now s second between a db h fewer =
    for_agent-bounded host now s (key_of s second) s.agent_id a db (between db) refl h fewer
