-- ===== src/Http/Webhook/Enqueue.antt =====
-- What the enqueueing of a delivery's job answers and changes, at first and again.
use dokan.Prelude.{
  any, ℕ, String, Bool, true, false, ◌≡◌, refl, ◌∙◌, sym, ap, Option, none, some, inl, inr, arith,
  Bool-cases, Option-cases, eq_of_some,
}
use dokan.Json.{Value}
use dokan.Db.{Target, Db}
use dokan.Db.Scripts.{script_exists}
use dokan.Db.Runs.{has_key, insert_run_idempotent}
use dokan.Db.Runs.Idempotency.{insert_run_idempotent_once}
use dokan.Db.Flows.{get_flow_spec, insert_flow_run_idempotent}
use dokan.Db.Flows.Once.{insert_flow_run_idempotent-keeps, insert_flow_run_idempotent_once}
use dokan.Http.Webhook.{Reply, run_reply, flow_reply, enqueue}

-- The run or flow run that an answer names.
abbrev pub job_of : Reply → Option (Target × ℕ)
job_of (Reply.run_accepted id) = some (Target.script, id)
job_of (Reply.run_repeated id st) = some (Target.script, id)
job_of (Reply.flow_run_accepted id) = some (Target.flow, id)
job_of (Reply.flow_run_repeated id st) = some (Target.flow, id)
job_of _ = none

abbrev pub is_repeated : Reply → Bool
is_repeated (Reply.run_repeated id st) = true
is_repeated (Reply.flow_run_repeated id st) = true
is_repeated _ = false

abbrev pub is_refused : Reply → Bool
is_refused Reply.rate_limited = true
is_refused Reply.no_such_webhook = true
is_refused Reply.flow_gone = true
is_refused _ = false

named :
    {k k' : Target} {i j : ℕ}
    → ◌≡◌ {A = Option (Target × ℕ)} (some (k, i)) (some (k', j))
    → (k' ≡ k) × (i ≡ j)
named {k = k} {k' = k'} {i = i} {j = j} h =
    let e : (k, i) ≡ (k', j) = eq_of_some h in
    (sym (ap (λ (q : Target × ℕ). q.0) e), ap (λ (q : Target × ℕ). q.1) e)

run_reply-job_of :
    (key : String) (x : Option (ℕ × Bool) × Db) (k : Target) (id : ℕ)
    → job_of (run_reply key x).0 ≡ some (k, id)
    → (k ≡ Target.script) × ((c : Bool) × (x.0 ≡ some (id, c)))
run_reply-job_of key (none, db) k id h = absurd (ground arith)
run_reply-job_of key (some (i, true), db) k id h =
    ((named h).0, (true, ap (λ j. some (j, true)) (named h).1))
run_reply-job_of key (some (i, false), db) k id h =
    ((named h).0, (false, ap (λ j. some (j, false)) (named h).1))

flow_reply-job_of :
    (key : String) (x : Option (ℕ × Bool) × Db) (k : Target) (id : ℕ)
    → job_of (flow_reply key x).0 ≡ some (k, id)
    → (k ≡ Target.flow) × ((c : Bool) × (x.0 ≡ some (id, c)))
flow_reply-job_of key (none, db) k id h = absurd (ground arith)
flow_reply-job_of key (some (i, true), db) k id h =
    ((named h).0, (true, ap (λ j. some (j, true)) (named h).1))
flow_reply-job_of key (some (i, false), db) k id h =
    ((named h).0, (false, ap (λ j. some (j, false)) (named h).1))

run_reply-db : (key : String) (x : Option (ℕ × Bool) × Db) → (run_reply key x).1 ≡ x.1
run_reply-db key (none, db) = refl
run_reply-db key (some (i, true), db) = refl
run_reply-db key (some (i, false), db) = refl

flow_reply-db : (key : String) (x : Option (ℕ × Bool) × Db) → (flow_reply key x).1 ≡ x.1
flow_reply-db key (none, db) = refl
flow_reply-db key (some (i, true), db) = refl
flow_reply-db key (some (i, false), db) = refl

-- What a redelivery may not touch.
abbrev pub SameJobs : Db → Db → Type 0
SameJobs u v = (v.runs ≡ u.runs) × (v.flow_runs ≡ u.flow_runs) × (v.flow_steps ≡ u.flow_steps)

insert_run_idempotent-flows :
    (now script : ℕ) (input : Value) (agent : Option String) (blobs : Option Value) (capture : Bool)
    (key : String) (db : Db)
    → let v = (insert_run_idempotent now script input agent blobs capture key db).1 in
      (v.flow_runs ≡ db.flow_runs)
      × (v.flow_steps ≡ db.flow_steps)
      × (v.flows ≡ db.flows)
      × (v.webhooks ≡ db.webhooks)
unfolding insert_run_idempotent
insert_run_idempotent-flows now script input agent blobs capture key db =
    elim (Bool-cases (any (has_key key) db.runs)) [
      | inl e ↦ rw e (refl, refl, refl, refl)
      | inr e ↦ elim (Bool-cases (script_exists script db)) [
        | inl f ↦ rw (e, f) (refl, refl, refl, refl)
        | inr f ↦ rw (e, f) (refl, refl, refl, refl)
      ]
    ]

enqueue-run :
    (now target : ℕ) (agent : Option String) (input : Value) (key : String) (db : Db)
    → enqueue now Target.script target agent input key db
      ≡ run_reply key (insert_run_idempotent now target input agent none false key db)
unfolding enqueue
enqueue-run now target agent input key db = refl

enqueue-flow :
    (now target : ℕ) (agent : Option String) (input spec : Value) (key : String) (db : Db)
    → get_flow_spec target db ≡ some spec
    → enqueue now Target.flow target agent input key db
      ≡ flow_reply key (insert_flow_run_idempotent now target spec input key db)
unfolding enqueue
enqueue-flow now target agent input spec key db e = rw (e, enqueue) refl

enqueue-flow_gone :
    (now target : ℕ) (agent : Option String) (input : Value) (key : String) (db : Db)
    → get_flow_spec target db ≡ none
    → enqueue now Target.flow target agent input key db ≡ (Reply.flow_gone, db)
unfolding enqueue
enqueue-flow_gone now target agent input key db e = rw (e, enqueue) refl

-- The second answer to one job, and what it leaves.
abbrev pub Repeats : Target → ℕ → Db → Reply × Db → Type 0
Repeats k id u second =
    (job_of second.0 ≡ some (k, id)) × (is_repeated second.0 ≡ true) × SameJobs u second.1

run_reply-Repeats :
    (key : String) (u : Db) (id : ℕ) (x : Option (ℕ × Bool) × Db)
    → x.0 ≡ some (id, false)
    → SameJobs u x.1
    → Repeats Target.script id u (run_reply key x)
run_reply-Repeats key u id x e same = rw (run_reply-db key x, e) (refl, refl, same)

flow_reply-Repeats :
    (key : String) (u : Db) (id : ℕ) (x : Option (ℕ × Bool) × Db)
    → x.0 ≡ some (id, false)
    → SameJobs u x.1
    → Repeats Target.flow id u (flow_reply key x)
flow_reply-Repeats key u id x e same = rw (flow_reply-db key x, e) (refl, refl, same)

enqueue_run_once :
    (now later target : ℕ) (agent : Option String) (input input' : Value) (key : String) (db : Db)
    (k : Target) (id : ℕ)
    → job_of (enqueue now Target.script target agent input key db).0 ≡ some (k, id)
    → let u = (enqueue now Target.script target agent input key db).1 in
      Repeats k id u (enqueue later Target.script target agent input' key u)
enqueue_run_once now later target agent input input' key db k id h =
    let first = insert_run_idempotent now target input agent none false key db in
    let (kind, (c, inserted)) =
      run_reply-job_of key first k id (rw (enqueue-run now target agent input key db) at h) in
    let (recalled, same) =
      insert_run_idempotent_once now later target target input input' agent agent none none false
        false key db id c inserted in
    let (runs, steps, flows, webhooks) =
      insert_run_idempotent-flows later target input' agent none false key first.1 in
    rw
      (
        kind,
        enqueue-run now target agent input key db,
        run_reply-db key first,
        enqueue-run later target agent input' key first.1,
      )
      (run_reply-Repeats key first.1 id _ recalled (same, runs, steps))

get_flow_spec-flows :
    (target : ℕ) (u v : Db) → v.flows ≡ u.flows → get_flow_spec target v ≡ get_flow_spec target u
unfolding get_flow_spec
get_flow_spec-flows target u v e = rw e refl

enqueue_flow_once :
    (now later target : ℕ) (agent : Option String) (input input' : Value) (key : String) (db : Db)
    (k : Target) (id : ℕ)
    → job_of (enqueue now Target.flow target agent input key db).0 ≡ some (k, id)
    → let u = (enqueue now Target.flow target agent input key db).1 in
      Repeats k id u (enqueue later Target.flow target agent input' key u)
enqueue_flow_once now later target agent input input' key db k id h =
    elim (Option-cases (get_flow_spec target db)) [
      | inl gone ↦
          absurd (ground (arith, rw (enqueue-flow_gone now target agent input key db gone) at h))
      | inr (spec, e) ↦
          let first = insert_flow_run_idempotent now target spec input key db in
          let (kind, (c, inserted)) =
            flow_reply-job_of key first k id
              (rw (enqueue-flow now target agent input spec key db e) at h) in
          let (recalled, flow_runs, flow_steps) =
            insert_flow_run_idempotent_once now later target target spec spec input input' key db id
              c inserted in
          let again = insert_flow_run_idempotent later target spec input' key first.1 in
          rw
            (
              kind,
              enqueue-flow now target agent input spec key db e,
              flow_reply-db key first,
              enqueue-flow later target agent input' spec key first.1 (
                  get_flow_spec-flows target db first.1 (
                    insert_flow_run_idempotent-keeps (λ d. d.flows) (λ d steps. refl) (λ d n. refl)
                      (λ d n rs. refl) now target spec input key db)
                  ∙ e),
            )
            (flow_reply-Repeats key first.1 id again recalled (
              insert_flow_run_idempotent-keeps (λ d. d.runs) (λ d steps. refl) (λ d n. refl)
                  (λ d n rs. refl) later target spec input' key first.1,
              flow_runs,
              flow_steps,
            ))
    ]

pub enqueue-webhooks :
    (now target : ℕ) (kind : Target) (agent : Option String) (input : Value) (key : String)
    (db : Db)
    → (enqueue now kind target agent input key db).1.webhooks ≡ db.webhooks
enqueue-webhooks now target Target.script agent input key db =
    let (runs, steps, flows, webhooks) =
      insert_run_idempotent-flows now target input agent none false key db in
    rw (enqueue-run, run_reply-db) webhooks
enqueue-webhooks now target Target.flow agent input key db =
    elim (Option-cases (get_flow_spec target db)) [
      | inl gone ↦ rw (enqueue-flow_gone now target agent input key db gone) refl
      | inr (spec, e) ↦
          rw (enqueue-flow now target agent input spec key db e, flow_reply-db)
            (insert_flow_run_idempotent-keeps (λ d. d.webhooks) (λ d steps. refl) (λ d n. refl)
              (λ d n rs. refl) now target spec input key db)
    ]

pub enqueue_once :
    (now later target : ℕ) (kind : Target) (agent : Option String) (input input' : Value)
    (key : String) (db : Db) (k : Target) (id : ℕ)
    → job_of (enqueue now kind target agent input key db).0 ≡ some (k, id)
    → let u = (enqueue now kind target agent input key db).1 in
      Repeats k id u (enqueue later kind target agent input' key u)
enqueue_once now later target Target.script = enqueue_run_once now later target
enqueue_once now later target Target.flow = enqueue_flow_once now later target

run_reply-is_refused :
    (key : String) (x : Option (ℕ × Bool) × Db) → is_refused (run_reply key x).0 ≡ false
run_reply-is_refused key (none, db) = refl
run_reply-is_refused key (some (i, true), db) = refl
run_reply-is_refused key (some (i, false), db) = refl

flow_reply-is_refused :
    (key : String) (x : Option (ℕ × Bool) × Db) → is_refused (flow_reply key x).0 ≡ false
flow_reply-is_refused key (none, db) = refl
flow_reply-is_refused key (some (i, true), db) = refl
flow_reply-is_refused key (some (i, false), db) = refl

pub enqueue-refused :
    (now target : ℕ) (kind : Target) (agent : Option String) (input : Value) (key : String)
    (db : Db)
    → is_refused (enqueue now kind target agent input key db).0 ≡ true
    → (enqueue now kind target agent input key db).1 ≡ db
enqueue-refused now target Target.script agent input key db h =
    absurd (ground (arith, rw (enqueue-run, run_reply-is_refused) at h))
enqueue-refused now target Target.flow agent input key db h =
    elim (Option-cases (get_flow_spec target db)) [
      | inl gone ↦ rw (enqueue-flow_gone now target agent input key db gone) refl
      | inr (spec, e) ↦ absurd (
          ground (
            arith,
            rw (enqueue-flow now target agent input spec key db e, flow_reply-is_refused) at h,
          ))
    ]
