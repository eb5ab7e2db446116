-- ===== src/Db/Flows/Once.antt =====
-- One idempotency key stands for one flow run, and a ledger holds each step once.
use dokan.Prelude.{
  ℕ, ◌≤◌, String, Bool, false, not, ◌&&◌, ◌≡◌, refl, ◌∙◌, inl, inr, Option, some, List, [], ◌∷◌,
  ◌++◌, arith, any, count, count-append, find?, Bool-cases, Option-cases, eq_of_some, eq_iff,
  update_where, find?-append, any-of-find?,
}
use text.Mathlib.TextPositions.{eq_refl}
use dokan.Json.{Value}
use dokan.Db.{FlowRun, FlowStep, StepStatus, Db}
use dokan.Db.Flows.{
  is_step, step_of_spec, has_script, insert_step, insert_steps, steps_of_spec, flow_run_of, started,
  has_flow, create_flow_run, insert_flow_run_idempotent, has_flow_key,
}
use dokan.Db.Flows.Drive.{Child, child_step, add_children, expand_map_step}

-- A ledger that holds a step once at most.
abbrev pub IsLedger : List FlowStep → Type 0
IsLedger steps = (fr : ℕ) (id : String) → count (is_step fr id) steps ≤ 1

count-none : (p : FlowStep → Bool) (steps : List FlowStep) → any p steps ≡ false → count p steps ≡ 0
count-none p [] h = refl
count-none p (st ∷ steps) h = ground (arith, count-none p steps)

-- A row whose key is not there may be added.
add_row-IsLedger :
    (row : FlowStep) (steps : List FlowStep)
    → any (is_step row.flow_run_id row.step_id) steps ≡ false
    → IsLedger steps
    → IsLedger (steps ++ row ∷ [])
add_row-IsLedger row steps free once fr id =
    rw count-append (elim (Bool-cases (is_step fr id row)) [
      | inr e ↦ rw e (ground (arith, once fr id))
      | inl e ↦
          let same_run : row.flow_run_id ≡ fr = ground arith in
          let same_id : row.step_id ≡ id = (eq_iff _ _).0 (ground arith) in
          let free' : any (is_step fr id) steps ≡ false = rw (same_run, same_id) at free in
          rw (e, count-none (is_step fr id) steps free') (ground arith)
    ])

add_children-IsLedger :
    (fr : ℕ) (cache : Bool) (cs : List Child) (steps : List FlowStep)
    → IsLedger steps
    → IsLedger (add_children fr cache cs steps)
unfolding add_children
add_children-IsLedger fr cache [] steps once = once
add_children-IsLedger fr cache (c ∷ cs) steps once =
    elim (Bool-cases (any (is_step fr c.step_id) steps)) [
      | inl e ↦ rw e (add_children-IsLedger fr cache cs steps once)
      | inr e ↦ rw e (
          add_children-IsLedger fr cache cs _
            (add_row-IsLedger (child_step fr cache c) steps e once))
    ]

count-update_step :
    (p q : FlowStep → Bool) (f : FlowStep → FlowStep)
    → ((st : FlowStep) → p (f st) ≡ p st)
    → (steps : List FlowStep) → count p (update_where q f steps) ≡ count p steps
unfolding update_where
count-update_step p q f keep [] = refl
count-update_step p q f keep (st ∷ steps) = elim (Bool-cases (q st)) [
  | inl e ↦ rw (e, keep st, count-update_step p q f keep steps) refl
  | inr e ↦ rw (e, count-update_step p q f keep steps) refl
]

-- A fan-out adds no second row of a step, whatever children it is asked for.
pub expand_map_step-IsLedger :
    (fr : ℕ) (parent : String) (children : List Child) (cache : Bool) (db : Db)
    → IsLedger db.flow_steps
    → IsLedger (expand_map_step fr parent children cache db).flow_steps
unfolding expand_map_step
expand_map_step-IsLedger fr parent children cache db once fr' id =
    rw
      (count-update_step (is_step fr' id) (is_step fr parent)
        (λ st. record st { status = StepStatus.expanded }) (λ st. refl))
      (add_children-IsLedger fr cache children db.flow_steps once fr' id)

insert_step-IsLedger :
    (fr : ℕ) (st : Value) (db db' : Db)
    → insert_step fr st db ≡ some db'
    → IsLedger db.flow_steps
    → IsLedger db'.flow_steps
unfolding insert_step
insert_step-IsLedger fr st db db' h once =
    elim (Bool-cases (any (is_step fr (step_of_spec fr st).step_id) db.flow_steps)) [
      | inl e ↦ absurd (ground (arith, e, h))
      | inr e ↦ elim (Bool-cases (has_script st db)) [
        | inr n ↦ absurd (ground (arith, n, h))
        | inl y ↦
            let same : record db { flow_steps = db.flow_steps ++ step_of_spec fr st ∷ [] } ≡ db' =
              eq_of_some (rw (y, e) at h) in
            rw⁻¹ same (add_row-IsLedger (step_of_spec fr st) db.flow_steps e once)
      ]
    ]

insert_steps-IsLedger :
    (fr : ℕ) (sts : List Value) (db db' : Db)
    → insert_steps fr sts db ≡ some db'
    → IsLedger db.flow_steps
    → IsLedger db'.flow_steps
unfolding insert_steps
insert_steps-IsLedger fr [] db db' h once = rw⁻¹ (eq_of_some h) once
insert_steps-IsLedger fr (st ∷ sts) db db' h once = elim (Option-cases (insert_step fr st db)) [
  | inl e ↦ absurd (ground (arith, e, h))
  | inr (mid, e) ↦
      insert_steps-IsLedger fr sts mid db' (rw e at h) (insert_step-IsLedger fr st db mid e once)
]

-- A ledger that holds each step of a flow run once at most still does after a new flow run,
-- whatever its spec, and whether it was created or refused.
pub create_flow_run-IsLedger :
    (now flow_id : ℕ) (spec input : Value) (key : Option String) (db : Db)
    → IsLedger db.flow_steps
    → IsLedger (create_flow_run now flow_id spec input key db).1.flow_steps
unfolding create_flow_run
create_flow_run-IsLedger now flow_id spec input key db once =
    elim (Bool-cases (any (has_flow flow_id) db.flows)) [
      | inr n ↦ rw n once
      | inl y ↦
          elim (Option-cases (
            insert_steps db.next_flow_run (steps_of_spec spec)
              (started now flow_id input key db))) [
                | inl e ↦ rw (y, e) once
                | inr (db', e) ↦
                    rw (y, e)
                      (insert_steps-IsLedger db.next_flow_run (steps_of_spec spec) _ db' e once)
              ]
    ]

-- A new ledger changes no other table.
module _ {A : Type 0} (table : Db → A)
    (keeps : (db : Db) (steps : List FlowStep)
      → table (record db { flow_steps = steps }) ≡ table db) where
  insert_step-keeps :
      (fr : ℕ) (st : Value) (db db' : Db) → insert_step fr st db ≡ some db' → table db' ≡ table db
  unfolding insert_step
  insert_step-keeps fr st db db' h =
      elim (Bool-cases
        (has_script st db && not (any (is_step fr (step_of_spec fr st).step_id) db.flow_steps))) [
          | inl e ↦
              let same : record db { flow_steps = db.flow_steps ++ step_of_spec fr st ∷ [] } ≡ db' =
                eq_of_some (rw e at h) in
              rw⁻¹ same (keeps db _)
          | inr e ↦ absurd (ground (arith, e, h))
        ]

  pub insert_steps-keeps :
      (fr : ℕ) (sts : List Value) (db db' : Db)
      → insert_steps fr sts db ≡ some db'
      → table db' ≡ table db
  unfolding insert_steps
  insert_steps-keeps fr [] db db' h = rw⁻¹ (eq_of_some h) refl
  insert_steps-keeps fr (st ∷ sts) db db' h = elim (Option-cases (insert_step fr st db)) [
    | inl e ↦ absurd (ground (arith, e, h))
    | inr (mid, e) ↦
        insert_steps-keeps fr sts mid db' (rw e at h) ∙ insert_step-keeps fr st db mid e
  ]

  -- So does a flow run, of all tables but those of the flow runs.
  pub insert_flow_run_idempotent-keeps :
      (moved : (db : Db) (n : ℕ) → table (record db { next_flow_run = n }) ≡ table db)
      → (runs : (db : Db) (n : ℕ) (rs : List FlowRun)
          → table (record db { next_flow_run = n; flow_runs = rs }) ≡ table db)
      → (now flow_id : ℕ) (spec input : Value) (key : String) (db : Db)
      → table (insert_flow_run_idempotent now flow_id spec input key db).1 ≡ table db
  unfolding insert_flow_run_idempotent create_flow_run
  insert_flow_run_idempotent-keeps moved runs now flow_id spec input key db =
      elim (Bool-cases (any (has_flow_key key) db.flow_runs)) [
        | inl taken ↦ rw taken (moved db _)
        | inr free ↦ elim (Bool-cases (any (has_flow flow_id) db.flows)) [
          | inr gone ↦ rw (free, gone) (moved db _)
          | inl there ↦
              elim (Option-cases (
                insert_steps db.next_flow_run (steps_of_spec spec)
                  (started now flow_id input (some key) db))) [
                    | inl e ↦ rw (free, there, e) (moved db _)
                    | inr (db', e) ↦
                        rw (free, there, e)
                          (insert_steps-keeps db.next_flow_run (steps_of_spec spec) _ db' e
                            ∙ runs db _ _)
                  ]
        ]
      ]

module _ (now flow_id : ℕ) (spec input : Value) (key : String) (db : Db) where
  abbrev first : Option (ℕ × Bool) × Db
  first = insert_flow_run_idempotent now flow_id spec input key db

  -- The row that the key finds after an insert that answered.
  answered_flow_run :
      {id : ℕ} {created : Bool}
      → first.0 ≡ some (id, created)
      → (r : FlowRun) × (find? (has_flow_key key) first.1.flow_runs ≡ some r) × (r.id ≡ id)
  unfolding insert_flow_run_idempotent create_flow_run
  answered_flow_run h = elim (Bool-cases (any (has_flow_key key) db.flow_runs)) [
    | inl taken ↦ elim (Option-cases (find? (has_flow_key key) db.flow_runs)) [
      | inl e ↦ absurd (ground (arith, taken, e, h))
      | inr (r, e) ↦ (r, rw taken e, ground (arith, taken, e, h))
    ]
    | inr free ↦ elim (Bool-cases (any (has_flow flow_id) db.flows)) [
      | inr gone ↦ absurd (ground (arith, free, gone, h))
      | inl there ↦
          elim (Option-cases (
            insert_steps db.next_flow_run (steps_of_spec spec)
              (started now flow_id input (some key) db))) [
                | inl e ↦ absurd (ground (arith, free, there, e, h))
                | inr (db', e) ↦ (
                  flow_run_of db.next_flow_run now flow_id input (some key),
                  rw
                      (
                        free,
                        there,
                        e,
                        insert_steps-keeps (λ d. d.flow_runs) (λ d steps. refl) db.next_flow_run
                            (steps_of_spec spec) _ db' e,
                      )
                      (find?-append (has_flow_key key) db.flow_runs _ free ∙ rw (eq_refl key)),
                  ground (arith, free, there, e, h),
                )
              ]
    ]
  ]

-- A webhook redelivered: after an insert under a key that answered with a flow run, a second insert
-- under that key, whatever its flow, spec and input, answers with the same flow run as not created,
-- and adds neither a flow run nor a step.
pub insert_flow_run_idempotent_once :
    (now later flow flow' : ℕ) (spec spec' input input' : Value) (key : String) (db : Db) (id : ℕ)
    (created : Bool)
    → (insert_flow_run_idempotent now flow spec input key db).0 ≡ some (id, created)
    → let u = (insert_flow_run_idempotent now flow spec input key db).1 in
      ((insert_flow_run_idempotent later flow' spec' input' key u).0 ≡ some (id, false))
      × ((insert_flow_run_idempotent later flow' spec' input' key u).1.flow_runs ≡ u.flow_runs)
      × ((insert_flow_run_idempotent later flow' spec' input' key u).1.flow_steps ≡ u.flow_steps)
unfolding insert_flow_run_idempotent
insert_flow_run_idempotent_once now later flow flow' spec spec' input input' key db id created h =
    let u = (insert_flow_run_idempotent now flow spec input key db).1 in
    let (r, found, same) = answered_flow_run now flow spec input key db h in
    let taken = any-of-find? (has_flow_key key) u.flow_runs found in
    rw (taken, found, same) (refl, refl, refl)
