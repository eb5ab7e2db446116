-- ===== src/Db/Retention/Deletion.antt =====
-- The deletion of a script and the rows that refer to it.
use dokan.Prelude.{
  ℕ, true, false, ◌≡◌, ◌≢◌, ◌↔◌, inl, inr, none, some, List, Memᴰ, any, filter, map, Bool-cases,
  ltb, ◌==◌, count,
}
use mathlib.Core.List.Memᴰ
use dokan.Db.{Script, Run, Log, Trigger, FlowStep, Schedule, Db}
use dokan.Db.Scripts.{has_script_id, script_exists}
use dokan.Db.Retention.{deleted, of_script, uses_script, delete_script}

-- What is gone and what is left after the deletion of the script `id`. The logs, the runs, the
-- schedules and the script go; every other row stays. Triggers and flow steps of the script would
-- have stopped the deletion; compensations of flow steps and webhooks may still name it.
pub record IsDeletion (id : ℕ) (db u : Db) : Type 0 where
  pub scripts : (s : Script) → Memᴰ s u.scripts ↔ (Memᴰ s db.scripts × (s.id ≢ id))
  pub runs : (r : Run) → Memᴰ r u.runs ↔ (Memᴰ r db.runs × (r.script_id ≢ id))
  pub logs :
      (l : Log)
      → Memᴰ l u.logs
        ↔ (Memᴰ l db.logs × ((r : Run) → Memᴰ r db.runs → r.id ≡ l.run_id → r.script_id ≢ id))
  pub schedules :
      (sc : Schedule) → Memᴰ sc u.schedules ↔ (Memᴰ sc db.schedules × (sc.script_id ≢ id))
  pub unarmed :
      (t : Trigger) → Memᴰ t u.triggers → (t.source_script_id ≢ id) × (t.target_script_id ≢ id)
  pub unstepped : (st : FlowStep) → Memᴰ st u.flow_steps → st.script_id ≢ id
  pub triggers : u.triggers ≡ db.triggers
  pub flow_steps : u.flow_steps ≡ db.flow_steps
  pub webhooks : u.webhooks ≡ db.webhooks

-- A deletion that does not report success changes nothing.
pub delete_script-refused :
    (id : ℕ) (db : Db)
    → ((runs : ℕ) (schedules : List ℕ) → (delete_script id db).0 ≢ some (deleted runs schedules))
    → (delete_script id db).1 ≡ db
unfolding delete_script
delete_script-refused id db h = elim (Bool-cases (any (has_script_id id) db.scripts)) [
  | inr gone ↦ rw gone
  | inl found ↦
      elim (Bool-cases (ltb 0 (count (λ (st : FlowStep). st.script_id == id) db.flow_steps))) [
        | inl flow ↦ rw (found, flow)
        | inr free ↦ elim (Bool-cases (any (uses_script id) db.triggers)) [
          | inl armed ↦ rw (found, free, armed)
          | inr unused ↦ absurd (
              h (count (of_script id) db.runs)
                (map (λ (sc : Schedule). sc.id)
                  (filter (λ (sc : Schedule). sc.script_id == id) db.schedules))
                (rw (found, free, unused)))
        ]
      ]
]

-- A script that no flow step refers to, but a trigger does, cannot be deleted: the query fails on
-- the trigger's foreign key, and every table stays as it was.
pub delete_script-armed :
    (id : ℕ) (db : Db)
    → script_exists id db ≡ true
    → count (λ (st : FlowStep). st.script_id == id) db.flow_steps ≡ 0
    → any (uses_script id) db.triggers ≡ true
    → delete_script id db ≡ (none, db)
unfolding delete_script
delete_script-armed id db found free armed =
    let no_flow : ltb 0 (count (λ (st : FlowStep). st.script_id == id) db.flow_steps) ≡ false =
      rw free in
    rw (found, no_flow, armed)
