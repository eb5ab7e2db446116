-- ===== src/Db/Triggers.antt =====
-- src/db.rs, `fire_triggers`: a result that contains a trigger's predicate enqueues its target.
use dokan.Prelude.{ℕ, Bool, false, ◌&&◌, Option, none, some, List, [], ◌∷◌, filter, ◌==◌}
use dokan.Json.{Value, Number, object, number, field, end}
use dokan.Db.{Trigger, Run, Db, new_run}
use dokan.Db.Runs.{append_run, find_run}

-- `contains` is PostgreSQL's `@>` on JSONB.
module _ (contains : Value → Value → Bool) where
  -- The script of the run, `NULL` for a run that is not there.
  abbrev source_is : Option Run → Trigger → Bool
  source_is none t = false
  source_is (some r) t = t.source_script_id == r.script_id

  unfoldable pub matches : ℕ → Value → Db → Trigger → Bool
  unfolding find_run
  matches run_id result db t =
      t.enabled && source_is (find_run run_id db) t && contains result t.predicate

  abbrev trigger_input : ℕ → Value → Value
  trigger_input run_id result =
      object
        (field "trigger_result" result (field "source_run_id" (number (Number.pos_int run_id)) end))

  unfoldable pub enqueue_all : ℕ → ℕ → Value → List Trigger → Db → List ℕ × Db
  enqueue_all now run_id result [] db = ([], db)
  enqueue_all now run_id result (t ∷ ts) db =
      let r =
        record (new_run db.next_run now t.target_script_id (some (trigger_input run_id result))) {
          agent_id = t.agent_id;
        } in
      let (ids, db') = enqueue_all now run_id result ts (append_run r db) in
      (db.next_run ∷ ids, db')

  unfoldable pub fire_triggers : ℕ → ℕ → Value → Db → List ℕ × Db
  unfolding matches enqueue_all
  fire_triggers now run_id result db =
      enqueue_all now run_id result (filter (matches run_id result db) db.triggers) db
