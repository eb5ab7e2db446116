-- ===== src/Flow/Engine/Claimable.antt =====
-- The run of a step attempt is a pending run like any other.

use dokan.Prelude.{
  ℕ, String, Bool, true, false, ◌≡◌, ◌≢◌, refl, subst, Option, none, some, List, [], ◌∷◌, ◌++◌,
  Memᴰ, arith, All-mem, mem-update_where, if◌then◌else◌, ==_iff,
}
use dokan.Json.{Value}
use dokan.Db.{Run, FlowStep, Db, new_run}
use dokan.Db.Scripts.{script_exists}
use dokan.Db.Runs.{insert_run, insert_run_with_blobs, append_run, set_run_cache_key, has_id}
use dokan.Db.Queue.{served, eligible, claim_run}
use dokan.Db.Queue.Claim.{claim_run-none_iff}
use dokan.Db.Flows.Drive.{set_step_running}
use dokan.Flow.Engine.{Engine, tag, launched}

-- The row of an attempt's run, before its key.
abbrev pub row : ℕ → ℕ → FlowStep → Value → Run
row id now step input = new_run id now step.script_id (some input)

last_in : (xs : List Run) (r : Run) → Memᴰ r (xs ++ r ∷ [])
last_in [] r = Memᴰ.head refl
last_in (x ∷ xs) r = Memᴰ.tail (last_in xs r)

tag-member :
    (key : Option String) (id now : ℕ) (step : FlowStep) (input : Value) (db : Db)
    → Memᴰ (row id now step input) db.runs
    → (k : Option String) × Memᴰ
        (record (row id now step input) { cache_key = k })
        (tag key id db).runs
unfolding set_run_cache_key
tag-member none id now step input db m = (none, m)
tag-member (some key) id now step input db m = (
  some key,
  subst
      (λ b.
        Memᴰ
          (if b
            then record (row id now step input) { cache_key = some key }
            else row id now step input)
          (tag (some key) id db).runs)
      ((==_iff id id).1 refl)
      (mem-update_where (has_id id) (λ r. record r { cache_key = some key }) m),
)

tag-scripts : (key : Option String) (id : ℕ) (db : Db) → (tag key id db).scripts ≡ db.scripts
unfolding set_run_cache_key
tag-scripts none id db = refl
tag-scripts (some key) id db = refl

-- The database while the engine executes the run of an attempt.
abbrev pub in_flight : Engine → ℕ → ℕ → FlowStep → Option String → Value → Db → Db
in_flight engine now fr step key input db =
    launched engine now fr step key db.next_run (insert_run now step.script_id input none db).1

-- While the engine executes the run of a step whose script exists, that run is in the table and
-- eligible for every worker that serves its runtime, unless its row is held; and such a worker's
-- claim does find a run.
pub launched-claimable :
    (engine : Engine) (now later fr : ℕ) (step : FlowStep) (key : Option String) (input : Value)
    (caps : List String) (locked : ℕ → Bool) (db : Db)
    → script_exists step.script_id db ≡ true
    → served caps db (row db.next_run now step input) ≡ true
    → locked db.next_run ≡ false
    → (k : Option String) × Memᴰ
        (record (row db.next_run now step input) { cache_key = k })
        (in_flight engine now fr step key input db).runs
      × (eligible caps locked
            (in_flight engine now fr step key input db)
            (record (row db.next_run now step input) { cache_key = k })
          ≡ true)
      × ((claim_run later caps locked (in_flight engine now fr step key input db)).0 ≢ none)
unfolding insert_run insert_run_with_blobs set_step_running served eligible
launched-claimable engine now later fr step key input caps locked db there serves free =
    let inserted = append_run (row db.next_run now step input) db in
    let started = launched engine now fr step key db.next_run inserted in
    let (k, m) = tag-member key db.next_run now step input inserted (last_in db.runs _) in
    let scripts = tag-scripts key db.next_run inserted in
    let own : Run = record (row db.next_run now step input) { cache_key = k } in
    let mine : eligible caps locked started own ≡ true = ground (arith, scripts, serves, free) in
    rw there (
      k,
      m,
      mine,
      λ no_claim.
          let passed_over = (claim_run-none_iff later caps locked started).0 no_claim in
          let not_mine = All-mem (λ r. eligible caps locked started r ≡ false) m passed_over in
          absurd (ground (arith, not_mine, mine)),
    )
