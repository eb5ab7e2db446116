-- ===== src/Db/Scripts.antt =====
-- src/db.rs: scripts, and the schedules and triggers that refer to them.
use dokan.Prelude.{
  ℕ, suc, String, Bool, true, false, not, ◌&&◌, Option, none, some, List, [], ◌∷◌, ◌++◌, any, count,
  filter, find?, update_where, ltb, ◌==◌, str_eq, if◌then◌else◌,
}
use dokan.Prelude.Int.{ℤ, pos, negsuc}
use dokan.Json.{Value}
use dokan.Db.{Settings, Script, Schedule, Db}

abbrev pub has_script_id : ℕ → Script → Bool
has_script_id id s = s.id == id

abbrev pub script_exists : ℕ → Db → Bool
script_exists id db = any (has_script_id id) db.scripts

-- The identifier and the version of the new row.
unfoldable pub insert_script : String → String → Settings → Db → (ℕ × ℕ) × Db
insert_script name source settings db = (
  (db.next_script, 1),
  record db {
    scripts =
        db.scripts
        ++ record {
          id = db.next_script;
          name = name;
          source = source;
          version = 1;
          secrets_allowlist = none;
          settings = settings;
        }
          ∷ [];
    next_script = suc db.next_script;
  },
)

unfoldable pub get_script : ℕ → Db → Option Script
get_script id db = find? (has_script_id id) db.scripts

abbrev higher_script : Script → Option Script → Script
higher_script s none = s
higher_script s (some t) = if ltb s.id t.id then t else s

-- `WHERE name = $1 ORDER BY id DESC LIMIT 1`
unfoldable pub newest_named : String → List Script → Option Script
newest_named name [] = none
newest_named name (s ∷ ss) =
    let rest = newest_named name ss in
    if str_eq s.name name then some (higher_script s rest) else rest

unfoldable pub find_script_by_name : String → Db → Option Script
unfolding newest_named
find_script_by_name name db = newest_named name db.scripts

abbrev pub new_version : String → Settings → Script → Script
new_version source settings s = record s {
  source = source;
  version = suc s.version;
  settings = settings;
}

-- `fetch_one`: `none` is the error of an identifier with no row.
unfoldable pub update_script : ℕ → String → Settings → Db → Option ℕ × Db
update_script id source settings db = elim (find? (has_script_id id) db.scripts) [
  | none ↦ (none, db)
  | some s ↦ (
    some (suc s.version),
    record db {
      scripts = update_where (has_script_id id) (new_version source settings) db.scripts;
    },
  )
]

abbrev same_opt : {A : Type 0} → (A → A → Bool) → Option A → Option A → Bool
same_opt eq none none = true
same_opt eq (some a) (some b) = eq a b
same_opt eq _ _ = false

abbrev same_ℤ : ℤ → ℤ → Bool
same_ℤ (pos a) (pos b) = a == b
same_ℤ (negsuc a) (negsuc b) = a == b
same_ℤ _ _ = false

abbrev same_bool : Bool → Bool → Bool
same_bool true b = b
same_bool false b = not b

-- No column `IS DISTINCT FROM` its new value.
unfoldable pub same_settings : Settings → Settings → Bool
same_settings a b =
    str_eq a.runtime b.runtime
    && same_opt str_eq a.description b.description
    && same_opt str_eq a.created_by b.created_by
    && same_bool a.network b.network
    && same_opt same_ℤ a.mem_limit_mb b.mem_limit_mb
    && same_opt ◌==◌ a.cpu_limit b.cpu_limit
    && same_bool a.feed_prev_result b.feed_prev_result
    && same_opt same_ℤ a.timeout_secs b.timeout_secs

abbrev outdated : ℕ → Settings → Script → Bool
outdated id settings s = s.id == id && not (same_settings s.settings settings)

unfoldable pub update_script_meta : ℕ → Settings → Db → Bool × Db
update_script_meta id settings db = (
  ltb 0 (count (outdated id settings) db.scripts),
  record db {
    scripts =
        update_where (outdated id settings) (λ s. record s { settings = settings }) db.scripts;
  },
)

-- Options that a schedule carries onto its runs.
pub record ScheduleOpts : Type 0 where
  pub agent_id : Option String
  pub input_blobs : Option Value
  pub capture_output : Bool
  pub idempotency : Bool
  pub timezone : Option String

unfoldable pub insert_schedule : ℕ → String → Value → ScheduleOpts → Db → Option ℕ × Db
insert_schedule script_id cron input opts db =
    let moved = record db { next_schedule = suc db.next_schedule } in
    if script_exists script_id db
    then (
      some db.next_schedule,
      record moved {
        schedules =
            db.schedules
            ++ record {
              id = db.next_schedule;
              script_id = script_id;
              cron = cron;
              input = input;
              enabled = true;
              agent_id = opts.agent_id;
              input_blobs = opts.input_blobs;
              capture_output = opts.capture_output;
              idempotency = opts.idempotency;
              timezone = opts.timezone;
            }
              ∷ [];
      },
    )
    else (none, moved)

unfoldable pub set_schedule_enabled : ℕ → Bool → Db → ℕ × Db
set_schedule_enabled id enabled db = (
  count (λ sc. sc.id == id) db.schedules,
  record db {
    schedules =
        update_where (λ sc. sc.id == id) (λ sc. record sc { enabled = enabled }) db.schedules;
  },
)

unfoldable pub enabled_schedules : Db → List Schedule
enabled_schedules db = filter (λ sc. sc.enabled) db.schedules

unfoldable pub insert_trigger : ℕ → Value → ℕ → Option String → Db → Option ℕ × Db
insert_trigger source predicate target agent_id db =
    let moved = record db { next_trigger = suc db.next_trigger } in
    if script_exists source db && script_exists target db
    then (
      some db.next_trigger,
      record moved {
        triggers =
            db.triggers
            ++ record {
              id = db.next_trigger;
              source_script_id = source;
              predicate = predicate;
              target_script_id = target;
              agent_id = agent_id;
              enabled = true;
            }
              ∷ [];
      },
    )
    else (none, moved)

unfoldable pub delete_trigger : ℕ → Db → Bool × Db
delete_trigger id db = (
  ltb 0 (count (λ t. t.id == id) db.triggers),
  record db { triggers = filter (λ t. not (t.id == id)) db.triggers },
)

-- A column of names, or NULL for no restriction.
unfoldable pub set_script_secrets : ℕ → Option (List String) → Db → Db
set_script_secrets id names db = record db {
  scripts =
      update_where (has_script_id id) (λ s. record s { secrets_allowlist = names }) db.scripts;
}
