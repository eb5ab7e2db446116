-- ===== src/Mcp/Flows.antt =====
-- src/mcp.rs: the tools on flows and schedules. Cron expressions and time zones are parsed by croner and
-- chrono-tz.
use dokan.Prelude.{
  ℕ, String, Bool, true, false, Option, none, some, List, is_empty, trim, find?, ◌==◌,
  if◌then◌else◌,
}
use dokan.Prelude.Result.{Result}
use dokan.Json.{Value, Fields}
use dokan.Db.{Schedule, Script, Db}
use dokan.Db.Scripts.{get_script, insert_schedule, set_schedule_enabled}
use dokan.Db.Flows.{insert_flow, get_flow_spec, insert_flow_run}
use dokan.Flow.Spec.{Verdict, validate_spec}
use dokan.Cron.Tickers.{Cron, add, remove}
use dokan.Mcp.{Printer, FileError, destringify, resolve_files, validate_cron}

abbrev or_empty_object : Option Value → Value
or_empty_object none = Value.object Fields.end
or_empty_object (some v) = v

pub data FlowAnswer : Type 0 where
  composed : ℕ → FlowAnswer
  invalid_spec : String → FlowAnswer
  pending : ℕ → FlowAnswer
  flow_not_found : FlowAnswer
  internal_error : FlowAnswer

abbrev judged : String → Value → Option Verdict → Db → Option (FlowAnswer × Db)
judged name spec none db = none
judged name spec (some (Verdict.invalid e)) db = some (FlowAnswer.invalid_spec e, db)
judged name spec (some Verdict.valid) db =
    let (id, db2) = insert_flow name spec db in some (FlowAnswer.composed id, db2)

-- `none` where the search for a cycle has no answer, which does not happen.
unfoldable pub compose_flow : Printer → String → Value → Db → Option (FlowAnswer × Db)
unfolding destringify validate_spec insert_flow
compose_flow printer name spec db =
    let read = destringify printer spec in judged name read (validate_spec read) db

abbrev answer_run : Option ℕ × Db → FlowAnswer × Db
answer_run (none, db) = (FlowAnswer.internal_error, db)
answer_run (some id, db) = (FlowAnswer.pending id, db)

unfoldable pub run_flow : Printer → ℕ → ℕ → Option Value → Db → FlowAnswer × Db
unfolding get_flow_spec insert_flow_run destringify
run_flow printer now flow_id input db = elim (get_flow_spec flow_id db) [
  | none ↦ (FlowAnswer.flow_not_found, db)
  | some spec ↦
      answer_run (insert_flow_run now flow_id spec (destringify printer (or_empty_object input)) db)
]

pub record ScheduleArgs : Type 0 where
  pub script_id : ℕ
  pub cron : String
  pub timezone : Option String
  pub agent_id : Option String
  pub input : Option Value
  pub files : List (String × String)
  pub capture_output : Bool
  pub idempotency : Bool

pub data ScheduleAnswer : Type 0 where
  scheduled : ℕ → ScheduleAnswer
  invalid_cron : ScheduleAnswer
  invalid_timezone : String → ScheduleAnswer
  script_not_found : ScheduleAnswer
  agent_id_required : ScheduleAnswer
  bad_files : FileError → ScheduleAnswer
  schedule_error : ScheduleAnswer

-- What croner and chrono-tz take, and the name that chrono-tz gives a zone.
pub record Calendar : Type 0 where
  pub parse_cron : String → Bool
  pub parse_timezone : String → Option String
  pub parses : Schedule → Bool

abbrev zone_name : Option String → Option String
zone_name none = none
zone_name (some t) = let name = trim t in if is_empty name then none else some name

abbrev known_zone : String → Option String → Result (Option String) String
known_zone name none = Result.err name
known_zone name (some tz) = Result.ok (some tz)

abbrev parse_zone : Calendar → Option String → Result (Option String) String
parse_zone calendar none = Result.ok none
parse_zone calendar (some name) = known_zone name (calendar.parse_timezone name)

-- A given agent must have a name.
abbrev agent_of : Option String → Option (Option String)
agent_of none = some none
agent_of (some t) = let aid = trim t in if is_empty aid then none else some (some aid)

module _ (printer : Printer) (calendar : Calendar) (a : ScheduleArgs) where
  -- The row has been inserted; when no ticker can serve it, it is disabled again.
  abbrev ticked : ℕ → Bool × Cron → ScheduleAnswer × Cron
  ticked id (true, c) = (ScheduleAnswer.scheduled id, c)
  ticked id (false, c) =
      (ScheduleAnswer.schedule_error, record c { db = (set_schedule_enabled id false c.db).1 })

  abbrev served : ℕ → Option Schedule → Cron → ScheduleAnswer × Cron
  served id none c = (ScheduleAnswer.schedule_error, c)
  served id (some row) c = ticked id (add calendar.parses row c)

  abbrev inserted : Cron → Option ℕ × Db → ScheduleAnswer × Cron
  inserted c (none, db) = (ScheduleAnswer.schedule_error, record c { db = db })
  inserted c (some id, db) = served id (find? (λ s. s.id == id) db.schedules) (record c { db = db })

  abbrev with_files :
      Option String → Option String → Result (Option Value) FileError → Cron → ScheduleAnswer × Cron
  with_files tz agent (Result.err e) c = (ScheduleAnswer.bad_files e, c)
  with_files tz agent (Result.ok blobs) c = inserted c (
      insert_schedule a.script_id a.cron (destringify printer (or_empty_object a.input))
        (record {
          agent_id = agent;
          input_blobs = blobs;
          capture_output = a.capture_output;
          idempotency = a.idempotency;
          timezone = tz;
        })
        c.db)

  abbrev for_agent : Option String → Option (Option String) → Cron → ScheduleAnswer × Cron
  for_agent tz none c = (ScheduleAnswer.agent_id_required, c)
  for_agent tz (some agent) c = with_files tz agent (resolve_files c.db a.files) c

  abbrev of_script : Option String → Option Script → Cron → ScheduleAnswer × Cron
  of_script tz none c = (ScheduleAnswer.script_not_found, c)
  of_script tz (some s) c = for_agent tz (agent_of a.agent_id) c

  abbrev in_zone : Result (Option String) String → Cron → ScheduleAnswer × Cron
  in_zone (Result.err name) c = (ScheduleAnswer.invalid_timezone name, c)
  in_zone (Result.ok tz) c = of_script tz (get_script a.script_id c.db) c

  abbrev with_fields : Option ℕ → Cron → ScheduleAnswer × Cron
  with_fields (some n) c = (ScheduleAnswer.invalid_cron, c)
  with_fields none c =
      if calendar.parse_cron a.cron
      then in_zone (parse_zone calendar (zone_name a.timezone)) c
      else (ScheduleAnswer.invalid_cron, c)

  unfoldable pub schedule : Cron → ScheduleAnswer × Cron
  unfolding validate_cron trim is_empty get_script resolve_files insert_schedule
      set_schedule_enabled add destringify
  schedule c = with_fields (validate_cron a.cron) c

-- `removes`: whether the scheduler takes the job away.
unfoldable pub unschedule : Bool → ℕ → Cron → Bool × Cron
unfolding remove
unschedule removes id c = remove removes id c
