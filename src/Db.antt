-- ===== src/Db.antt =====
-- src/db.rs and migrations.sql: the database as the value that the queries read and change. A
-- timestamp is a number of microseconds; `now()` is an argument.
mod Rows
pub mod Scripts
pub mod Runs
pub mod Outcome
pub mod Queue
pub mod Retention
pub mod Triggers
pub mod Flows
pub mod Secrets
pub mod Webhooks
pub mod Receipts
pub mod Lifecycle
pub use Rows.*
use dokan.Prelude.{ℕ, List, []}
use Rows.{
  Script, Run, Log, Blob, Schedule, Trigger, Flow, FlowRun, FlowStep, Secret, AgentSecret, Webhook,
}

-- The `next` fields are the sequences behind the `id` columns (BIGSERIAL).
pub record Db : Type 0 where
  pub scripts : List Script
  pub runs : List Run
  pub next_run : ℕ
  pub next_script : ℕ
  pub next_schedule : ℕ
  pub next_trigger : ℕ
  pub logs : List Log
  pub blobs : List Blob
  pub schedules : List Schedule
  pub triggers : List Trigger
  pub flows : List Flow
  pub next_flow : ℕ
  pub flow_runs : List FlowRun
  pub next_flow_run : ℕ
  pub flow_steps : List FlowStep
  pub secrets : List Secret
  pub agent_secrets : List AgentSecret
  pub secrets_generation : ℕ
  pub webhooks : List Webhook
  pub next_webhook : ℕ

abbrev pub no_rows : Db
no_rows = record {
  scripts = [];
  runs = [];
  next_run = 1;
  next_script = 1;
  next_schedule = 1;
  next_trigger = 1;
  logs = [];
  blobs = [];
  schedules = [];
  triggers = [];
  flows = [];
  next_flow = 1;
  flow_runs = [];
  next_flow_run = 1;
  flow_steps = [];
  secrets = [];
  agent_secrets = [];
  secrets_generation = 0;
  webhooks = [];
  next_webhook = 1;
}
