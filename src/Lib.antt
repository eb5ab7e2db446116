-- ===== src/Lib.antt =====
-- dokan runs uploaded scripts in containers for agents. All its state is in PostgreSQL: scripts,
-- runs (the job queue), logs, blobs, schedules, triggers, flows. Any number of daemons share it.
-- An agent uploads scripts and enqueues runs; workers claim runs and execute them; the cron ticker
-- enqueues runs; the flow engine drives graphs of steps, each of which is a run; sweeps reclaim
-- and delete.
--
-- Db models src/db.rs and migrations.sql. The database is one record of tables, each a list of
-- rows in the order of insertion; a query is a function of it with the name of the method, and
-- `now()` an argument. A query is one atomic step, as PostgreSQL runs one statement, or one
-- transaction where the source opens one. `FOR UPDATE SKIP LOCKED` is an argument that tells which
-- rows are held elsewhere.
--   Db/Scripts     scripts, schedules and triggers
--   Db/Runs        inserts, finish, cancel and reads of runs
--   Db/Queue       claim, attempts, requeue, lease and staleness, quota counts, recall from the cache
--   Db/Retention   logs, blobs, sweeps, deletion of a script
--   Db/Triggers    fire_triggers; the containment of JSONB is a parameter
--   Db/Flows       flow runs and the ledger of their steps
--   Db/Secrets     src/crypto.rs and the secrets: sealing, scoped over global, the generation, and the
--                  cache of a daemon, whose overlapping calls are steps in any order
--   Db/Webhooks    webhook tokens
--   Db/Receipts    receipts of runs and the inputs of a reproduction
--   Db/Lifecycle   every query on runs as a step of the shared table, in any order
--   Db/Outcome     classify_outcome
-- Worker models one claimed job of src/worker.rs; what a container does is a function from table
-- to table, of which Worker/Attempts and Worker/Again ask that it works by the queries, counts no
-- attempt itself and ends the run. Quota models src/quota.rs in microseconds. Cron models a tick
-- of src/cron.rs, where a query that fails is a field of the `Host`, and what others do between
-- the quota check and the insert an argument, and Cron/Tickers the table of live tickers, where
-- the removal of a job is a step of its own that may come late or never. Scale models the limiter
-- of src/scale.rs over the interface of tokio's Semaphore. Exec models src/exec.rs: one execution
-- from the container to the ended run. What Docker, the disk and the clock answer are the fields
-- of a `Host`, and JSON, base64 and cryptography those of `Libraries`. A time limit that runs out
-- drops the pump at the end of a chunk; the heartbeat is a step of Db/Lifecycle; errors of the
-- disk while files are written are left out.
--   Exec/Redact    redact_secrets
--   Exec/Pump      pump_logs: chunks, lines, control lines, batches
--   Exec/Files     the input files and the capture of the output directory, a tree
--   Exec/Host      the job, the Executor, and what Docker and the host answer
--   Exec/Job       exec_job, run_inner and run; Exec/Job/Executes joins them to the worker
-- Receipt models src/receipt.rs over the primitives of SHA-256, HMAC, Ed25519 and base64:
-- Receipt/Codec the hexadecimal text and the DSSE encoding, Receipt/Verify verification and the
-- verdict, Receipt/Build the record that src/exec.rs makes. A call of a tool of Mcp or of a
-- handler of Http is one step, all its queries included: what others do between its quota check
-- and its insert is left to Cron. Http models src/http.rs: the bearer gate and the keys of
-- deliveries, Http/Limiter the fixed-window limiter in whole seconds, Http/Webhook webhook_fire,
-- Http/Operator cancel, trigger and logs. Mcp models the tools of src/mcp.rs: Mcp the texts, keys
-- and checks, Mcp/Scripts uploads, triggers and blobs, Mcp/Runs run_script and cancel, Mcp/Flows
-- flows and schedules, Mcp/Reproduce verify and reproduce_run, whose waiting is any function of
-- the database. Pool models src/pool.rs, where whether a creation succeeds is an argument. Update
-- models src/update.rs, where downloads, the rename and the output of the new binary are fields of
-- a `World`. Flow models src/flow.rs: Flow the values (references, gates, aggregation), Flow/Spec
-- and Flow/Cycles validate_spec, Flow/Engine run_step, Flow/Moves the decisions of a pass,
-- Flow/Drive the passes, expand and compensate. Steps that the source runs in parallel run in
-- order. Printing and parsing of JSON is a parameter (`Serde`). Json holds the value type of
-- serde_json; a float is its bit pattern. Prelude holds the shared Boolean tests, list and text
-- functions, and the integers. Tests holds the runs of the theorems.
--
-- Bounds and fuel. Numbers are natural, or integers where the source has a negative value;
-- identifiers and times do not overflow here, while the 32-bit attempts of a step wrap as in the
-- source. The search for cycles takes fuel, one more than there are steps, which Flow/Cycles/Fuel
-- shows to be enough. Flow/Drive counts the passes of a driver, which itself has no bound.
--
-- Not modelled: Docker itself and the creation of containers, HTML, listings, searches and the
-- event stream, the command line, embeddings, the registry of executors, floating-point control,
-- keys read from the environment, the query of releases, and errors of the connection to the
-- database, except where a `Host` has them.
pub mod Prelude
pub mod Json
pub mod Db
pub mod Worker
pub mod Quota
pub mod Cron
pub mod Scale
pub mod Exec
pub mod Receipt
pub mod Http
pub mod Mcp
pub mod Pool
pub mod Update
pub mod Flow
pub mod Tests
