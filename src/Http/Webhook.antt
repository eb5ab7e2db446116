-- ===== src/Http/Webhook.antt =====
-- src/http.rs, `webhook_fire`: an inbound delivery, over the two limiters and the database. The
-- parsing of the body and the hash are parameters.
pub mod Enqueue
pub mod Delivered
use dokan.Prelude.{ℕ, String, Bool, true, false, Option, none, some, List, [], ◌∷◌, if◌then◌else◌}
use dokan.Json.{Value, Fields, object, string}
use dokan.Db.{Status, FlowStatus, Target, Webhook, Db}
use dokan.Db.Runs.{insert_run_idempotent}
use dokan.Db.Queue.{find_run_by_idempotency}
use dokan.Db.Flows.{get_flow_spec, insert_flow_run_idempotent, find_flow_run_by_idempotency}
use dokan.Db.Webhooks.{find_webhook_by_token}
use dokan.Http.{Headers, client_ip, is_well_formed_webhook_token, webhook_idempotency_key}
use dokan.Http.Limiter.{Limiter, check_at}

-- What serde_json, the text of the body and SHA-256 answer.
pub record Libraries : Type 0 where
  pub from_slice : List ℕ → Option Value
  pub from_utf8_lossy : List ℕ → String
  pub sha256_hex : List ℕ → String

pub record AppState : Type 0 where
  pub ip_limiter : Limiter
  pub token_limiter : Limiter
  pub db : Db

pub record Delivery : Type 0 where
  pub peer : String
  pub token : String
  pub headers : Headers
  pub body : List ℕ

-- The answers: 429, 404, 202, 200 and 500.
pub data Reply : Type 0 where
  rate_limited : Reply
  no_such_webhook : Reply
  flow_gone : Reply
  run_accepted : ℕ → Reply
  flow_run_accepted : ℕ → Reply
  run_repeated : ℕ → Status → Reply
  flow_run_repeated : ℕ → FlowStatus → Reply
  enqueue_failed : Reply

abbrev pub input_of : Libraries → List ℕ → Value
input_of lib body = elim (lib.from_slice body) [
  | some v ↦ v
  | none ↦ object (Fields.field "raw" (string (lib.from_utf8_lossy body)) Fields.end)
]

abbrev run_status_or : Option (ℕ × Status) → Status
run_status_or none = Status.pending
run_status_or (some (id, st)) = st

abbrev flow_status_or : Option (ℕ × FlowStatus) → FlowStatus
flow_status_or none = FlowStatus.pending
flow_status_or (some (id, st)) = st

abbrev pub flow_reply : String → Option (ℕ × Bool) × Db → Reply × Db
flow_reply key (none, db) = (enqueue_failed, db)
flow_reply key (some (id, true), db) = (flow_run_accepted id, db)
flow_reply key (some (id, false), db) =
    (flow_run_repeated id (flow_status_or (find_flow_run_by_idempotency key db)), db)

abbrev pub run_reply : String → Option (ℕ × Bool) × Db → Reply × Db
run_reply key (none, db) = (enqueue_failed, db)
run_reply key (some (id, true), db) = (run_accepted id, db)
run_reply key (some (id, false), db) =
    (run_repeated id (run_status_or (find_run_by_idempotency key db)), db)

unfoldable pub enqueue : ℕ → Target → ℕ → Option String → Value → String → Db → Reply × Db
unfolding get_flow_spec insert_flow_run_idempotent insert_run_idempotent find_run_by_idempotency
    find_flow_run_by_idempotency
enqueue now Target.flow target_id agent_id input idem db = elim (get_flow_spec target_id db) [
  | none ↦ (flow_gone, db)
  | some spec ↦ flow_reply idem (insert_flow_run_idempotent now target_id spec input idem db)
]
enqueue now Target.script target_id agent_id input idem db =
    run_reply idem (insert_run_idempotent now target_id input agent_id none false idem db)

-- The whole handler.
module _ (lib : Libraries) (trusted_proxies : List String) (now : ℕ) (d : Delivery) where
  unfoldable pub delivered : Db → Reply × Db
  unfolding find_webhook_by_token webhook_idempotency_key enqueue
  delivered db = elim (find_webhook_by_token d.token db) [
    | none ↦ (no_such_webhook, db)
    | some w ↦
        enqueue now w.kind w.target_id w.agent_id (input_of lib d.body)
          (webhook_idempotency_key lib.sha256_hex d.token d.headers d.body) db
  ]

  unfoldable pub webhook_fire : AppState → Reply × AppState
  unfolding client_ip check_at is_well_formed_webhook_token delivered
  webhook_fire s =
      let (ip_passes, ip_limiter) =
        check_at (client_ip d.headers d.peer trusted_proxies) now s.ip_limiter in
      let s1 = record s { ip_limiter = ip_limiter } in
      let (token_passes, token_limiter) = check_at d.token now s.token_limiter in
      let s2 = record s1 { token_limiter = token_limiter } in
      let (reply, db) = delivered s.db in
      if ip_passes
      then (if is_well_formed_webhook_token d.token
          then (if token_passes then (reply, record s2 { db = db }) else (rate_limited, s2))
          else (no_such_webhook, s1))
      else (rate_limited, s1)
