-- ===== src/Tests/Deliveries.antt =====
-- A webhook of the script, two deliveries to it, and calls on one limiter.
use dokan.Prelude.{
  ◌↔◌, ℕ, String, ◌+◌, ◌≤◌, ◌<◌, ◌≡◌, refl, true, some, none, List, [], ◌∷◌, arith, ◌⊎◌,
}
use dokan.Db.{Target, Webhook}
use dokan.Http.{ct_eq}
use dokan.Http.Guards.{ct_eq_iff}
use dokan.Http.Limiter.{new}
use dokan.Http.Limiter.Window.{passes, passes-le_max}
use dokan.Http.Webhook.{Libraries, AppState, Delivery, Reply, webhook_fire}
use dokan.Http.Webhook.Enqueue.{job_of, is_repeated, SameJobs}
use dokan.Http.Webhook.Delivered.{webhook_fire_once}
use dokan.Tests.{two_pending}

abbrev calls : List (String × ℕ)
calls = ("a", 100) ∷ ("b", 100) ∷ ("a", 103) ∷ ("a", 109) ∷ []

at_100 : (100 ≤ 100) × (100 < 100 + 10)
at_100 = (omega arith, omega arith)

passes-le_max_example : passes "a" calls (new 10 2) ≤ 2
passes-le_max_example =
    passes-le_max "a" 100 2 10 calls
      (at_100, (at_100, ((omega arith, omega arith), ((omega arith, omega arith), tt))))

abbrev no_parser : Libraries
no_parser = record {
  from_slice = λ bytes. none;
  from_utf8_lossy = λ bytes. "raw";
  sha256_hex = λ bytes. "digest";
}

abbrev hook : Webhook
hook = record { id = 1; token = "whk_token"; kind = Target.script; target_id = 1; agent_id = none }

abbrev listening : AppState
listening = record {
  ip_limiter = new 10 100;
  token_limiter = new 1 20;
  db = record two_pending { webhooks = hook ∷ []; next_webhook = 2 };
}

abbrev delivery : Delivery
delivery = record {
  peer = "10.0.0.1";
  token = "whk_token";
  headers = ("x-github-delivery", "d-1") ∷ [];
  body = 123 ∷ [];
}

first_reply : job_of (webhook_fire no_parser [] 50 delivery listening).0 ≡ some (Target.script, 3)
unfolding webhook_fire new
first_reply = refl

webhook_fire_once_example :
    let s = (webhook_fire no_parser [] 50 delivery listening).1 in
    let (reply, after) = webhook_fire no_parser [] 70 delivery s in
    ((reply ≡ Reply.rate_limited)
      ⊎ ((job_of reply ≡ some (Target.script, 3)) × (is_repeated reply ≡ true)))
    × SameJobs s.db after.db
webhook_fire_once_example =
    webhook_fire_once no_parser [] 50 70 delivery delivery listening Target.script 3 refl refl
      first_reply

abbrev sent : List ℕ
sent = 1 ∷ 2 ∷ []

abbrev expected : List ℕ
expected = 1 ∷ 3 ∷ []

ct_eq_iff_example : (ct_eq sent expected ≡ true) ↔ (sent ≡ expected)
ct_eq_iff_example = ct_eq_iff sent expected
