-- ===== src/Db/Webhooks.antt =====
-- src/db.rs: inbound webhooks. The token of a webhook is the only key to it.
use dokan.Prelude.{
  ℕ, suc, String, Bool, not, Option, none, some, [], ◌∷◌, ◌++◌, any, count, filter, find?, ltb,
  ◌==◌, str_eq, if◌then◌else◌,
}
use dokan.Db.{Target, Webhook, Db}

abbrev pub has_token : String → Webhook → Bool
has_token token w = str_eq w.token token

-- `none`: `UNIQUE (token)` refuses the row.
unfoldable pub insert_webhook : String → Target → ℕ → Option String → Db → Option ℕ × Db
insert_webhook token kind target_id agent_id db =
    let moved = record db { next_webhook = suc db.next_webhook } in
    if any (has_token token) db.webhooks then (none, moved) else (
      some db.next_webhook,
      record moved {
        webhooks =
            db.webhooks
            ++ record {
              id = db.next_webhook;
              token = token;
              kind = kind;
              target_id = target_id;
              agent_id = agent_id;
            }
              ∷ [];
      },
    )

unfoldable pub find_webhook_by_token : String → Db → Option Webhook
find_webhook_by_token token db = find? (has_token token) db.webhooks

unfoldable pub delete_webhook : ℕ → Db → Bool × Db
delete_webhook id db = (
  ltb 0 (count (λ w. w.id == id) db.webhooks),
  record db { webhooks = filter (λ w. not (w.id == id)) db.webhooks },
)
