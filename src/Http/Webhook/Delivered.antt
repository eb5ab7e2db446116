-- ===== src/Http/Webhook/Delivered.antt =====
-- A refused delivery writes nothing, and a redelivery enqueues nothing.
use dokan.Prelude.{
  ℕ, String, true, false, ◌≡◌, refl, ◌∙◌, sym, none, some, List, ◌⊎◌, inl, inr, arith, Bool-cases,
  Option-cases,
}
use dokan.Db.{Target, Webhook, Db}
use dokan.Db.Webhooks.{find_webhook_by_token}
use dokan.Http.{client_ip, is_well_formed_webhook_token, webhook_idempotency_key}
use dokan.Http.Limiter.{check_at}
use dokan.Http.Webhook.{
  Libraries, AppState, Delivery, Reply, input_of, enqueue, delivered, webhook_fire,
}
use dokan.Http.Webhook.Enqueue.{
  job_of, is_repeated, is_refused, SameJobs, Repeats, enqueue-webhooks, enqueue_once,
  enqueue-refused,
}

find_webhook-webhooks :
    (token : String) (u v : Db)
    → v.webhooks ≡ u.webhooks
    → find_webhook_by_token token v ≡ find_webhook_by_token token u
unfolding find_webhook_by_token
find_webhook-webhooks token u v e = rw e refl

module _ (lib : Libraries) (trusted : List String) where
  delivered-found :
      (now : ℕ) (d : Delivery) (db : Db) (w : Webhook)
      → find_webhook_by_token d.token db ≡ some w
      → delivered lib trusted now d db
        ≡ enqueue now w.kind w.target_id w.agent_id
            (input_of lib d.body)
            (webhook_idempotency_key lib.sha256_hex d.token d.headers d.body)
            db
  unfolding delivered
  delivered-found now d db w e = rw (e, delivered) refl

  delivered-unknown :
      (now : ℕ) (d : Delivery) (db : Db)
      → find_webhook_by_token d.token db ≡ none
      → delivered lib trusted now d db ≡ (Reply.no_such_webhook, db)
  unfolding delivered
  delivered-unknown now d db e = rw (e, delivered) refl

  delivered_once :
      (now later : ℕ) (d d' : Delivery) (db : Db) (k : Target) (id : ℕ)
      → d'.token ≡ d.token
      → webhook_idempotency_key lib.sha256_hex d'.token d'.headers d'.body
        ≡ webhook_idempotency_key lib.sha256_hex d.token d.headers d.body
      → job_of (delivered lib trusted now d db).0 ≡ some (k, id)
      → let u = (delivered lib trusted now d db).1 in
        Repeats k id u (delivered lib trusted later d' u)
  delivered_once now later d d' db k id token key h =
      elim (Option-cases (find_webhook_by_token d.token db)) [
        | inl e ↦ absurd (ground (arith, rw (delivered-unknown now d db e) at h))
        | inr (w, e) ↦
            let key1 = webhook_idempotency_key lib.sha256_hex d.token d.headers d.body in
            let first = enqueue now w.kind w.target_id w.agent_id (input_of lib d.body) key1 db in
            let found : find_webhook_by_token d'.token first.1 ≡ some w = rw token (
              find_webhook-webhooks d.token db first.1
                (enqueue-webhooks now w.target_id w.kind w.agent_id (input_of lib d.body) key1 db)
              ∙ e) in
            rw (delivered-found now d db w e, delivered-found later d' first.1 w found, key)
              (enqueue_once now later w.target_id w.kind w.agent_id (input_of lib d.body)
                (input_of lib d'.body) key1 db k id (rw (delivered-found now d db w e) at h))
      ]

  -- A delivery is shed or refused before the database is asked, or it is delivered.
  webhook_fire-cases :
      (now : ℕ) (d : Delivery) (s : AppState)
      → let (reply, after) = webhook_fire lib trusted now d s in
        ((reply ≡ Reply.rate_limited) × (after.db ≡ s.db))
        ⊎ ((reply ≡ Reply.no_such_webhook)
            × (after.db ≡ s.db)
            × (is_well_formed_webhook_token d.token ≡ false))
        ⊎ ((reply ≡ (delivered lib trusted now d s.db).0)
            × (after.db ≡ (delivered lib trusted now d s.db).1)
            × (is_well_formed_webhook_token d.token ≡ true))
  unfolding webhook_fire
  webhook_fire-cases now d s =
      elim (Bool-cases (check_at (client_ip d.headers d.peer trusted) now s.ip_limiter).0) [
        | inr e ↦ inl (rw e (refl, refl))
        | inl e ↦ elim (Bool-cases (is_well_formed_webhook_token d.token)) [
          | inr f ↦ inr (inl (rw (e, f) (refl, refl, refl)))
          | inl f ↦ elim (Bool-cases (check_at d.token now s.token_limiter).0) [
            | inr g ↦ inl (rw (e, f, g) (refl, refl))
            | inl g ↦ inr (inr (rw (e, f, g) (refl, refl, refl)))
          ]
        ]
      ]

  delivered-refused :
      (now : ℕ) (d : Delivery) (db : Db)
      → is_refused (delivered lib trusted now d db).0 ≡ true
      → (delivered lib trusted now d db).1 ≡ db
  delivered-refused now d db h = elim (Option-cases (find_webhook_by_token d.token db)) [
    | inl e ↦ rw (delivered-unknown now d db e) refl
    | inr (w, e) ↦ rw (delivered-found now d db w e) (
        enqueue-refused now w.target_id w.kind w.agent_id (input_of lib d.body)
          (webhook_idempotency_key lib.sha256_hex d.token d.headers d.body) db
          (rw (delivered-found now d db w e) at h))
  ]

  -- A delivery that is shed by a limiter, or whose token is malformed or unknown, or whose flow is
  -- gone, leaves the database as it was.
  pub webhook_fire-refused :
      (now : ℕ) (d : Delivery) (s : AppState)
      → is_refused (webhook_fire lib trusted now d s).0 ≡ true
      → (webhook_fire lib trusted now d s).1.db ≡ s.db
  webhook_fire-refused now d s h = elim (webhook_fire-cases now d s) [
    | inl (reply, same) ↦ same
    | inr (inl (reply, same, token)) ↦ same
    | inr (inr (reply, same, token)) ↦ same ∙ delivered-refused now d s.db (rw reply at h)
  ]

  -- At-least-once delivery runs a job once: after a delivery that answered with a run or a flow run,
  -- a delivery for the same token whose idempotency key is equal, at any later time, is shed by a
  -- limiter or answers with that run or flow run as a repetition, and in both cases it adds no run,
  -- no flow run and no step.
  pub webhook_fire_once :
      (now later : ℕ) (d d' : Delivery) (s : AppState) (k : Target) (id : ℕ)
      → d'.token ≡ d.token
      → webhook_idempotency_key lib.sha256_hex d'.token d'.headers d'.body
        ≡ webhook_idempotency_key lib.sha256_hex d.token d.headers d.body
      → job_of (webhook_fire lib trusted now d s).0 ≡ some (k, id)
      → let s' = (webhook_fire lib trusted now d s).1 in
        let (reply, after) = webhook_fire lib trusted later d' s' in
        ((reply ≡ Reply.rate_limited)
          ⊎ ((job_of reply ≡ some (k, id)) × (is_repeated reply ≡ true)))
        × SameJobs s'.db after.db
  webhook_fire_once now later d d' s k id token key h = elim (webhook_fire-cases now d s) [
    | inl (reply, same) ↦ absurd (ground (arith, rw reply at h))
    | inr (inl (reply, same, bad)) ↦ absurd (ground (arith, rw reply at h))
    | inr (inr (reply, same, formed)) ↦
        let s' = (webhook_fire lib trusted now d s).1 in
        let once = delivered_once now later d d' s.db k id token key (rw reply at h) in
        elim (webhook_fire-cases later d' s') [
          | inl (reply', same') ↦ (inl reply', rw same' (refl, refl, refl))
          | inr (inl (reply', same', bad)) ↦ absurd (ground (arith, formed, rw token at bad))
          | inr (inr (reply', same', f)) ↦
              let (job, repeated, jobs) = rw (sym same) at once in
              (inr (rw reply' (job, repeated)), rw same' jobs)
        ]
  ]
