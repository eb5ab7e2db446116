-- ===== src/Db/Lifecycle/Rows.antt =====
-- Each row of `runs` agrees with its status, whatever the order of the queries.
use dokan.Prelude.{
  ℕ, Bool, true, ◌≡◌, refl, inl, inr, Option, none, some, List, [], ◌∷◌, arith, All, All-append,
  All-update_where, update_where, filter, String, All-filter, any, find?, Bool-cases, Option-cases,
  ◌==◌, ◌&&◌,
}
use dokan.Json.{Value, is_some}
use dokan.Db.{Status, is_running, Run, Db, Trigger, no_rows}
use dokan.Db.Scripts.{
  script_exists, insert_script, update_script_meta, delete_trigger, set_schedule_enabled,
  set_script_secrets,
}
use dokan.Db.Receipts.{set_run_receipt}
use dokan.Db.Runs.{
  has_id, append_run, insert_run_with_blobs, insert_run_idempotent, insert_refused_run, finish_run,
  cancel_run, set_run_result, set_run_output_blobs, update_run_progress, set_run_cache_key, has_key,
  key_taken,
}
use dokan.Db.Queue.{
  start, back_to_queue, claim_run, mark_attempt, requeue, reap_orphan_runs, touch_run,
  fail_stale_pending, lowest, eligible,
}
use dokan.Db.Retention.{delete_script, gc_old}
use dokan.Db.Triggers.{matches, enqueue_all, fire_triggers}
use dokan.Db.Lifecycle.Tables.{
  SameRuns, delete_script-cases, update_script-SameRuns, insert_trigger-SameRuns,
  insert_schedule-SameRuns, append_log-SameRuns, append_logs_batch-SameRuns, put_blob-SameRuns,
  get_blob-SameRuns,
}
use dokan.Db.Lifecycle.{well, badly, Step, Reach, Reach-keeps}

abbrev Timed : Status → Option ℕ → Option ℕ → Option ℕ → Type 0
Timed Status.pending started beat finished = (started ≡ none) × (beat ≡ none)
Timed Status.running started beat finished = (is_some started ≡ true) × (is_some beat ≡ true)
Timed _ started beat finished = is_some finished ≡ true

-- A pending run holds no lease, a running one was started and beats, an ended one has its time.
abbrev pub IsTimed : Run → Type 0
IsTimed r = Timed r.status r.started_at r.heartbeat_at r.finished_at

abbrev pub AreTimed : Db → Type 0
AreTimed db = All IsTimed db.runs

append-AreTimed : (r : Run) (db : Db) → IsTimed r → AreTimed db → AreTimed (append_run r db)
append-AreTimed r db h k = All-append IsTimed db.runs (r ∷ []) k (h, tt)

update-AreTimed :
    (p : Run → Bool) (f : Run → Run) (rs : List Run)
    → ((r : Run) → IsTimed r → IsTimed (f r))
    → All IsTimed rs
    → All IsTimed (update_where p f rs)
update-AreTimed p f rs keep = All-update_where IsTimed p f rs (λ r _. keep r)

enqueue_all-AreTimed :
    (contains : Value → Value → Bool) (now run_id : ℕ) (result : Value) (ts : List Trigger)
    (db : Db)
    → AreTimed db
    → AreTimed (enqueue_all contains now run_id result ts db).1
unfolding enqueue_all
enqueue_all-AreTimed contains now run_id result [] db h = h
enqueue_all-AreTimed contains now run_id result (t ∷ ts) db h =
    enqueue_all-AreTimed contains now run_id result ts _ (append-AreTimed _ db (refl, refl) h)

insert-AreTimed :
    (now script_id : ℕ) (input : Value) (agent : Option String) (blobs : Option Value)
    (capture : Bool) (db : Db)
    → AreTimed db
    → AreTimed (insert_run_with_blobs now script_id input agent blobs capture db).1
unfolding insert_run_with_blobs
insert-AreTimed now script_id input agent blobs capture db h =
    elim (Bool-cases (script_exists script_id db)) [
      | inl e ↦ rw e (append-AreTimed _ db (refl, refl) h)
      | inr e ↦ rw e h
    ]

insert_idempotent-AreTimed :
    (now script_id : ℕ) (input : Value) (agent : Option String) (blobs : Option Value)
    (capture : Bool) (key : String) (db : Db)
    → AreTimed db
    → AreTimed (insert_run_idempotent now script_id input agent blobs capture key db).1
unfolding insert_run_idempotent
insert_idempotent-AreTimed now script_id input agent blobs capture key db h =
    elim (Bool-cases (any (has_key key) db.runs)) [
      | inl taken ↦ rw taken h
      | inr free ↦ elim (Bool-cases (script_exists script_id db)) [
        | inl e ↦ rw (free, e) (append-AreTimed _ db (refl, refl) h)
        | inr e ↦ rw (free, e) h
      ]
    ]

insert_refused-AreTimed :
    (now script_id : ℕ) (input : Value) (agent : Option String) (reason : String)
    (key : Option String) (db : Db)
    → AreTimed db
    → AreTimed (insert_refused_run now script_id input agent reason key db).1
unfolding insert_refused_run
insert_refused-AreTimed now script_id input agent reason key db h =
    elim (Bool-cases (key_taken key db)) [
      | inl taken ↦ rw taken h
      | inr free ↦ elim (Bool-cases (script_exists script_id db)) [
        | inl e ↦ rw (free, e) (append-AreTimed _ db refl h)
        | inr e ↦ rw (free, e) h
      ]
    ]

claim-AreTimed :
    (now : ℕ) (caps : List String) (locked : ℕ → Bool) (db : Db)
    → AreTimed db
    → AreTimed (claim_run now caps locked db).1
unfolding claim_run
claim-AreTimed now caps locked db h =
    elim (Option-cases (lowest (eligible caps locked db) db.runs)) [
      | inl e ↦ rw (e, claim_run) h
      | inr (r, e) ↦
          rw (e, claim_run)
            (update-AreTimed (has_id r.id) (start now) db.runs (λ s _. (refl, refl)) h)
    ]

attempt-AreTimed : (run_id : ℕ) (db : Db) → AreTimed db → AreTimed (mark_attempt run_id db).1
unfolding mark_attempt
attempt-AreTimed run_id db h = elim (Option-cases (find? (has_id run_id) db.runs)) [
  | inl e ↦ rw (e, mark_attempt) h
  | inr (r, e) ↦ rw (e, mark_attempt) (update-AreTimed (has_id run_id) _ db.runs (λ s k. k) h)
]

touched-IsTimed :
    (now run_id : ℕ) (r : Run)
    → (r.id == run_id && is_running r.status) ≡ true
    → IsTimed r
    → IsTimed (record r { heartbeat_at = some now })
touched-IsTimed now run_id r e h = ground arith

-- A query on other tables leaves the runs as they are.
other-AreTimed : {db u : Db} → SameRuns db u → AreTimed db → AreTimed u
other-AreTimed s h = rw s.runs h

delete-AreTimed : (id : ℕ) (db : Db) → AreTimed db → AreTimed (delete_script id db).1
delete-AreTimed id db h = elim (delete_script-cases id db) [
  | inl e ↦ rw e h
  | inr e ↦ rw e (All-filter IsTimed _ db.runs h)
]

Step-AreTimed : {t u : Db} → Step t u → AreTimed t → AreTimed u
unfolding finish_run cancel_run set_run_result set_run_output_blobs update_run_progress
    set_run_cache_key requeue reap_orphan_runs touch_run fail_stale_pending gc_old fire_triggers
    insert_script update_script_meta delete_trigger set_schedule_enabled set_script_secrets
    set_run_receipt
Step-AreTimed {t} (Step.insert now script input agent blobs capture) h =
    insert-AreTimed now script input agent blobs capture t h
Step-AreTimed {t} (Step.insert_idempotent now script input agent blobs capture key) h =
    insert_idempotent-AreTimed now script input agent blobs capture key t h
Step-AreTimed {t} (Step.insert_refused now script input agent reason key) h =
    insert_refused-AreTimed now script input agent reason key t h
Step-AreTimed {t} (Step.fire contains now run_id result) h =
    enqueue_all-AreTimed contains now run_id result
      (filter (matches contains run_id result t) t.triggers) t h
Step-AreTimed {t} (Step.claim now caps locked) h = claim-AreTimed now caps locked t h
Step-AreTimed {t} (Step.attempt run_id) h = attempt-AreTimed run_id t h
Step-AreTimed {t} (Step.touch now run_id) h =
    All-update_where IsTimed _ _ t.runs (touched-IsTimed now run_id) h
Step-AreTimed {t} (Step.finish now run_id code error well) h =
    update-AreTimed _ _ t.runs (λ r k. refl) h
Step-AreTimed {t} (Step.finish now run_id code error badly) h =
    update-AreTimed _ _ t.runs (λ r k. refl) h
Step-AreTimed {t} (Step.cancel now run_id reason) h = update-AreTimed _ _ t.runs (λ r k. refl) h
Step-AreTimed {t} (Step.retry run_id) h =
    update-AreTimed _ back_to_queue t.runs (λ r k. (refl, refl)) h
Step-AreTimed {t} (Step.reap now lease) h =
    update-AreTimed _ back_to_queue t.runs (λ r k. (refl, refl)) h
Step-AreTimed {t} (Step.fail_stale now max_age) h = update-AreTimed _ _ t.runs (λ r k. refl) h
Step-AreTimed {t} (Step.result run_id v) h = update-AreTimed _ _ t.runs (λ r k. k) h
Step-AreTimed {t} (Step.outputs run_id v) h = update-AreTimed _ _ t.runs (λ r k. k) h
Step-AreTimed {t} (Step.progress run_id msg) h = update-AreTimed _ _ t.runs (λ r k. k) h
Step-AreTimed {t} (Step.cache run_id key) h = update-AreTimed _ _ t.runs (λ r k. k) h
Step-AreTimed {t} (Step.delete id) h = delete-AreTimed id t h
Step-AreTimed {t} (Step.upload name source s) h = h
Step-AreTimed {t} (Step.upgrade id source s) h =
    other-AreTimed (update_script-SameRuns id source s t) h
Step-AreTimed {t} (Step.retune id s) h = h
Step-AreTimed {t} (Step.arm source predicate target agent) h =
    other-AreTimed (insert_trigger-SameRuns source predicate target agent t) h
Step-AreTimed {t} (Step.disarm id) h = h
Step-AreTimed {t} (Step.schedule script cron input opts) h =
    other-AreTimed (insert_schedule-SameRuns script cron input opts t) h
Step-AreTimed {t} (Step.enable id on) h = h
Step-AreTimed {t} (Step.receipt run_id v) h = update-AreTimed _ _ t.runs (λ r k. k) h
Step-AreTimed {t} (Step.allow id names) h = h
Step-AreTimed {t} {u} (Step.log run_id seq stream line e) h =
    other-AreTimed (append_log-SameRuns run_id seq stream line t u e) h
Step-AreTimed {t} {u} (Step.log_batch run_id rows e) h =
    other-AreTimed (append_logs_batch-SameRuns run_id rows t u e) h
Step-AreTimed {t} (Step.store sha256_hex now bytes) h =
    other-AreTimed (put_blob-SameRuns sha256_hex now bytes t) h
Step-AreTimed {t} (Step.fetch now sha) h = other-AreTimed (get_blob-SameRuns now sha t) h
Step-AreTimed {t} (Step.collect now age) h = All-filter IsTimed _ t.runs h

-- Whatever queries ran, in whatever order, from an empty table on: a pending run has no start and
-- no heartbeat, a running one has both, and an ended one has its time of ending.
pub Reach-AreTimed : {db : Db} → Reach no_rows db → AreTimed db
Reach-AreTimed r = Reach-keeps AreTimed (λ t u. Step-AreTimed) r tt
