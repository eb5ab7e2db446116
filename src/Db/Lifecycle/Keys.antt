-- ===== src/Db/Lifecycle/Keys.antt =====
-- Identifiers and idempotency keys stay unique, whatever the order of the queries.
use dokan.Prelude.{
  Memᴰ, All-mem, not, ◌≡◌, refl, ◌≢◌, some, List, [], ◌∷◌, map, arith, Pairwise, find?, filter,
}
use dokan.Db.{Run, Db, no_rows}
use dokan.Db.Scripts.{
  insert_script, update_script_meta, delete_trigger, set_schedule_enabled, set_script_secrets,
}
use dokan.Db.Receipts.{set_run_receipt}
use mathlib.Core.List.Memᴰ
use dokan.Db.Runs.{
  find_run, has_id, finish_run, cancel_run, set_run_result, set_run_output_blobs,
  update_run_progress, set_run_cache_key,
}
use dokan.Db.Queue.{requeue, reap_orphan_runs, touch_run, fail_stale_pending}
use dokan.Db.Retention.{gc_old, is_expired}
use dokan.Db.Triggers.{matches, fire_triggers}
use dokan.Db.Lifecycle.Tables.{
  update_script-SameRuns, insert_trigger-SameRuns, insert_schedule-SameRuns, append_log-SameRuns,
  append_logs_batch-SameRuns, put_blob-SameRuns, get_blob-SameRuns,
}
use dokan.Db.Lifecycle.{Step, Reach, Reach-keeps}
use dokan.Db.Lifecycle.Identity.{
  Differ, IsKeyed, attempt-IsKeyed, claim-IsKeyed, delete-IsKeyed, enqueue_all-IsKeyed, identity,
  insert-IsKeyed, insert_idempotent-IsKeyed, insert_refused-IsKeyed, kept-IsKeyed, other-IsKeyed,
  updated-IsKeyed,
}

pub Step-IsKeyed : {t u : Db} → Step t u → IsKeyed t → IsKeyed u
unfolding finish_run cancel_run set_run_result set_run_output_blobs update_run_progress
    set_run_cache_key requeue reap_orphan_runs touch_run fail_stale_pending gc_old fire_triggers
    insert_script update_script_meta delete_trigger set_schedule_enabled set_script_secrets
    set_run_receipt
Step-IsKeyed {t} (Step.insert now script input agent blobs capture) h =
    insert-IsKeyed now script input agent blobs capture t h
Step-IsKeyed {t} (Step.insert_idempotent now script input agent blobs capture key) h =
    insert_idempotent-IsKeyed now script input agent blobs capture key t h
Step-IsKeyed {t} (Step.insert_refused now script input agent reason key) h =
    insert_refused-IsKeyed now script input agent reason key t h
Step-IsKeyed {t} (Step.fire contains now run_id result) h =
    enqueue_all-IsKeyed contains now run_id result
      (filter (matches contains run_id result t) t.triggers) t h
Step-IsKeyed {t} (Step.claim now caps locked) h = claim-IsKeyed now caps locked t h
Step-IsKeyed {t} (Step.attempt run_id) h = attempt-IsKeyed run_id t h
Step-IsKeyed {t} (Step.touch now run_id) h = updated-IsKeyed _ _ t (λ r. refl) h
Step-IsKeyed {t} (Step.finish now run_id code error e) h = updated-IsKeyed _ _ t (λ r. refl) h
Step-IsKeyed {t} (Step.cancel now run_id reason) h = updated-IsKeyed _ _ t (λ r. refl) h
Step-IsKeyed {t} (Step.retry run_id) h = updated-IsKeyed _ _ t (λ r. refl) h
Step-IsKeyed {t} (Step.reap now lease) h = updated-IsKeyed _ _ t (λ r. refl) h
Step-IsKeyed {t} (Step.fail_stale now max_age) h = updated-IsKeyed _ _ t (λ r. refl) h
Step-IsKeyed {t} (Step.result run_id v) h = updated-IsKeyed _ _ t (λ r. refl) h
Step-IsKeyed {t} (Step.outputs run_id v) h = updated-IsKeyed _ _ t (λ r. refl) h
Step-IsKeyed {t} (Step.progress run_id msg) h = updated-IsKeyed _ _ t (λ r. refl) h
Step-IsKeyed {t} (Step.cache run_id key) h = updated-IsKeyed _ _ t (λ r. refl) h
Step-IsKeyed {t} (Step.delete id) h = delete-IsKeyed id t h
Step-IsKeyed {t} (Step.upload name source s) h = record { below = h.below; differ = h.differ }
Step-IsKeyed {t} (Step.upgrade id source s) h =
    other-IsKeyed (update_script-SameRuns id source s t) h
Step-IsKeyed {t} (Step.retune id s) h = record { below = h.below; differ = h.differ }
Step-IsKeyed {t} (Step.arm source predicate target agent) h =
    other-IsKeyed (insert_trigger-SameRuns source predicate target agent t) h
Step-IsKeyed {t} (Step.disarm id) h = record { below = h.below; differ = h.differ }
Step-IsKeyed {t} (Step.schedule script cron input opts) h =
    other-IsKeyed (insert_schedule-SameRuns script cron input opts t) h
Step-IsKeyed {t} (Step.enable id on) h = record { below = h.below; differ = h.differ }
Step-IsKeyed {t} (Step.receipt run_id v) h = updated-IsKeyed _ _ t (λ r. refl) h
Step-IsKeyed {t} (Step.allow id names) h = record { below = h.below; differ = h.differ }
Step-IsKeyed {t} {u} (Step.log run_id seq stream line e) h =
    other-IsKeyed (append_log-SameRuns run_id seq stream line t u e) h
Step-IsKeyed {t} {u} (Step.log_batch run_id rows e) h =
    other-IsKeyed (append_logs_batch-SameRuns run_id rows t u e) h
Step-IsKeyed {t} (Step.store sha256_hex now bytes) h =
    other-IsKeyed (put_blob-SameRuns sha256_hex now bytes t) h
Step-IsKeyed {t} (Step.fetch now sha) h = other-IsKeyed (get_blob-SameRuns now sha t) h
Step-IsKeyed {t} (Step.collect now age) h =
    kept-IsKeyed (λ r. not (is_expired now age r)) t _ refl refl h

-- Whatever queries ran, in whatever order, from an empty table on: no two runs share an identifier
-- or an idempotency key, and no identifier has passed the sequence.
pub Reach-IsKeyed : {db : Db} → Reach no_rows db → IsKeyed db
Reach-IsKeyed r = Reach-keeps IsKeyed (λ t u. Step-IsKeyed) r (record { below = tt; differ = tt })

found_first :
    (r : Run) (rs : List Run)
    → Pairwise Differ (map identity rs)
    → Memᴰ r rs
    → find? (has_id r.id) rs ≡ some r
found_first r [] k m = elim m [ ]
found_first r (x ∷ rs) k (Memᴰ.head e) = ground arith
found_first r (x ∷ rs) k (Memᴰ.tail m) =
    let ne : x.id ≢ r.id = (All-mem (Differ (identity x)) (Memᴰ.map identity m) k.0).0 in
    ground (arith, found_first r rs k.1 m)

-- With unique identifiers a row is the one that is found by its identifier.
pub find_run-mem : (r : Run) (db : Db) → IsKeyed db → Memᴰ r db.runs → find_run r.id db ≡ some r
unfolding find_run
find_run-mem r db k m = found_first r db.runs k.differ m
