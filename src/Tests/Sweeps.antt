-- ===== src/Tests/Sweeps.antt =====
-- What the sweeps leave of a small table.
use dokan.Prelude.{
  ℕ, ◌+◌, ◌≤◌, ◌≡◌, ◌≢◌, ◌↔◌, ◌⊎◌, refl, some, none, true, List, [], ◌∷◌, Memᴰ, eq_of_some,
}
use dokan.Db.{Status, Run, Log, Stream, Blob, Trigger, Db}
use dokan.Db.Queue.{start}
use dokan.Db.Retention.{gc_blobs, delete_script, deleted, not_found}
use dokan.Db.Retention.Sweeps.{IsReferring}
use dokan.Db.Retention.Blobs.{IsMentioned, gc_blobs_iff}
use dokan.Db.Retention.Deletion.{delete_script-armed}
use dokan.Tests.{two_pending, run_one, run_two, empty_object}

abbrev line : Log
line = record { run_id = 1; seq = 1; stream = Stream.stdout; line = "hello" }

abbrev ended : Run
ended = record (start 20 run_one) { status = Status.failed; finished_at = some 30 }

abbrev logged : Db
logged = record two_pending { runs = ended ∷ run_two ∷ []; logs = line ∷ [] }

referring : IsReferring logged
referring = (refl, tt)

abbrev blob : Blob
blob = record { sha = "ab"; bytes = 1 ∷ []; size = 1; last_used_at = 10 }

abbrev stored : Db
stored = record logged { blobs = blob ∷ [] }

gc_blobs_iff_example :
    Memᴰ blob (gc_blobs 131 100 stored).1.blobs
    ↔ (Memᴰ blob stored.blobs × (IsMentioned blob.sha stored ⊎ (131 ≤ blob.last_used_at + 100)))
gc_blobs_iff_example = gc_blobs_iff 131 100 stored blob

missing :
    (runs : ℕ) (schedules : List ℕ) → (delete_script 9 logged).0 ≢ some (deleted runs schedules)
unfolding delete_script
missing runs schedules h = let e : not_found ≡ deleted runs schedules = eq_of_some h in cc

abbrev hook : Trigger
hook = record {
  id = 1;
  source_script_id = 1;
  predicate = empty_object;
  target_script_id = 1;
  agent_id = none;
  enabled = true;
}

abbrev armed : Db
armed = record logged { triggers = hook ∷ [] }

delete_script-armed_example : delete_script 1 armed ≡ (none, armed)
delete_script-armed_example = delete_script-armed 1 armed refl refl refl
