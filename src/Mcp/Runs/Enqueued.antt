-- ===== src/Mcp/Runs/Enqueued.antt =====
-- When a call of `run_script` adds a run, and what a recalled run is.
use dokan.Prelude.{
  ℕ, ◌<◌, String, Bool, true, false, ◌≡◌, refl, ◌⊎◌, inl, inr, Option, none, some, arith,
  Bool-cases, Option-cases, if◌then◌else◌, trim, is_empty,
}
use dokan.Prelude.Result.{Result}
use dokan.Json.{Value}
use dokan.Db.{Run, Script, Db}
use dokan.Db.Queue.{find_cached_run, agent_running_count}
use dokan.Quota.{check}
use dokan.Quota.Limits.{check-none_iff}
use dokan.Mcp.{FileError}
use dokan.Mcp.Runs.{
  RunArgs, RunAnswer, Daemon, enqueue, insert_as, created, inserted_once, recall_or,
  recall_or_enqueue, with_files, of_script, run_script, cache_key,
}

-- The answers that stand for a run which the call enqueued, or had enqueued before under its key.
abbrev pub is_accepted : RunAnswer → Bool
is_accepted (RunAnswer.pending id key) = true
is_accepted (RunAnswer.idempotent id st) = true
is_accepted RunAnswer.internal_error = true
is_accepted _ = false

module _ (daemon : Daemon) (now : ℕ) (a : RunArgs) where
  -- The answer is no acceptance and nothing was written, or the agent has a name and is within its
  -- limits.
  Allowed : Db → RunAnswer × Db → Type 0
  Allowed db x =
      ((is_accepted x.0 ≡ false) × (x.1 ≡ db))
      ⊎ ((is_accepted x.0 ≡ true)
          × (is_empty (trim a.agent_id) ≡ false)
          × (check (trim a.agent_id) now db ≡ none))

  created-accepted :
      (key : Option String) (x : Option ℕ × Db) → is_accepted (created daemon now a key x).0 ≡ true
  created-accepted key (none, db) = refl
  created-accepted key (some id, db) = refl

  inserted_once-accepted :
      (key : Option String) (idem : String) (x : Option (ℕ × Bool) × Db)
      → is_accepted (inserted_once daemon now a key idem x).0 ≡ true
  inserted_once-accepted key idem (none, db) = refl
  inserted_once-accepted key idem (some (id, true), db) = refl
  inserted_once-accepted key idem (some (id, false), db) = refl

  insert_as-accepted :
      (idem key : Option String) (input : Value) (blobs : Option Value) (db : Db)
      → is_accepted (insert_as daemon now a idem key input blobs db).0 ≡ true
  insert_as-accepted none key input blobs db = created-accepted key _
  insert_as-accepted (some idem) key input blobs db = inserted_once-accepted key idem _

  enqueue-Allowed :
      (key : Option String) (input : Value) (blobs : Option Value) (db : Db)
      → Allowed db (enqueue daemon now a key input blobs db)
  unfolding Allowed enqueue
  enqueue-Allowed key input blobs db = elim (Bool-cases (is_empty (trim a.agent_id))) [
    | inl e ↦ inl (rw e (refl, refl))
    | inr e ↦ elim (Option-cases (check (trim a.agent_id) now db)) [
      | inl f ↦ inr (rw (e, f) (insert_as-accepted a.idempotency_key key input blobs db), e, f)
      | inr (r, f) ↦ inl (rw (e, f) (refl, refl))
    ]
  ]

  recall_or-Allowed :
      (key : String) (o : Option Run) (x : RunAnswer × Db) (db : Db)
      → Allowed db x
      → Allowed db (recall_or daemon now a key o x db)
  unfolding Allowed
  recall_or-Allowed key none x db h = h
  recall_or-Allowed key (some r) x db h = inl (refl, refl)

  if-Allowed :
      (b : Bool) (x y : RunAnswer × Db) (db : Db)
      → Allowed db x
      → Allowed db y
      → Allowed db (if b then x else y)
  if-Allowed true x y db h k = h
  if-Allowed false x y db h k = k

  recall_or_enqueue-Allowed :
      (s : Script) (input : Value) (blobs : Option Value) (db : Db)
      → Allowed db (recall_or_enqueue daemon now a s input blobs db)
  unfolding recall_or_enqueue
  recall_or_enqueue-Allowed s input blobs db =
      let key = cache_key daemon now a s input blobs db in
      if-Allowed a.cache
        (recall_or daemon now a key (find_cached_run key db)
          (enqueue daemon now a (some key) input blobs db) db)
        (enqueue daemon now a none input blobs db) db
        (recall_or-Allowed key (find_cached_run key db)
          (enqueue daemon now a (some key) input blobs db) db
          (enqueue-Allowed (some key) input blobs db))
        (enqueue-Allowed none input blobs db)

  with_files-Allowed :
      (s : Script) (r : Result (Option Value) FileError) (db : Db)
      → Allowed db (with_files daemon now a s r db)
  unfolding Allowed
  with_files-Allowed s (Result.err e) db = inl (refl, refl)
  with_files-Allowed s (Result.ok blobs) db = recall_or_enqueue-Allowed s _ blobs db

  of_script-Allowed : (o : Option Script) (db : Db) → Allowed db (of_script daemon now a o db)
  unfolding Allowed
  of_script-Allowed none db = inl (refl, refl)
  of_script-Allowed (some s) db = with_files-Allowed s _ db

  run_script-Allowed : (db : Db) → Allowed db (run_script daemon now a db)
  unfolding run_script
  run_script-Allowed db = of_script-Allowed _ db

  -- A call that is answered with a recalled run or a refusal - of the script, the files, the agent or
  -- the quota - writes nothing.
  pub run_script-refused :
      (db : Db)
      → is_accepted (run_script daemon now a db).0 ≡ false
      → (run_script daemon now a db).1 ≡ db
  unfolding Allowed
  run_script-refused db h = elim (run_script-Allowed db) [
    | inl (e, same) ↦ same
    | inr (accepted, named, quota) ↦ absurd (ground (arith, accepted, h))
  ]

  -- A call that writes anything was made by an agent with a name that is within its quota.
  pub run_script-within_quota :
      (db : Db)
      → is_accepted (run_script daemon now a db).0 ≡ true
      → (is_empty (trim a.agent_id) ≡ false) × (agent_running_count (trim a.agent_id) db < 25)
  unfolding Allowed
  run_script-within_quota db h = elim (run_script-Allowed db) [
    | inl (e, same) ↦ absurd (ground (arith, e, h))
    | inr (accepted, named, quota) ↦ (named, ((check-none_iff (trim a.agent_id) now db).0 quota).0)
  ]
