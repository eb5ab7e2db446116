-- ===== src/Mcp/Scripts/Upsert.antt =====
-- An upload with `upsert` never adds a second script of its name.
use dokan.Prelude.{
  ℕ, String, Bool, true, ◌≡◌, refl, ◌∙◌, Option, none, some, List, [], ◌∷◌, length, find?,
  update_where, arith, str_eq, Bool-cases, Option-cases, inl, inr,
}
use dokan.Prelude.Result.{Result}
use dokan.Db.{Script, Db}
use dokan.Db.Scripts.{
  has_script_id, find_script_by_name, update_script, update_script_meta, set_script_secrets,
  new_version,
}
use dokan.Mcp.{validate_timeout}
use dokan.Mcp.Scripts.{UploadArgs, with_secrets, answer_update, reprovision, timed, upload_script}

length-update_where :
    (p : Script → Bool) (f : Script → Script) (ss : List Script)
    → length (update_where p f ss) ≡ length ss
unfolding update_where
length-update_where p f [] = refl
length-update_where p f (s ∷ ss) = ground (arith, length-update_where p f ss)

length-with_secrets :
    (secrets : Option (List String)) (id : ℕ) (db : Db)
    → length (with_secrets secrets id db).scripts ≡ length db.scripts
unfolding set_script_secrets
length-with_secrets none id db = refl
length-with_secrets (some names) id db =
    length-update_where (has_script_id id) (λ s. record s { secrets_allowlist = some names })
      db.scripts

module _ (a : UploadArgs) where
  length-answer_update :
      (id : ℕ) (x : Option ℕ × Db) → length (answer_update a id x).1.scripts ≡ length x.1.scripts
  length-answer_update id (none, db) = refl
  length-answer_update id (some v, db) = length-with_secrets a.secrets id db

  length-update_script :
      (id : ℕ) (db : Db)
      → length (update_script id a.source a.settings db).1.scripts ≡ length db.scripts
  unfolding update_script
  length-update_script id db = elim (Option-cases (find? (has_script_id id) db.scripts)) [
    | inl e ↦ rw (e, update_script) refl
    | inr (s, e) ↦
        rw (e, update_script)
          (length-update_where (has_script_id id) (new_version a.source a.settings) db.scripts)
  ]

  length-update_script_meta :
      (id : ℕ) (db : Db)
      → length (update_script_meta id a.settings db).1.scripts ≡ length db.scripts
  unfolding update_script_meta
  length-update_script_meta id db = length-update_where _ _ db.scripts

  length-reprovision :
      (s : Script) (db : Db) → length (reprovision a s db).1.scripts ≡ length db.scripts
  unfolding reprovision
  length-reprovision s db = elim (Bool-cases (str_eq s.source a.source)) [
    | inl e ↦ rw e (
        length-with_secrets a.secrets s.id (update_script_meta s.id a.settings db).1
        ∙ length-update_script_meta s.id db)
    | inr e ↦ rw e (
        length-answer_update s.id (update_script s.id a.source a.settings db)
        ∙ length-update_script s.id db)
  ]

  length-timed :
      (t : Result (Unit {0}) String) (s : Script) (db : Db)
      → a.upsert ≡ true
      → find_script_by_name a.name db ≡ some s
      → length (timed a t db).1.scripts ≡ length db.scripts
  unfolding reprovision
  length-timed (Result.err e) s db u h = refl
  length-timed (Result.ok _) s db u h = rw (u, h) (length-reprovision s db)

  -- Re-provisioning by name: where a script of that name is there, an upload with `upsert` adds no
  -- script, whether it is refused, changes the source, the settings or nothing.
  pub upload_script-upsert :
      (max_timeout : ℕ) (s : Script) (db : Db)
      → a.upsert ≡ true
      → find_script_by_name a.name db ≡ some s
      → length (upload_script a max_timeout db).1.scripts ≡ length db.scripts
  unfolding upload_script
  upload_script-upsert max_timeout s db u h =
      length-timed (validate_timeout a.settings.timeout_secs max_timeout) s db u h
