-- ===== src/Exec/Job/Given.antt =====
-- Which secrets a job is given.
use dokan.Prelude.{
  String, false, ◌≡◌, refl, ◌∙◌, inl, inr, Option, none, some, List, [], ◌∷◌, filter, Bool-cases,
  str_eq, eq_iff, if◌then◌else◌, ℕ,
}
use dokan.Db.{Db}
use dokan.Db.Secrets.{
  Codec, Cipher, encrypt, upsert_secret, lookup, load_secrets_for, run_secrets_allowlist,
}
use dokan.Db.Secrets.Cache.{all_secrets_for}
use dokan.Db.Secrets.Fresh.{Daemon, Served, all_secrets_for-load}
use dokan.Db.Secrets.Scoped.{upsert_secret-seen}
use dokan.Exec.Host.{Libraries, Executor, Host, Job, secret_allowed, injected}
use dokan.Exec.Job.{job_secrets}

lookup-injected :
    (name : String) (allow : Option (List String)) (m : List (String × String))
    → lookup name (injected allow m) ≡ (if secret_allowed name allow then lookup name m else none)
unfolding lookup injected filter
lookup-injected name allow [] = elim (Bool-cases (secret_allowed name allow)) [
  | inl e ↦ rw e refl
  | inr e ↦ rw e refl
]
lookup-injected name allow ((j, v) ∷ m) = elim (Bool-cases (str_eq j name)) [
  | inl e ↦
      let same : j ≡ name = (eq_iff j name).0 e in
      elim (Bool-cases (secret_allowed name allow)) [
        | inl a ↦ rw (same, a) (rw ((eq_iff name name).1 refl) refl)
        | inr a ↦ rw (same, a) (lookup-injected name allow m ∙ rw a refl)
      ]
  | inr e ↦ elim (Bool-cases (secret_allowed j allow)) [
    | inl a ↦ rw (a, e) (lookup-injected name allow m)
    | inr a ↦ rw (a, e) (lookup-injected name allow m)
  ]
]

-- After a secret was set for an agent, or for all, a job of that agent, or one without an agent, on
-- any daemon, is given the new value under its name when the allowlist of its script has the name
-- or there is none, and nothing under the name otherwise. This holds whatever the daemon's cache had
-- before, and however its earlier calls and the other queries interleaved, where the stored text is
-- read back and the reads of the allowlist and of the secrets succeed.
pub job_secrets-upsert_secret :
    (lib : Libraries) (exec : Executor) (host : Host) (job : Job) (codec : Codec)
    (cipher : Option Cipher) (nonce : List ℕ) (name value : String) (db : Db) (d : Daemon)
    → Served lib.decrypt db d
    → host.secrets_cache ≡ d.cache
    → host.allowlist_fails ≡ false
    → host.secrets_fail ≡ false
    → lib.decrypt (encrypt codec cipher nonce value) ≡ value
    → let u = upsert_secret codec cipher nonce name value job.agent_id d.db in
      lookup name (job_secrets lib exec host job u)
      ≡ (if secret_allowed name (run_secrets_allowlist job.run_id u) then some value else none)
job_secrets-upsert_secret lib exec host job codec cipher nonce name value db d r cache lists loads
      back =
    let agent = job.agent_id in
    let u = upsert_secret codec cipher nonce name value agent d.db in
    let fresh : (all_secrets_for lib.decrypt agent d.cache u).0
        ≡ load_secrets_for lib.decrypt agent u =
      all_secrets_for-load lib.decrypt db (record d { db = u }) agent
        (Served.upserted r codec cipher nonce name value agent) in
    let seen : lookup name (load_secrets_for lib.decrypt agent u) ≡ some value =
      upsert_secret-seen codec cipher nonce name value agent lib.decrypt d.db back in
    rw (loads, lists, cache, fresh)
      (lookup-injected name (run_secrets_allowlist job.run_id u)
          (load_secrets_for lib.decrypt agent u)
        ∙ rw seen refl)
