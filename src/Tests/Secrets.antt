-- ===== src/Tests/Secrets.antt =====
-- A daemon without a key for its secrets, whose cache is of an older generation.
use dokan.Prelude.{◌≡◌, refl, some, none, [], ◌∷◌, if◌then◌else◌, Memᴰ}
use dokan.Db.Secrets.{
  Codec, encrypt, upsert_secret, lookup, load_secrets_for, run_secrets_allowlist,
}
use dokan.Db.Secrets.Cache.{Pairs, store, empty_cache}
use dokan.Db.Secrets.Fresh.{Call, Daemon, Served}
use dokan.Exec.Host.{Host, Job, secret_allowed}
use dokan.Exec.Job.{job_secrets}
use dokan.Exec.Job.Given.{job_secrets-upsert_secret}
use dokan.Tests.{two_pending, job_one}
use dokan.Tests.Executor.{toy, executor, healthy, nightly}

abbrev codec : Codec
codec = record { encode = λ b. ""; decode = λ s. none; from_utf8 = λ b. none }

-- A call for the agent read the generation 0 and found nothing, and stored that.
abbrev before : Pairs
before = load_secrets_for toy.decrypt (some "bot") two_pending

abbrev asked : Call
asked = record { agent = some "bot"; generation = two_pending.secrets_generation; merged = none }

abbrev answered : Call
answered = record asked { merged = some before }

abbrev daemon : Daemon
daemon = record {
  db = two_pending;
  cache = store (some "bot") 0 before empty_cache;
  calls = answered ∷ asked ∷ [];
}

daemon-Served : Served toy.decrypt two_pending daemon
daemon-Served =
    Served.stored (Served.loaded (Served.asked Served.started (some "bot")) asked (Memᴰ.head refl))
      answered before (Memᴰ.head refl) refl

abbrev host : Host
host = record (healthy job_one two_pending) { secrets_cache = daemon.cache }

abbrev job : Job
job = record nightly { agent_id = some "bot" }

plain_text : toy.decrypt (encrypt codec none [] "s3cret99") ≡ "s3cret99"
unfolding encrypt
plain_text = refl

job_secrets-upsert_secret_example :
    let u = upsert_secret codec none [] "TOKEN" "s3cret99" (some "bot") two_pending in
    lookup "TOKEN" (job_secrets toy executor host job u)
    ≡ (if secret_allowed "TOKEN" (run_secrets_allowlist 1 u) then some "s3cret99" else none)
job_secrets-upsert_secret_example =
    job_secrets-upsert_secret toy executor host job codec none [] "TOKEN" "s3cret99" two_pending
      daemon daemon-Served refl refl refl plain_text
