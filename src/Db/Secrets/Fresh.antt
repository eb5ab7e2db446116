-- ===== src/Db/Secrets/Fresh.antt =====
-- The cache of the secrets gives what the tables hold.
use dokan.Prelude.{
  ℕ, suc, ◌≤◌, String, true, ◌≡◌, ◌⊎◌, refl, sym, ap, ◌∙◌, inl, inr, Option, none, some, List, [],
  ◌∷◌, Memᴰ, arith, Bool-cases, Option-cases, eq_of_some, ==_iff, eq_iff,
}
use mathlib.Core.List.Memᴰ
use dokan.Db.{Db}
use dokan.Db.Secrets.{Codec, Cipher, upsert_secret, load_secrets_for}
use dokan.Db.Secrets.Cache.{
  Pairs, SecretsCache, empty_cache, is_at, same_agent, cached, store, all_secrets_for,
}

-- A call of `all_secrets_for` on its way: the generation that it read, and what it loaded since.
pub record Call : Type 0 where
  pub agent : Option String
  pub generation : ℕ
  pub merged : Option Pairs

-- A daemon: the tables that all daemons share, its cache, and the calls that it made so far.
pub record Daemon : Type 0 where
  pub db : Db
  pub cache : SecretsCache
  pub calls : List Call

module _ (decrypt : String → String) where
  -- The queries of the calls and of all else, in any order: secrets are set by any daemon; a call
  -- reads the generation, loads the secrets, and stores them, each at its own time.
  pub data Served (db : Db) : Daemon → Type 0 where
    started : Served db (record { db = db; cache = empty_cache; calls = [] })
    upserted :
        {d : Daemon}
        → Served db d
        → (codec : Codec) (cipher : Option Cipher) (nonce : List ℕ) (name value : String)
        → (agent : Option String)
        → Served db (record d { db = upsert_secret codec cipher nonce name value agent d.db })
    elsewhere :
        {d : Daemon}
        → Served db d
        → (u : Db) → u.secrets ≡ d.db.secrets
        → u.agent_secrets ≡ d.db.agent_secrets
        → u.secrets_generation ≡ d.db.secrets_generation
        → Served db (record d { db = u })
    asked :
        {d : Daemon}
        → Served db d
        → (agent : Option String)
        → Served db (record d {
          calls =
              record { agent = agent; generation = d.db.secrets_generation; merged = none }
              ∷ d.calls;
        })
    loaded :
        {d : Daemon}
        → Served db d
        → (call : Call) → Memᴰ call d.calls
        → Served db (record d {
          calls =
              record call { merged = some (load_secrets_for decrypt call.agent d.db) } ∷ d.calls;
        })
    stored :
        {d : Daemon}
        → Served db d
        → (call : Call) (v : Pairs) → Memᴰ call d.calls
        → call.merged ≡ some v
        → Served db (record d { cache = store call.agent call.generation v d.cache })

  abbrev IsTrue : Option String → Pairs → Db → Type 0
  IsTrue agent v db = v ≡ load_secrets_for decrypt agent db

  -- What was stored or loaded under the generation of the tables is what they hold.
  record IsFresh (d : Daemon) : Type 0 where
    below : (g : ℕ) → d.cache.generation ≡ some g → g ≤ d.db.secrets_generation
    entries :
        (agent : Option String) (v : Pairs)
        → d.cache.generation ≡ some d.db.secrets_generation
        → cached agent d.cache.by_agent ≡ some v
        → IsTrue agent v d.db
    early : (call : Call) → Memᴰ call d.calls → call.generation ≤ d.db.secrets_generation
    reads :
        (call : Call) (v : Pairs)
        → Memᴰ call d.calls
        → call.merged ≡ some v
        → call.generation ≡ d.db.secrets_generation
        → IsTrue call.agent v d.db

  load-same :
      (agent : Option String) (db u : Db)
      → u.secrets ≡ db.secrets
      → u.agent_secrets ≡ db.agent_secrets
      → load_secrets_for decrypt agent u ≡ load_secrets_for decrypt agent db
  unfolding load_secrets_for
  load-same none db u s a = rw s refl
  load-same (some agent) db u s a = rw (s, a) refl

  upsert-generation :
      (codec : Codec) (cipher : Option Cipher) (nonce : List ℕ) (name value : String)
      (agent : Option String) (db : Db)
      → (upsert_secret codec cipher nonce name value agent db).secrets_generation
        ≡ suc db.secrets_generation
  unfolding upsert_secret
  upsert-generation codec cipher nonce name value none db = refl
  upsert-generation codec cipher nonce name value (some agent) db = refl

  same_agent-eq : (a b : Option String) → same_agent a b ≡ true → a ≡ b
  same_agent-eq none none h = refl
  same_agent-eq none (some b) h = absurd (ground (arith, h))
  same_agent-eq (some a) none h = absurd (ground (arith, h))
  same_agent-eq (some a) (some b) h = ap some ((eq_iff a b).0 h)

  is_at-some : (o : Option ℕ) (n : ℕ) → is_at o n ≡ true → o ≡ some n
  is_at-some none n h = absurd (ground (arith, h))
  is_at-some (some m) n h = ap some ((==_iff m n).0 h)

  -- An entry that is found after a store was stored now, or before under the same generation.
  store-found :
      (agent other : Option String) (secrets_gen : ℕ) (v w : Pairs) (c : SecretsCache)
      → cached other (store agent secrets_gen v c).by_agent ≡ some w
      → ((agent ≡ other) × (v ≡ w))
        ⊎ ((c.generation ≡ some secrets_gen) × (cached other c.by_agent ≡ some w))
  unfolding cached store
  store-found agent other secrets_gen v w c h = elim (Bool-cases (same_agent agent other)) [
    | inl e ↦ inl (same_agent-eq agent other e, eq_of_some (rw e at h))
    | inr e ↦ elim (Bool-cases (is_at c.generation secrets_gen)) [
      | inl g ↦ inr (is_at-some c.generation secrets_gen g, rw (e, g) at h)
      | inr g ↦ let h' : none ≡ some w = rw (e, g) at h in absurd (ground (arith, h'))
    ]
  ]

  Served-IsFresh : (db : Db) (d : Daemon) → Served db d → IsFresh d
  unfolding cached store
  Served-IsFresh db _ Served.started = record {
    below = λ g e. absurd (ground (arith, e));
    entries = λ agent v e h. absurd (ground (arith, h));
    early = λ call m. elim m [ ];
    reads = λ call v m. elim m [ ];
  }
  Served-IsFresh db _ (Served.upserted {d} r codec cipher nonce name value agent) =
      let f = Served-IsFresh db d r in
      let next = upsert-generation codec cipher nonce name value agent d.db in
      record {
        below = λ g e. let b = f.below g e in omega (arith, b, next);
        entries = λ a v e h. let b = f.below _ e in absurd (omega (arith, b, next));
        early = λ call m. let b = f.early call m in omega (arith, b, next);
        reads = λ call v m e g. let b = f.early call m in absurd (omega (arith, b, next, g));
      }
  Served-IsFresh db _ (Served.elsewhere {d} r u s a g) =
      let f = Served-IsFresh db d r in
      record {
        below = λ n e. let b = f.below n e in omega (arith, b, g);
        entries =
            λ agent v e h. f.entries agent v (e ∙ ap some g) h ∙ sym (load-same agent d.db u s a);
        early = λ call m. let b = f.early call m in omega (arith, b, g);
        reads = λ call v m e h. f.reads call v m e (h ∙ g) ∙ sym (load-same call.agent d.db u s a);
      }
  Served-IsFresh db _ (Served.asked {d} r agent) =
      let f = Served-IsFresh db d r in
      record {
        below = f.below;
        entries = f.entries;
        early = λ call m. elim (Memᴰ.cases_cons m) [
          | inl e ↦ rw e (omega arith)
          | inr i ↦ f.early call i
        ];
        reads = λ call v m e g. elim (Memᴰ.cases_cons m) [
          | inl new ↦ let no : none ≡ some v = rw new at e in absurd (ground (arith, no))
          | inr i ↦ f.reads call v i e g
        ];
      }
  Served-IsFresh db _ (Served.loaded {d} r call i) =
      let f = Served-IsFresh db d r in
      record {
        below = f.below;
        entries = f.entries;
        early = λ c m. elim (Memᴰ.cases_cons m) [
          | inl e ↦ let b = f.early call i in rw e b
          | inr j ↦ f.early c j
        ];
        reads = λ c v m e g. elim (Memᴰ.cases_cons m) [
          | inl new ↦
              let got : some (load_secrets_for decrypt call.agent d.db) ≡ some v = rw new at e in
              rw new (sym (eq_of_some got))
          | inr j ↦ f.reads c v j e g
        ];
      }
  Served-IsFresh db _ (Served.stored {d} r call v i e) =
      let f = Served-IsFresh db d r in
      record {
        below = λ n g. rw (eq_of_some g) at (f.early call i);
        entries = λ agent w g h. elim (store-found call.agent agent call.generation v w d.cache h) [
          | inl (same, new) ↦ sym new ∙ f.reads call v i e (eq_of_some g) ∙ rw same refl
          | inr (old, found) ↦ f.entries agent w (old ∙ g) found
        ];
        early = f.early;
        reads = f.reads;
      }

  -- However sets of secrets by any daemon, other queries, and the reads, loads and stores of
  -- overlapping calls interleave: a call answers the secrets that the tables hold, from the cache or
  -- not.
  pub all_secrets_for-load :
      (db : Db) (d : Daemon) (agent : Option String)
      → Served db d
      → (all_secrets_for decrypt agent d.cache d.db).0 ≡ load_secrets_for decrypt agent d.db
  unfolding all_secrets_for
  all_secrets_for-load db d agent r =
      let f = Served-IsFresh db d r in
      elim (Bool-cases (is_at d.cache.generation d.db.secrets_generation)) [
        | inr g ↦ rw g refl
        | inl g ↦ elim (Option-cases (cached agent d.cache.by_agent)) [
          | inl e ↦ rw (g, e) refl
          | inr (v, e) ↦ rw (g, e) (f.entries agent v (is_at-some _ _ g) e)
        ]
      ]
