-- ===== src/Db/Secrets/Cache.antt =====
-- src/db.rs, `all_secrets_for`: the cache of a daemon, which is keyed by the generation of the
-- secrets.
use dokan.Prelude.{
  ℕ, String, Bool, true, false, Option, none, some, List, [], ◌∷◌, ◌==◌, str_eq, if◌then◌else◌,
}
use dokan.Db.{Db}
use dokan.Db.Secrets.{load_secrets_for}

abbrev pub Pairs : Type 0
Pairs = List (String × String)

-- `none` is the -1 of a cache that was never filled.
pub record SecretsCache : Type 0 where
  pub generation : Option ℕ
  pub by_agent : List (Option String × Pairs)

abbrev pub empty_cache : SecretsCache
empty_cache = record { generation = none; by_agent = [] }

abbrev pub is_at : Option ℕ → ℕ → Bool
is_at none secrets_gen = false
is_at (some g) secrets_gen = g == secrets_gen

abbrev pub same_agent : Option String → Option String → Bool
same_agent none none = true
same_agent (some a) (some b) = str_eq a b
same_agent _ _ = false

unfoldable pub cached : Option String → List (Option String × Pairs) → Option Pairs
cached agent [] = none
cached agent ((a, v) ∷ es) = if same_agent a agent then some v else cached agent es

-- The answer of the cache to a read of the generation.
abbrev pub hit : Option String → ℕ → SecretsCache → Option Pairs
hit agent secrets_gen c = if is_at c.generation secrets_gen then cached agent c.by_agent else none

-- An entry goes in under the generation that was read before the secrets were loaded; entries of
-- another generation go out.
unfoldable pub store : Option String → ℕ → Pairs → SecretsCache → SecretsCache
store agent secrets_gen merged c = record {
  generation = some secrets_gen;
  by_agent = (agent, merged) ∷ (if is_at c.generation secrets_gen then c.by_agent else []);
}

abbrev answer : Option String → ℕ → Pairs → Option Pairs → SecretsCache → Pairs × SecretsCache
answer agent secrets_gen loaded (some v) c = (v, c)
answer agent secrets_gen loaded none c = (loaded, store agent secrets_gen loaded c)

-- A call that no other query comes between.
unfoldable pub all_secrets_for :
    (String → String) → Option String → SecretsCache → Db → Pairs × SecretsCache
unfolding cached store load_secrets_for
all_secrets_for decrypt agent c db =
    answer agent db.secrets_generation (load_secrets_for decrypt agent db)
      (hit agent db.secrets_generation c) c
