-- ===== src/Db/Secrets.antt =====
-- src/db.rs and src/crypto.rs: the secrets of all agents and of one, sealed at rest, and what a job
-- is given of them. The cipher, the base64 text and the nonce are those of the crates.
pub mod Sealed
pub mod Scoped
pub mod Cache
pub mod Fresh
use Prim.Native.String.{◌++◌ as ◌++ˢ◌}
use dokan.Prelude.{
  ℕ, suc, String, Bool, ◌&&◌, Option, none, some, List, [], ◌∷◌, ◌++◌, any, map, filter, find?,
  update_where, ltb, ◌==◌, length, str_eq, if◌then◌else◌, strip_prefix, take, drop,
}
use dokan.Db.{Secret, AgentSecret, Run, Script, Db}
use dokan.Db.Runs.{find_run}
use dokan.Db.Scripts.{get_script}

-- ChaCha20-Poly1305 under a key, over the bytes of a text; `encode` and `decode` are base64, and
-- `from_utf8` reads the bytes of a text.
pub record Cipher : Type 0 where
  pub seal : List ℕ → String → Option (List ℕ)
  pub open_sealed : List ℕ → List ℕ → Option (List ℕ)

pub record Codec : Type 0 where
  pub encode : List ℕ → String
  pub decode : String → Option (List ℕ)
  pub from_utf8 : List ℕ → Option String

abbrev pub prefix : String
prefix = "enc:v1:"

abbrev pub nonce_len : ℕ
nonce_len = 12

abbrev or_empty : Option String → String
or_empty none = ""
or_empty (some s) = s

abbrev then_utf8 : Codec → Option (List ℕ) → String
then_utf8 codec none = ""
then_utf8 codec (some b) = or_empty (codec.from_utf8 b)

abbrev sealed_text : Codec → List ℕ → String → Option (List ℕ) → String
sealed_text codec nonce plain none = plain
sealed_text codec nonce plain (some ct) = prefix ++ˢ codec.encode (nonce ++ ct)

module _ (codec : Codec) where
  -- `SecretCrypto::encrypt`, with the nonce that was drawn.
  unfoldable pub encrypt : Option Cipher → List ℕ → String → String
  encrypt none nonce plain = plain
  encrypt (some c) nonce plain = sealed_text codec nonce plain (c.seal nonce plain)

  abbrev opened : Cipher → Option (List ℕ) → String
  opened c none = ""
  opened c (some blob) =
      if ltb (length blob) nonce_len
      then ""
      else then_utf8 codec (c.open_sealed (take nonce_len blob) (drop nonce_len blob))

  abbrev open_rest : Option Cipher → String → Option String → String
  open_rest cipher stored none = stored
  open_rest none stored (some rest) = ""
  open_rest (some c) stored (some rest) = opened c (codec.decode rest)

  -- `SecretCrypto::decrypt`
  unfoldable pub decrypt : Option Cipher → String → String
  decrypt cipher stored = open_rest cipher stored (strip_prefix prefix stored)

abbrev pub is_named : String → Secret → Bool
is_named name s = str_eq s.name name

abbrev pub is_scoped : String → String → AgentSecret → Bool
is_scoped agent name s = str_eq s.agent_id agent && str_eq s.name name

unfoldable pub put_secret : String → String → List Secret → List Secret
put_secret name sealed rows =
    if any (is_named name) rows
    then update_where (is_named name) (λ s. record s { value = sealed }) rows
    else rows ++ record { name = name; value = sealed } ∷ []

unfoldable pub put_agent_secret : String → String → String → List AgentSecret → List AgentSecret
put_agent_secret agent name sealed rows =
    if any (is_scoped agent name) rows
    then update_where (is_scoped agent name) (λ s. record s { value = sealed }) rows
    else rows ++ record { agent_id = agent; name = name; value = sealed } ∷ []

-- One transaction: the sealed value, and the generation that invalidates recalled runs.
unfoldable pub upsert_secret :
    Codec → Option Cipher → List ℕ → String → String → Option String → Db → Db
unfolding encrypt put_secret put_agent_secret
upsert_secret codec cipher nonce name value (some agent) db = record db {
  agent_secrets = put_agent_secret agent name (encrypt codec cipher nonce value) db.agent_secrets;
  secrets_generation = suc db.secrets_generation;
}
upsert_secret codec cipher nonce name value none db = record db {
  secrets = put_secret name (encrypt codec cipher nonce value) db.secrets;
  secrets_generation = suc db.secrets_generation;
}

-- A `HashMap` of the names that a job sees.
unfoldable pub put : String → String → List (String × String) → List (String × String)
put k v [] = (k, v) ∷ []
put k v ((j, w) ∷ m) = if str_eq j k then (k, v) ∷ m else (j, w) ∷ put k v m

unfoldable pub lookup : String → List (String × String) → Option String
lookup k [] = none
lookup k ((j, v) ∷ m) = if str_eq j k then some v else lookup k m

module _ (decrypt : String → String) where
  unfoldable pub add_global : List Secret → List (String × String) → List (String × String)
  unfolding put
  add_global [] m = m
  add_global (s ∷ ss) m = add_global ss (put s.name (decrypt s.value) m)

  unfoldable pub add_scoped :
      String → List AgentSecret → List (String × String) → List (String × String)
  unfolding put
  add_scoped agent [] m = m
  add_scoped agent (s ∷ ss) m =
      add_scoped agent ss (if str_eq s.agent_id agent then put s.name (decrypt s.value) m else m)

  -- The values of every agent, then those of the agent itself, which take their place.
  unfoldable pub load_secrets_for : Option String → Db → List (String × String)
  unfolding add_global add_scoped
  load_secrets_for none db = add_global db.secrets []
  load_secrets_for (some agent) db = add_scoped agent db.agent_secrets (add_global db.secrets [])

abbrev allowlist_of : Option Script → Option (List String)
allowlist_of none = none
allowlist_of (some s) = s.secrets_allowlist

-- The allowlist of the script behind a run.
unfoldable pub run_secrets_allowlist : ℕ → Db → Option (List String)
unfolding find_run get_script
run_secrets_allowlist run_id db = elim (find_run run_id db) [
  | none ↦ none
  | some r ↦ allowlist_of (get_script r.script_id db)
]
