-- ===== src/Exec/Host.antt =====
-- src/exec.rs: what one execution is given - the job, the `Executor`, and the answers of Docker, the
-- pool, the disk and the libraries - and the small functions on them.
use Prim.Native.Nat.{◌^◌}
use dokan.Prelude.{
  ℕ, suc, ◌*◌, ◌-◌, ◌%◌, String, Bool, true, Option, none, some, List, map, filter, any, ltb, leb,
  length, str_eq, as_bytes, if◌then◌else◌,
}
use dokan.Prelude.Int.{ℤ, pos, negsuc}
use dokan.Prelude.Result.{Result}
use dokan.Json.{Value}
use dokan.Db.Secrets.Cache.{SecretsCache}
use dokan.Receipt.{Crypto, Signer}
use dokan.Exec.Pump.{Item}
use dokan.Exec.Files.{Files, Dir}

pub record Libraries : Type 0 where
  pub crypto : Crypto
  pub to_string : Value → String
  pub from_str : String → Option Value
  pub from_utf8_lossy : List ℕ → String
  pub debug : String → String
  pub b64_encode : String → String
  pub contains : Value → Value → Bool
  pub decrypt : String → String
  pub nano_cpus : ℕ → ℤ
  pub version : String
  pub db_error : String

-- The `Executor`, and the environment of the daemon.
pub record Executor : Type 0 where
  pub signer : Signer
  pub max_timeout_secs : ℕ
  pub mem_bytes : ℤ
  pub nano_cpus : ℤ
  pub image_digest : String → Option String
  pub home : Option String

pub record Job : Type 0 where
  pub run_id : ℕ
  pub runtime : String
  pub source : String
  pub input : Value
  pub agent_id : Option String
  pub network : Bool
  pub mem_limit_mb : Option ℤ
  pub cpu_limit : Option ℕ
  pub input_blobs : Option Value
  pub capture_output : Bool
  pub timeout_secs : Option ℤ

-- What Docker answers; `not_found` is its 404.
pub data Docker (A : Type 0) : Type 0 where
  answers : A → Docker A
  not_found : Docker A
  refuses : String → Docker A

-- The container that a run asks the pool for.
pub data Container : Type 0 where
  warm isolated : String → Container
  with_caps : String → ℤ → ℤ → Bool → Option (String × Files) → Option String → Container

-- `cut_short`: the time was up after these items. The three `written` fields say which writes of
-- the provenance succeeded. Then what the daemon has cached of the secrets when the execution reads
-- them, and which of the two reads, of the allowlist and of the secrets, fail.
pub record Host : Type 0 where
  pub now : ℕ
  pub acquire : Container → Result String String
  pub create_exec : String → List String → Docker String
  pub start_exec : Docker Bool
  pub items : List Item
  pub cut_short : Bool
  pub inspect_exec : Docker (Option ℤ)
  pub output : Dir
  pub outputs_written : Bool
  pub result_written : Bool
  pub receipt_written : Bool
  pub secrets_cache : SecretsCache
  pub allowlist_fails : Bool
  pub secrets_fail : Bool

unfoldable pub secret_allowed : String → Option (List String) → Bool
secret_allowed name none = true
secret_allowed name (some list) = any (λ n. str_eq n name) list

-- The secrets that the job sees.
unfoldable pub injected : Option (List String) → List (String × String) → List (String × String)
unfolding secret_allowed
injected allow secrets = filter (λ s. secret_allowed s.0 allow) secrets

-- The values that are masked in its output.
unfoldable pub masked : List (String × String) → List String
unfolding as_bytes
masked secrets = map (λ s. s.1) (filter (λ s. leb 8 (length (as_bytes s.1))) secrets)

-- `as i32`
unfoldable pub as_i32 : ℤ → ℤ
as_i32 (pos n) = let m = n % 2 ^ 32 in if ltb m (2 ^ 31) then pos m else negsuc (2 ^ 32 - 1 - m)
as_i32 (negsuc n) = let m = n % 2 ^ 32 in if ltb m (2 ^ 31) then negsuc m else pos (2 ^ 32 - 1 - m)

-- `saturating_mul(1024 * 1024)` on `i64`
unfoldable pub mem_bytes_of : ℤ → ℤ
mem_bytes_of (pos n) = if ltb (n * 1048576) (2 ^ 63) then pos (n * 1048576) else pos (2 ^ 63 - 1)
mem_bytes_of (negsuc n) =
    if leb (suc n * 1048576) (2 ^ 63) then negsuc (suc n * 1048576 - 1) else negsuc (2 ^ 63 - 1)

abbrev stale_message : String
stale_message = "warm container unavailable (stale); retrying on a fresh one"

-- `map_err(stale_container)?`
abbrev pub stale_container : {A : Type 0} → Docker A → Result A String
stale_container (answers a) = Result.ok a
stale_container not_found = Result.err stale_message
stale_container (refuses e) = Result.err e
