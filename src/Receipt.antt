-- ===== src/Receipt.antt =====
-- src/receipt.rs: reproducibility receipts and their verification without a secret. The signature
-- schemes, SHA-256, base64 and the reading of JSON are those of the crates. A panic is `none`.
pub mod Codec
pub mod Verify
pub mod Hex
pub mod Pae
pub mod Build
pub mod Genuine
pub mod Sound
use Prim.Native.Char.{Char, code}
use Prim.Native.String.{[] as []ˢ, ◌∷◌ as ◌∷ˢ◌, ◌++◌ as ◌++ˢ◌, slice}
use dokan.Prelude.{
  ℕ, zero, suc, ◌+◌, ◌-◌, ◌*◌, ◌/◌, ◌%◌, ◌^◌, String, Bool, true, false, not, ◌&&◌, ◌||◌, Option,
  none, some, List, [], ◌∷◌, ◌++◌, any, map, filter, length, ltb, leb, ◌==◌, str_eq, if◌then◌else◌,
  as_bytes, utf8_char, is_empty, decimal, split, trim,
}
use dokan.Prelude.Int.{ℤ, pos, negsuc}
use dokan.Json.{Value, Items, get, as_str, as_i64, as_bool}
use dokan.Db.Flows.{or_else, and_then}
use dokan.Receipt.Codec.{hex, Unhexed, decoded, malformed, panics, unhex, dsse_pae}
use dokan.Mcp.{canonical_input_blobs, show_ℤ}

abbrev pub dsse_payload_type : String
dsse_payload_type = "application/vnd.in-toto+json"

abbrev pub predicate_type : String
predicate_type = "https://dokan.dev/Run/v1"

pub record Crypto : Type 0 where
  pub sha256 : List ℕ → List ℕ
  pub hmac_sha256 : List ℕ → List ℕ → List ℕ
  -- Ed25519: the public key and the signature that belong to a seed, whether bytes are a public
  -- key, and the strict verification.
  pub verifying_key : List ℕ → List ℕ
  pub sign : List ℕ → List ℕ → List ℕ
  pub is_key : List ℕ → Bool
  pub verify_strict : List ℕ → List ℕ → List ℕ → Bool
  pub b64_encode : List ℕ → String
  pub b64_decode : String → Option (List ℕ)
  pub to_vec : Value → List ℕ
  pub from_slice : List ℕ → Option Value

pub record Signer : Type 0 where
  pub key : List ℕ
  pub ed : List ℕ

abbrev show_bool : Bool → String
show_bool true = "true"
show_bool false = "false"

-- The text that the HMAC binds.
unfoldable pub binding : String → String → String → ℤ → String → ℤ → Bool → String → String → String
binding digest source_sha input_sha secrets_gen output_hash exit_code network blobs output_blobs =
    "v1|"
    ++ˢ (digest
        ++ˢ ("|"
            ++ˢ (source_sha
                ++ˢ ("|"
                    ++ˢ (input_sha
                        ++ˢ ("|"
                            ++ˢ (show_ℤ secrets_gen
                                ++ˢ ("|"
                                    ++ˢ (output_hash
                                        ++ˢ ("|"
                                            ++ˢ (show_ℤ exit_code
                                                ++ˢ ("|"
                                                    ++ˢ (show_bool network
                                                        ++ˢ ("|"
                                                            ++ˢ (blobs
                                                            ++ˢ ("|"
                                                            ++ˢ output_blobs))))))))))))))))

module _ (crypto : Crypto) where
  open crypto use {
    sha256, hmac_sha256, verifying_key, is_key, verify_strict, b64_encode, b64_decode, from_slice,
  }

  unfoldable pub sha256_hex : List ℕ → String
  unfolding hex
  sha256_hex bytes = hex (sha256 bytes)

  -- `Signer::sign`
  unfoldable pub hmac_sign : Signer → String → String
  unfolding hex as_bytes
  hmac_sign signer payload = hex (hmac_sha256 signer.key (as_bytes payload))

  unfoldable pub ed_sign : Signer → List ℕ → String
  unfolding hex
  ed_sign signer msg = hex (crypto.sign signer.ed msg)

  unfoldable pub ed_public_b64 : Signer → String
  ed_public_b64 signer = b64_encode (verifying_key signer.ed)

  -- The first 16 characters of the hash of the public key.
  unfoldable pub ed_keyid : Signer → String
  unfolding sha256_hex
  ed_keyid signer = slice (sha256_hex (verifying_key signer.ed)) 0 16

  abbrev checked : List ℕ → List ℕ → Unhexed → Option Bool
  checked key msg malformed = some false
  checked key msg panics = none
  checked key msg (decoded sig) =
      some (if length sig == 64 then verify_strict key msg sig else false)

  abbrev with_key : List ℕ → String → Option (List ℕ) → Option Bool
  with_key msg sig_hex none = some false
  with_key msg sig_hex (some key) =
      if length key == 32 && is_key key then checked key msg (unhex sig_hex) else some false

  -- The check of a third party, with a public key only.
  unfoldable pub ed_verify : String → String → List ℕ → String → Option Bool
  unfolding dsse_pae unhex
  ed_verify public_b64 payload_type payload sig_hex =
      with_key (dsse_pae (as_bytes payload_type) payload) sig_hex (b64_decode public_b64)

  abbrev hmac_check :
      Signer
      → Value
      → Option String
      → Option String
      → Option String
      → Option String
      → Option String
      → Option ℤ
      → Option ℤ
      → Option Bool
      → Bool
  hmac_check signer r (some digest) (some source_sha) (some input_sha) (some output_hash) (some sig)
        (some secrets_gen) (some exit_code) (some network) =
      str_eq
        (hmac_sign signer (
          binding digest source_sha input_sha secrets_gen output_hash exit_code network
            (canonical_input_blobs (get "input_blobs" r))
            (canonical_input_blobs (get "output_blobs" r))))
        sig
  hmac_check signer r _ _ _ _ _ _ _ _ = false

  -- The check of a holder of the HMAC key, from the stored fields.
  unfoldable pub verify_hmac : Signer → Value → Bool
  unfolding hmac_sign binding
  verify_hmac signer r =
      hmac_check signer r (and_then (get "image_digest" r) as_str)
        (and_then (get "source_sha256" r) as_str) (and_then (get "input_sha256" r) as_str)
        (and_then (get "output_sha256" r) as_str) (and_then (get "sig" r) as_str)
        (and_then (get "secrets_generation" r) as_i64) (and_then (get "exit" r) as_i64)
        (and_then (get "network" r) as_bool)
