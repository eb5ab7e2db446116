-- ===== src/Receipt/Verify.antt =====
-- src/receipt.rs: the verification of a receipt without a secret, and its verdict. A panic is `none`.
use dokan.Prelude.{
  ℕ, String, Bool, true, false, not, ◌&&◌, ◌||◌, Option, none, some, List, [], ◌∷◌, any, map,
  filter, str_eq, if◌then◌else◌, is_empty, split, trim,
}
use dokan.Json.{Value, Items, get, as_str, as_bool}
use dokan.Db.Flows.{or_else, and_then}
use dokan.Mcp.{canonical_input_blobs}
use dokan.Receipt.{Crypto, dsse_payload_type, ed_verify}

-- `Value::get` at index 0.
abbrev pub first : Value → Option Value
first (Value.array (Items.cons v vs)) = some v
first _ = none

abbrev pub text_at : Option Value → String → String
text_at v d = or_else (and_then v as_str) d

abbrev pub public_key_of : Value → Option Value
public_key_of r = and_then (get "ed25519" r) (get "public_key")

abbrev pub signature_of : Value → Option Value
signature_of r = and_then (and_then (get "dsse" r) (get "signatures")) first

abbrev pub sig_of : Value → Option Value
sig_of r = and_then (signature_of r) (get "sig")

abbrev pub payload_of : Value → Option Value
payload_of r = and_then (get "dsse" r) (get "payload")

pub record VerifyReport : Type 0 where
  pub ed25519_valid : Bool
  pub binding_consistent : Bool
  pub hermetic : Bool
  pub keyid : String
  pub trust_enforced : Bool
  pub pinned : Bool

abbrev pub is_ok : VerifyReport → Bool
is_ok rep = rep.ed25519_valid && rep.binding_consistent && (not rep.trust_enforced || rep.pinned)

abbrev pub same_text : Option String → String → Bool
same_text none t = false
same_text (some s) t = str_eq s t

-- The signed statement attests the output that the receipt claims, and its files.
unfoldable pub is_bound : Value → Option String → Option Value → Bool
unfolding canonical_input_blobs
is_bound r (some out) (some pred) =
    same_text (and_then (get "output_sha256" pred) as_str) out
    && str_eq (canonical_input_blobs (get "input_blobs" r))
        (canonical_input_blobs (get "input_blobs" pred))
    && str_eq (canonical_input_blobs (get "output_blobs" r))
        (canonical_input_blobs (get "output_blobs" pred))
is_bound r claimed pred = false

abbrev pub contains_key : List String → String → Bool
contains_key keys k = any (str_eq k) keys

abbrev pub enforced : Option (List String) → Bool
enforced none = false
enforced (some keys) = true

abbrev pub is_pinned : Option (List String) → String → Bool
is_pinned none k = false
is_pinned (some keys) k = not (is_empty k) && contains_key keys k

-- The comma-separated keys of `DOKAN_TRUSTED_RECEIPT_KEYS`; `none` when it names none.
abbrev nonempty_or_none : List String → Option (List String)
nonempty_or_none [] = none
nonempty_or_none (k ∷ ks) = some (k ∷ ks)

unfoldable pub trusted_receipt_keys : Option String → Option (List String)
unfolding split trim filter is_empty
trusted_receipt_keys none = none
trusted_receipt_keys (some raw) =
    nonempty_or_none (filter (λ s. not (is_empty s)) (map trim (split 44 raw)))

module _ (crypto : Crypto) where
  open crypto use {b64_decode, from_slice}

  abbrev pub payload_bytes : Value → List ℕ
  payload_bytes r = or_else (b64_decode (text_at (payload_of r) "")) []

  abbrev pub signed_predicate : Value → Option Value
  signed_predicate r = and_then (from_slice (payload_bytes r)) (get "predicate")

  -- An empty payload is no payload.
  abbrev pub checked_payload : String → String → String → List ℕ → Option Bool
  checked_payload public_b64 payload_type sig [] = some false
  checked_payload public_b64 payload_type sig (b ∷ bs) =
      ed_verify crypto public_b64 payload_type (b ∷ bs) sig

  abbrev pub valid_signature : Value → Option Bool
  valid_signature r =
      checked_payload (text_at (public_key_of r) "")
        (text_at (and_then (get "dsse" r) (get "payloadType")) dsse_payload_type)
        (text_at (sig_of r) "") (payload_bytes r)

  abbrev pub report : Option (List String) → Value → Bool → VerifyReport
  report trusted r valid = record {
    ed25519_valid = valid;
    binding_consistent = is_bound r (and_then (get "output_sha256" r) as_str) (signed_predicate r);
    hermetic = or_else (and_then (get "hermetic" r) as_bool) false;
    keyid = text_at (and_then (signature_of r) (get "keyid")) "";
    trust_enforced = enforced trusted;
    pinned = is_pinned trusted (text_at (public_key_of r) "");
  }

  unfoldable pub verify_receipt_with : Value → Option (List String) → Option VerifyReport
  verify_receipt_with r trusted = elim (valid_signature r) [
    | none ↦ none
    | some valid ↦ some (report trusted r valid)
  ]

pub data Verdict : Type 0 where
  verified tampered untrusted inconclusive : Verdict

unfoldable pub exit_code : Verdict → ℕ
exit_code Verdict.verified = 0
exit_code Verdict.tampered = 1
exit_code Verdict.inconclusive = 2
exit_code Verdict.untrusted = 3

abbrev nonempty_text : Option Value → Bool
nonempty_text v = elim (and_then v as_str) [ none ↦ false | some s ↦ not (is_empty s) ]

unfoldable pub has_ed25519_signature : Value → Bool
has_ed25519_signature r =
    nonempty_text (sig_of r) && nonempty_text (public_key_of r) && nonempty_text (payload_of r)

unfoldable pub verdict_of : Value → VerifyReport → Verdict
unfolding has_ed25519_signature
verdict_of r rep =
    if not (has_ed25519_signature r)
    then Verdict.inconclusive
    else if is_ok rep
    then Verdict.verified
    else if rep.ed25519_valid && rep.binding_consistent && rep.trust_enforced && not rep.pinned
    then Verdict.untrusted
    else Verdict.tampered

unfoldable pub classify_with :
    Crypto → Value → Option (List String) → Option (Verdict × VerifyReport)
unfolding verify_receipt_with verdict_of
classify_with crypto r trusted = elim (verify_receipt_with crypto r trusted) [
  | none ↦ none
  | some rep ↦ some (verdict_of r rep, rep)
]
