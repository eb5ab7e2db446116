-- ===== src/Receipt/Genuine.antt =====
-- A receipt that dokan builds passes both of its checks.
use text.Mathlib.TextPositions.{eq_refl}
use dokan.Prelude.{
  ℕ, ◌<◌, ◌^◌, String, Bool, true, false, not, ◌≡◌, refl, ◌∙◌, Option, none, some, List, [], ◌∷◌,
  length, Bool-cases, inl, inr, ◌||◌, if◌then◌else◌, arith, All, as_bytes, is_empty,
}
use dokan.Prelude.Int.{ℤ, pos, negsuc}
use dokan.Json.{Value, get, as_i64, as_str, as_bool}
use dokan.Receipt.Codec.{hex, dsse_pae}
use dokan.Receipt.Hex.{unhex-hex}
use dokan.Receipt.{
  Crypto, Signer, dsse_payload_type, verify_hmac, ed_verify, ed_sign, ed_public_b64,
}
use dokan.Receipt.Verify.{
  contains_key, has_ed25519_signature, text_at, payload_bytes, valid_signature, report,
  verify_receipt_with, verdict_of, public_key_of, sig_of, enforced, is_pinned, Verdict,
  VerifyReport, classify_with, is_bound, signed_predicate,
}
use dokan.Receipt.Build.{Finished, build_receipt, int_value, sig, payload, statement, output_hash}
use dokan.Db.Flows.{and_then}
use dokan.Mcp.{canonical_input_blobs}
use dokan.Worker.{or_null}

-- Numbers that an `i64` holds.
abbrev pub IsI64 : ℤ → Type 0
IsI64 (pos n) = n < 2 ^ 63
IsI64 (negsuc n) = n < 2 ^ 63

as_i64-int_value : (z : ℤ) → IsI64 z → as_i64 (int_value z) ≡ some z
unfolding as_i64
as_i64-int_value (pos n) h = ground arith
as_i64-int_value (negsuc n) h = refl

canonical-or_null :
    (o : Option Value) → canonical_input_blobs (some (or_null o)) ≡ canonical_input_blobs o
unfolding canonical_input_blobs
canonical-or_null none = refl
canonical-or_null (some v) = refl

-- The key-holder check accepts what the same key signed, for every run.
pub build_receipt-verify_hmac :
    (crypto : Crypto) (signer : Signer) (to_text : Value → String) (version : String)
    (run : Finished)
    → IsI64 run.exit_code
    → IsI64 run.secrets_generation
    → verify_hmac crypto signer (build_receipt crypto signer to_text version run) ≡ true
unfolding verify_hmac build_receipt get as_str as_bool
build_receipt-verify_hmac crypto signer to_text version run h k =
    rw
      (
        as_i64-int_value run.exit_code h,
        as_i64-int_value run.secrets_generation k,
        canonical-or_null run.input_blobs,
        canonical-or_null run.output_blobs,
      )
      (eq_refl (sig crypto signer to_text version run))

-- What is relied on of the crates.
pub record IsCrypto (crypto : Crypto) : Type 0 where
  pub b64_decode-encode : (b : List ℕ) → crypto.b64_decode (crypto.b64_encode b) ≡ some b
  pub b64_encode-nonempty : (b : List ℕ) → 0 < length b → is_empty (crypto.b64_encode b) ≡ false
  pub from_slice-to_vec : (v : Value) → crypto.from_slice (crypto.to_vec v) ≡ some v
  pub to_vec-nonempty : (v : Value) → 0 < length (crypto.to_vec v)
  pub sign-length : (seed m : List ℕ) → length (crypto.sign seed m) ≡ 64
  pub sign-bytes : (seed m : List ℕ) → All (λ b. b < 256) (crypto.sign seed m)
  pub key-length : (seed : List ℕ) → length (crypto.verifying_key seed) ≡ 32
  pub is_key-verifying_key : (seed : List ℕ) → crypto.is_key (crypto.verifying_key seed) ≡ true
  pub verify_strict-sign :
      (seed m : List ℕ)
      → crypto.verify_strict (crypto.verifying_key seed) m (crypto.sign seed m) ≡ true

hex-nonempty : (bs : List ℕ) → 0 < length bs → is_empty (hex bs) ≡ false
unfolding hex is_empty
hex-nonempty [] h = absurd (omega arith)
hex-nonempty (b ∷ bs) h = refl

valid-payload :
    (crypto : Crypto) (r : Value) (p : List ℕ)
    → payload_bytes crypto r ≡ p
    → 0 < length p
    → valid_signature crypto r
      ≡ ed_verify crypto
          (text_at (public_key_of r) "")
          (text_at (and_then (get "dsse" r) (get "payloadType")) dsse_payload_type)
          p
          (text_at (sig_of r) "")
valid-payload crypto r [] e h = absurd (omega arith)
valid-payload crypto r (b ∷ bs) e h = rw e refl

-- Whether a set of trusted keys, if there is one, admits a key.
abbrev pub admits : Option (List String) → String → Bool
admits none k = true
admits (some keys) k = contains_key keys k

module _ (crypto : Crypto) (laws : IsCrypto crypto) (signer : Signer) where
  open laws use {
    b64_decode-encode, b64_encode-nonempty, from_slice-to_vec, to_vec-nonempty, sign-length,
  }
  open laws use {sign-bytes, key-length, is_key-verifying_key, verify_strict-sign}

  -- A signature of the signer is verified with its public key.
  ed_verify-ed_sign :
      (payload_type : String) (payload : List ℕ)
      → ed_verify crypto
          (ed_public_b64 crypto signer)
          payload_type
          payload
          (ed_sign crypto signer (dsse_pae (as_bytes payload_type) payload))
        ≡ some true
  unfolding ed_verify ed_public_b64 ed_sign
  ed_verify-ed_sign payload_type payload =
      let msg = dsse_pae (as_bytes payload_type) payload in
      rw
        (
          b64_decode-encode (crypto.verifying_key signer.ed),
          key-length signer.ed,
          is_key-verifying_key signer.ed,
          unhex-hex (crypto.sign signer.ed msg) (sign-bytes signer.ed msg),
          sign-length signer.ed msg,
          verify_strict-sign signer.ed msg,
        )
        refl

  public-nonempty : is_empty (ed_public_b64 crypto signer) ≡ false
  unfolding ed_public_b64
  public-nonempty =
      b64_encode-nonempty (crypto.verifying_key signer.ed) (omega (arith, key-length signer.ed))

  signature-nonempty : (m : List ℕ) → is_empty (ed_sign crypto signer m) ≡ false
  unfolding ed_sign
  signature-nonempty m =
      hex-nonempty (crypto.sign signer.ed m) (omega (arith, sign-length signer.ed m))

  module _ (to_text : Value → String) (version : String) (run : Finished) where
    abbrev receipt : Value
    receipt = build_receipt crypto signer to_text version run

    abbrev signed : List ℕ
    signed = payload crypto signer to_text version run

    receipt-signed : has_ed25519_signature receipt ≡ true
    unfolding has_ed25519_signature build_receipt get as_str
    receipt-signed =
        rw
          (
            signature-nonempty (dsse_pae (as_bytes dsse_payload_type) signed),
            public-nonempty,
            b64_encode-nonempty signed (to_vec-nonempty _),
          )
          refl

    receipt-payload : payload_bytes crypto receipt ≡ signed
    unfolding build_receipt get as_str
    receipt-payload = rw (b64_decode-encode signed) refl

    receipt-valid : valid_signature crypto receipt ≡ some true
    unfolding build_receipt get as_str
    receipt-valid =
        valid-payload crypto receipt signed receipt-payload (to_vec-nonempty _)
        ∙ ed_verify-ed_sign dsse_payload_type signed

    receipt-bound :
        is_bound receipt
          (and_then (get "output_sha256" receipt) as_str)
          (signed_predicate crypto receipt)
        ≡ true
    unfolding is_bound build_receipt get as_str
    receipt-bound =
        rw
          (
            receipt-payload,
            from_slice-to_vec (statement crypto signer to_text version run),
            eq_refl (output_hash crypto signer to_text version run),
            eq_refl (canonical_input_blobs (some (or_null run.input_blobs))),
            eq_refl (canonical_input_blobs (some (or_null run.output_blobs))),
          )
          refl

    receipt-reported :
        (trusted : Option (List String))
        → (rep : VerifyReport) × (verify_receipt_with crypto receipt trusted ≡ some rep)
          × (rep.ed25519_valid ≡ true)
          × (rep.binding_consistent ≡ true)
          × (rep.hermetic ≡ not run.network)
          × (rep.trust_enforced ≡ enforced trusted)
          × (rep.pinned ≡ is_pinned trusted (ed_public_b64 crypto signer))
    unfolding verify_receipt_with build_receipt get as_bool as_str
    receipt-reported trusted = (
      report crypto trusted receipt true,
      rw (receipt-valid, verify_receipt_with) refl,
      refl,
      receipt-bound,
      refl,
      refl,
      refl,
    )

trust_verdict :
    (trusted : Option (List String)) (k : String)
    → is_empty k ≡ false
    → (not (enforced trusted) || is_pinned trusted k) ≡ admits trusted k
trust_verdict none k h = refl
trust_verdict (some keys) k h = rw h refl

-- Whoever holds only the receipt: given the laws of the crates, a receipt that dokan built is
-- found verified, whatever the run, when no trusted keys are set or the signer's key is among
-- them, and untrusted otherwise; and it is hermetic exactly when the run had no network.
pub build_receipt-classify_with :
    (crypto : Crypto) (signer : Signer) (to_text : Value → String) (version : String)
    (run : Finished) (trusted : Option (List String))
    → IsCrypto crypto
    → (rep : VerifyReport) × (classify_with crypto
          (build_receipt crypto signer to_text version run)
          trusted
        ≡ some (
          if admits trusted (ed_public_b64 crypto signer)
              then Verdict.verified
              else Verdict.untrusted,
          rep,
        ))
      × (rep.hermetic ≡ not run.network)
unfolding classify_with verdict_of
build_receipt-classify_with crypto signer to_text version run trusted laws =
    let (rep, e, valid, bound, hermetic, policy, pinned) =
      receipt-reported crypto laws signer to_text version run trusted in
    let k = ed_public_b64 crypto signer in
    let signed = receipt-signed crypto laws signer to_text version run in
    let trust = trust_verdict trusted k (public-nonempty crypto laws signer) in
    (
      rep,
      rw (e, classify_with, signed)
          (elim (Bool-cases (admits trusted k)) [
            | inl a ↦ ground (arith, trust, a, valid, bound, policy, pinned)
            | inr a ↦ ground (arith, trust, a, valid, bound, policy, pinned)
          ]),
      hermetic,
    )
