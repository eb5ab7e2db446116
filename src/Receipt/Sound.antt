-- ===== src/Receipt/Sound.antt =====
-- What a verified receipt is worth: what it claims is what a key holder signed.
use dokan.Prelude.{
  String, Bool, true, not, ◌||◌, ◌≡◌, refl, ap, Option, none, some, List, eq_iff, arith,
  Option-cases, inl, inr,
}
use dokan.Json.{Value, get, as_str}
use dokan.Db.Flows.{and_then}
use dokan.Mcp.{canonical_input_blobs}
use dokan.Receipt.{Crypto}
use dokan.Receipt.Verify.{
  public_key_of, text_at, enforced, is_pinned, is_bound, same_text, signed_predicate,
  valid_signature, report, VerifyReport, is_ok, verify_receipt_with, verdict_of, Verdict,
  classify_with,
}
use dokan.Receipt.Genuine.{admits}

-- What the signed statement says of the receipt around it.
pub record Attests (r pred : Value) (out : String) : Type 0 where
  pub claimed : and_then (get "output_sha256" r) as_str ≡ some out
  pub signed : and_then (get "output_sha256" pred) as_str ≡ some out
  pub inputs :
      canonical_input_blobs (get "input_blobs" r) ≡ canonical_input_blobs (get "input_blobs" pred)
  pub outputs :
      canonical_input_blobs (get "output_blobs" r) ≡ canonical_input_blobs (get "output_blobs" pred)

same_text-some : (o : Option String) (t : String) → same_text o t ≡ true → o ≡ some t
same_text-some none t h = cc
same_text-some (some s) t h = ap some ((eq_iff s t).0 h)

is_bound-Attests :
    (r : Value) (claimed : Option String) (pred : Option Value)
    → and_then (get "output_sha256" r) as_str ≡ claimed
    → is_bound r claimed pred ≡ true
    → (p : Value) × (out : String) × (pred ≡ some p) × Attests r p out
unfolding is_bound
is_bound-Attests r none pred e h = cc
is_bound-Attests r (some out) none e h = cc
is_bound-Attests r (some out) (some p) e h = (
  p,
  out,
  refl,
  record {
    claimed = e;
    signed = same_text-some (and_then (get "output_sha256" p) as_str) out (ground arith);
    inputs =
        (eq_iff (canonical_input_blobs (get "input_blobs" r))
            (canonical_input_blobs (get "input_blobs" p))).0
          (ground arith);
    outputs =
        (eq_iff (canonical_input_blobs (get "output_blobs" r))
            (canonical_input_blobs (get "output_blobs" p))).0
          (ground arith);
  },
)

verified-ok :
    (r : Value) (rep : VerifyReport) → verdict_of r rep ≡ Verdict.verified → is_ok rep ≡ true
unfolding verdict_of
verified-ok r rep h = ground arith

pinned-admits :
    (trusted : Option (List String)) (k : String)
    → (not (enforced trusted) || is_pinned trusted k) ≡ true
    → admits trusted k ≡ true
pinned-admits none k h = refl
pinned-admits (some keys) k h = ground arith

reported :
    (crypto : Crypto) (r : Value) (trusted : Option (List String)) (rep : VerifyReport)
    → verify_receipt_with crypto r trusted ≡ some rep
    → (valid : Bool) × (valid_signature crypto r ≡ some valid)
      × (rep ≡ report crypto trusted r valid)
unfolding verify_receipt_with
reported crypto r trusted rep h = elim (Option-cases (valid_signature crypto r)) [
  | inl e ↦ absurd (ground (arith, e, h))
  | inr (valid, e) ↦ (valid, e, ground (arith, e, h))
]

-- A receipt that is found verified carries a valid signature of the public key in it, over a
-- statement that names the output and the files that the receipt claims; and where trusted keys
-- are set, that key is one of them. So a receipt whose claim was altered, or that a stranger
-- signed, is not found verified.
pub classify_with-verified :
    (crypto : Crypto) (r : Value) (trusted : Option (List String)) (rep : VerifyReport)
    → classify_with crypto r trusted ≡ some (Verdict.verified, rep)
    → (valid_signature crypto r ≡ some true)
      × ((pred : Value) × (out : String) × (signed_predicate crypto r ≡ some pred)
          × Attests r pred out)
      × (admits trusted (text_at (public_key_of r) "") ≡ true)
unfolding classify_with
classify_with-verified crypto r trusted rep h =
    elim (Option-cases (verify_receipt_with crypto r trusted)) [
      | inl e ↦ absurd (ground (arith, e, h))
      | inr (rep', e) ↦
          let v : verdict_of r rep' ≡ Verdict.verified = ground (arith, e, h) in
          let ok = verified-ok r rep' v in
          let (valid, s, same) = reported crypto r trusted rep' e in
          let good : valid ≡ true = ground (arith, ok, same) in
          (
            rw good at s,
            is_bound-Attests r (and_then (get "output_sha256" r) as_str) (signed_predicate crypto r)
                refl (ground (arith, ok, same)),
            pinned-admits trusted (text_at (public_key_of r) "") (ground (arith, ok, same)),
          )
    ]
