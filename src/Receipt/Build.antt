-- ===== src/Receipt/Build.antt =====
-- src/exec.rs, `build_receipt`: the receipt of a finished run, with its HMAC and its signed statement.
use Prim.Native.String.{[] as []ˢ}
use dokan.Prelude.{ℕ, String, Bool, not, Option, none, some, List, [], ◌∷◌, as_bytes, decimal}
use dokan.Prelude.Int.{ℤ, pos, negsuc}
use dokan.Json.{Number, Value, Items, Fields, of_list}
use dokan.Db.Flows.{or_else}
use dokan.Worker.{or_null}
use dokan.Mcp.{canonical_input_blobs}
use dokan.Receipt.Codec.{dsse_pae}
use dokan.Receipt.{
  Crypto, Signer, sha256_hex, hmac_sign, ed_sign, ed_public_b64, ed_keyid, binding,
  dsse_payload_type, predicate_type,
}

abbrev pub int_value : ℤ → Value
int_value (pos n) = Value.number (Number.pos_int n)
int_value (negsuc n) = Value.number (Number.neg_int n)

-- What a run was, for its receipt. The image stands for its digest while that is not known.
pub record Finished : Type 0 where
  pub run_id : ℕ
  pub image : String
  pub image_digest : Option String
  pub source : String
  pub input : Value
  pub result : Option Value
  pub exit_code : ℤ
  pub network : Bool
  pub input_blobs : Option Value
  pub output_blobs : Option Value
  pub secrets_generation : ℤ

abbrev pub sha_subject : String → String → Value
sha_subject name sha = Value.object (
    Fields.field "name" (Value.string name) (
      Fields.field "digest" (Value.object (Fields.field "sha256" (Value.string sha) Fields.end))
        Fields.end))

-- A captured file whose handle is a text.
unfoldable pub blob_subjects : Fields → List Value
blob_subjects Fields.end = []
blob_subjects (Fields.field name (Value.string sha) fs) = sha_subject name sha ∷ blob_subjects fs
blob_subjects (Fields.field name v fs) = blob_subjects fs

abbrev pub output_subjects : Option Value → List Value
output_subjects (some (Value.object fs)) = blob_subjects fs
output_subjects _ = []

abbrev pub text_of : (Value → String) → Option Value → String
text_of to_text none = []ˢ
text_of to_text (some v) = to_text v

module _ (crypto : Crypto) (signer : Signer) (to_text : Value → String) (version : String)
    (run : Finished) where
  open run use {run_id, image, image_digest, source, input, result, exit_code, network}
  open run use {input_blobs, output_blobs, secrets_generation}

  abbrev pub digest : String
  digest = or_else image_digest image

  abbrev pub source_sha : String
  source_sha = sha256_hex crypto (as_bytes source)

  abbrev pub input_sha : String
  input_sha = sha256_hex crypto (as_bytes (to_text input))

  abbrev pub output_hash : String
  output_hash = sha256_hex crypto (as_bytes (text_of to_text result))

  abbrev pub sig : String
  sig = hmac_sign crypto signer (
      binding digest source_sha input_sha secrets_generation output_hash exit_code network
        (canonical_input_blobs input_blobs) (canonical_input_blobs output_blobs))

  abbrev pub predicate : Value
  predicate = Value.object (
      Fields.field "builder"
        (Value.object (
          Fields.field "id" (Value.string "dokan")
            (Fields.field "version" (Value.string version) Fields.end)))
        (Fields.field "invocation"
          (Value.object (
            Fields.field "invocationId" (Value.string (decimal run_id))
              (Fields.field "image" (Value.string image) Fields.end)))
          (Fields.field "image_digest" (Value.string digest) (
            Fields.field "source_sha256" (Value.string source_sha) (
              Fields.field "input_sha256" (Value.string input_sha) (
                Fields.field "secrets_generation" (int_value secrets_generation) (
                  Fields.field "output_sha256" (Value.string output_hash) (
                    Fields.field "exit" (int_value exit_code) (
                      Fields.field "network" (Value.bool network) (
                        Fields.field "hermetic" (Value.bool (not network)) (
                          Fields.field "input_blobs" (or_null input_blobs) (
                            Fields.field "output_blobs" (or_null output_blobs)
                              Fields.end))))))))))))

  abbrev pub statement : Value
  statement = Value.object (
      Fields.field "_type" (Value.string "https://in-toto.io/Statement/v1") (
        Fields.field "subject"
          (Value.array (of_list (sha_subject "result" output_hash ∷ output_subjects output_blobs)))
          (Fields.field "predicateType" (Value.string predicate_type)
            (Fields.field "predicate" predicate Fields.end))))

  abbrev pub payload : List ℕ
  payload = crypto.to_vec statement

  abbrev pub signature : String
  signature = ed_sign crypto signer (dsse_pae (as_bytes dsse_payload_type) payload)

  abbrev pub dsse : Value
  dsse = Value.object (
      Fields.field "payloadType" (Value.string dsse_payload_type) (
        Fields.field "payload" (Value.string (crypto.b64_encode payload)) (
          Fields.field "signatures"
            (Value.array (
              Items.cons
                (Value.object (
                  Fields.field "keyid" (Value.string (ed_keyid crypto signer))
                    (Fields.field "sig" (Value.string signature) Fields.end)))
                Items.nil))
            Fields.end)))

  unfoldable pub build_receipt : Value
  build_receipt = Value.object (
      Fields.field "v" (int_value (pos 1)) (
        Fields.field "image_digest" (Value.string digest) (
          Fields.field "source_sha256" (Value.string source_sha) (
            Fields.field "input_sha256" (Value.string input_sha) (
              Fields.field "secrets_generation" (int_value secrets_generation) (
                Fields.field "output_sha256" (Value.string output_hash) (
                  Fields.field "exit" (int_value exit_code) (
                    Fields.field "network" (Value.bool network) (
                      Fields.field "deterministic" (Value.bool (not network)) (
                        Fields.field "hermetic" (Value.bool (not network)) (
                          Fields.field "input_blobs" (or_null input_blobs) (
                            Fields.field "output_blobs" (or_null output_blobs) (
                              Fields.field "alg" (Value.string "hmac-sha256") (
                                Fields.field "sig" (Value.string sig) (
                                  Fields.field "statement" statement (
                                    Fields.field "dsse" dsse (
                                      Fields.field "ed25519"
                                        (Value.object (
                                          Fields.field "keyid"
                                            (Value.string (ed_keyid crypto signer))
                                            (Fields.field "public_key"
                                              (Value.string (ed_public_b64 crypto signer))
                                              Fields.end)))
                                        Fields.end)))))))))))))))))
