-- ===== src/Http.antt =====
-- src/http.rs: the guards of the HTTP surface. Header values are texts where they are printable
-- ASCII; an IP address is its text, and parsing one is a parameter.
pub mod Limiter
pub mod Guards
pub mod Webhook
pub mod Operator
use Prim.Native.Char.{Char, code}
use Prim.Native.String.{[] as []ˢ, ◌∷◌ as ◌∷ˢ◌, ◌++◌ as ◌++ˢ◌}
use Prim.Native.Nat.{bit_xor, bit_or}
use dokan.Prelude.{
  ℕ, String, Bool, true, false, not, ◌&&◌, ◌||◌, Option, none, some, List, [], ◌∷◌, ◌++◌, any, all,
  map, find?, length, ltb, leb, ◌==◌, str_eq, if◌then◌else◌, as_bytes, is_empty, trim, split,
  strip_prefix,
}
use dokan.Db.Flows.{or_else, and_then}

-- The names of the headers, in lower case, and their values.
abbrev pub Headers : Type 0
Headers = List (String × String)

unfoldable pub header : String → Headers → Option String
header name [] = none
header name ((n, v) ∷ hs) = let rest = header name hs in if str_eq n name then some v else rest

fold_diff : List ℕ → List ℕ → ℕ → ℕ
fold_diff [] ys diff = diff
fold_diff (x ∷ xs) [] diff = diff
fold_diff (x ∷ xs) (y ∷ ys) diff = fold_diff xs ys (bit_or diff (bit_xor x y))

-- Equality of bytes that looks at every byte.
unfoldable pub ct_eq : List ℕ → List ℕ → Bool
unfolding fold_diff
ct_eq a b = if length a == length b then fold_diff a b 0 == 0 else false

abbrev pub token_matches : Option String → String → Bool
token_matches none expected = false
token_matches (some tok) expected = ct_eq (as_bytes tok) (as_bytes expected)

unfoldable pub bearer_matches : Option String → String → Bool
unfolding strip_prefix
bearer_matches none expected = false
bearer_matches (some h) expected = token_matches (strip_prefix "Bearer " h) expected

-- The bearer gate: whether the request goes on. Without a configured token it always does.
unfoldable pub auth : Option String → Headers → Bool
unfolding bearer_matches header
auth none headers = true
auth (some expected) headers = bearer_matches (header "authorization" headers) expected

unfoldable pub is_token_byte : ℕ → Bool
is_token_byte b =
    (leb 97 b && leb b 122)
    || (leb 65 b && leb b 90)
    || (leb 48 b && leb b 57)
    || b == 45
    || b == 95

unfoldable pub is_well_formed_webhook_token : String → Bool
unfolding is_token_byte as_bytes
is_well_formed_webhook_token t =
    let bytes = as_bytes t in
    leb 6 (length bytes) && leb (length bytes) 128 && all is_token_byte bytes

-- The real client: a trusted proxy is believed about whom it forwards for.
unfoldable pub client_ip : Headers → String → List String → String
unfolding header split trim is_empty
client_ip headers peer trusted =
    if any (str_eq peer) trusted
    then or_else
        (and_then (header "x-forwarded-for" headers)
          (λ xff. find? (λ s. not (is_empty s)) (map trim (split 44 xff))))
        peer
    else peer

abbrev pub delivery_headers : List String
delivery_headers =
    "idempotency-key" ∷ "x-idempotency-key" ∷ "x-github-delivery" ∷ "x-request-id" ∷ []

abbrev nonblank : Option String → Option String
nonblank none = none
nonblank (some v) = let w = trim v in if is_empty w then none else some w

abbrev or_later : String → Option String → Option (String × String) → Option (String × String)
or_later h none later = later
or_later h (some v) later = some (h, v)

-- The first delivery header that has a value.
unfoldable pub delivery_id : List String → Headers → Option (String × String)
unfolding header trim is_empty
delivery_id [] headers = none
delivery_id (h ∷ hs) headers = or_later h (nonblank (header h headers)) (delivery_id hs headers)

unfoldable pub webhook_idempotency_key : (List ℕ → String) → String → Headers → List ℕ → String
unfolding delivery_id as_bytes
webhook_idempotency_key sha256_hex token headers body =
    elim (delivery_id delivery_headers headers) [
      | some (h, v) ↦ "wh:" ++ˢ (token ++ˢ (":" ++ˢ (h ++ˢ (":" ++ˢ v))))
      | none ↦ "wh:" ++ˢ (token ++ˢ (":body:" ++ˢ sha256_hex (as_bytes token ++ (31 ∷ body))))
    ]
