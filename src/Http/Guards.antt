-- ===== src/Http/Guards.antt =====
-- What the bearer gate lets through, and which deliveries share a key.
use Prim.Native.Nat.{bit_or, bit_xor}
use Prim.Native.Char.{Char, code}
use Prim.Native.String.{[] as []ˢ, ◌∷◌ as ◌∷ˢ◌, ◌++◌ as ◌++ˢ◌}
use text.Mathlib.TextLemmas.{
  nil-append, cons-append, head-eq_of_cons-eq, tail-eq_of_cons-eq, append_cancel_left,
}
use dokan.Prelude.{
  ℕ, String, Bool, true, false, ◌≡◌, refl, sym, ap, ap₂, ◌∙◌, ◌↔◌, some, List, [], ◌∷◌, length, all,
  ◌++◌, ◌≢◌, utf8_char, arith, as_bytes, strip_prefix, strip_prefix-append, strip_prefix-some,
  eq_of_some, Option-cases, inl, inr,
}
use dokan.Prelude.Bits.{bit_or-zero_iff, bit_xor-zero_iff}
use dokan.Http.{
  fold_diff, ct_eq, bearer_matches, token_matches, auth, header, Headers, is_token_byte,
  is_well_formed_webhook_token, delivery_id, delivery_headers, webhook_idempotency_key,
}

fold_diff_zero :
    (a b : List ℕ) (diff : ℕ)
    → length a ≡ length b
    → (fold_diff a b diff ≡ 0) ↔ ((diff ≡ 0) × (a ≡ b))
unfolding fold_diff
fold_diff_zero [] [] diff h = (λ e. (e, refl), λ e. e.0)
fold_diff_zero [] (y ∷ ys) diff h = absurd (omega (arith, h))
fold_diff_zero (x ∷ xs) [] diff h = absurd (omega (arith, h))
fold_diff_zero (x ∷ xs) (y ∷ ys) diff h =
    let rest = fold_diff_zero xs ys (bit_or diff (bit_xor x y)) (omega (arith, h)) in
    let either = bit_or-zero_iff diff (bit_xor x y) in
    let same = bit_xor-zero_iff x y in
    (
      λ e. let (d, t) = rest.0 e in let (d', x') = either.0 d in (d', ap₂ ◌∷◌ (same.0 x') t),
      λ e. rest.1 (either.1 (e.0, same.1 (ground (arith, e))), ground (arith, e)),
    )

-- The comparison that looks at every byte answers as equality does, on all texts of bytes.
pub ct_eq_iff : (a b : List ℕ) → (ct_eq a b ≡ true) ↔ (a ≡ b)
unfolding ct_eq
ct_eq_iff a b = (
  λ h.
      let e : length a ≡ length b = ground (arith, h) in
      ((fold_diff_zero a b 0 e).0 (ground (arith, h))).1,
  λ e.
      let l : length a ≡ length b = ap length e in
      let z = (fold_diff_zero a b 0 l).1 (refl, e) in ground (arith, l, z),
)

-- With a configured token, the gate lets a request through exactly when its first authorization
-- header is the scheme `Bearer`, one space, and the bytes of the token; a request without the
-- header, with another scheme or with the bare token is refused.
pub auth_iff :
    (expected : String) (headers : Headers)
    → (auth (some expected) headers ≡ true) ↔ (
        (tok : String) × (header "authorization" headers ≡ some ("Bearer " ++ˢ tok))
        × (as_bytes tok ≡ as_bytes expected))
unfolding auth bearer_matches
auth_iff expected headers = elim (Option-cases (header "authorization" headers)) [
  | inl e ↦ rw (e, bearer_matches) (λ h. absurd (cc), λ x. cc)
  | inr (h, e) ↦
      rw (e, bearer_matches)
        (elim (Option-cases (strip_prefix "Bearer " h)) [
          | inl n ↦
              rw (n, token_matches)
                (λ k. absurd (cc), λ x. cc (n, strip_prefix-append "Bearer " x.0, eq_of_some x.1))
          | inr (tok, s) ↦
              rw (s, token_matches)
                (
                  λ k. (
                    tok,
                    ap some (strip_prefix-some "Bearer " h s),
                    (ct_eq_iff (as_bytes tok) (as_bytes expected)).0 k,
                  ),
                  λ x.
                      (ct_eq_iff (as_bytes tok) (as_bytes expected)).1
                        (cc (s, strip_prefix-append "Bearer " x.0, eq_of_some x.1, x.2)),
                )
        ])
]

all-append_right : (p : ℕ → Bool) (xs ys : List ℕ) → all p (xs ++ ys) ≡ true → all p ys ≡ true
all-append_right p [] ys h = h
all-append_right p (x ∷ xs) ys h = all-append_right p xs ys (ground arith)

abbrev NoColon : String → Type 0
NoColon []ˢ = Unit
NoColon (c ∷ˢ s) = (code c ≢ 58) × NoColon s

colon_refused : (n : ℕ) (bs : List ℕ) → n ≡ 58 → all is_token_byte (utf8_char n ++ bs) ≡ false
unfolding is_token_byte utf8_char
colon_refused n bs e = rw e refl

no_colon : (s : String) → all is_token_byte (as_bytes s) ≡ true → NoColon s
unfolding as_bytes
no_colon []ˢ h = tt
no_colon (c ∷ˢ s) h = (
  λ e. cc (h, colon_refused (code c) (as_bytes s) e),
  no_colon s (all-append_right is_token_byte (utf8_char (code c)) (as_bytes s) h),
)

-- Two texts, each up to its first colon.
up_to_colon :
    (t u a b : String) (colon : Char)
    → code colon ≡ 58
    → NoColon t
    → NoColon u
    → t ++ˢ (colon ∷ˢ a) ≡ u ++ˢ (colon ∷ˢ b)
    → t ≡ u
up_to_colon []ˢ []ˢ a b colon e ht hu h = refl
up_to_colon []ˢ (d ∷ˢ u) a b colon e ht hu h = absurd (
    hu.0 (
      ap code (
        sym (head-eq_of_cons-eq (sym (nil-append (colon ∷ˢ a)) ∙ h ∙ cons-append d u (colon ∷ˢ b))))
      ∙ e))
up_to_colon (c ∷ˢ t) []ˢ a b colon e ht hu h = absurd (
    ht.0 (
      ap code
        (head-eq_of_cons-eq (sym (cons-append c t (colon ∷ˢ a)) ∙ h ∙ nil-append (colon ∷ˢ b)))
      ∙ e))
up_to_colon (c ∷ˢ t) (d ∷ˢ u) a b colon e ht hu h =
    let k = sym (cons-append c t (colon ∷ˢ a)) ∙ h ∙ cons-append d u (colon ∷ˢ b) in
    ap₂ ◌∷ˢ◌ (head-eq_of_cons-eq k) (up_to_colon t u a b colon e ht.1 hu.1 (tail-eq_of_cons-eq k))

abbrev colon : Char
colon = ":"

-- What follows the token in a key begins with a colon.
key_rest :
    (sha256_hex : List ℕ → String) (token : String) (headers : Headers) (body : List ℕ)
    → (rest : String) × (webhook_idempotency_key sha256_hex token headers body
        ≡ "wh:" ++ˢ (token ++ˢ (colon ∷ˢ rest)))
unfolding webhook_idempotency_key
key_rest sha256_hex token headers body =
    elim (Option-cases (delivery_id delivery_headers headers)) [
      | inr ((h, v), e) ↦ (
        []ˢ ++ˢ (h ++ˢ (":" ++ˢ v)),
        rw (e, webhook_idempotency_key)
            (ap (λ s. "wh:" ++ˢ (token ++ˢ s)) (cons-append colon []ˢ (h ++ˢ (":" ++ˢ v)))),
      )
      | inl e ↦
          let hash = sha256_hex (as_bytes token ++ (31 ∷ body)) in
          (
            "body:" ++ˢ hash,
            rw (e, webhook_idempotency_key)
                (ap (λ s. "wh:" ++ˢ (token ++ˢ s)) (cons-append colon "body:" hash)),
          )
    ]

-- Deliveries to two webhooks never share an idempotency key, whatever their headers and bodies, if
-- both tokens have the form that the endpoint asks for.
pub webhook_idempotency_key-ne :
    (sha256_hex : List ℕ → String) (t u : String) (headers headers' : Headers) (body body' : List ℕ)
    → is_well_formed_webhook_token t ≡ true
    → is_well_formed_webhook_token u ≡ true
    → t ≢ u
    → webhook_idempotency_key sha256_hex t headers body
      ≢ webhook_idempotency_key sha256_hex u headers' body'
unfolding is_well_formed_webhook_token
webhook_idempotency_key-ne sha256_hex t u headers headers' body body' ht hu ne same =
    let (a, e) = key_rest sha256_hex t headers body in
    let (b, f) = key_rest sha256_hex u headers' body' in
    ne (
      up_to_colon t u a b colon refl (no_colon t (ground (arith, ht)))
        (no_colon u (ground (arith, hu))) (append_cancel_left "wh:" _ _ (sym e ∙ same ∙ f)))
