-- ===== src/Db/Secrets/Sealed.antt =====
-- What is sealed can be opened.
use Prim.Native.String.{◌++◌ as ◌++ˢ◌}
use dokan.Prelude.{
  ℕ, zero, suc, String, Bool, true, false, ◌≡◌, refl, ap, ◌⊎◌, inl, inr, Option, none, some, List,
  [], ◌∷◌, ◌++◌, length, length-append, ltb, take, drop, arith, as_bytes, strip_prefix,
  strip_prefix-append, Option-cases,
}
use dokan.Db.Secrets.{Cipher, Codec, prefix, nonce_len, encrypt, decrypt}

-- What is relied on of base64 and of the authenticated cipher.
pub record IsCodec (codec : Codec) : Type 0 where
  pub decode-encode : (b : List ℕ) → codec.decode (codec.encode b) ≡ some b
  pub from_utf8-as_bytes : (s : String) → codec.from_utf8 (as_bytes s) ≡ some s

abbrev pub Opens : Cipher → Type 0
Opens c =
    (nonce : List ℕ) (plain : String) (ct : List ℕ)
    → c.seal nonce plain ≡ some ct
    → c.open_sealed nonce ct ≡ some (as_bytes plain)

abbrev pub OpensAll : Option Cipher → Type 0
OpensAll none = Unit
OpensAll (some c) = Opens c

abbrev pub is_sealed : Option Cipher → List ℕ → String → Bool
is_sealed none nonce plain = false
is_sealed (some c) nonce plain = elim (c.seal nonce plain) [ none ↦ false | some ct ↦ true ]

take-append {ℓ} : {A : Type ℓ} (xs ys : List A) (n : ℕ) → length xs ≡ n → take n (xs ++ ys) ≡ xs
take-append [] ys zero h = refl
take-append [] ys (suc n) h = absurd (omega (arith, h))
take-append (x ∷ xs) ys zero h = absurd (omega (arith, h))
take-append (x ∷ xs) ys (suc n) h = ap (◌∷◌ x) (take-append xs ys n (omega (arith, h)))

drop-append {ℓ} : {A : Type ℓ} (xs ys : List A) (n : ℕ) → length xs ≡ n → drop n (xs ++ ys) ≡ ys
drop-append [] ys zero h = refl
drop-append [] ys (suc n) h = absurd (omega (arith, h))
drop-append (x ∷ xs) ys zero h = absurd (omega (arith, h))
drop-append (x ∷ xs) ys (suc n) h = drop-append xs ys n (omega (arith, h))

module _ (codec : Codec) (laws : IsCodec codec) where
  open laws use {decode-encode, from_utf8-as_bytes}

  decrypt-sealed :
      (c : Cipher) (nonce ct : List ℕ) (plain : String)
      → Opens c
      → length nonce ≡ nonce_len
      → c.seal nonce plain ≡ some ct
      → decrypt codec (some c) (prefix ++ˢ codec.encode (nonce ++ ct)) ≡ plain
  unfolding decrypt
  decrypt-sealed c nonce ct plain opens size sealed =
      let long : ltb (length (nonce ++ ct)) nonce_len ≡ false =
        ground (arith, length-append nonce ct, size) in
      rw
        (
          strip_prefix-append prefix (codec.encode (nonce ++ ct)),
          decode-encode (nonce ++ ct),
          long,
          take-append nonce ct nonce_len size,
          drop-append nonce ct nonce_len size,
          opens nonce plain ct sealed,
          from_utf8-as_bytes plain,
        )
        refl

  -- A secret that was sealed under a nonce of 12 bytes is read back by the same key. So is one that
  -- was stored as it is, without a key or because sealing failed, unless it begins with `enc:v1:`;
  -- one that does is read as the empty text when there is no key.
  pub decrypt-encrypt :
      (cipher : Option Cipher) (nonce : List ℕ) (plain : String)
      → OpensAll cipher
      → length nonce ≡ nonce_len
      → ((is_sealed cipher nonce plain ≡ true) ⊎ (strip_prefix prefix plain ≡ none)
          → decrypt codec cipher (encrypt codec cipher nonce plain) ≡ plain)
        × ((rest : String)
            → strip_prefix prefix plain ≡ some rest
            → decrypt codec none (encrypt codec none nonce plain) ≡ "")
  unfolding encrypt decrypt
  decrypt-encrypt none nonce plain opens size =
      (λ h. elim h [ inl e ↦ cc | inr e ↦ rw e ], λ rest e. rw e)
  decrypt-encrypt (some c) nonce plain opens size = (
    λ h. elim (Option-cases (c.seal nonce plain)) [
      | inr (ct, e) ↦ rw e (decrypt-sealed c nonce ct plain opens size e)
      | inl e ↦ elim h [ inl s ↦ absurd (ground (arith, e, s)) | inr s ↦ rw (e, s) ]
    ],
    λ rest e. rw e,
  )
