-- ===== src/Exec/Redact/Hidden.antt =====
-- What redaction hides.
use Prim.Native.Char.{Char, code}
use Prim.Native.Nat.{ℕ, zero, suc, ◌-◌}
use Prim.Native.String.{String, [] as []ˢ, ◌∷◌ as ◌∷ˢ◌, ◌++◌ as ◌++ˢ◌}
use text.Mathlib.TextLemmas.{nil-append, cons-append}
use dokan.Prelude.{
  Bool, true, false, ◌==◌, if◌then◌else◌, ◌≡◌, refl, ap, ◌∙◌, arith, Bool-cases, inl, inr, List, [],
  ◌∷◌, All, not, ◌&&◌,
}
use dokan.Exec.Redact.{starts_with, contains, chars, replace_from, redact_secrets}

-- No character of the text is `*`, of which the mask is made.
unfoldable pub is_starless : String → Bool
is_starless []ˢ = true
is_starless (c ∷ˢ s) = not (code c == 42) && is_starless s

abbrev pub is_maskable : String → Bool
is_maskable []ˢ = false
is_maskable (c ∷ˢ s) = is_starless (c ∷ˢ s)

abbrev star : Char
star = "*"

mask : (s : String) → "***" ++ˢ s ≡ (star ∷ˢ star ∷ˢ star ∷ˢ s)
mask s =
    cons-append star (star ∷ˢ star ∷ˢ []ˢ) s
    ∙ ap (◌∷ˢ◌ star) (
        cons-append star (star ∷ˢ []ˢ) s
        ∙ ap (◌∷ˢ◌ star) (cons-append star []ˢ s ∙ ap (◌∷ˢ◌ star) (nil-append s)))

starts_with-replace :
    (p q s : String)
    → is_starless p ≡ true
    → starts_with p (replace_from q 0 s) ≡ true
    → starts_with p s ≡ true
unfolding starts_with replace_from is_starless
starts_with-replace []ˢ q s h e = refl
starts_with-replace (d ∷ˢ p) q []ˢ h e = e
starts_with-replace (d ∷ˢ p) q (c ∷ˢ s) h e = elim (Bool-cases (starts_with q (c ∷ˢ s))) [
  | inl m ↦
      let e2 = rw (m, mask (replace_from q (chars q - 1) s)) at e in absurd (ground (arith, e2, h))
  | inr m ↦ ground (arith, m, e, h, starts_with-replace p q s)
]

abbrev FirstNotStar : String → Type 0
FirstNotStar p = (s : String) → starts_with p (star ∷ˢ s) ≡ false

maskable-first : (p : String) → is_maskable p ≡ true → FirstNotStar p
unfolding starts_with is_starless
maskable-first []ˢ h s = absurd (ground (arith, h))
maskable-first (d ∷ˢ p) h s = ground (arith, h)

maskable-starless : (p : String) → is_maskable p ≡ true → is_starless p ≡ true
maskable-starless []ˢ h = absurd (ground (arith, h))
maskable-starless (d ∷ˢ p) h = h

contains-mask :
    (p s : String) → is_maskable p ≡ true → contains p s ≡ false → contains p ("***" ++ˢ s) ≡ false
unfolding contains
contains-mask p s h e = let n = maskable-first p h in rw (mask s, n, n, n) e

starts_with-kept :
    (p q : String) (c : Char) (s : String)
    → is_starless p ≡ true
    → starts_with p (c ∷ˢ s) ≡ false
    → starts_with p (c ∷ˢ replace_from q 0 s) ≡ false
unfolding starts_with is_starless
starts_with-kept []ˢ q c s h e = e
starts_with-kept (d ∷ˢ p) q c s h e = elim (Bool-cases (starts_with p (replace_from q 0 s))) [
  | inl t ↦
      let then_s = starts_with-replace p q s (ground (arith, h)) t in ground (arith, then_s, e, t)
  | inr t ↦ ground (arith, t)
]

not_in_empty : (p : String) → is_maskable p ≡ true → starts_with p []ˢ ≡ false
unfolding starts_with
not_in_empty []ˢ h = absurd (ground (arith, h))
not_in_empty (d ∷ˢ p) h = refl

-- Masking `q` brings no other text `p` about.
contains-replace_from :
    (p q : String) (k : ℕ) (s : String)
    → is_maskable p ≡ true
    → contains p s ≡ false
    → contains p (replace_from q k s) ≡ false
unfolding contains replace_from
contains-replace_from p q k []ˢ h e = e
contains-replace_from p q (suc k) (c ∷ˢ s) h e = contains-replace_from p q k s h (ground (arith, e))
contains-replace_from p q zero (c ∷ˢ s) h e =
    let rest : contains p s ≡ false = ground (arith, e) in
    elim (Bool-cases (starts_with q (c ∷ˢ s))) [
      | inl m ↦ rw m (contains-mask p _ h (contains-replace_from p q (chars q - 1) s h rest))
      | inr m ↦
          rw
            (
              m,
              contains-replace_from p q 0 s h rest,
              starts_with-kept p q c s (maskable-starless p h) (ground (arith, e)),
            )
            refl
    ]

contains-replaced :
    (p : String) (k : ℕ) (s : String)
    → is_maskable p ≡ true
    → contains p (replace_from p k s) ≡ false
unfolding contains replace_from
contains-replaced p k []ˢ h = not_in_empty p h
contains-replaced p (suc k) (c ∷ˢ s) h = contains-replaced p k s h
contains-replaced p zero (c ∷ˢ s) h = elim (Bool-cases (starts_with p (c ∷ˢ s))) [
  | inl m ↦ rw m (contains-mask p _ h (contains-replaced p (chars p - 1) s h))
  | inr m ↦
      rw (m, contains-replaced p 0 s h, starts_with-kept p p c s (maskable-starless p h) m) refl
]

abbrev redacted_by : String → String → String
redacted_by s out = if contains s out then replace_from s 0 out else out

contains-redacted_by :
    (s out : String) → is_maskable s ≡ true → contains s (redacted_by s out) ≡ false
contains-redacted_by s out h = elim (Bool-cases (contains s out)) [
  | inl e ↦ rw e (contains-replaced s 0 out h)
  | inr e ↦ rw (e, e) refl
]

still-redacted_by :
    (p s out : String)
    → is_maskable p ≡ true
    → contains p out ≡ false
    → contains p (redacted_by s out) ≡ false
still-redacted_by p s out h e = elim (Bool-cases (contains s out)) [
  | inl f ↦ rw f (contains-replace_from p s 0 out h e)
  | inr f ↦ rw f e
]

still-redact_secrets :
    (p out : String) (secrets : List String)
    → is_maskable p ≡ true
    → contains p out ≡ false
    → contains p (redact_secrets out secrets) ≡ false
unfolding redact_secrets
still-redact_secrets p out [] h e = e
still-redact_secrets p out (s ∷ secrets) h e =
    still-redact_secrets p (redacted_by s out) secrets h (still-redacted_by p s out h e)

abbrev pub Hides : String → List String → Type 0
Hides line secrets = All (λ s. is_maskable s ≡ true → contains s line ≡ false) secrets

-- A redacted line shows none of the secrets, in whatever order they were masked, of those that are
-- not empty and have no character of the mask.
pub redact_secrets-Hides :
    (out : String) (secrets : List String) → Hides (redact_secrets out secrets) secrets
unfolding redact_secrets
redact_secrets-Hides out [] = tt
redact_secrets-Hides out (s ∷ secrets) = (
  λ h. still-redact_secrets s (redacted_by s out) secrets h (contains-redacted_by s out h),
  redact_secrets-Hides (redacted_by s out) secrets,
)
