-- ===== src/Receipt/Hex.antt =====
-- Hexadecimal text is read back, and where the reader panics.
use Prim.Native.Char.{Char, code}
use Prim.Native.String.{[] as []ˢ, ◌∷◌ as ◌∷ˢ◌}
use dokan.Prelude.{
  ℕ, zero, suc, ◌*◌, ◌/◌, ◌%◌, ◌<◌, ◌≤◌, String, Bool, true, false, ◌&&◌, ◌≡◌, refl, Option, none,
  some, List, [], ◌∷◌, length, length-append, leb, ◌==◌, ==_iff, arith, All, Bool-cases, inl, inr,
  ◌≢◌, as_bytes, utf8_char,
}
use dokan.Receipt.Codec.{
  nibble, hex, digit_of, byte_of, Unhexed, decoded, malformed, panics, cons_byte, width,
  unhex_pairs, unhex,
}

abbrev table : String
table = "0123456789abcdef"

-- All the nibbles up to `top`, the largest first.
nibbles_pass : (top : ℕ) (test : ℕ → Bool) → Bool
nibbles_pass zero test = test zero
nibbles_pass (suc top) test = test (suc top) && nibbles_pass top test

nibble_passes :
    (test : ℕ → Bool) (v top : ℕ) → v ≤ top → nibbles_pass top test ≡ true → test v ≡ true
unfolding nibbles_pass
nibble_passes test zero zero le all = all
nibble_passes test (suc v) zero le all = absurd (omega (arith, le))
nibble_passes test v (suc top) le all = elim (Bool-cases (v == suc top)) [
  | inl e ↦ let same : v ≡ suc top = (==_iff v (suc top)).0 e in rw same (ground (arith, all))
  | inr e ↦ nibble_passes test v top (ground (arith, le, e)) (ground (arith, all))
]

abbrev is_digit_for : ℕ → Option ℕ → Bool
is_digit_for n none = false
is_digit_for n (some m) = n == m

is_hex_digit : ℕ → Bool
unfolding nibble digit_of utf8_char
is_hex_digit n =
    is_digit_for n (digit_of (code (nibble n table)))
    && width (nibble n table) == 1
    && leb 48 (code (nibble n table))

table_checked : nibbles_pass 15 is_hex_digit ≡ true
unfolding nibbles_pass is_hex_digit
table_checked = refl

nibble_digit :
    (n : ℕ)
    → n < 16
    → (digit_of (code (nibble n table)) ≡ some n)
      × (width (nibble n table) ≡ 1)
      × (48 ≤ code (nibble n table))
unfolding is_hex_digit
nibble_digit n h =
    let k : is_hex_digit n ≡ true =
      nibble_passes is_hex_digit n 15 (omega (arith, h)) table_checked in
    (ground (arith, k), ground (arith, k), ground (arith, k))

byte_of-nibbles :
    (b : ℕ)
    → b < 256
    → byte_of (code (nibble (b / 16 % 16) table)) (code (nibble (b % 16) table)) ≡ some b
unfolding byte_of
byte_of-nibbles b h =
    ground (arith, nibble_digit (b / 16 % 16) (omega arith), nibble_digit (b % 16) (omega arith))

unhex_pairs-hex : (bs : List ℕ) → All (λ b. b < 256) bs → unhex_pairs (hex bs) ≡ decoded bs
unfolding unhex_pairs hex
unhex_pairs-hex [] h = refl
unhex_pairs-hex (b ∷ bs) h = ground (
  arith,
  nibble_digit (b / 16 % 16) (omega arith),
  nibble_digit (b % 16) (omega arith),
  byte_of-nibbles b h.0,
  unhex_pairs-hex bs h.1,
)

even_length : (bs : List ℕ) → length (as_bytes (hex bs)) ≡ 2 * length bs
unfolding as_bytes hex
even_length [] = refl
even_length (b ∷ bs) =
    let c = nibble (b / 16 % 16) table in
    let d = nibble (b % 16) table in
    omega (
      arith,
      length-append (utf8_char (code c)) (as_bytes (d ∷ˢ hex bs)),
      length-append (utf8_char (code d)) (as_bytes (hex bs)),
      (nibble_digit (b / 16 % 16) (omega arith)).1,
      (nibble_digit (b % 16) (omega arith)).1,
      even_length bs,
    )

-- The bytes that were written as hexadecimal text are read back from it.
pub unhex-hex : (bs : List ℕ) → All (λ b. b < 256) bs → unhex (hex bs) ≡ decoded bs
unfolding unhex
unhex-hex bs h =
    let e : (length (as_bytes (hex bs)) % 2 == 0) ≡ true =
      (==_iff _ _).1 (omega (arith, even_length bs)) in
    rw e (unhex_pairs-hex bs h)

abbrev pub IsAscii : String → Type 0
IsAscii []ˢ = Unit
IsAscii (c ∷ˢ s) = (code c < 128) × IsAscii s

cons_byte-ne-panics : (o : Option ℕ) (u : Unhexed) → cons_byte o u ≡ panics → u ≡ panics
cons_byte-ne-panics none u h = cc
cons_byte-ne-panics (some b) (decoded bs) h = cc
cons_byte-ne-panics (some b) malformed h = cc
cons_byte-ne-panics (some b) panics h = refl

wide : (d : Char) → 128 ≤ code d → (width d == 1) ≡ false
unfolding utf8_char
wide d h = ground arith

ascii_width : (c : Char) → code c < 128 → width c ≡ 1
unfolding utf8_char
ascii_width c h = ground arith

unhex_pairs-ascii : (s : String) → IsAscii s → length (as_bytes s) % 2 ≡ 0 → unhex_pairs s ≢ panics
unfolding unhex_pairs as_bytes
unhex_pairs-ascii []ˢ h even e = cc
unhex_pairs-ascii (c ∷ˢ []ˢ) h even e =
    absurd (omega (arith, ascii_width c h.0, length-append (utf8_char (code c)) []))
unhex_pairs-ascii (c ∷ˢ (d ∷ˢ s)) h even e =
    let rest : length (as_bytes s) % 2 ≡ 0 = omega (
      arith,
      ascii_width c h.0,
      ascii_width d h.1.0,
      length-append (utf8_char (code c)) (as_bytes (d ∷ˢ s)),
      length-append (utf8_char (code d)) (as_bytes s),
    ) in
    unhex_pairs-ascii s h.1.1 rest (
      cons_byte-ne-panics (byte_of (code c) (code d)) (unhex_pairs s)
        (ground (arith, e, ascii_width c h.0, ascii_width d h.1.0)))

-- The reader of hexadecimal text answers on every ASCII text. On a text of an even number of bytes
-- that begins with an ASCII character and then one outside ASCII it panics.
pub unhex-panics :
    (c d : Char) (s t : String)
    → (IsAscii t → unhex t ≢ panics)
      × (code c < 128
          → 128 ≤ code d
          → length (as_bytes (c ∷ˢ (d ∷ˢ s))) % 2 ≡ 0
          → unhex (c ∷ˢ (d ∷ˢ s)) ≡ panics)
unfolding unhex unhex_pairs
unhex-panics c d s t = (
  λ h. elim (Bool-cases (length (as_bytes t) % 2 == 0)) [
    | inl e ↦ rw e (unhex_pairs-ascii t h ((==_iff _ _).0 e))
    | inr e ↦ rw e (cc)
  ],
  λ hc hd even.
      let e : (length (as_bytes (c ∷ˢ (d ∷ˢ s))) % 2 == 0) ≡ true = (==_iff _ _).1 even in
      rw e (ground (arith, ascii_width c hc, wide d hd)),
)
