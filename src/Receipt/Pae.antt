-- ===== src/Receipt/Pae.antt =====
-- What is signed determines what it was made of.
use dokan.Prelude.{
  ℕ, zero, suc, ◌+◌, ◌-◌, ◌*◌, ◌/◌, ◌%◌, ◌^◌, ◌<◌, ◌≤◌, ◌≡◌, refl, sym, ap, ◌∙◌, List, [], ◌∷◌,
  ◌++◌, length, ltb, arith, All, All-append, as_bytes, Bool-cases, inl, inr,
}
use dokan.Receipt.Codec.{decimal_bytes, dsse_pae}

value_from : ℕ → List ℕ → ℕ
value_from acc [] = acc
value_from acc (c ∷ cs) = value_from (acc * 10 + (c - 48)) cs

value_from-concat :
    (acc : ℕ) (xs : List ℕ) (c : ℕ)
    → value_from acc (xs ++ c ∷ []) ≡ value_from acc xs * 10 + (c - 48)
unfolding value_from
value_from-concat acc [] c = refl
value_from-concat acc (x ∷ xs) c = value_from-concat (acc * 10 + (x - 48)) xs c

-- The digits of a number determine it.
value-decimal_bytes : (fuel n : ℕ) → n < 10 ^ suc fuel → value_from 0 (decimal_bytes fuel n) ≡ n
unfolding decimal_bytes value_from
value-decimal_bytes zero n h = omega arith
value-decimal_bytes (suc fuel) n h = elim (Bool-cases (ltb n 10)) [
  | inl e ↦ rw e (ground (arith, e))
  | inr e ↦
      let front = decimal_bytes fuel (n / 10) in
      rw e (
        omega (
          arith,
          value_from-concat 0 front (48 + n % 10),
          value-decimal_bytes fuel (n / 10) (omega arith),
        ))
]

decimal_bytes-digits : (fuel n : ℕ) → All (λ c. 48 ≤ c) (decimal_bytes fuel n)
unfolding decimal_bytes
decimal_bytes-digits zero n = (omega arith, tt)
decimal_bytes-digits (suc fuel) n = elim (Bool-cases (ltb n 10)) [
  | inl e ↦ rw e (omega arith, tt)
  | inr e ↦ rw e (
      All-append (λ c. 48 ≤ c) (decimal_bytes fuel (n / 10)) _ (decimal_bytes-digits fuel (n / 10))
        (omega arith, tt))
]

-- Two texts of digits, each up to its first space.
split_at_space :
    (xs ys a b : List ℕ)
    → All (λ c. 48 ≤ c) xs
    → All (λ c. 48 ≤ c) ys
    → xs ++ (32 ∷ a) ≡ ys ++ (32 ∷ b)
    → (xs ≡ ys) × (a ≡ b)
split_at_space [] [] a b hx hy e = (refl, ground arith)
split_at_space [] (y ∷ ys) a b hx hy e = absurd (ground arith)
split_at_space (x ∷ xs) [] a b hx hy e = absurd (ground arith)
split_at_space (x ∷ xs) (y ∷ ys) a b hx hy e =
    let (p, q) = split_at_space xs ys a b hx.1 hy.1 (ground arith) in (ground arith, q)

-- Two texts of one length.
split_at_length :
    (xs ys a b : List ℕ) → length xs ≡ length ys → xs ++ a ≡ ys ++ b → (xs ≡ ys) × (a ≡ b)
split_at_length [] [] a b h e = (refl, e)
split_at_length [] (y ∷ ys) a b h e = absurd (omega (arith, h))
split_at_length (x ∷ xs) [] a b h e = absurd (omega (arith, h))
split_at_length (x ∷ xs) (y ∷ ys) a b h e =
    let (p, q) = split_at_length xs ys a b (omega (arith, h)) (ground arith) in (ground arith, q)

-- No two pairs of a type and a payload, of fewer than 2^64 bytes of type, are signed as the same
-- bytes: a signature on the encoding of one pair is not a signature on another.
pub dsse_pae-injective :
    (t u p q : List ℕ)
    → length t < 2 ^ 64
    → length u < 2 ^ 64
    → dsse_pae t p ≡ dsse_pae u q
    → (t ≡ u) × (p ≡ q)
unfolding dsse_pae as_bytes
dsse_pae-injective t u p q small small' e =
    let (d, e') =
      split_at_space (decimal_bytes 20 (length t)) (decimal_bytes 20 (length u)) _ _
        (decimal_bytes-digits 20 (length t)) (decimal_bytes-digits 20 (length u))
        (split_at_length (as_bytes "DSSEv1 ") (as_bytes "DSSEv1 ") _ _ refl e).1 in
    let same : length t ≡ length u =
      sym (value-decimal_bytes 20 (length t) (omega arith))
      ∙ ap (value_from 0) d
      ∙ value-decimal_bytes 20 (length u) (omega arith) in
    let (tu, e'') = split_at_length t u _ _ same e' in
    (
      tu,
      (split_at_space (decimal_bytes 20 (length p)) (decimal_bytes 20 (length q)) p q
          (decimal_bytes-digits 20 (length p)) (decimal_bytes-digits 20 (length q))
          (ground (arith, e''))).1,
    )
