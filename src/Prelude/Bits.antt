-- ===== src/Prelude/Bits.antt =====
-- Where the binary or, and the exclusive or, of two numbers are zero.
use Prim.Native.Nat.{
  ℕ, zero, suc, ◌/◌, ◌%◌, ◌≤◌, max, digits, differ, bit_or, bit_or-bitwise, bit_xor,
  bit_xor-bitwise,
}
use mathlib.Core.Path.{◌≡◌, refl, ap, ◌∙◌, sym}
use mathlib.Core.Logic.{◌↔◌}
use native.Mathlib.Omega.{arith}

differ-zero : (x y : ℕ) → differ x y ≡ 0 → x ≡ y
differ-zero zero y h = omega (arith, h)
differ-zero (suc x) zero h = absurd (omega arith)
differ-zero (suc x) (suc y) h = ap suc (differ-zero x y h)

differ_self : (x : ℕ) → differ x x ≡ 0
differ_self zero = refl
differ_self (suc x) = differ_self x

or-zero : (n a b : ℕ) → a ≤ n → digits (λ b. b) max n a b ≡ 0 → (a ≡ 0) × (b ≡ 0)
or-zero zero zero b h e = (refl, e)
or-zero zero (suc a) b h e = absurd (omega arith)
or-zero (suc n) zero b h e = (refl, e)
or-zero (suc n) (suc a) b h e =
    let (p, q) = or-zero n (suc a / 2) (b / 2) (omega arith) (omega arith) in
    (omega (arith, p, q), omega (arith, p, q))

xor-zero : (n a b : ℕ) → a ≤ n → digits (λ b. b) differ n a b ≡ 0 → a ≡ b
xor-zero zero zero b h e = sym e
xor-zero zero (suc a) b h e = absurd (omega arith)
xor-zero (suc n) zero b h e = sym e
xor-zero (suc n) (suc a) b h e = omega (
  arith,
  xor-zero n (suc a / 2) (b / 2) (omega arith) (omega arith),
  differ-zero (suc a % 2) (b % 2) (omega arith),
)

xor_self : (n a : ℕ) → a ≤ n → digits (λ b. b) differ n a a ≡ 0
xor_self zero zero h = refl
xor_self zero (suc a) h = absurd (omega arith)
xor_self (suc n) zero h = refl
xor_self (suc n) (suc a) h =
    omega (arith, xor_self n (suc a / 2) (omega arith), differ_self (suc a % 2))

pub bit_or-zero_iff : (a b : ℕ) → (bit_or a b ≡ 0) ↔ ((a ≡ 0) × (b ≡ 0))
bit_or-zero_iff a b =
    (λ h. or-zero a a b (omega arith) (sym (bit_or-bitwise a b) ∙ h), λ h. rw (h.0, h.1) refl)

pub bit_xor-zero_iff : (a b : ℕ) → (bit_xor a b ≡ 0) ↔ (a ≡ b)
bit_xor-zero_iff a b = (
  λ h. xor-zero a a b (omega arith) (sym (bit_xor-bitwise a b) ∙ h),
  λ h. rw h (bit_xor-bitwise b b ∙ xor_self b b (omega arith)),
)
