-- ===== src/Prelude/Result.antt =====
-- Rust's `Result`, and the chain of `?`.
use mathlib.Core.Path.{◌≡◌, ap}

pub data Result {ℓ κ} (A : Type ℓ) (E : Type κ) : Type (ℓ ⊔ κ) where
  ok : A → Result A E
  err : E → Result A E

infixl 5 ◌>>=◌
abbrev pub ◌>>=◌ {ℓ κ μ} :
    {A : Type ℓ} {B : Type κ} {E : Type μ} → Result A E → (A → Result B E) → Result B E
ok a >>= f = f a
err e >>= f = err e

abbrev ok_or {ℓ κ} : {A : Type ℓ} {E : Type κ} → A → Result A E → A
ok_or d (ok a) = a
ok_or d (err e) = d

pub eq_of_ok {ℓ κ} :
    {A : Type ℓ} {E : Type κ} {a b : A} → ◌≡◌ {A = Result A E} (ok a) (ok b) → a ≡ b
eq_of_ok {a = a} e = ap (ok_or a) e
