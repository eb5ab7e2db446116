-- ===== src/Exec/Redact.antt =====
-- src/exec.rs, `redact_secrets`: a secret that shows in a line of output is masked.
pub mod Hidden
use Prim.Native.Char.{code}
use Prim.Native.Nat.{ℕ, zero, suc, ◌-◌}
use Prim.Native.String.{String, [] as []ˢ, ◌∷◌ as ◌∷ˢ◌, ◌++◌ as ◌++ˢ◌}
use dokan.Prelude.{Bool, true, false, ◌||◌, ◌==◌, if◌then◌else◌}
use dokan.Prelude.{List, [], ◌∷◌}

unfoldable pub starts_with : String → String → Bool
starts_with []ˢ s = true
starts_with (p ∷ˢ ps) []ˢ = false
starts_with (p ∷ˢ ps) (c ∷ˢ s) =
    let rest = starts_with ps s in if code p == code c then rest else false

-- `s.contains(p)`
unfoldable pub contains : String → String → Bool
unfolding starts_with
contains p []ˢ = starts_with p []ˢ
contains p (c ∷ˢ s) = starts_with p (c ∷ˢ s) || contains p s

unfoldable pub chars : String → ℕ
chars []ˢ = 0
chars (c ∷ˢ s) = suc (chars s)

-- `s.replace(p, "***")` for a text `p` that is not empty; `skip` characters belong to the
-- occurrence that was replaced last.
unfoldable pub replace_from : String → ℕ → String → String
unfolding starts_with chars
replace_from p skip []ˢ = []ˢ
replace_from p (suc skip) (c ∷ˢ s) = replace_from p skip s
replace_from p zero (c ∷ˢ s) =
    let masked = replace_from p (chars p - 1) s in
    let kept = replace_from p 0 s in if starts_with p (c ∷ˢ s) then "***" ++ˢ masked else c ∷ˢ kept

unfoldable pub redact_secrets : String → List String → String
unfolding contains replace_from
redact_secrets out [] = out
redact_secrets out (s ∷ secrets) =
    redact_secrets (if contains s out then replace_from s 0 out else out) secrets
