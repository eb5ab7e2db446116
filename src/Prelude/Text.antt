-- ===== src/Prelude/Text.antt =====
-- What the program uses of Rust's `str`: splitting, searching and parsing a number.
use Prim.Native.Char.{Char, code}
use Prim.Native.String.{String, [], ◌∷◌, ◌++◌, slice}
use mathlib.Core.Bool.{Bool, false, ◌&&◌, ◌||◌}
use mathlib.Core.Option.{Option, none, some}
use mathlib.Core.List.{List}
use Prim.Native.Nat.{ℕ, zero, suc, ◌+◌, ◌-◌, ◌*◌, ◌/◌, ◌%◌, ◌^◌}
use text.Mathlib.Text.{starts_with}
use dokan.Prelude.Tests.{ltb, leb, ◌==◌, if◌then◌else◌}

-- `s.split(c)`: the parts between the separators, one at least.
push : Char → List String → List String
push d List.[] = List.◌∷◌ (d ∷ []) List.[]
push d (List.◌∷◌ w ws) = List.◌∷◌ (d ∷ w) ws

unfoldable pub split : ℕ → String → List String
unfolding push
split c [] = List.◌∷◌ [] List.[]
split c (d ∷ s) = let rest = split c s in if code d == c then List.◌∷◌ [] rest else push d rest

last_or : String → List String → String
last_or d List.[] = d
last_or d (List.◌∷◌ w ws) = last_or w ws

-- `s.rsplit(c).next()`
unfoldable pub last_part : ℕ → String → String
unfolding split last_or
last_part c s = last_or [] (split c s)

unfoldable pub contains_char : ℕ → String → Bool
contains_char c [] = false
contains_char c (d ∷ s) = code d == c || contains_char c s

-- `s.contains(t)`
unfoldable pub contains : String → String → Bool
contains [] t = starts_with [] t
contains (c ∷ s) t = starts_with (c ∷ s) t || contains s t

pub is_digit : ℕ → Bool
is_digit n = leb 48 n && leb n 57

-- The digits after those read so far; `none` at another character and past `u64::MAX`.
scan : String → ℕ → Option ℕ
unfolding is_digit
scan [] n = some n
scan (c ∷ s) n =
    let m = n * 10 + (code c - 48) in
    let rest = scan s m in if is_digit (code c) && ltb m (2 ^ 64) then rest else none

-- `s.parse::<u64>()`, which takes one leading `+`.
unfoldable pub parse_u64 : String → Option ℕ
unfolding scan
parse_u64 [] = none
parse_u64 (c ∷ []) = scan (c ∷ []) 0
parse_u64 (c ∷ d ∷ s) = if code c == 43 then scan (d ∷ s) 0 else scan (c ∷ d ∷ s) 0

-- A digit, and a number in decimal. A `u64` has 20 digits at most, and an `i64` fewer.
digit : ℕ → String
digit d = slice "0123456789" d (d + 1)

digits : ℕ → ℕ → String
unfolding digit
digits zero n = digit (n % 10)
digits (suc fuel) n =
    let front = digits fuel (n / 10) in if ltb n 10 then digit n else front ++ digit (n % 10)

-- `n.to_string()`
unfoldable pub decimal : ℕ → String
unfolding digits
decimal n = digits 20 n
