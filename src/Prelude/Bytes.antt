-- ===== src/Prelude/Bytes.antt =====
-- What the program uses of Rust's `str` beside `Text`: bytes, white space, prefixes and joins.
use Prim.Native.Nat.{ℕ, ◌+◌, ◌/◌, ◌%◌}
use Prim.Native.Char.{Char, code}
use Prim.Native.String.{String, [], ◌∷◌, ◌++◌}
use mathlib.Core.Path.{◌≡◌, sym, ap, ap₂, ◌∙◌}
use text.Mathlib.TextEquality.{codes_equal}
use mathlib.Core.Bool.{Bool, true, false, ◌&&◌, ◌||◌}
use mathlib.Core.Option.{Option, none, some}
use mathlib.Core.List.{List}
use mathlib.Core.List
use native.Mathlib.Omega.{arith}
use text.Mathlib.TextLemmas.{nil-append, cons-append}
use dokan.Prelude.Tests.{ltb, leb, ◌==◌, if◌then◌else◌, eq_of_some}

-- The bytes of a character in UTF-8.
abbrev cont : ℕ → ℕ
cont n = 128 + n % 64

unfoldable pub utf8_char : ℕ → List ℕ
utf8_char n =
    if ltb n 128
    then List.◌∷◌ n List.[]
    else if ltb n 2048
    then List.◌∷◌ (192 + n / 64) (List.◌∷◌ (cont n) List.[])
    else if ltb n 65536
    then List.◌∷◌ (224 + n / 4096) (List.◌∷◌ (cont (n / 64)) (List.◌∷◌ (cont n) List.[]))
    else List.◌∷◌ (240 + n / 262144)
        (List.◌∷◌ (cont (n / 4096)) (List.◌∷◌ (cont (n / 64)) (List.◌∷◌ (cont n) List.[])))

-- `s.as_bytes()`
unfoldable pub as_bytes : String → List ℕ
unfolding utf8_char
as_bytes [] = List.[]
as_bytes (c ∷ s) = List.◌++◌ (utf8_char (code c)) (as_bytes s)

-- `char::is_whitespace`, the White_Space property of Unicode.
unfoldable pub is_whitespace : ℕ → Bool
is_whitespace n =
    (leb 9 n && leb n 13)
    || n == 32
    || n == 133
    || n == 160
    || n == 5760
    || (leb 8192 n && leb n 8202)
    || n == 8232
    || n == 8233
    || n == 8239
    || n == 8287
    || n == 12288

-- `s.trim_start()`
unfoldable pub trim_start : String → String
unfolding is_whitespace
trim_start [] = []
trim_start (c ∷ s) = let rest = trim_start s in if is_whitespace (code c) then rest else c ∷ s

cons_unless_blank : Char → String → String
unfolding is_whitespace
cons_unless_blank c [] = if is_whitespace (code c) then [] else c ∷ []
cons_unless_blank c (d ∷ s) = c ∷ d ∷ s

-- `s.trim_end()`
unfoldable pub trim_end : String → String
unfolding cons_unless_blank
trim_end [] = []
trim_end (c ∷ s) = cons_unless_blank c (trim_end s)

unfoldable pub trim : String → String
unfolding trim_start trim_end
trim s = trim_end (trim_start s)

unfoldable pub is_empty : String → Bool
is_empty [] = true
is_empty (c ∷ s) = false

-- `s.strip_prefix(p)`
unfoldable pub strip_prefix : String → String → Option String
strip_prefix [] s = some s
strip_prefix (p ∷ ps) [] = none
strip_prefix (p ∷ ps) (c ∷ s) =
    let rest = strip_prefix ps s in if code p == code c then rest else none

-- `parts.join(sep)`
unfoldable pub join : String → List String → String
join sep List.[] = []
join sep (List.◌∷◌ w List.[]) = w
join sep (List.◌∷◌ w (List.◌∷◌ v ws)) = w ++ (sep ++ join sep (List.◌∷◌ v ws))

pub strip_prefix-append : (p s : String) → strip_prefix p (p ++ s) ≡ some s
unfolding strip_prefix
strip_prefix-append [] s = ap some (nil-append s)
strip_prefix-append (c ∷ p) s = rw (cons-append c p s) (ground (arith, strip_prefix-append p s))

-- `s.split_whitespace()`: a word is closed by white space and by the end.
words_from : String → String → List String
unfolding is_whitespace is_empty
words_from w [] = if is_empty w then List.[] else List.◌∷◌ w List.[]
words_from w (c ∷ s) =
    let close = words_from [] s in
    let longer = words_from (w ++ (c ∷ [])) s in
    if is_whitespace (code c) then (if is_empty w then close else List.◌∷◌ w close) else longer

unfoldable pub split_whitespace : String → List String
unfolding words_from
split_whitespace s = words_from [] s

same_char : (c d : Char) → (code c == code d) ≡ true → c ≡ d
same_char c d h = codes_equal c d (ground arith)

pub strip_prefix-some : (p s : String) {t : String} → strip_prefix p s ≡ some t → s ≡ p ++ t
unfolding strip_prefix
strip_prefix-some [] s h = eq_of_some h ∙ sym (nil-append _)
strip_prefix-some (d ∷ p) [] h = absurd (cc)
strip_prefix-some (d ∷ p) (c ∷ s) {t} h =
    let e : (code d == code c) ≡ true = ground (arith, h) in
    let rest = strip_prefix-some p s {t = t} (ground (arith, h)) in
    ap₂ ◌∷◌ (sym (same_char d c e)) rest ∙ sym (cons-append d p t)
