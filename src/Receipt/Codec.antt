-- ===== src/Receipt/Codec.antt =====
-- src/receipt.rs: hexadecimal text, and the encoding of what is signed (DSSE). A panic of the decoder
-- is a result of its own.
use Prim.Native.Char.{Char, code}
use Prim.Native.String.{[] as []ˢ, ◌∷◌ as ◌∷ˢ◌}
use dokan.Prelude.{
  ℕ, zero, suc, ◌+◌, ◌-◌, ◌*◌, ◌/◌, ◌%◌, String, ◌&&◌, Option, none, some, List, [], ◌∷◌, ◌++◌,
  length, ltb, leb, ◌==◌, if◌then◌else◌, as_bytes, utf8_char,
}

-- A digit of `{:02x}`.
unfoldable pub nibble : ℕ → String → Char
nibble n []ˢ = "0"
nibble zero (c ∷ˢ s) = c
nibble (suc n) (c ∷ˢ s) = nibble n s

unfoldable pub hex : List ℕ → String
unfolding nibble
hex [] = []ˢ
hex (b ∷ bs) =
    nibble (b / 16 % 16) "0123456789abcdef" ∷ˢ (nibble (b % 16) "0123456789abcdef" ∷ˢ hex bs)

unfoldable pub digit_of : ℕ → Option ℕ
digit_of c =
    if leb 48 c && leb c 57
    then some (c - 48)
    else if leb 97 c && leb c 102
    then some (c - 87)
    else if leb 65 c && leb c 70
    then some (c - 55)
    else none

abbrev both : Option ℕ → Option ℕ → Option ℕ
both (some a) (some b) = some (a * 16 + b)
both _ _ = none

-- `u8::from_str_radix(.., 16)` of two ASCII characters, which takes a leading `+`.
unfoldable pub byte_of : ℕ → ℕ → Option ℕ
unfolding digit_of
byte_of c d = if c == 43 then digit_of d else both (digit_of c) (digit_of d)

pub data Unhexed : Type 0 where
  decoded : List ℕ → Unhexed
  malformed : Unhexed
  panics : Unhexed

abbrev pub cons_byte : Option ℕ → Unhexed → Unhexed
cons_byte none rest = malformed
cons_byte (some b) (decoded bs) = decoded (b ∷ bs)
cons_byte (some b) malformed = malformed
cons_byte (some b) panics = panics

abbrev pub width : Char → ℕ
unfolding utf8_char
width c = length (utf8_char (code c))

-- The slices `s[i..i + 2]` from left to right, up to the first that is no byte. A slice that does
-- not begin and end between two characters panics.
unfoldable pub unhex_pairs : String → Unhexed
unfolding byte_of
unhex_pairs []ˢ = decoded []
unhex_pairs (c ∷ˢ []ˢ) = if width c == 2 then malformed else panics
unhex_pairs (c ∷ˢ (d ∷ˢ s)) =
    let rest = unhex_pairs s in
    if width c == 2
    then malformed
    else if width c == 1 && width d == 1
    then cons_byte (byte_of (code c) (code d)) rest
    else panics

unfoldable pub unhex : String → Unhexed
unfolding unhex_pairs as_bytes
unhex s = if length (as_bytes s) % 2 == 0 then unhex_pairs s else malformed

-- `n.to_string().as_bytes()`; a `usize` has 20 digits at most.
unfoldable pub decimal_bytes : ℕ → ℕ → List ℕ
decimal_bytes zero n = (48 + n % 10) ∷ []
decimal_bytes (suc fuel) n =
    let front = decimal_bytes fuel (n / 10) in
    if ltb n 10 then (48 + n % 10) ∷ [] else front ++ (48 + n % 10) ∷ []

unfoldable pub dsse_pae : List ℕ → List ℕ → List ℕ
unfolding decimal_bytes as_bytes
dsse_pae payload_type payload =
    as_bytes "DSSEv1 "
    ++ (decimal_bytes 20 (length payload_type)
        ++ (32 ∷ (payload_type ++ (32 ∷ (decimal_bytes 20 (length payload) ++ (32 ∷ payload))))))
