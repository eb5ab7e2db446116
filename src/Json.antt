-- ===== src/Json.antt =====
-- The JSON values of serde_json that the program reads: the value type and the accessors that the
-- source calls. A float is its IEEE 754 bit pattern; text is parsed and printed by serde_json itself.
use Prim.Native.Nat.{◌^◌}
use dokan.Prelude.{
  ℕ, String, Bool, true, false, ◌||◌, Option, none, some, List, [], ◌∷◌, ltb, ◌==◌, str_eq,
  if◌then◌else◌,
}
use dokan.Prelude.Int.{ℤ, pos, negsuc}

-- serde_json keeps a number as `u64`, as a negative `i64` or as `f64`. `neg_int n` is -(n + 1).
pub data Number : Type 0 where
  pos_int neg_int float : ℕ → Number

mutual
  pub data Value : Type 0 where
    null : Value
    bool : Bool → Value
    number : Number → Value
    string : String → Value
    array : Items → Value
    object : Fields → Value

  pub data Items : Type 0 where
    nil : Items
    cons : Value → Items → Items

  pub data Fields : Type 0 where
    end : Fields
    field : String → Value → Fields → Fields

unfoldable pub to_list : Items → List Value
to_list nil = []
to_list (cons v vs) = v ∷ to_list vs

unfoldable pub of_list : List Value → Items
of_list [] = nil
of_list (v ∷ vs) = cons v (of_list vs)

unfoldable pub lookup : String → Fields → Option Value
lookup k end = none
lookup k (field j v fs) = if str_eq j k then some v else lookup k fs

-- `Map::insert`: the value of a key that is there is replaced.
unfoldable pub insert : String → Value → Fields → Fields
insert k v end = field k v end
insert k v (field j w fs) = if str_eq j k then field k v fs else field j w (insert k v fs)

-- `Value::get` at a text index: only an object has keys.
unfoldable pub get : String → Value → Option Value
unfolding lookup
get k (object fs) = lookup k fs
get k _ = none

unfoldable pub as_str : Value → Option String
as_str (string s) = some s
as_str _ = none

unfoldable pub as_array : Value → Option (List Value)
unfolding to_list
as_array (array vs) = some (to_list vs)
as_array _ = none

unfoldable pub as_bool : Value → Option Bool
as_bool (bool b) = some b
as_bool _ = none

unfoldable pub as_i64 : Value → Option ℤ
as_i64 (number (pos_int n)) = if ltb n (2 ^ 63) then some (pos n) else none
as_i64 (number (neg_int n)) = some (negsuc n)
as_i64 _ = none

unfoldable pub as_u64 : Value → Option ℕ
as_u64 (number (pos_int n)) = some n
as_u64 _ = none

abbrev pub is_some {ℓ} : {A : Type ℓ} → Option A → Bool
is_some none = false
is_some (some a) = true

-- Whether a number is a zero: `pos_int 0`, or the float +0.0 or -0.0.
unfoldable pub is_zero : Number → Bool
is_zero (pos_int n) = n == 0
is_zero (neg_int n) = false
is_zero (float bits) = bits == 0 || bits == 2 ^ 63
