-- ===== src/Worker/Input.antt =====
-- What a stateful monitor reads: its own input, and its previous result under `prev_result`.
use dokan.Prelude.{String, ◌≡◌, ◌≢◌, refl, Option, some, arith, str_eq, eq_iff, if◌then◌else◌}
use dokan.Json.{Value, Fields, object, end, field, lookup, insert, get}
use dokan.Worker.{or_null, with_prev_result}

pub lookup-insert :
    (k j : String) (v : Value) (fs : Fields)
    → lookup j (insert k v fs) ≡ (if str_eq k j then some v else lookup j fs)
unfolding lookup insert
lookup-insert k j v end = refl
lookup-insert k j v (field i w fs) =
    ground (arith, eq_iff k j, eq_iff i k, eq_iff i j, lookup-insert k j v fs)

-- Whatever the input, the previous result, or null on the first run, is under `prev_result`.
pub get-with_prev_result :
    (prev : Option Value) (input : Value)
    → get "prev_result" (with_prev_result prev input) ≡ some (or_null prev)
unfolding get with_prev_result
get-with_prev_result prev (object fs) = lookup-insert "prev_result" "prev_result" (or_null prev) fs
get-with_prev_result prev _ = refl

-- The other keys of an object are what they were.
pub get-with_prev_result_ne :
    (prev : Option Value) (fs : Fields) (k : String)
    → k ≢ "prev_result"
    → get k (with_prev_result prev (object fs)) ≡ get k (object fs)
unfolding get with_prev_result
get-with_prev_result_ne prev fs k h =
    ground (arith, lookup-insert "prev_result" k (or_null prev) fs, eq_iff "prev_result" k)
