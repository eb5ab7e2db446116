-- ===== src/Flow/Spec.antt =====
-- src/flow.rs, `validate_spec`: what is refused, in the order of the checks. The source goes through
-- the dependencies in the order of a HashMap: here that is the order of the steps.
pub mod Accepted
use Prim.Native.String.{◌++◌ as ◌++ˢ◌}
use dokan.Prelude.{
  ℕ, String, Bool, true, false, not, ◌&&◌, ◌||◌, Option, none, some, List, [], ◌∷◌, ◌++◌, any,
  str_eq, contains_char, if◌then◌else◌,
}
use dokan.Json.{Value, get, as_str, as_array, as_i64, as_u64, as_bool, is_some}
use dokan.Db.Flows.{or_else, and_then, depends_on}
use dokan.Flow.Cycles.{Edges, has_cycle}

abbrev pub none_of {ℓ} : {A : Type ℓ} → Option A → Bool
none_of none = true
none_of (some a) = false

-- A field that is there and fails the test.
abbrev pub is_bad : (Value → Bool) → Option Value → Bool
is_bad p none = false
is_bad p (some v) = not (p v)

abbrev pub when_ref_missing : Option Value → Bool
when_ref_missing none = false
when_ref_missing (some w) = none_of (and_then (get "ref" w) as_str)

abbrev pub when_op : Option Value → String
when_op none = "truthy"
when_op (some w) = or_else (and_then (get "op" w) as_str) "truthy"

abbrev pub known_ops : List String
known_ops = "eq" ∷ "ne" ∷ "contains" ∷ "truthy" ∷ "falsy" ∷ []

-- The first complaint of a list of checks.
abbrev pub first_error : List (Bool × String) → Option String
first_error [] = none
first_error ((bad, message) ∷ rest) = if bad then some message else first_error rest

unfoldable pub check_step : List String → String → Value → Option String
check_step ids id st = first_error (
    (any (str_eq id) ids, "duplicate step id: " ++ˢ id)
    ∷ (contains_char 35 id, "step id may not contain '#': " ++ˢ id)
    ∷ (none_of (and_then (get "script_id" st) as_i64), "step " ++ˢ (id ++ˢ " missing script_id"))
    ∷ (
      is_bad (λ c. is_some (as_i64 c)) (get "compensate" st),
      "step " ++ˢ (id ++ˢ " compensate must be a script_id (int)"),
    )
    ∷ (
      is_bad (λ m. is_some (as_str m)) (get "map" st),
      "step " ++ˢ (id ++ˢ " map must be a string ref"),
    )
    ∷ (
      is_bad (λ r. is_some (as_u64 r)) (get "retries" st),
      "step " ++ˢ (id ++ˢ " retries must be a non-negative int"),
    )
    ∷ (
      is_bad (λ c. is_some (as_bool c)) (get "cache" st),
      "step " ++ˢ (id ++ˢ " cache must be a boolean"),
    )
    ∷ (when_ref_missing (get "when" st), "step " ++ˢ (id ++ˢ " when needs a string ref"))
    ∷ (
      not (any (str_eq (when_op (get "when" st))) known_ops),
      "step " ++ˢ (id ++ˢ (" when.op invalid: " ++ˢ when_op (get "when" st))),
    )
    ∷ [])

pub data Collected : Type 0 where
  err : String → Collected
  ok : List String → Edges → Collected

unfoldable pub id_of : Value → Option String
id_of st = and_then (get "id" st) as_str

unfoldable pub collect : List Value → List String → Edges → Collected
unfolding check_step
collect [] ids edges = ok ids edges
collect (st ∷ sts) ids edges = elim (id_of st) [
  | none ↦ err "each step needs a string id"
  | some id ↦ elim (check_step ids id st) [
    | some e ↦ err e
    | none ↦ collect sts (ids ++ id ∷ []) (edges ++ (id, depends_on st) ∷ [])
  ]
]

abbrev pub unknown_dep : List String → String → List String → Option String
unknown_dep ids id [] = none
unknown_dep ids id (d ∷ ds) =
    if any (str_eq d) ids
    then unknown_dep ids id ds
    else some ("step " ++ˢ (id ++ˢ (" depends on unknown step " ++ˢ d)))

abbrev pub first_of {ℓ} : {A : Type ℓ} → Option A → Option A → Option A
first_of none o = o
first_of (some a) o = some a

abbrev pub unknown_deps : List String → Edges → Option String
unknown_deps ids [] = none
unknown_deps ids ((id, ds) ∷ es) = first_of (unknown_dep ids id ds) (unknown_deps ids es)

pub data Verdict : Type 0 where
  valid : Verdict
  invalid : String → Verdict

abbrev pub acyclic_verdict : Option Bool → Option Verdict
acyclic_verdict none = none
acyclic_verdict (some true) = some (Verdict.invalid "flow spec has a cycle")
acyclic_verdict (some false) = some Verdict.valid

abbrev pub judge : Collected → Option Verdict
judge (err e) = some (Verdict.invalid e)
judge (ok ids edges) = elim (unknown_deps ids edges) [
  | some e ↦ some (Verdict.invalid e)
  | none ↦ acyclic_verdict (has_cycle edges)
]

abbrev pub of_steps : Option (List Value) → Option Verdict
unfolding collect
of_steps none = some (Verdict.invalid "spec.steps must be an array")
of_steps (some []) = some (Verdict.invalid "spec.steps is empty")
of_steps (some (st ∷ sts)) = judge (collect (st ∷ sts) [] [])

-- `none`: the search for a cycle ran out of fuel.
unfoldable pub validate_spec : Value → Option Verdict
unfolding of_steps
validate_spec spec = of_steps (and_then (get "steps" spec) as_array)
