-- ===== src/Flow.antt =====
-- src/flow.rs: the values that a flow computes with: references, gates, dependencies, and the
-- aggregation of a fan-out. JSON text is printed and read by serde_json.
pub mod Aggregate
pub mod Cycles
pub mod Spec
pub mod Engine
pub mod Moves
pub mod Drive
use Prim.Native.String.{◌++◌}
use dokan.Prelude.{
  ℕ, suc, ◌+◌, String, Bool, true, false, not, ◌&&◌, ◌||◌, Option, none, some, List, [], ◌∷◌, map,
  any, find?, filter, ltb, leb, ◌==◌, str_eq, if◌then◌else◌, split, last_part, contains, parse_u64,
}
use text.Mathlib.Text.{starts_with}
use dokan.Json.{Number, Value, Items, Fields, of_list, insert, get, as_str, is_zero}
use dokan.Db.{StepStatus, FlowStep}
use dokan.Db.Flows.{or_else, and_then}

abbrev pub max_map_fanout : ℕ
max_map_fanout = 1000

unfoldable pub fanout_within_cap : ℕ → Bool
fanout_within_cap n = leb n max_map_fanout

-- `pending | running | expanded`
abbrev pub is_active : StepStatus → Bool
is_active StepStatus.pending = true
is_active StepStatus.running = true
is_active StepStatus.expanded = true
is_active _ = false

abbrev pub has_failed : StepStatus → Bool
has_failed StepStatus.failed = true
has_failed _ = false

abbrev pub has_succeeded : StepStatus → Bool
has_succeeded StepStatus.succeeded = true
has_succeeded _ = false

pub data Agg : Type 0 where
  succeeded : String → Agg
  failed : Agg

abbrev pub child_index : FlowStep → ℕ
child_index c = or_else (parse_u64 (last_part 35 c.step_id)) 0

-- `sort_by_key`, which is stable.
abbrev pub insert_by_index : FlowStep → List FlowStep → List FlowStep
insert_by_index c [] = c ∷ []
insert_by_index c (d ∷ ds) =
    let rest = insert_by_index c ds in
    if leb (child_index c) (child_index d) then c ∷ d ∷ ds else d ∷ rest

unfoldable pub sort_by_index : List FlowStep → List FlowStep
sort_by_index [] = []
sort_by_index (c ∷ cs) = insert_by_index c (sort_by_index cs)

abbrev pub slot_of : StepStatus → Option String → Value
slot_of StepStatus.succeeded (some o) = Value.string o
slot_of _ _ = Value.null

abbrev pub slot : FlowStep → Value
slot c = slot_of c.status c.output

abbrev pub child_of : String → FlowStep → Bool
child_of parent s = starts_with s.step_id (parent ++ "#")

-- serde_json's printer and parser.
pub record Serde : Type 0 where
  pub to_string : Value → String
  pub from_str : String → Option Value

module _ (serde : Serde) where
  abbrev pub aggregate : List FlowStep → Option Agg
  aggregate [] = none
  aggregate (c ∷ cs) =
      if any (λ s. is_active s.status) (c ∷ cs)
      then none
      else if any (λ s. has_failed s.status) (c ∷ cs)
      then some Agg.failed
      else some (
          Agg.succeeded
            (serde.to_string (Value.array (of_list (map slot (sort_by_index (c ∷ cs)))))))

  unfoldable pub aggregate_children : List FlowStep → String → Option Agg
  unfolding sort_by_index
  aggregate_children steps parent = aggregate (filter (child_of parent) steps)

  -- A text that reads as JSON is decoded.
  abbrev pub decoded : Value → Value
  decoded (Value.string s) = or_else (serde.from_str s) (Value.string s)
  decoded v = v

  unfoldable pub walk : List String → Value → Option Value
  walk [] cur = some (decoded cur)
  walk (p ∷ ps) cur = and_then (get p (decoded cur)) (walk ps)

  abbrev pub from_root : List String → Value → Value → Option Value
  unfolding walk
  from_root [] flow_input deps = none
  from_root (root ∷ ps) flow_input deps =
      if str_eq root "flow_input"
      then walk ps flow_input
      else if str_eq root "deps"
      then walk ps deps
      else none

  unfoldable pub resolve_ref : String → Value → Value → Option Value
  unfolding from_root
  resolve_ref r flow_input deps = from_root (split 46 r) flow_input deps

  unfoldable pub coerce_str : Value → String
  coerce_str (Value.string s) = s
  coerce_str other = serde.to_string other

  unfoldable pub is_truthy : Value → Bool
  is_truthy Value.null = false
  is_truthy (Value.bool b) = b
  is_truthy (Value.number n) = not (is_zero n)
  is_truthy (Value.string s) = not (str_eq s "") && not (str_eq s "false") && not (str_eq s "0")
  is_truthy (Value.array Items.nil) = false
  is_truthy (Value.array (Items.cons v vs)) = true
  is_truthy (Value.object Fields.end) = false
  is_truthy (Value.object (Fields.field k v fs)) = true

  unfoldable pub eval_when : Value → Value → Value → Bool
  unfolding resolve_ref coerce_str is_truthy
  eval_when cond flow_input deps =
      let r = or_else (and_then (get "ref" cond) as_str) "" in
      let op = or_else (and_then (get "op" cond) as_str) "truthy" in
      let actual = or_else (resolve_ref r flow_input deps) Value.null in
      let expected = or_else (get "value" cond) Value.null in
      if str_eq op "eq"
      then str_eq (coerce_str actual) (coerce_str expected)
      else if str_eq op "ne"
      then not (str_eq (coerce_str actual) (coerce_str expected))
      else if str_eq op "contains"
      then contains (coerce_str actual) (coerce_str expected)
      else if str_eq op "falsy"
      then not (is_truthy actual)
      else is_truthy actual

-- The outputs of the succeeded steps, by step id.
abbrev pub output_of : String → List (String × String) → Option String
output_of d [] = none
output_of d ((id, o) ∷ os) = if str_eq id d then some o else output_of d os

abbrev pub add_dep : String → Option String → Fields → Fields
add_dep d none fs = fs
add_dep d (some o) fs = insert d (Value.string o) fs

unfoldable pub collect_deps : List String → List (String × String) → Fields → Fields
collect_deps [] outputs fs = fs
collect_deps (d ∷ ds) outputs fs = collect_deps ds outputs (add_dep d (output_of d outputs) fs)

unfoldable pub build_deps : List String → List (String × String) → Value
unfolding collect_deps
build_deps depends_on outputs = Value.object (collect_deps depends_on outputs Fields.end)
