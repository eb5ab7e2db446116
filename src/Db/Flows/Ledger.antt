-- ===== src/Db/Flows/Ledger.antt =====
-- One idempotency key stands for one flow run, and a ledger holds each step once.
use dokan.Prelude.{
  ℕ, String, Bool, true, ◌≡◌, refl, ap, ◌∙◌, inl, inr, List, [], ◌∷◌, arith, any, any-append,
  Bool-cases, update_where,
}
use text.Mathlib.TextPositions.{eq_refl}
use dokan.Db.{FlowStep, StepStatus, Db}
use dokan.Db.Flows.{is_step}
use dokan.Db.Flows.Drive.{Child, child_step, add_children, expand_map_step}

-- A step that is in the ledger stays in it.
in-add_children :
    (fr : ℕ) (id : String) (cache : Bool) (cs : List Child) (steps : List FlowStep)
    → any (is_step fr id) steps ≡ true
    → any (is_step fr id) (add_children fr cache cs steps) ≡ true
unfolding add_children
in-add_children fr id cache [] steps h = h
in-add_children fr id cache (c ∷ cs) steps h =
    elim (Bool-cases (any (is_step fr c.step_id) steps)) [
      | inl e ↦ rw e (in-add_children fr id cache cs steps h)
      | inr e ↦
          rw e (in-add_children fr id cache cs _ (any-append (is_step fr id) steps _ ∙ rw h refl))
    ]

abbrev AllIn : ℕ → List Child → List FlowStep → Type 0
AllIn fr [] steps = Unit
AllIn fr (c ∷ cs) steps = (any (is_step fr c.step_id) steps ≡ true) × AllIn fr cs steps

is_step_self :
    (fr : ℕ) (cache : Bool) (c : Child) → is_step fr c.step_id (child_step fr cache c) ≡ true
is_step_self fr cache c = rw eq_refl (ground arith)

-- Every child has its row afterwards.
add_children-AllIn :
    (fr : ℕ) (cache : Bool) (cs : List Child) (steps : List FlowStep)
    → AllIn fr cs (add_children fr cache cs steps)
unfolding add_children
add_children-AllIn fr cache [] steps = tt
add_children-AllIn fr cache (c ∷ cs) steps = elim (Bool-cases (any (is_step fr c.step_id) steps)) [
  | inl e ↦
      rw e (in-add_children fr c.step_id cache cs steps e, add_children-AllIn fr cache cs steps)
  | inr e ↦ rw e (
    in-add_children fr c.step_id cache cs _
        (any-append (is_step fr c.step_id) steps _ ∙ rw (e, is_step_self fr cache c) refl),
    add_children-AllIn fr cache cs _,
  )
]

-- Children that all have rows add none.
add_children-again :
    (fr : ℕ) (cache : Bool) (cs : List Child) (steps : List FlowStep)
    → AllIn fr cs steps
    → add_children fr cache cs steps ≡ steps
unfolding add_children
add_children-again fr cache [] steps h = refl
add_children-again fr cache (c ∷ cs) steps (h, hs) = rw h (add_children-again fr cache cs steps hs)

abbrev expanded : FlowStep → FlowStep
expanded st = record st { status = StepStatus.expanded }

any-expanded :
    (fr : ℕ) (id : String) (q : FlowStep → Bool) (steps : List FlowStep)
    → any (is_step fr id) (update_where q expanded steps) ≡ any (is_step fr id) steps
unfolding update_where
any-expanded fr id q [] = refl
any-expanded fr id q (st ∷ steps) = ground (arith, any-expanded fr id q steps)

AllIn-expanded :
    (fr : ℕ) (cs : List Child) (q : FlowStep → Bool) (steps : List FlowStep)
    → AllIn fr cs steps
    → AllIn fr cs (update_where q expanded steps)
AllIn-expanded fr [] q steps h = tt
AllIn-expanded fr (c ∷ cs) q steps (h, hs) =
    (any-expanded fr c.step_id q steps ∙ h, AllIn-expanded fr cs q steps hs)

expanded-twice :
    (fr : ℕ) (id : String) (steps : List FlowStep)
    → update_where (is_step fr id) expanded (update_where (is_step fr id) expanded steps)
      ≡ update_where (is_step fr id) expanded steps
unfolding update_where
expanded-twice fr id [] = refl
expanded-twice fr id (st ∷ steps) = elim (Bool-cases (is_step fr id st)) [
  | inl e ↦ rw (e, expanded-twice fr id steps) (rw e refl)
  | inr e ↦ rw (e, expanded-twice fr id steps) (rw e refl)
]

-- Expanding a `map` step again, as an engine that resumes the flow does, changes nothing: the
-- children have their rows, and keep the states they have reached.
pub expand_map_step_again :
    (fr : ℕ) (parent : String) (children : List Child) (cache cache' : Bool) (db : Db)
    → expand_map_step fr parent children cache' (expand_map_step fr parent children cache db)
      ≡ expand_map_step fr parent children cache db
unfolding expand_map_step
expand_map_step_again fr parent children cache cache' db =
    let all_in = add_children-AllIn fr cache children db.flow_steps in
    let same =
      add_children-again fr cache' children _
        (AllIn-expanded fr children (is_step fr parent) _ all_in) in
    rw same (
      ap (λ (steps : List FlowStep). record db { flow_steps = steps }) (expanded-twice fr parent _))
