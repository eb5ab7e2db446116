-- ===== src/Db/Queue/Claim.antt =====
-- `claim_run` takes the oldest run that the worker can serve, and no run is claimed twice.
use dokan.Prelude.{
  ℕ, ◌≤◌, String, Bool, true, false, ◌≡◌, refl, sym, ap, ◌≢◌, ◌↔◌, inl, inr, none, some, subst, ◌∙◌,
  All-mem, eq_of_some, List, [], ◌∷◌, Memᴰ, arith, All, mem-of-update_where, Bool-cases,
  Option-cases, ltb,
}
use mathlib.Core.Bool.{false≢true}
use mathlib.Core.List.Memᴰ
use dokan.Db.{Status, Run, Db}
use dokan.Db.Runs.{has_id, update_run}
use dokan.Db.Queue.{or_lower, lowest, eligible, start, ClaimedJob, claim_run}

-- A run that passes, with the least identifier of those that pass.
pub record IsLowest (p : Run → Bool) (rs : List Run) (r : Run) : Type 0 where
  pub member : Memᴰ r rs
  pub passes : p r ≡ true
  pub least : (s : Run) → Memᴰ s rs → p s ≡ true → r.id ≤ s.id

lowest-none : (p : Run → Bool) (rs : List Run) → lowest p rs ≡ none → All (λ r. p r ≡ false) rs
unfolding lowest
lowest-none p [] h = tt
lowest-none p (r ∷ rs) h = elim (Bool-cases (p r)) [
  | inl e ↦ absurd (ground arith)
  | inr e ↦ (e, lowest-none p rs (rw e at h))
]

lowest-none_of : (p : Run → Bool) (rs : List Run) → All (λ r. p r ≡ false) rs → lowest p rs ≡ none
unfolding lowest
lowest-none_of p [] h = refl
lowest-none_of p (r ∷ rs) h = rw h.0 (lowest-none_of p rs h.1)

module _ (p : Run → Bool) (x : Run) (rs : List Run) where
  later_head : {y : Run} → p x ≡ false → IsLowest p rs y → IsLowest p (x ∷ rs) y
  later_head {y} e k = record {
    member = Memᴰ.tail k.member;
    passes = k.passes;
    least = λ s m t. elim (Memᴰ.cases_cons m) [
      | inl q ↦ absurd (false≢true (sym e ∙ ap p (sym q) ∙ t))
      | inr i ↦ k.least s i t
    ];
  }

  only_head : p x ≡ true → All (λ r. p r ≡ false) rs → IsLowest p (x ∷ rs) x
  only_head e others = record {
    member = Memᴰ.head refl;
    passes = e;
    least = λ s m t. elim (Memᴰ.cases_cons m) [
      | inl q ↦ rw q (omega arith)
      | inr i ↦ absurd (false≢true (sym (All-mem (λ r. p r ≡ false) i others) ∙ t))
    ];
  }

  lower_of_two :
      (y : Run) → p x ≡ true → IsLowest p rs y → IsLowest p (x ∷ rs) (or_lower x (some y))
  lower_of_two y e k = elim (Bool-cases (ltb y.id x.id)) [
    | inl lt ↦ rw lt (record {
      member = Memᴰ.tail k.member;
      passes = k.passes;
      least =
          λ s m t. elim (Memᴰ.cases_cons m) [ inl q ↦ rw q (ground arith) | inr i ↦ k.least s i t ];
    })
    | inr ge ↦ rw ge (record {
      member = Memᴰ.head refl;
      passes = e;
      least = λ s m t. elim (Memᴰ.cases_cons m) [
        | inl q ↦ rw q (omega arith)
        | inr i ↦ ground (arith, k.least s i t)
      ];
    })
  ]

lowest-some : (p : Run → Bool) (rs : List Run) (r : Run) → lowest p rs ≡ some r → IsLowest p rs r
unfolding lowest
lowest-some p [] r h = absurd (ground arith)
lowest-some p (x ∷ rs) r h = elim (Bool-cases (p x)) [
  | inr no_x ↦ later_head p x rs no_x (lowest-some p rs r (rw no_x at h))
  | inl is_x ↦
      let h' : some (or_lower x (lowest p rs)) ≡ some r = rw is_x at h in
      elim (Option-cases (lowest p rs)) [
        | inl e ↦
            let q : x ≡ r = eq_of_some (rw e at h') in
            subst (IsLowest p (x ∷ rs)) q (only_head p x rs is_x (lowest-none p rs e))
        | inr (y, e) ↦
            let q : or_lower x (some y) ≡ r = eq_of_some (rw e at h') in
            subst (IsLowest p (x ∷ rs)) q (lower_of_two p x rs y is_x (lowest-some p rs y e))
      ]
]

-- What a claim did: it took the lowest eligible run, and started that run alone.
pub record Claimed (now : ℕ) (caps : List String) (locked : ℕ → Bool) (db : Db) (job : ClaimedJob)
    : Type 0 where
  pub run : Run
  pub lowest : IsLowest (eligible caps locked db) db.runs run
  pub started : job.run ≡ start now run
  pub after : (claim_run now caps locked db).1 ≡ update_run run.id (start now) db

-- A claim that returns a job took an eligible run: pending, of a runtime that the worker serves,
-- held by no other transaction; no eligible run is older; that run is started in the table, and
-- every other row stays.
pub claim_run-lowest :
    (now : ℕ) (caps : List String) (locked : ℕ → Bool) (db : Db) (job : ClaimedJob)
    → (claim_run now caps locked db).0 ≡ some job
    → Claimed now caps locked db job
unfolding claim_run
claim_run-lowest now caps locked db job h =
    elim (Option-cases (lowest (eligible caps locked db) db.runs)) [
      | inl e ↦ absurd (ground arith)
      | inr (r, e) ↦ record {
        run = r;
        lowest = lowest-some (eligible caps locked db) db.runs r e;
        started = ground arith;
        after = rw (e, claim_run);
      }
    ]

-- A claim finds nothing exactly when no run of the table is eligible.
pub claim_run-none_iff :
    (now : ℕ) (caps : List String) (locked : ℕ → Bool) (db : Db)
    → ((claim_run now caps locked db).0 ≡ none)
      ↔ All (λ r. eligible caps locked db r ≡ false) db.runs
unfolding claim_run
claim_run-none_iff now caps locked db = (
  λ h. lowest-none (eligible caps locked db) db.runs (ground arith),
  λ h. rw (lowest-none_of (eligible caps locked db) db.runs h, claim_run),
)

pub eligible-pending :
    (caps : List String) (locked : ℕ → Bool) (db : Db) (r : Run)
    → eligible caps locked db r ≡ true
    → r.status ≡ Status.pending
unfolding eligible
eligible-pending caps locked db r h = ground arith

-- The row that a claim started is not pending in the table that the claim leaves.
started-not-pending :
    (now : ℕ) (r b : Run) (db : Db)
    → Memᴰ b (update_run r.id (start now) db).runs
    → b.status ≡ Status.pending
    → b.id ≢ r.id
started-not-pending now r b db m p q =
    let (a, i, e) = mem-of-update_where (has_id r.id) (start now) db.runs m in ground arith

-- Two claims, one after the other, by any two workers, take different runs.
pub claim_run-claim_run_ne :
    (now later : ℕ) (caps caps' : List String) (locked locked' : ℕ → Bool) (db : Db)
    (a b : ClaimedJob)
    → (claim_run now caps locked db).0 ≡ some a
    → (claim_run later caps' locked' (claim_run now caps locked db).1).0 ≡ some b
    → b.run.id ≢ a.run.id
claim_run-claim_run_ne now later caps caps' locked locked' db a b ha hb =
    let ca = claim_run-lowest now caps locked db a ha in
    let cb = claim_run-lowest later caps' locked' (claim_run now caps locked db).1 b hb in
    let m : Memᴰ cb.run (update_run ca.run.id (start now) db).runs =
      subst (λ (d : Db). Memᴰ cb.run d.runs) ca.after cb.lowest.member in
    let ne =
      started-not-pending now ca.run cb.run db m
        (eligible-pending caps' locked' _ cb.run cb.lowest.passes) in
    λ e. ne (sym (ap (λ (r : Run). r.id) cb.started) ∙ e ∙ ap (λ (r : Run). r.id) ca.started)

-- Two claims on the same rows at the same time, the second of which passes over the row that the
-- first holds, take different runs.
pub claim_run-skips_locked :
    (now later : ℕ) (caps caps' : List String) (locked locked' : ℕ → Bool) (db : Db)
    (a b : ClaimedJob)
    → (claim_run now caps locked db).0 ≡ some a
    → locked' a.run.id ≡ true
    → (claim_run later caps' locked' db).0 ≡ some b
    → b.run.id ≢ a.run.id
unfolding eligible
claim_run-skips_locked now later caps caps' locked locked' db a b ha held hb e =
    let cb = claim_run-lowest later caps' locked' db b hb in
    let same : cb.run.id ≡ a.run.id = sym (ap (λ (r : Run). r.id) cb.started) ∙ e in
    let passes : eligible caps' locked' db cb.run ≡ true = cb.lowest.passes in
    let l : locked' cb.run.id ≡ true = rw same held in ground arith
