-- ===== src/Exec/Job/Quiet.antt =====
-- Queries that change neither the status nor the attempts of a run.
use dokan.Prelude.{
  ℕ, Bool, false, ◌≡◌, refl, ap, ◌∙◌, Option, none, some, List, [], ◌∷◌, ◌++◌, filter, find?,
  find?-update_where, arith, Bool-cases, Option-cases, inl, inr, assign,
}
use dokan.Json.{Value}
use dokan.Db.{Status, Trigger, Run, Db}
use dokan.Db.Runs.{has_id, find_run, update_run}
use dokan.Db.Triggers.{matches, enqueue_all, fire_triggers}
use dokan.Db.Lifecycle.{Step, Reach}
use dokan.Db.Lifecycle.Tables.{SameRuns}

abbrev pub view_in : Option Run → Option (ℕ × Status)
view_in none = none
view_in (some r) = some (r.attempts, r.status)

abbrev pub view : ℕ → Db → Option (ℕ × Status)
view id db = view_in (find_run id db)

pub Reach-trans : {t u v : Db} → Reach t u → Reach u v → Reach t v
Reach-trans r Reach.here = r
Reach-trans r (Reach.next s st) = Reach.next (Reach-trans r s) st

pub record Quiet (id : ℕ) (t u : Db) : Type 0 where
  pub reach : Reach t u
  pub same : view id u ≡ view id t

pub Quiet-refl : (id : ℕ) (t : Db) → Quiet id t t
Quiet-refl id t = record { reach = Reach.here; same = refl }

pub Quiet-trans : (id : ℕ) {t u v : Db} → Quiet id t u → Quiet id u v → Quiet id t v
Quiet-trans id q r = record { reach = Reach-trans q.reach r.reach; same = r.same ∙ q.same }

pub SameRuns-Quiet : (id : ℕ) {t u : Db} → Step t u → SameRuns t u → Quiet id t u
unfolding find_run
SameRuns-Quiet id st s = record {
  reach = Reach.next Reach.here st;
  same = ap (λ rs. view_in (find? (has_id id) rs)) s.runs;
}

view-assign :
    (p : Run → Bool) (f : Run → Run) (o : Option Run)
    → ((r : Run) → view_in (some (f r)) ≡ view_in (some r))
    → view_in (assign p f o) ≡ view_in o
view-assign p f none keeps = refl
view-assign p f (some r) keeps = elim (Bool-cases (p r)) [
  | inl e ↦ rw e (keeps r)
  | inr e ↦ rw e refl
]

-- An assignment to other columns of a row.
pub update_run-Quiet :
    (id j : ℕ) (f : Run → Run) (db : Db)
    → Step db (update_run j f db)
    → ((r : Run) → has_id id (f r) ≡ has_id id r)
    → ((r : Run) → view_in (some (f r)) ≡ view_in (some r))
    → Quiet id db (update_run j f db)
unfolding find_run
update_run-Quiet id j f db st ids keeps = record {
  reach = Reach.next Reach.here st;
  same =
      ap view_in (find?-update_where (has_id id) (has_id j) f db.runs ids)
      ∙ view-assign (has_id j) f (find? (has_id id) db.runs) keeps;
}

found-append :
    (p : Run → Bool) (xs ys : List Run) (r : Run)
    → find? p xs ≡ some r
    → find? p (xs ++ ys) ≡ some r
found-append p [] ys r h = absurd (ground (arith, h))
found-append p (x ∷ xs) ys r h = ground (arith, h, found-append p xs ys r)

enqueue_all-found :
    (contains : Value → Value → Bool) (now run_id : ℕ) (result : Value) (ts : List Trigger)
    (db : Db) (id : ℕ) (r : Run)
    → find? (has_id id) db.runs ≡ some r
    → find? (has_id id) (enqueue_all contains now run_id result ts db).1.runs ≡ some r
unfolding enqueue_all
enqueue_all-found contains now run_id result [] db id r h = h
enqueue_all-found contains now run_id result (t ∷ ts) db id r h =
    enqueue_all-found contains now run_id result ts _ id r (found-append (has_id id) db.runs _ r h)

filter-none :
    (p : Trigger → Bool) (ts : List Trigger) → ((t : Trigger) → p t ≡ false) → filter p ts ≡ []
unfolding filter
filter-none p [] h = refl
filter-none p (t ∷ ts) h = rw (h t, filter-none p ts h) refl

unmatched :
    (contains : Value → Value → Bool) (run_id : ℕ) (result : Value) (db : Db) (t : Trigger)
    → find? (has_id run_id) db.runs ≡ none
    → matches contains run_id result db t ≡ false
unfolding matches find_run
unmatched contains run_id result db t e = elim (Bool-cases t.enabled) [
  | inl f ↦ rw (f, e) refl
  | inr f ↦ rw f refl
]

-- The runs that the triggers of a run add are behind its own, and a run that is not there fires none.
pub fire_triggers-Quiet :
    (contains : Value → Value → Bool) (now run_id : ℕ) (result : Value) (db : Db)
    → Quiet run_id db (fire_triggers contains now run_id result db).1
unfolding fire_triggers find_run
fire_triggers-Quiet contains now run_id result db = record {
  reach = Reach.next Reach.here (Step.fire contains now run_id result);
  same = elim (Option-cases (find? (has_id run_id) db.runs)) [
    | inl e ↦
        rw
          (filter-none (matches contains run_id result db) db.triggers
            (λ t. unmatched contains run_id result db t e))
          refl
    | inr (r, e) ↦
        rw
          (
            e,
            enqueue_all-found contains now run_id result
                (filter (matches contains run_id result db) db.triggers) db run_id r e,
          )
          refl
  ];
}

-- A run that is there stays the one that is found.
pub fire_triggers-found :
    (contains : Value → Value → Bool) (now run_id : ℕ) (result : Value) (db : Db) (id : ℕ) (r : Run)
    → find_run id db ≡ some r
    → find_run id (fire_triggers contains now run_id result db).1 ≡ some r
unfolding fire_triggers find_run
fire_triggers-found contains now run_id result db id r h =
    enqueue_all-found contains now run_id result
      (filter (matches contains run_id result db) db.triggers) db id r h
