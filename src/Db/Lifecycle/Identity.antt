-- ===== src/Db/Lifecycle/Identity.antt =====
-- The identity of a run, and what the single queries leave of it.
use dokan.Prelude.{
  ℕ, suc, ◌<◌, String, Bool, true, false, not, ◌≡◌, refl, ◌≢◌, inl, inr, Option, none, some, List,
  [], ◌∷◌, map, arith, All, All-append, Pairwise, Pairwise-concat, map-update_where, map-append_lem,
  All-map-filter, Pairwise-map-filter, update_where, any, find?, Bool-cases, Option-cases, eq_iff,
  filter,
}
use dokan.Json.{Value}
use dokan.Db.{Run, Db, Trigger}
use dokan.Db.Scripts.{script_exists}
use dokan.Db.Runs.{
  opt_eq, has_id, has_key, key_taken, append_run, insert_run_with_blobs, insert_run_idempotent,
  insert_refused_run,
}
use dokan.Db.Queue.{start, claim_run, mark_attempt, lowest, eligible}
use dokan.Db.Retention.{delete_script, of_script}
use dokan.Db.Triggers.{enqueue_all}
use dokan.Db.Lifecycle.Tables.{SameRuns, delete_script-cases}

abbrev pub Identity : Type 0
Identity = ℕ × Option String

abbrev pub identity : Run → Identity
identity r = (r.id, r.idempotency_key)

-- Other identifiers, and no key in common.
abbrev pub Differ : Identity → Identity → Type 0
Differ a b = (a.0 ≢ b.0) × ((key : String) → opt_eq a.1 key ≡ true → opt_eq b.1 key ≡ false)

abbrev pub Below : ℕ → List Identity → Type 0
Below n ids = All (λ a. a.0 < n) ids

pub record IsKeyed (db : Db) : Type 0 where
  pub below : Below db.next_run (map identity db.runs)
  pub differ : Pairwise Differ (map identity db.runs)

Below-suc : (n : ℕ) (ids : List Identity) → Below n ids → Below (suc n) ids
Below-suc n [] h = tt
Below-suc n (a ∷ ids) h = (omega arith, Below-suc n ids h.1)

-- The sequence may move with no row.
skipped-IsKeyed : (db : Db) → IsKeyed db → IsKeyed (record db { next_run = suc db.next_run })
skipped-IsKeyed db k = record { below = Below-suc db.next_run _ k.below; differ = k.differ }

-- No row has the key that a new row brings, if it brings one.
abbrev IsFree : Option String → List Identity → Type 0
IsFree k ids = (key : String) → opt_eq k key ≡ true → All (λ a. opt_eq a.1 key ≡ false) ids

Differ-from_new :
    (n : ℕ) (k : Option String) (ids : List Identity)
    → Below n ids
    → IsFree k ids
    → All (λ a. Differ a (n, k)) ids
Differ-from_new n k [] h free = tt
Differ-from_new n k (a ∷ ids) h free = (
  (λ e. omega arith, λ key t. ground (arith, free key)),
  Differ-from_new n k ids h.1 (λ key t. (free key t).1),
)

append-IsKeyed :
    (r : Run) (db : Db)
    → r.id ≡ db.next_run
    → IsFree r.idempotency_key (map identity db.runs)
    → IsKeyed db
    → IsKeyed (append_run r db)
append-IsKeyed r db e free k = record {
  below =
      rw (map-append_lem identity db.runs (r ∷ []))
        (All-append _ (map identity db.runs) _ (Below-suc db.next_run _ k.below) (omega arith, tt));
  differ = rw (map-append_lem identity db.runs (r ∷ [])) (
      Pairwise-concat Differ (map identity db.runs) (identity r) k.differ
        (rw e (Differ-from_new db.next_run r.idempotency_key _ k.below free)));
}

none-IsFree : (ids : List Identity) → IsFree none ids
none-IsFree ids key h = cc

any-false :
    (key : String) (rs : List Run)
    → any (has_key key) rs ≡ false
    → All (λ a. opt_eq a.1 key ≡ false) (map identity rs)
any-false key [] h = tt
any-false key (r ∷ rs) h = (ground arith, any-false key rs (ground arith))

key-IsFree :
    (k : Option String) (db : Db) → key_taken k db ≡ false → IsFree k (map identity db.runs)
key-IsFree none db h key t = none-IsFree _ key t
key-IsFree (some j) db h key t =
    let e : j ≡ key = (eq_iff j key).0 t in any-false key db.runs (rw e at h)

appended-IsKeyed :
    (r : Run) (db : Db)
    → r.id ≡ db.next_run
    → key_taken r.idempotency_key db ≡ false
    → IsKeyed db
    → IsKeyed (append_run r db)
appended-IsKeyed r db e free = append-IsKeyed r db e (key-IsFree r.idempotency_key db free)

pub enqueue_all-IsKeyed :
    (contains : Value → Value → Bool) (now run_id : ℕ) (result : Value) (ts : List Trigger)
    (db : Db)
    → IsKeyed db
    → IsKeyed (enqueue_all contains now run_id result ts db).1
unfolding enqueue_all
enqueue_all-IsKeyed contains now run_id result [] db h = h
enqueue_all-IsKeyed contains now run_id result (t ∷ ts) db h =
    enqueue_all-IsKeyed contains now run_id result ts _ (appended-IsKeyed _ db refl refl h)

pub insert-IsKeyed :
    (now script_id : ℕ) (input : Value) (agent : Option String) (blobs : Option Value)
    (capture : Bool) (db : Db)
    → IsKeyed db
    → IsKeyed (insert_run_with_blobs now script_id input agent blobs capture db).1
unfolding insert_run_with_blobs
insert-IsKeyed now script_id input agent blobs capture db h =
    elim (Bool-cases (script_exists script_id db)) [
      | inl e ↦ rw e (appended-IsKeyed _ db refl refl h)
      | inr e ↦ rw e (skipped-IsKeyed db h)
    ]

pub insert_idempotent-IsKeyed :
    (now script_id : ℕ) (input : Value) (agent : Option String) (blobs : Option Value)
    (capture : Bool) (key : String) (db : Db)
    → IsKeyed db
    → IsKeyed (insert_run_idempotent now script_id input agent blobs capture key db).1
unfolding insert_run_idempotent
insert_idempotent-IsKeyed now script_id input agent blobs capture key db h =
    elim (Bool-cases (any (has_key key) db.runs)) [
      | inl taken ↦ rw taken (skipped-IsKeyed db h)
      | inr free ↦ elim (Bool-cases (script_exists script_id db)) [
        | inl e ↦ rw (free, e) (appended-IsKeyed _ db refl free h)
        | inr e ↦ rw (free, e) (skipped-IsKeyed db h)
      ]
    ]

pub insert_refused-IsKeyed :
    (now script_id : ℕ) (input : Value) (agent : Option String) (reason : String)
    (key : Option String) (db : Db)
    → IsKeyed db
    → IsKeyed (insert_refused_run now script_id input agent reason key db).1
unfolding insert_refused_run
insert_refused-IsKeyed now script_id input agent reason key db h =
    elim (Bool-cases (key_taken key db)) [
      | inl taken ↦ rw taken (skipped-IsKeyed db h)
      | inr free ↦ elim (Bool-cases (script_exists script_id db)) [
        | inl e ↦ rw (free, e) (appended-IsKeyed _ db refl free h)
        | inr e ↦ rw (free, e) (skipped-IsKeyed db h)
      ]
    ]

-- An UPDATE that assigns neither column keeps every identity.
pub updated-IsKeyed :
    (p : Run → Bool) (f : Run → Run) (db : Db)
    → ((r : Run) → identity (f r) ≡ identity r)
    → IsKeyed db
    → IsKeyed (record db { runs = update_where p f db.runs })
updated-IsKeyed p f db same k = record {
  below = rw (map-update_where identity p f db.runs same) k.below;
  differ = rw (map-update_where identity p f db.runs same) k.differ;
}

pub claim-IsKeyed :
    (now : ℕ) (caps : List String) (locked : ℕ → Bool) (db : Db)
    → IsKeyed db
    → IsKeyed (claim_run now caps locked db).1
unfolding claim_run
claim-IsKeyed now caps locked db h =
    elim (Option-cases (lowest (eligible caps locked db) db.runs)) [
      | inl e ↦ rw (e, claim_run) h
      | inr (r, e) ↦ rw (e, claim_run) (updated-IsKeyed (has_id r.id) (start now) db (λ s. refl) h)
    ]

pub attempt-IsKeyed : (run_id : ℕ) (db : Db) → IsKeyed db → IsKeyed (mark_attempt run_id db).1
unfolding mark_attempt
attempt-IsKeyed run_id db h = elim (Option-cases (find? (has_id run_id) db.runs)) [
  | inl e ↦ rw (e, mark_attempt) h
  | inr (r, e) ↦ rw (e, mark_attempt) (updated-IsKeyed (has_id run_id) _ db (λ s. refl) h)
]

-- A sweep that deletes rows and other tables keeps the rest apart.
pub kept-IsKeyed :
    (p : Run → Bool) (db u : Db)
    → u.next_run ≡ db.next_run
    → u.runs ≡ filter p db.runs
    → IsKeyed db
    → IsKeyed u
kept-IsKeyed p db u n e k = record {
  below = rw (e, n) (All-map-filter identity _ p db.runs k.below);
  differ = rw e (Pairwise-map-filter identity Differ p db.runs k.differ);
}

-- A query on other tables leaves the runs as they are.
pub other-IsKeyed : {db u : Db} → SameRuns db u → IsKeyed db → IsKeyed u
other-IsKeyed s k = record { below = rw (s.next_run, s.runs) k.below; differ = rw s.runs k.differ }

pub delete-IsKeyed : (id : ℕ) (db : Db) → IsKeyed db → IsKeyed (delete_script id db).1
delete-IsKeyed id db h = elim (delete_script-cases id db) [
  | inl e ↦ rw e h
  | inr e ↦ rw e (kept-IsKeyed (λ r. not (of_script id r)) db _ refl refl h)
]
