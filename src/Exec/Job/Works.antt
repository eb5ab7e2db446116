-- ===== src/Exec/Job/Works.antt =====
-- The work of an execution on its run: it counts no attempt, and a finish ends the run.
use Prim.Native.String.{[] as []ˢ}
use dokan.Prelude.{
  subst, ℕ, String, Bool, true, false, ◌≡◌, refl, sym, ap, ◌∙◌, Option, none, some, List, [], ◌∷◌,
  ◌&&◌, not, ◌==◌, find?, find?-update_where, find?-some, assign, arith, Bool-cases, Option-cases,
  inl, inr, if◌then◌else◌,
}
use dokan.Prelude.Int.{ℤ}
use dokan.Prelude.Result.{Result}
use dokan.Json.{Value, Fields}
use dokan.Db.{Status, is_canceled, Run, Db}
use dokan.Db.Runs.{has_id, find_run, finish_run}
use dokan.Db.Retention.{get_blob}
use dokan.Db.Lifecycle.{Step, Reach, Ends, well, badly}
use dokan.Db.Lifecycle.Tables.{put_blob-SameRuns, get_blob-SameRuns}
use dokan.Worker.Retry.{IsEnded}
use dokan.Mcp.{is_bad_file_name}
use dokan.Exec.Files.{
  Files, Found, blob, fault, Dir, walk, write_files, materialize_input, store_found, capture_output,
}
use dokan.Exec.Job.Quiet.{
  view_in, view, Reach-trans, Quiet, Quiet-refl, Quiet-trans, SameRuns-Quiet,
}

abbrev pub count_in : Option (ℕ × Status) → Option ℕ
count_in none = none
count_in (some (n, s)) = some n

abbrev pub EndedView : Option (ℕ × Status) → Type 0
EndedView none = Unit
EndedView (some (n, s)) = IsEnded s

-- An execution's work so far.
pub record Works (id : ℕ) (t u : Db) : Type 0 where
  pub reach : Reach t u
  pub counted : count_in (view id u) ≡ count_in (view id t)

pub Quiet-Works : {id : ℕ} {t u : Db} → Quiet id t u → Works id t u
Quiet-Works q = record { reach = q.reach; counted = ap count_in q.same }

pub Works-trans : {id : ℕ} {t u v : Db} → Works id t u → Works id u v → Works id t v
Works-trans a b = record { reach = Reach-trans a.reach b.reach; counted = b.counted ∙ a.counted }

finished_view :
    (p : Run → Bool) (f : Run → Run) (id : ℕ) (o : Option Run)
    → ((r : Run) → (f r).attempts ≡ r.attempts)
    → count_in (view_in (assign p f o)) ≡ count_in (view_in o)
finished_view p f id none h = refl
finished_view p f id (some r) h = elim (Bool-cases (p r)) [
  | inl e ↦ rw e (ap (λ n. some n) (h r))
  | inr e ↦ rw e refl
]

canceled-IsEnded : (s : Status) → is_canceled s ≡ true → IsEnded s
canceled-IsEnded Status.canceled h = tt
canceled-IsEnded Status.succeeded h = tt
canceled-IsEnded Status.failed h = tt
canceled-IsEnded Status.pending h = absurd (ground (arith, h))
canceled-IsEnded Status.running h = absurd (ground (arith, h))

IsEnded-status :
    (id now : ℕ) (status : Status) (code : Option ℤ) (error : Option String) (r : Run)
    → Ends status
    → (r.id == id) ≡ true
    → IsEnded
        (if r.id == id && not (is_canceled r.status)
          then record r { status = status; exit_code = code; error = error; finished_at = some now }
          else r).status
IsEnded-status id now status code error r well e = elim (Bool-cases (is_canceled r.status)) [
  | inl c ↦ rw (e, c) (canceled-IsEnded r.status c)
  | inr c ↦ rw (e, c) tt
]
IsEnded-status id now status code error r badly e = elim (Bool-cases (is_canceled r.status)) [
  | inl c ↦ rw (e, c) (canceled-IsEnded r.status c)
  | inr c ↦ rw (e, c) tt
]

pub record Finish (id : ℕ) (t u : Db) : Type 0 where
  pub works : Works id t u
  pub ended : EndedView (view id u)

pub finish_run-Finish :
    (now id : ℕ) (status : Status) (code : Option ℤ) (error : Option String) (db : Db)
    → Ends status
    → Finish id db (finish_run now id status code error db)
unfolding find_run finish_run
finish_run-Finish now id status code error db ends =
    let p : Run → Bool = λ r. r.id == id && not (is_canceled r.status) in
    let f : Run → Run =
      λ r. record r { status = status; exit_code = code; error = error; finished_at = some now } in
    let found = find?-update_where (has_id id) p f db.runs (λ r. refl) in
    record {
      works = record {
        reach = Reach.next Reach.here (Step.finish now id code error ends);
        counted =
            ap (λ o. count_in (view_in o)) found
            ∙ finished_view p f id (find? (has_id id) db.runs) (λ r. refl);
      };
      ended = rw found (elim (Option-cases (find? (has_id id) db.runs)) [
        | inl e ↦ rw e tt
        | inr (r, e) ↦
            rw e
              (IsEnded-status id now status code error r ends (find?-some (has_id id) db.runs e).1)
      ]);
    }

-- Quiet work before and after.
pub before-Finish : {id : ℕ} {t u v : Db} → Quiet id t u → Finish id u v → Finish id t v
before-Finish q f = record { works = Works-trans (Quiet-Works q) f.works; ended = f.ended }

pub work-Finish : {id : ℕ} {t u v : Db} → Works id t u → Finish id u v → Finish id t v
work-Finish w f = record { works = Works-trans w f.works; ended = f.ended }

pub after-Finish : {id : ℕ} {t u v : Db} → Finish id t u → Quiet id u v → Finish id t v
after-Finish f q = record {
  works = Works-trans f.works (Quiet-Works q);
  ended = subst EndedView (sym q.same) f.ended;
}

refused-Quiet :
    (id : ℕ) (b : Bool) (x y : Result Files String) (db : Db)
    → Quiet id db (if◌then◌else◌ {A = Result Files String × Db} b (x, db) (y, db)).1
refused-Quiet id true x y db = Quiet-refl id db
refused-Quiet id false x y db = Quiet-refl id db

string_file-Quiet :
    (debug : String → String) (now id : ℕ) (name sha : String) (fs : Fields) (files : Files)
    (db : Db)
    → ((more : Files) (d : Db) → Quiet id d (write_files debug now fs more d).1)
    → Quiet id db (write_files debug now (Fields.field name (Value.string sha) fs) files db).1
unfolding write_files
string_file-Quiet debug now id name sha fs files db later =
    let got = SameRuns-Quiet id (Step.fetch now sha) (get_blob-SameRuns now sha db) in
    elim (Bool-cases (is_bad_file_name name)) [
      | inl e ↦ rw e (Quiet-refl id db)
      | inr e ↦ elim (Option-cases (get_blob now sha db).0) [
        | inl f ↦ rw (e, f) got
        | inr (bytes, f) ↦ rw (e, f) (Quiet-trans id got (later _ _))
      ]
    ]

write_files-Quiet :
    (debug : String → String) (now id : ℕ) (fs : Fields) (files : Files) (db : Db)
    → Quiet id db (write_files debug now fs files db).1
unfolding write_files
write_files-Quiet debug now id Fields.end files db = Quiet-refl id db
write_files-Quiet debug now id (Fields.field name (Value.string sha) fs) files db =
    string_file-Quiet debug now id name sha fs files db
      (λ fs2 d. write_files-Quiet debug now id fs fs2 d)
write_files-Quiet debug now id (Fields.field name Value.null fs) files db =
    refused-Quiet id (is_bad_file_name name) _ _ db
write_files-Quiet debug now id (Fields.field name (Value.bool b) fs) files db =
    refused-Quiet id (is_bad_file_name name) _ _ db
write_files-Quiet debug now id (Fields.field name (Value.number n) fs) files db =
    refused-Quiet id (is_bad_file_name name) _ _ db
write_files-Quiet debug now id (Fields.field name (Value.array vs) fs) files db =
    refused-Quiet id (is_bad_file_name name) _ _ db
write_files-Quiet debug now id (Fields.field name (Value.object os) fs) files db =
    refused-Quiet id (is_bad_file_name name) _ _ db

store_found-Quiet :
    (sha256_hex : List ℕ → String) (now id : ℕ) (found : List Found) (m : Fields) (db : Db)
    → Quiet id db (store_found sha256_hex now found m db).1
unfolding store_found
store_found-Quiet sha256_hex now id [] m db = Quiet-refl id db
store_found-Quiet sha256_hex now id (fault e ∷ fs) m db = Quiet-refl id db
store_found-Quiet sha256_hex now id (blob name bytes ∷ fs) m db =
    Quiet-trans id
      (SameRuns-Quiet id (Step.store sha256_hex now bytes)
        (put_blob-SameRuns sha256_hex now bytes db))
      (store_found-Quiet sha256_hex now id fs _ _)

pub materialize_input-Quiet :
    (debug : String → String) (now id run_id : ℕ) (home : Option String) (blobs : Option Value)
    (db : Db)
    → Quiet id db (materialize_input debug now home run_id blobs db).1
unfolding materialize_input
materialize_input-Quiet debug now id run_id home none db = Quiet-refl id db
materialize_input-Quiet debug now id run_id home (some Value.null) db = Quiet-refl id db
materialize_input-Quiet debug now id run_id home (some (Value.bool b)) db = Quiet-refl id db
materialize_input-Quiet debug now id run_id home (some (Value.number n)) db = Quiet-refl id db
materialize_input-Quiet debug now id run_id home (some (Value.string s)) db = Quiet-refl id db
materialize_input-Quiet debug now id run_id home (some (Value.array vs)) db = Quiet-refl id db
materialize_input-Quiet debug now id run_id home (some (Value.object Fields.end)) db =
    Quiet-refl id db
materialize_input-Quiet debug now id run_id none (some (Value.object (Fields.field name v fs))) db =
    Quiet-refl id db
materialize_input-Quiet debug now id run_id (some h) (some (Value.object (Fields.field name v fs)))
      db =
    write_files-Quiet debug now id (Fields.field name v fs) [] db

pub capture_output-Quiet :
    (sha256_hex : List ℕ → String) (now id : ℕ) (dir : Dir) (db : Db)
    → Quiet id db (capture_output sha256_hex now dir db).1
unfolding capture_output
capture_output-Quiet sha256_hex now id dir db =
    store_found-Quiet sha256_hex now id (walk []ˢ dir) Fields.end db
