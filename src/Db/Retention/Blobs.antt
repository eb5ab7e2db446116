-- ===== src/Db/Retention/Blobs.antt =====
-- Which blobs the sweep of src/db.rs keeps.
use text.Mathlib.TextPositions.{eq_refl}
use dokan.Prelude.{
  ℕ, ◌+◌, ◌≤◌, String, true, not, ◌≡◌, refl, ◌↔◌, inl, inr, ◌⊎◌, Option, none, some, Memᴰ, arith,
  mem-filter, filter-mem, any, any-mem, mem-any, Bool-cases, ◌&&◌, str_eq, eq_iff,
}
use dokan.Json.{Value, Fields}
use dokan.Db.{Blob, Run, Schedule, Db}
use dokan.Db.Retention.{names_sha, refers, is_referenced, is_garbage, gc_blobs}

-- A file map names a hash: it is the text of one of its fields.
pub data Names (sha : String) : Fields → Type 0 where
  here : (k : String) (fs : Fields) → Names sha (Fields.field k (Value.string sha) fs)
  there : (k : String) (v : Value) {fs : Fields} → Names sha fs → Names sha (Fields.field k v fs)

abbrev pub Mentions : String → Option Value → Type 0
Mentions sha blobs = (fs : Fields) × (blobs ≡ some (Value.object fs)) × Names sha fs

-- What keeps a blob: a run has it among its inputs or outputs, or an enabled schedule mounts it.
pub data IsMentioned (sha : String) (db : Db) : Type 0 where
  input : (r : Run) → Memᴰ r db.runs → Mentions sha r.input_blobs → IsMentioned sha db
  output : (r : Run) → Memᴰ r db.runs → Mentions sha r.output_blobs → IsMentioned sha db
  mounted :
      (sc : Schedule)
      → Memᴰ sc db.schedules
      → sc.enabled ≡ true
      → Mentions sha sc.input_blobs
      → IsMentioned sha db

names_sha-Names : (sha : String) (fs : Fields) → names_sha sha fs ≡ true → Names sha fs
unfolding names_sha
names_sha-Names sha Fields.end h = absurd (ground (arith, h))
names_sha-Names sha (Fields.field k (Value.string v) fs) h = elim (Bool-cases (str_eq v sha)) [
  | inl e ↦ rw⁻¹ ((eq_iff v sha).0 e) (Names.here k fs)
  | inr e ↦ Names.there k (Value.string v) (names_sha-Names sha fs (rw e at h))
]
names_sha-Names sha (Fields.field k Value.null fs) h = Names.there k _ (names_sha-Names sha fs h)
names_sha-Names sha (Fields.field k (Value.bool b) fs) h =
    Names.there k _ (names_sha-Names sha fs h)
names_sha-Names sha (Fields.field k (Value.number n) fs) h =
    Names.there k _ (names_sha-Names sha fs h)
names_sha-Names sha (Fields.field k (Value.array vs) fs) h =
    Names.there k _ (names_sha-Names sha fs h)
names_sha-Names sha (Fields.field k (Value.object gs) fs) h =
    Names.there k _ (names_sha-Names sha fs h)

Names-names_sha : {sha : String} {fs : Fields} → Names sha fs → names_sha sha fs ≡ true
unfolding names_sha
Names-names_sha {sha} (Names.here k fs) = ground (arith, eq_refl sha)
Names-names_sha (Names.there k Value.null n) = Names-names_sha n
Names-names_sha (Names.there k (Value.bool b) n) = Names-names_sha n
Names-names_sha (Names.there k (Value.number m) n) = Names-names_sha n
Names-names_sha (Names.there k (Value.string v) n) = ground (arith, Names-names_sha n)
Names-names_sha (Names.there k (Value.array vs) n) = Names-names_sha n
Names-names_sha (Names.there k (Value.object gs) n) = Names-names_sha n

refers-Mentions : (sha : String) (o : Option Value) → refers sha o ≡ true → Mentions sha o
unfolding refers
refers-Mentions sha none h = absurd (ground (arith, h))
refers-Mentions sha (some (Value.object fs)) h = (fs, refl, names_sha-Names sha fs h)
refers-Mentions sha (some Value.null) h = absurd (ground (arith, h))
refers-Mentions sha (some (Value.bool b)) h = absurd (ground (arith, h))
refers-Mentions sha (some (Value.number n)) h = absurd (ground (arith, h))
refers-Mentions sha (some (Value.string s)) h = absurd (ground (arith, h))
refers-Mentions sha (some (Value.array vs)) h = absurd (ground (arith, h))

Mentions-refers : (sha : String) (o : Option Value) → Mentions sha o → refers sha o ≡ true
unfolding refers
Mentions-refers sha o (fs, e, n) = rw e (Names-names_sha n)

is_referenced-IsMentioned :
    (sha : String) (db : Db) → (is_referenced db sha ≡ true) ↔ IsMentioned sha db
unfolding is_referenced
is_referenced-IsMentioned sha db = (
  λ h. elim (Bool-cases (any (λ (r : Run). refers sha r.input_blobs) db.runs)) [
    | inl e ↦
        let (r, m, t) = any-mem (λ (r : Run). refers sha r.input_blobs) db.runs e in
        IsMentioned.input r m (refers-Mentions sha r.input_blobs t)
    | inr e ↦ elim (Bool-cases (any (λ (r : Run). refers sha r.output_blobs) db.runs)) [
      | inl f ↦
          let (r, m, t) = any-mem (λ (r : Run). refers sha r.output_blobs) db.runs f in
          IsMentioned.output r m (refers-Mentions sha r.output_blobs t)
      | inr f ↦
          let (sc, m, t) =
            any-mem (λ (sc : Schedule). sc.enabled && refers sha sc.input_blobs) db.schedules
              (rw (e, f) at h) in
          IsMentioned.mounted sc m (ground (arith, t))
            (refers-Mentions sha sc.input_blobs (ground (arith, t)))
    ]
  ],
  λ h. elim h [
    | IsMentioned.input r m t ↦
        let e =
          mem-any (λ (r : Run). refers sha r.input_blobs) m (Mentions-refers sha r.input_blobs t) in
        rw e refl
    | IsMentioned.output r m t ↦
        let e =
          mem-any (λ (r : Run). refers sha r.output_blobs) m
            (Mentions-refers sha r.output_blobs t) in
        ground (arith, e)
    | IsMentioned.mounted sc m on t ↦
        let e =
          mem-any (λ (sc : Schedule). sc.enabled && refers sha sc.input_blobs) m
            (rw (on, Mentions-refers sha sc.input_blobs t) refl) in
        ground (arith, e)
  ],
)

-- The sweep of blobs keeps a blob exactly when it was used within the retention, or its hash is the
-- text of a field of the input or output map of a run, or of the input map of an enabled schedule.
pub gc_blobs_iff :
    (now age : ℕ) (db : Db) (b : Blob)
    → Memᴰ b (gc_blobs now age db).1.blobs
      ↔ (Memᴰ b db.blobs × (IsMentioned b.sha db ⊎ (now ≤ b.last_used_at + age)))
unfolding gc_blobs is_garbage
gc_blobs_iff now age db b = (
  λ m.
      let (i, t) = mem-filter (λ c. not (is_garbage now age db c)) db.blobs m in
      (
        i,
        elim (Bool-cases (is_referenced db b.sha)) [
          | inl e ↦ inl ((is_referenced-IsMentioned b.sha db).0 e)
          | inr e ↦ inr (ground (arith, t, e))
        ],
      ),
  λ (i, t).
      filter-mem (λ c. not (is_garbage now age db c)) i
        (elim t [
          | inl h ↦ let e = (is_referenced-IsMentioned b.sha db).1 h in ground (arith, e)
          | inr h ↦ ground (arith, h)
        ]),
)
