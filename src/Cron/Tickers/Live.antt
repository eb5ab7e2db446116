-- ===== src/Cron/Tickers/Live.antt =====
-- What runs is what the map names, beside the jobs whose removal was asked for.
use dokan.Prelude.{
  ℕ, Bool, true, false, not, ◌≡◌, ◌≢◌, refl, sym, ap, ◌∙◌, inl, inr, ◌⊎◌, Option, none, some, List,
  [], ◌∷◌, Memᴰ, mem-filter, mem-of-update_where, arith, Bool-cases, eq_of_some, ◌==◌, ==_iff,
  if◌then◌else◌,
}
use mathlib.Core.List.Memᴰ
use dokan.Db.{Schedule, Db}
use dokan.Db.Scripts.{enabled_schedules, set_schedule_enabled}
use dokan.Cron.Tickers.{
  Ticker, handle, Task, Cron, job_of, forget_job, is_task, without, stop, take_away, begin, add,
  add_all, start, remove,
}

-- Of every task, the removal was asked for, or it is the one that the map names for its schedule.
abbrev pub IsAccounted : List (ℕ × Ticker) → List Ticker → Task → Type 0
IsAccounted jobs leaving k = Memᴰ k.ticker leaving ⊎ (job_of k.schedule jobs ≡ some k.ticker)

abbrev pub IsTicking : Cron → Type 0
IsTicking c = (k : Task) → Memᴰ k c.tasks → IsAccounted c.jobs c.leaving k

job-forget :
    (id j : ℕ) (js : List (ℕ × Ticker))
    → job_of j (forget_job id js) ≡ (if id == j then none else job_of j js)
unfolding job_of forget_job
job-forget id j [] = ground arith
job-forget id j ((i, t) ∷ js) = ground (arith, job-forget id j js)

is_task_self : (k : Task) (t : Ticker) → k.ticker ≡ t → is_task t k ≡ true
is_task_self k t e = (==_iff (handle k.ticker) (handle t)).1 (rw e refl)

-- Of the tasks of a table, those that a stop leaves: each was there, and is no longer the ticker
-- that was stopped, unless the removal of that one was asked for.
stop-left :
    (o : Option Ticker) (c : Cron) (k : Task)
    → Memᴰ k (stop o c).tasks
    → Memᴰ k c.tasks × (o ≡ some k.ticker → Memᴰ k.ticker (stop o c).leaving)
stop-left none c k m = (m, λ e. absurd (ground (arith, e)))
stop-left (some (Ticker.utc n)) c k m = (m, λ e. Memᴰ.head (sym (eq_of_some e)))
stop-left (some (Ticker.zoned n)) c k m =
    let (i, t) = mem-filter (λ k. not (is_task (Ticker.zoned n) k)) c.tasks m in
    (
      i,
      λ e.
          let self = is_task_self k (Ticker.zoned n) (sym (eq_of_some e)) in
          absurd (ground (arith, t, self)),
    )

stop-leaving :
    (o : Option Ticker) (c : Cron) (t : Ticker) → Memᴰ t c.leaving → Memᴰ t (stop o c).leaving
stop-leaving none c t m = m
stop-leaving (some (Ticker.utc n)) c t m = Memᴰ.tail m
stop-leaving (some (Ticker.zoned n)) c t m = m

stop-jobs : (o : Option Ticker) (c : Cron) → (stop o c).jobs ≡ c.jobs
stop-jobs none c = refl
stop-jobs (some (Ticker.utc n)) c = refl
stop-jobs (some (Ticker.zoned n)) c = refl

-- The same of the removal that is awaited.
taken-left :
    (removes : Bool) (o : Option Ticker) (c : Cron) (k : Task)
    → Memᴰ k (take_away removes o c).tasks
    → Memᴰ k c.tasks
      × (o ≡ some k.ticker → (removes ≡ false) × Memᴰ k.ticker (take_away removes o c).leaving)
taken-left removes none c k m = (m, λ e. absurd (ground (arith, e)))
taken-left removes (some (Ticker.zoned n)) c k m =
    let (i, t) = mem-filter (λ k. not (is_task (Ticker.zoned n) k)) c.tasks m in
    (
      i,
      λ e.
          let self = is_task_self k (Ticker.zoned n) (sym (eq_of_some e)) in
          absurd (ground (arith, t, self)),
    )
taken-left true (some (Ticker.utc n)) c k m =
    let (i, t) = mem-filter (λ k. not (is_task (Ticker.utc n) k)) c.tasks m in
    (
      i,
      λ e.
          let self = is_task_self k (Ticker.utc n) (sym (eq_of_some e)) in
          absurd (ground (arith, t, self)),
    )
taken-left false (some (Ticker.utc n)) c k m = (m, λ e. (refl, Memᴰ.head (sym (eq_of_some e))))

taken-leaving :
    (removes : Bool) (o : Option Ticker) (c : Cron) (t : Ticker)
    → Memᴰ t c.leaving
    → Memᴰ t (take_away removes o c).leaving
taken-leaving removes none c t m = m
taken-leaving removes (some (Ticker.zoned n)) c t m = m
taken-leaving true (some (Ticker.utc n)) c t m = m
taken-leaving false (some (Ticker.utc n)) c t m = Memᴰ.tail m

taken-jobs : (removes : Bool) (o : Option Ticker) (c : Cron) → (take_away removes o c).jobs ≡ c.jobs
taken-jobs removes none c = refl
taken-jobs removes (some (Ticker.zoned n)) c = refl
taken-jobs true (some (Ticker.utc n)) c = refl
taken-jobs false (some (Ticker.utc n)) c = refl

-- What a removal of the schedule leaves of its tasks.
module _ (removes : Bool) (id : ℕ) (c : Cron) (h : IsTicking c) where
  abbrev forgotten : Cron
  forgotten = record c { jobs = forget_job id c.jobs }

  abbrev after : Cron
  after = take_away removes (job_of id c.jobs) forgotten

  pub remove-IsTicking : IsTicking (remove removes id c).1
  unfolding remove
  remove-IsTicking k m =
      let (i, own) = taken-left removes (job_of id c.jobs) forgotten k m in
      let jobs = taken-jobs removes (job_of id c.jobs) forgotten in
      elim (h k i) [
        | inl left ↦ inl (taken-leaving removes (job_of id c.jobs) forgotten k.ticker left)
        | inr named ↦ elim (Bool-cases (id == k.schedule)) [
          | inl same ↦
              let here : job_of id c.jobs ≡ some k.ticker = rw ((==_iff _ _).0 same) named in
              inl (own here).1
          | inr other ↦
              inr (ap (job_of k.schedule) jobs ∙ job-forget id k.schedule c.jobs ∙ rw other named)
        ]
      ]

  remove-gone :
      removes ≡ true
      → (k : Task) → Memᴰ k (remove removes id c).1.tasks
      → ¬ Memᴰ k.ticker c.leaving
      → k.schedule ≢ id
  unfolding remove
  remove-gone works k m fresh same =
      let (i, own) = taken-left removes (job_of id c.jobs) forgotten k m in
      elim (h k i) [
        | inl left ↦ fresh left
        | inr named ↦
            let here : job_of id c.jobs ≡ some k.ticker = rw⁻¹ same named in
            let fails = (own here).0 in ground (arith, works, fails)
      ]

module _ (parses : Schedule → Bool) where
  begun-IsTicking :
      (s : Schedule) (c : Cron) → IsTicking c → IsTicking (stop (job_of s.id c.jobs) (begin s c))
  unfolding begin job_of
  begun-IsTicking s c h k m =
      let o = job_of s.id c.jobs in
      let b = begin s c in
      let (i, own) = stop-left o b k m in
      let jobs = stop-jobs o b in
      elim (Memᴰ.cases_cons i) [
        | inl new ↦ inr (ap (job_of k.schedule) jobs ∙ rw new (rw ((==_iff s.id s.id).1 refl) refl))
        | inr old ↦ elim (h k old) [
          | inl left ↦ inl (stop-leaving o b k.ticker left)
          | inr named ↦ elim (Bool-cases (s.id == k.schedule)) [
            | inl same ↦
                let here : job_of s.id c.jobs ≡ some k.ticker = rw ((==_iff _ _).0 same) named in
                inl (own here)
            | inr other ↦ inr (
                ap (job_of k.schedule) jobs
                ∙ rw other (job-forget s.id k.schedule c.jobs ∙ rw other named))
          ]
        ]
      ]

  pub add-IsTicking : (s : Schedule) (c : Cron) → IsTicking c → IsTicking (add parses s c).1
  unfolding add
  add-IsTicking s c h = elim (Bool-cases (parses s)) [
    | inl e ↦ rw e (begun-IsTicking s c h)
    | inr e ↦ rw e h
  ]

  add_all-IsTicking :
      (ss : List Schedule) (c : Cron) → IsTicking c → IsTicking (add_all parses ss c)
  unfolding add_all
  add_all-IsTicking [] c h = h
  add_all-IsTicking (s ∷ ss) c h = add_all-IsTicking ss (add parses s c).1 (add-IsTicking s c h)

  -- What a daemon does with its tickers after it started: schedules come and go in any order,
  -- removals that were asked for are carried out late or never, and the tables change in between.
  pub data Ran (db : Db) : Cron → Type 0 where
    started : Ran db (start parses db)
    added : {c : Cron} (s : Schedule) → Ran db c → Ran db (add parses s c).1
    removed : {c : Cron} (removes : Bool) (id : ℕ) → Ran db c → Ran db (remove removes id c).1
    carried_out : {c : Cron} (t : Ticker) → Memᴰ t c.leaving → Ran db c → Ran db (without t c)
    changed : {c : Cron} (u : Db) → Ran db c → Ran db (record c { db = u })

  pub Ran-IsTicking : (db : Db) (c : Cron) → Ran db c → IsTicking c
  unfolding start
  Ran-IsTicking db _ Ran.started = add_all-IsTicking (enabled_schedules db) _ (λ k m. elim m [ ])
  Ran-IsTicking db _ (Ran.added s r) = add-IsTicking s _ (Ran-IsTicking db _ r)
  Ran-IsTicking db _ (Ran.removed removes id r) =
      remove-IsTicking removes id _ (Ran-IsTicking db _ r)
  Ran-IsTicking db _ (Ran.carried_out {c} t asked r) =
      λ k m. let (i, _) = mem-filter (λ k. not (is_task t k)) c.tasks m in Ran-IsTicking db c r k i
  Ran-IsTicking db _ (Ran.changed {c} u r) = Ran-IsTicking db c r

  -- However schedules were added, replaced and removed since the start: beside the jobs whose
  -- removal was asked for, which may still run until it is carried out, a schedule has one running
  -- ticker at most.
  pub Ran-one_ticker :
      (db : Db) (c : Cron) (a b : Task)
      → Ran db c
      → Memᴰ a c.tasks
      → Memᴰ b c.tasks
      → ¬ Memᴰ a.ticker c.leaving
      → ¬ Memᴰ b.ticker c.leaving
      → a.schedule ≡ b.schedule
      → a.ticker ≡ b.ticker
  Ran-one_ticker db c a b r i j stays_a stays_b same =
      let h = Ran-IsTicking db c r in
      elim (h a i) [
        | inl left ↦ absurd (stays_a left)
        | inr known_a ↦ elim (h b j) [
          | inl left ↦ absurd (stays_b left)
          | inr known_b ↦ eq_of_some (sym known_a ∙ rw same known_b)
        ]
      ]

  -- A removed schedule whose ticker the scheduler took away has no running ticker, beside jobs that
  -- an earlier `add` or `remove` had told to stop and that still wait for it; and whether or not the
  -- ticker was taken away, the schedule is disabled in the database, so that the next start does not
  -- bring it back.
  pub remove-silences :
      (db : Db) (c : Cron) (removes : Bool) (id : ℕ)
      → Ran db c
      → ((k : Task)
          → Memᴰ k (remove true id c).1.tasks
          → ¬ Memᴰ k.ticker c.leaving
          → k.schedule ≢ id)
        × ((s : Schedule) → Memᴰ s (enabled_schedules (remove removes id c).1.db) → s.id ≢ id)
  unfolding remove enabled_schedules set_schedule_enabled
  remove-silences db c removes id r = (
    remove-gone true id c (Ran-IsTicking db c r) refl,
    λ s m.
        let (i, on) = mem-filter (λ (sc : Schedule). sc.enabled) _ m in
        let (old, j, e) =
          mem-of-update_where (λ (sc : Schedule). sc.id == id) (λ sc. record sc { enabled = false })
            c.db.schedules i in
        λ same. ground arith,
  )
