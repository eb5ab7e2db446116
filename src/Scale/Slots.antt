-- ===== src/Scale/Slots.antt =====
-- The limiter never has more jobs in flight than its size, and its size stays within its range.
use dokan.Prelude.{
  ℕ, zero, suc, ◌+◌, ◌-◌, ◌≤◌, ◌≡◌, refl, ap, ◌∙◌, inl, inr, none, some, ltb, arith, eq_of_some,
  ◌↔◌, ◌⊎◌, if◌then◌else◌,
}
use dokan.Scale.{Semaphore, Concurrency, clamp, new, acquire, release, set, Pool, pool, Step, Reach}

module _ (S : Semaphore) where
  pub record IsSized (p : Pool S) : Type 0 where
    pub accounted : S.available p.conc.sem + p.held ≡ p.conc.current
    pub at_least : 1 ≤ p.conc.current
    pub at_most : p.conc.current ≤ p.conc.max

  new-IsSized : (initial max : ℕ) → IsSized (pool S (new S initial max) 0)
  unfolding new
  new-IsSized initial max = record {
    accounted = rw S.available-fresh (omega arith);
    at_least = ground arith;
    at_most = ground arith;
  }

  -- A slot is taken from one permit or more, and leaves one fewer.
  acquire-takes :
      {c c' : Concurrency S.Handle}
      → (free : ℕ) → S.available c.sem ≡ free
      → acquire S c ≡ some c'
      → (suc (S.available c'.sem) ≡ free) × (c'.current ≡ c.current) × (c'.max ≡ c.max)
  unfolding acquire
  acquire-takes {c} zero e h = absurd (ground (arith, S.acquire_owned-empty c.sem e, h))
  acquire-takes {c} {c'} (suc free) e h =
      let (sem, took, left) = S.acquire_owned-free c.sem free e in
      let same : record c { sem = sem } ≡ c' = eq_of_some (rw took at h) in
      rw⁻¹ same (ap suc left, refl, refl)

  acquire-IsSized :
      {c c' : Concurrency S.Handle} {n : ℕ}
      → IsSized (pool S c n)
      → acquire S c ≡ some c'
      → IsSized (pool S c' (suc n))
  acquire-IsSized {c} {c'} {n} s h =
      let (took, size, range) = acquire-takes (S.available c.sem) refl h in
      record {
        accounted = ground (arith, took, size, s.accounted);
        at_least = ground (arith, size, s.at_least);
        at_most = ground (arith, size, range, s.at_most);
      }

  release-IsSized :
      {c : Concurrency S.Handle} {n : ℕ}
      → IsSized (pool S c (suc n))
      → IsSized (pool S (release S c) n)
  unfolding release
  release-IsSized {c} s = record {
    accounted = rw S.available-drop_permit (ground (arith, s.accounted));
    at_least = s.at_least;
    at_most = s.at_most;
  }

  -- What forgetting leaves, and what it took.
  set-IsSized :
      {c : Concurrency S.Handle} {n : ℕ}
      → (size : ℕ) → IsSized (pool S c n)
      → IsSized (pool S (set S size c).1 n)
  unfolding set
  set-IsSized {c} size s =
      let cnt = S.forget_permits-count (c.current - clamp 1 c.max size) c.sem in
      let left = S.available-forget_permits (c.current - clamp 1 c.max size) c.sem in
      let more = S.available-add_permits (clamp 1 c.max size - c.current) c.sem in
      let a = s.accounted in
      let l = s.at_least in
      let m = s.at_most in
      record { accounted = ground arith; at_least = ground arith; at_most = ground arith }

  Nat-cases : (n : ℕ) → (n ≡ 0) ⊎ ((k : ℕ) × (n ≡ suc k))
  Nat-cases zero = inl refl
  Nat-cases (suc n) = inr (n, refl)

  step-IsSized : {p p' : Pool S} → IsSized p → Step S p p' → IsSized p'
  step-IsSized s (Step.acquired h) = acquire-IsSized s h
  step-IsSized s Step.released = release-IsSized s
  step-IsSized s (Step.resized size) = set-IsSized size s

  Reach-IsSized : {initial max : ℕ} {p : Pool S} → Reach S initial max p → IsSized p
  Reach-IsSized {initial} {max} Reach.start = new-IsSized initial max
  Reach-IsSized (Reach.next r t) = step-IsSized (Reach-IsSized r) t

  Step-max : {p p' : Pool S} → Step S p p' → p'.conc.max ≡ p.conc.max
  unfolding set release
  Step-max (Step.acquired {c} h) = (acquire-takes (S.available c.sem) refl h).2
  Step-max Step.released = refl
  Step-max (Step.resized {c} size) = ground arith

  Reach-max :
      {initial max : ℕ} {p : Pool S}
      → Reach S initial max p
      → p.conc.max ≡ (if ltb max 1 then 1 else max)
  unfolding new
  Reach-max Reach.start = refl
  Reach-max (Reach.next r t) = Step-max t ∙ Reach-max r

  -- Whatever the order of acquisitions, releases and resizes, and whatever sizes the controller asks
  -- for: the jobs in flight and the free permits add up to the size, and the size is from 1 to the
  -- maximum that the limiter was made with (1 for 0).
  pub Reach-held_le :
      (initial max : ℕ) (p : Pool S)
      → Reach S initial max p
      → (p.held + S.available p.conc.sem ≡ p.conc.current)
        × (1 ≤ p.conc.current)
        × (p.conc.current ≤ (if ltb max 1 then 1 else max))
  Reach-held_le initial max p r =
      let s = Reach-IsSized r in
      (ground (arith, s.accounted), s.at_least, ground (arith, s.at_most, Reach-max r))

  -- A saturated limiter makes a caller wait, and a limiter with a slot to spare never does.
  pub acquire-none_iff :
      (initial max : ℕ) (p : Pool S)
      → Reach S initial max p
      → (acquire S p.conc ≡ none) ↔ (p.held ≡ p.conc.current)
  unfolding acquire
  acquire-none_iff initial max p r =
      let sized = Reach-IsSized r in
      (
        λ h. elim (Nat-cases (S.available p.conc.sem)) [
          | inl e ↦ ground (arith, sized.accounted, e)
          | inr (n, e) ↦
              let (sem, took, left) = S.acquire_owned-free p.conc.sem n e in
              absurd (ground (arith, took, h))
        ],
        λ full.
            let e : S.available p.conc.sem ≡ 0 = ground (arith, sized.accounted) in
            rw (S.acquire_owned-empty p.conc.sem e) refl,
      )

  -- Resizing a limiter: a size of 1 to the maximum is reached, except that a shrink stops at the
  -- jobs in flight. `set` returns the size it leaves.
  pub set-size :
      (initial max size : ℕ) (p : Pool S)
      → Reach S initial max p
      → 1 ≤ size
      → size ≤ p.conc.max
      → ((set S size p.conc).0 ≡ (if ltb size p.held then p.held else size))
        × ((set S size p.conc).1.current ≡ (set S size p.conc).0)
  unfolding set
  set-size initial max size p r l m =
      let sized = Reach-IsSized r in
      let cnt = S.forget_permits-count (p.conc.current - size) p.conc.sem in
      let a = sized.accounted in (ground arith, ground arith)
