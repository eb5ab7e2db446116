-- ===== src/Scale.antt =====
-- src/scale.rs: the resizable limit on the jobs that a worker has in flight. The controller that
-- sizes it computes in floating point: here its target is any number.
pub mod Slots
use dokan.Prelude.{
  ℕ, suc, ◌+◌, ◌-◌, ◌*◌, ◌≤◌, ◌≡◌, Bool, Option, none, some, ltb, leb, if◌then◌else◌, List, [], ◌∷◌,
}

-- tokio's Semaphore: what its documentation says of the permits that are available.
pub record Semaphore : Type 1 where
  pub Handle : Type 0
  pub fresh : ℕ → Handle
  pub available : Handle → ℕ
  pub acquire_owned : Handle → Option Handle
  pub drop_permit : Handle → Handle
  pub add_permits : ℕ → Handle → Handle
  pub forget_permits : ℕ → Handle → ℕ × Handle
  pub available-fresh : (n : ℕ) → available (fresh n) ≡ n
  -- A call that finds no permit waits.
  pub acquire_owned-empty : (h : Handle) → available h ≡ 0 → acquire_owned h ≡ none
  pub acquire_owned-free :
      (h : Handle) (n : ℕ)
      → available h ≡ suc n
      → (h' : Handle) × (acquire_owned h ≡ some h') × (available h' ≡ n)
  pub available-drop_permit : (h : Handle) → available (drop_permit h) ≡ suc (available h)
  pub available-add_permits : (n : ℕ) (h : Handle) → available (add_permits n h) ≡ available h + n
  -- As many as asked for, or else all that are available.
  pub forget_permits-count :
      (n : ℕ) (h : Handle)
      → (forget_permits n h).0 ≡ (if leb n (available h) then n else available h)
  pub available-forget_permits :
      (n : ℕ) (h : Handle) → available (forget_permits n h).1 + (forget_permits n h).0 ≡ available h

-- `Ord::clamp`
abbrev pub clamp : ℕ → ℕ → ℕ → ℕ
clamp lo hi n = if ltb n lo then lo else if ltb hi n then hi else n

pub record Concurrency (Handle : Type 0) : Type 0 where
  pub sem : Handle
  pub current : ℕ
  pub max : ℕ

module _ (S : Semaphore) where
  unfoldable pub new : ℕ → ℕ → Concurrency S.Handle
  new initial max =
      let max' = if ltb max 1 then 1 else max in
      let initial' = clamp 1 max' initial in
      record { sem = S.fresh initial'; current = initial'; max = max' }

  abbrev take_slot : Concurrency S.Handle → Option S.Handle → Option (Concurrency S.Handle)
  take_slot c none = none
  take_slot c (some h) = some (record c { sem = h })

  -- `none` while the caller waits.
  unfoldable pub acquire : Concurrency S.Handle → Option (Concurrency S.Handle)
  acquire c = take_slot c (S.acquire_owned c.sem)

  -- The permit of a finished job is dropped.
  unfoldable pub release : Concurrency S.Handle → Concurrency S.Handle
  release c = record c { sem = S.drop_permit c.sem }

  unfoldable pub set : ℕ → Concurrency S.Handle → ℕ × Concurrency S.Handle
  set n c =
      let target = clamp 1 c.max n in
      if ltb c.current target
      then (target, record c { sem = S.add_permits (target - c.current) c.sem; current = target })
      else if ltb target c.current
      then (
        c.current - (S.forget_permits (c.current - target) c.sem).0,
        record c {
          sem = (S.forget_permits (c.current - target) c.sem).1;
          current = c.current - (S.forget_permits (c.current - target) c.sem).0;
        },
      )
      else (c.current, c)

  -- The limiter with the number of its permits that jobs hold.
  pub record Pool : Type 0 where
    pub conc : Concurrency S.Handle
    pub held : ℕ

  abbrev pub pool : Concurrency S.Handle → ℕ → Pool
  pool c n = record { conc = c; held = n }

  pub data Step : Pool → Pool → Type 0 where
    acquired :
        {c c' : Concurrency S.Handle} {n : ℕ}
        → acquire c ≡ some c'
        → Step (pool c n) (pool c' (suc n))
    released : {c : Concurrency S.Handle} {n : ℕ} → Step (pool c (suc n)) (pool (release c) n)
    resized :
        {c : Concurrency S.Handle} {n : ℕ} (size : ℕ) → Step (pool c n) (pool (set size c).1 n)

  pub data Reach (initial max : ℕ) : Pool → Type 0 where
    start : Reach initial max (pool (new initial max) 0)
    next : {p p' : Pool} → Reach initial max p → Step p p' → Reach initial max p'
