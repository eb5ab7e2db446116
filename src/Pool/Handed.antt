-- ===== src/Pool/Handed.antt =====
-- No container is handed out twice, and the filler keeps to its target.
use dokan.Prelude.{
  ℕ, zero, suc, ◌+◌, ◌-◌, ◌≤◌, String, Bool, true, false, ◌≡◌, refl, List, [], ◌∷◌, length, min,
  ltb, ◌==◌, count, str_eq, arith, Bool-cases, inl, inr, if◌then◌else◌,
}
use text.Mathlib.TextPositions.{eq_refl}
use dokan.Pool.{
  Idle, WarmPool, idle_of, push, pop, taken, acquire, set_target_idle, prewarm, shrink, grow,
  fill_image,
}

abbrev pub one : ℕ → List ℕ → ℕ
one id ids = count (λ j. j == id) ids

unfoldable pub idle_count : ℕ → Idle → ℕ
idle_count id [] = 0
idle_count id ((image, ids) ∷ idle) = one id ids + idle_count id idle

-- A container is idle or in use once at most, and one that is either has been created.
record Once (p : WarmPool) : Type 0 where
  once : (id : ℕ) → one id p.used + idle_count id p.idle ≤ 1
  made : (id : ℕ) → p.next_id ≤ id → one id p.used + idle_count id p.idle ≡ 0

count-push :
    (image : String) (n id : ℕ) (idle : Idle)
    → idle_count id (push image n idle) ≡ (if n == id then 1 else 0) + idle_count id idle
unfolding push idle_count
count-push image n id [] = ground arith
count-push image n id ((i, ids) ∷ idle) = ground (arith, count-push image n id idle)

count-pop :
    (image : String) (id : ℕ) (idle : Idle) → idle_count id (pop image idle) ≤ idle_count id idle
unfolding pop idle_count
count-pop image id [] = omega arith
count-pop image id ((i, []) ∷ idle) = ground (arith, count-pop image id idle)
count-pop image id ((i, (j ∷ ids)) ∷ idle) = ground (arith, count-pop image id idle)

count-taken :
    (image : String) (id n : ℕ) (ids : List ℕ) (idle : Idle)
    → idle_of image idle ≡ n ∷ ids
    → (if n == id then 1 else 0) + idle_count id (pop image idle) ≡ idle_count id idle
unfolding idle_of pop idle_count
count-taken image id n ids [] h = absurd (ground (arith, h))
count-taken image id n ids ((i, js) ∷ idle) h = elim (Bool-cases (str_eq i image)) [
  | inl e ↦ let full : js ≡ n ∷ ids = rw e at h in rw (e, full) (ground arith)
  | inr e ↦ let rest = count-taken image id n ids idle (rw e at h) in rw e (omega arith)
]

taken-Once :
    (creates : Bool) (image : String) (ids : List ℕ) (p : WarmPool)
    → idle_of image p.idle ≡ ids
    → Once p
    → Once (taken creates image ids p).1
taken-Once creates image (n ∷ ids) p e h = record {
  once = λ id. let same = count-taken image id n ids p.idle e in let le = h.once id in ground arith;
  made = λ id le.
      let same = count-taken image id n ids p.idle e in let none_yet = h.made id le in ground arith;
}
taken-Once true image [] p e h = record {
  once = λ id. let le = h.once id in let new = h.made id in ground arith;
  made = λ id le. let new = h.made id (omega arith) in ground arith;
}
taken-Once false image [] p e h = h

-- Only the containers count.
Once-same :
    (p q : WarmPool) → q.idle ≡ p.idle → q.used ≡ p.used → q.next_id ≡ p.next_id → Once p → Once q
Once-same p q i u n h = record {
  once = λ id. rw (i, u) (h.once id);
  made = λ id le. rw (i, u) (h.made id (rw n at le));
}

acquire-Once :
    (creates : Bool) (image : String) (p : WarmPool) → Once p → Once (acquire creates image p).1
unfolding acquire
acquire-Once creates image p h =
    taken-Once creates image (idle_of image p.idle) _ refl (Once-same p _ refl refl refl h)

shrink-Once : (n : ℕ) (image : String) (p : WarmPool) → Once p → Once (shrink n image p)
unfolding shrink
shrink-Once zero image p h = h
shrink-Once (suc n) image p h = shrink-Once n image _ (record {
  once = λ id. let le = count-pop image id p.idle in let o = h.once id in omega arith;
  made = λ id l. let le = count-pop image id p.idle in let o = h.made id l in omega arith;
})

grow-Once :
    (n : ℕ) (creates : List Bool) (image : String) (p : WarmPool)
    → Once p
    → Once (grow n creates image p)
unfolding grow
grow-Once zero creates image p h = h
grow-Once (suc n) [] image p h = h
grow-Once (suc n) (true ∷ creates) image p h = grow-Once n creates image _ (record {
  once = λ id.
      rw (count-push image p.next_id id p.idle)
        (let le = h.once id in let new = h.made id in ground arith);
  made = λ id le.
      rw (count-push image p.next_id id p.idle) (let new = h.made id (omega arith) in ground arith);
})
grow-Once (suc n) (false ∷ creates) image p h = grow-Once n creates image p h

fill_image-Once :
    (target : ℕ) (creates : List Bool) (image : String) (p : WarmPool)
    → Once p
    → Once (fill_image target creates image p)
unfolding fill_image
fill_image-Once target creates image p h =
    elim (Bool-cases (ltb target (length (idle_of image p.idle)))) [
      | inl e ↦ rw e (shrink-Once (min (length (idle_of image p.idle) - target) 4) image p h)
      | inr e ↦ rw e (grow-Once (min (target - length (idle_of image p.idle)) 4) creates image p h)
    ]

-- What the callers, the autoscaler and the filler do, in any order: the filler one image, or one
-- container, at a time, with whatever target it read.
pub data Step (p : WarmPool) : WarmPool → Type 0 where
  acquired : (creates : Bool) (image : String) → Step p (acquire creates image p).1
  filled :
      (target : ℕ) (creates : List Bool) (image : String)
      → Step p (fill_image target creates image p)
  grown : (creates : List Bool) (image : String) → Step p (grow 1 creates image p)
  shrunk : (image : String) → Step p (shrink 1 image p)
  retuned : (n : ℕ) → Step p (set_target_idle n p)
  warmed : (images : List String) → Step p (prewarm images p)

pub data Reach (p : WarmPool) : WarmPool → Type 0 where
  here : Reach p p
  next : {q r : WarmPool} → Reach p q → Step q r → Reach p r

prewarm-Once : (images : List String) (p : WarmPool) → Once p → Once (prewarm images p)
unfolding prewarm
prewarm-Once [] p h = h
prewarm-Once (image ∷ images) p h = prewarm-Once images _ (Once-same p _ refl refl refl h)

Step-Once : {p q : WarmPool} → Step p q → Once p → Once q
unfolding set_target_idle
Step-Once {p} (Step.acquired creates image) h = acquire-Once creates image p h
Step-Once {p} (Step.filled target creates image) h = fill_image-Once target creates image p h
Step-Once {p} (Step.grown creates image) h = grow-Once 1 creates image p h
Step-Once {p} (Step.shrunk image) h = shrink-Once 1 image p h
Step-Once {p} (Step.retuned n) h = Once-same p _ refl refl refl h
Step-Once {p} (Step.warmed images) h = prewarm-Once images p h

Reach-Once : {p q : WarmPool} → Reach p q → Once p → Once q
Reach-Once Reach.here h = h
Reach-Once (Reach.next r st) h = Step-Once st (Reach-Once r h)

abbrev pub empty_pool : ℕ → WarmPool
empty_pool target = record { idle = []; known = []; target_idle = target; next_id = 0; used = [] }

-- However acquisitions, refills, scale-downs and new targets interleave, from an empty pool on: no
-- container is handed out twice, and none that was handed out is idle in the pool.
pub Reach-handed_once :
    (target : ℕ) (p : WarmPool) (id : ℕ)
    → Reach (empty_pool target) p
    → one id p.used + idle_count id p.idle ≤ 1
unfolding idle_count
Reach-handed_once target p id r =
    (Reach-Once r (record { once = λ i. omega arith; made = λ i le. omega arith })).once id

length-push :
    (image : String) (n : ℕ) (idle : Idle)
    → length (idle_of image (push image n idle)) ≡ suc (length (idle_of image idle))
unfolding push idle_of
length-push image n [] = rw (eq_refl image) refl
length-push image n ((i, ids) ∷ idle) = ground (arith, length-push image n idle)

grow-length :
    (n : ℕ) (creates : List Bool) (image : String) (p : WarmPool)
    → length (idle_of image (grow n creates image p).idle) ≤ length (idle_of image p.idle) + n
unfolding grow
grow-length zero creates image p = omega arith
grow-length (suc n) [] image p = omega arith
grow-length (suc n) (true ∷ creates) image p =
    let rest =
      grow-length n creates image
        (record p { idle = push image p.next_id p.idle; next_id = suc p.next_id }) in
    let more = length-push image p.next_id p.idle in omega arith
grow-length (suc n) (false ∷ creates) image p =
    let rest = grow-length n creates image p in omega arith

-- A refill of an image that has no more idle containers than the target does not take it beyond,
-- whichever creations fail.
pub fill_image-le_target :
    (target : ℕ) (creates : List Bool) (image : String) (p : WarmPool)
    → length (idle_of image p.idle) ≤ target
    → length (idle_of image (fill_image target creates image p).idle) ≤ target
unfolding fill_image
fill_image-le_target target creates image p h =
    let have = length (idle_of image p.idle) in
    let below : ltb target have ≡ false = ground arith in
    let most = grow-length (min (target - have) 4) creates image p in rw below (omega arith)
