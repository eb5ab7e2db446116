-- ===== src/Http/Limiter/Window.antt =====
-- How many hits of a key pass while less than a window goes by.
use dokan.Prelude.{
  ℕ, suc, ◌+◌, ◌-◌, ◌≤◌, ◌<◌, String, true, false, ◌≡◌, refl, Option, none, some, List, [], ◌∷◌,
  All, length, ltb, leb, str_eq, eq_iff, if◌then◌else◌, arith, Bool-cases, inl, inr, ◌&&◌, ◌∙◌, sym,
}
use native.Mathlib.Nat.{le_trans}
use dokan.Http.Limiter.{
  Window, Limiter, new, find, put, prune, entry_or, rolled, hit, pruned, check_at,
}

find-put :
    (k j : String) (w : Window) (m : List (String × Window))
    → find j (put k w m) ≡ (if str_eq k j then some w else find j m)
unfolding find put
find-put k j w [] = refl
find-put k j w ((i, v) ∷ m) = ground (arith, eq_iff k j, eq_iff i k, eq_iff i j, find-put k j w m)

-- What a key may still pass, in the seconds from `t` to `t + window`: a window that began before
-- may end and another begin.
abbrev left_of : ℕ → ℕ → Option Window → ℕ
left_of max t none = max
left_of max t (some (start, n)) = if leb t start then max - n else max + (max - n)

left-le_double : (max t : ℕ) (o : Option Window) → left_of max t o ≤ max + max
left-le_double max t none = omega arith
left-le_double max t (some (s, n)) = ground arith

abbrev left : ℕ → String → Limiter → ℕ
left t key l = left_of l.max t (find key l.inner)

-- The map has one entry for a key.
abbrev pub IsMap : List (String × Window) → Type 0
IsMap [] = Unit
IsMap ((k, w) ∷ m) = (find k m ≡ none) × IsMap m

put-IsMap : (k : String) (w : Window) (m : List (String × Window)) → IsMap m → IsMap (put k w m)
unfolding put find
put-IsMap k w [] h = (refl, tt)
put-IsMap k w ((j, v) ∷ m) h = elim (Bool-cases (str_eq j k)) [
  | inl e ↦ rw e h
  | inr e ↦ rw e (ground (arith, find-put k j w m, eq_iff j k, eq_iff k j, h), put-IsMap k w m h.1)
]

find-prune-none :
    (k : String) (window now : ℕ) (m : List (String × Window))
    → find k m ≡ none
    → find k (prune window now m) ≡ none
unfolding prune find
find-prune-none k window now [] h = refl
find-prune-none k window now ((j, (s, n)) ∷ m) h = ground (arith, find-prune-none k window now m)

prune-IsMap : (window now : ℕ) (m : List (String × Window)) → IsMap m → IsMap (prune window now m)
unfolding prune
prune-IsMap window now [] h = tt
prune-IsMap window now ((j, (s, n)) ∷ m) h = elim (Bool-cases (ltb (now - s) window)) [
  | inl e ↦ rw e (find-prune-none j window now m h.0, prune-IsMap window now m h.1)
  | inr e ↦ rw e (prune-IsMap window now m h.1)
]

module _ (l : Limiter) (t now : ℕ) (after : t ≤ now) (before : now < t + l.window_secs) where
  -- Pruning takes away no window that began after `t`.
  left-prune :
      (k : String) (m : List (String × Window))
      → IsMap m
      → left_of l.max t (find k (prune l.window_secs now m)) ≤ left_of l.max t (find k m)
  unfolding prune find
  left-prune k [] h = omega arith
  left-prune k ((j, (s, n)) ∷ m) h = elim (Bool-cases (str_eq j k)) [
    | inr e ↦ elim (Bool-cases (ltb (now - s) l.window_secs)) [
      | inl f ↦ rw (f, e) (left-prune k m h.1)
      | inr f ↦ rw (f, e) (left-prune k m h.1)
    ]
    | inl e ↦
        let gone : find k (prune l.window_secs now m) ≡ none =
          find-prune-none k l.window_secs now m (rw ((eq_iff j k).0 e) at h.0) in
        ground (arith, e, gone)
  ]

  -- One call for the key.
  left-hit :
      (o : Option Window)
      → let (s, n) = rolled l.window_secs now (entry_or now o) in
        (leb l.max n ≡ true → left_of l.max t (some (s, n)) ≤ left_of l.max t o)
        × (leb l.max n ≡ false → suc (left_of l.max t (some (s, suc n))) ≤ left_of l.max t o)
  left-hit none = (λ h. ground arith, λ h. ground arith)
  left-hit (some (s, n)) = (λ h. ground arith, λ h. ground arith)

  -- One call for another key.
  left-kept :
      (k key : String) (w : Window) (m : List (String × Window))
      → str_eq key k ≡ false
      → find k (put key w m) ≡ find k m
  left-kept k key w m e = find-put key k w m ∙ rw e refl

  pruned-IsMap : IsMap l.inner → IsMap (pruned l now)
  pruned-IsMap h = elim (Bool-cases (ltb 4096 (length l.inner))) [
    | inl e ↦ rw e (prune-IsMap l.window_secs now l.inner h)
    | inr e ↦ rw e h
  ]

  left-pruned :
      (k : String)
      → IsMap l.inner
      → left_of l.max t (find k (pruned l now)) ≤ left_of l.max t (find k l.inner)
  left-pruned k h = elim (Bool-cases (ltb 4096 (length l.inner))) [
    | inl e ↦ rw e (left-prune k l.inner h)
    | inr e ↦ rw e (omega arith)
  ]

  check_at-IsMap : (key : String) → IsMap l.inner → IsMap (check_at key now l).1.inner
  unfolding check_at
  check_at-IsMap key h =
      let (s, n) = rolled l.window_secs now (entry_or now (find key (pruned l now))) in
      elim (Bool-cases (leb l.max n)) [
        | inl e ↦ rw e (put-IsMap key (s, n) (pruned l now) (pruned-IsMap h))
        | inr e ↦ rw e (put-IsMap key (s, suc n) (pruned l now) (pruned-IsMap h))
      ]

  left-hit-pruned :
      (k key : String) (s n : ℕ)
      → (str_eq key k ≡ true
          → (leb l.max n ≡ true → left_of l.max t (some (s, n)) ≤ left_of l.max t (find k l.inner))
            × (leb l.max n ≡ false
                → suc (left_of l.max t (some (s, suc n))) ≤ left_of l.max t (find k l.inner)))
      → IsMap l.inner
      → let (passed, l2) = hit l key (pruned l now) (s, n) in
        (if passed && str_eq key k then 1 else 0) + left t k l2 ≤ left t k l
  left-hit-pruned k key s n own h =
      let kept = left-pruned k h in
      elim (Bool-cases (leb l.max n)) [
        | inl f ↦ elim (Bool-cases (str_eq key k)) [
          | inl e ↦
              let le = (own e).0 f in rw (f, find-put key k (s, n) (pruned l now), e) (omega arith)
          | inr e ↦ rw (f, find-put key k (s, n) (pruned l now), e) (omega arith)
        ]
        | inr f ↦ elim (Bool-cases (str_eq key k)) [
          | inl e ↦
              let le = (own e).1 f in
              rw (f, find-put key k (s, suc n) (pruned l now), e) (omega arith)
          | inr e ↦ rw (f, find-put key k (s, suc n) (pruned l now), e) (omega arith)
        ]
      ]

  -- Whatever the call's key, it takes what it passes from what is left.
  left-check_at :
      (k key : String)
      → IsMap l.inner
      → (if (check_at key now l).0 && str_eq key k then 1 else 0) + left t k (check_at key now l).1
        ≤ left t k l
  unfolding check_at
  left-check_at k key h =
      let o = find key (pruned l now) in
      let (s, n) = rolled l.window_secs now (entry_or now o) in
      left-hit-pruned k key s n
        (λ e.
          let (same, less) = left-hit o in
          let kept = left-pruned key h in
          let key_k = sym ((eq_iff key k).0 e) in
          (λ f. rw key_k (le_trans (same f) kept), λ f. rw key_k (le_trans (less f) kept)))
        h

  check_at-fixed :
      (key : String)
      → ((check_at key now l).1.max ≡ l.max) × ((check_at key now l).1.window_secs ≡ l.window_secs)
  unfolding check_at
  check_at-fixed key =
      let (s, n) = rolled l.window_secs now (entry_or now (find key (pruned l now))) in
      elim (Bool-cases (leb l.max n)) [ inl e ↦ rw e (refl, refl) | inr e ↦ rw e (refl, refl) ]

-- How many calls for the key `k` pass, of a sequence of calls with their times.
unfoldable pub passes : String → List (String × ℕ) → Limiter → ℕ
passes k [] l = 0
passes k ((key, now) ∷ calls) l =
    let (passed, l2) = check_at key now l in
    (if passed && str_eq key k then 1 else 0) + passes k calls l2

-- The calls of one window's length, in any order.
abbrev pub Within : ℕ → ℕ → List (String × ℕ) → Type 0
Within t window calls = All (λ call. (t ≤ call.1) × (call.1 < t + window)) calls

passes-left :
    (k : String) (t max window : ℕ) (calls : List (String × ℕ)) (l : Limiter)
    → l.max ≡ max
    → l.window_secs ≡ window
    → Within t window calls
    → IsMap l.inner
    → passes k calls l ≤ left t k l
unfolding passes
passes-left k t max window [] l m w h map = omega arith
passes-left k t max window ((key, now) ∷ calls) l m w ((after, before), h) map =
    let before2 : now < t + l.window_secs = rw w before in
    let l2 = (check_at key now l).1 in
    let (fixed_max, fixed_window) = check_at-fixed l t now after before2 key in
    let rest =
      passes-left k t max window calls l2 (fixed_max ∙ m) (fixed_window ∙ w) h
        (check_at-IsMap l t now after before2 key map) in
    let one = left-check_at l t now after before2 k key map in omega arith

-- However the calls of a window's length fall and interleave with those for other keys, and whatever
-- was pruned, at most twice `max` of them pass for one key, since a window may end among them.
passes-le_double :
    (k : String) (t : ℕ) (calls : List (String × ℕ)) (l : Limiter)
    → Within t l.window_secs calls
    → IsMap l.inner
    → passes k calls l ≤ l.max + l.max
passes-le_double k t calls l h map =
    le_trans (passes-left k t l.max l.window_secs calls l refl refl h map)
      (left-le_double l.max t (find k l.inner))

-- From a new limiter, at most `max` of the calls of a window's length pass for one key.
pub passes-le_max :
    (k : String) (t max window : ℕ) (calls : List (String × ℕ))
    → Within t window calls
    → passes k calls (new window max) ≤ max
unfolding new find
passes-le_max k t max window calls h =
    passes-left k t max window calls (new window max) refl refl h tt
