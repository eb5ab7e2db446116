-- ===== src/Http/Limiter.antt =====
-- src/http.rs, `FixedWindowLimiter`: at most `max` hits of a key in a window. The map is pruned of
-- windows that are over when it has grown past 4096 keys.
pub mod Window
use dokan.Prelude.{
  ℕ, suc, ◌+◌, ◌-◌, String, Bool, true, false, Option, none, some, List, [], ◌∷◌, ◌++◌, filter,
  length, ltb, leb, str_eq, if◌then◌else◌,
}

-- When a key's window began, and its hits since.
abbrev pub Window : Type 0
Window = ℕ × ℕ

pub record Limiter : Type 0 where
  pub window_secs : ℕ
  pub max : ℕ
  pub inner : List (String × Window)

unfoldable pub new : ℕ → ℕ → Limiter
new window_secs max = record { window_secs = window_secs; max = max; inner = [] }

unfoldable pub find : String → List (String × Window) → Option Window
find key [] = none
find key ((k, w) ∷ m) = if str_eq k key then some w else find key m

unfoldable pub put : String → Window → List (String × Window) → List (String × Window)
put key w [] = (key, w) ∷ []
put key w ((k, v) ∷ m) = if str_eq k key then (k, w) ∷ m else (k, v) ∷ put key w m

-- `retain`
unfoldable pub prune : ℕ → ℕ → List (String × Window) → List (String × Window)
prune window now [] = []
prune window now ((k, (start, n)) ∷ m) =
    let rest = prune window now m in
    if ltb (now - start) window then (k, (start, n)) ∷ rest else rest

abbrev pub entry_or : ℕ → Option Window → Window
entry_or now none = (now, 0)
entry_or now (some w) = w

-- A window that is over begins anew.
abbrev pub rolled : ℕ → ℕ → Window → Window
rolled window now (start, n) = if leb window (now - start) then (now, 0) else (start, n)

abbrev pub hit : Limiter → String → List (String × Window) → Window → Bool × Limiter
hit l key m (start, n) =
    if leb l.max n
    then (false, record l { inner = put key (start, n) m })
    else (true, record l { inner = put key (start, suc n) m })

abbrev pub pruned : Limiter → ℕ → List (String × Window)
pruned l now = if ltb 4096 (length l.inner) then prune l.window_secs now l.inner else l.inner

unfoldable pub check_at : String → ℕ → Limiter → Bool × Limiter
unfolding find put prune
check_at key now l =
    let m = pruned l now in hit l key m (rolled l.window_secs now (entry_or now (find key m)))
