-- ===== src/Pool.antt =====
-- src/pool.rs: the warm pool. Docker names the containers that it creates, each with a number of its
-- own here; `used` is what the pool has handed out so far.
pub mod Handed
use dokan.Prelude.{
  ℕ, zero, suc, ◌+◌, ◌-◌, String, Bool, true, false, Option, none, some, List, [], ◌∷◌, length, min,
  ltb, str_eq, any, if◌then◌else◌,
}

-- The idle containers of an image; the one that was put there last is taken first.
abbrev pub Idle : Type 0
Idle = List (String × List ℕ)

pub record WarmPool : Type 0 where
  pub idle : Idle
  pub known : List String
  pub target_idle : ℕ
  pub next_id : ℕ
  pub used : List ℕ

unfoldable pub idle_of : String → Idle → List ℕ
idle_of image [] = []
idle_of image ((i, ids) ∷ idle) = if str_eq i image then ids else idle_of image idle

unfoldable pub push : String → ℕ → Idle → Idle
push image id [] = (image, id ∷ []) ∷ []
push image id ((i, ids) ∷ idle) =
    if str_eq i image then (i, id ∷ ids) ∷ idle else (i, ids) ∷ push image id idle

abbrev pub rest_of : List ℕ → List ℕ
rest_of [] = []
rest_of (id ∷ ids) = ids

unfoldable pub pop : String → Idle → Idle
pop image [] = []
pop image ((i, ids) ∷ idle) =
    if str_eq i image then (i, rest_of ids) ∷ idle else (i, ids) ∷ pop image idle

abbrev learn : String → List String → List String
learn image known = if any (str_eq image) known then known else image ∷ known

-- `creates`: whether Docker creates the container.
abbrev taken : Bool → String → List ℕ → WarmPool → Option ℕ × WarmPool
taken creates image (id ∷ ids) p =
    (some id, record p { idle = pop image p.idle; used = id ∷ p.used })
taken true image [] p =
    (some p.next_id, record p { next_id = suc p.next_id; used = p.next_id ∷ p.used })
taken false image [] p = (none, p)

-- A warm container, or else a new one.
unfoldable pub acquire : Bool → String → WarmPool → Option ℕ × WarmPool
unfolding idle_of pop
acquire creates image p =
    taken creates image (idle_of image p.idle) (record p { known = learn image p.known })

unfoldable pub set_target_idle : ℕ → WarmPool → WarmPool
set_target_idle n p = record p { target_idle = n }

unfoldable pub prewarm : List String → WarmPool → WarmPool
prewarm [] p = p
prewarm (image ∷ images) p = prewarm images (record p { known = learn image p.known })

abbrev pub burst : ℕ
burst = 4

-- Idle containers beyond the target are discarded.
unfoldable pub shrink : ℕ → String → WarmPool → WarmPool
unfolding pop
shrink zero image p = p
shrink (suc n) image p = shrink n image (record p { idle = pop image p.idle })

-- Each creation may fail; one that fails leaves the pool as it is.
unfoldable pub grow : ℕ → List Bool → String → WarmPool → WarmPool
unfolding push
grow zero creates image p = p
grow (suc n) [] image p = p
grow (suc n) (true ∷ creates) image p =
    grow n creates image (record p { idle = push image p.next_id p.idle; next_id = suc p.next_id })
grow (suc n) (false ∷ creates) image p = grow n creates image p

-- One image in a tick of the filler, with the target that the tick read.
unfoldable pub fill_image : ℕ → List Bool → String → WarmPool → WarmPool
unfolding idle_of shrink grow
fill_image target creates image p =
    let have = length (idle_of image p.idle) in
    if ltb target have
    then shrink (min (have - target) burst) image p
    else grow (min (target - have) burst) creates image p

unfoldable pub fill_all : ℕ → List Bool → List String → WarmPool → WarmPool
unfolding fill_image
fill_all target creates [] p = p
fill_all target creates (image ∷ images) p =
    fill_all target creates images (fill_image target creates image p)

unfoldable pub tick : List Bool → WarmPool → WarmPool
unfolding fill_all
tick creates p = fill_all p.target_idle creates p.known p
