-- ===== src/Exec/Limits.antt =====
-- A job always has a time limit, within the daemon's bound.
use dokan.Prelude.{ℕ, ◌≤◌, Option, none, some, arith}
use dokan.Prelude.Int.{ℤ, pos, negsuc}
use dokan.Exec.{effective_timeout_secs, larger}

-- Whatever the script asks for, the time limit of a job is at least one second and at most the
-- daemon's bound, which counts as one second when it is 0.
pub effective_timeout_secs-bounds :
    (script_timeout : Option ℤ) (max_secs : ℕ)
    → (1 ≤ effective_timeout_secs script_timeout max_secs)
      × (effective_timeout_secs script_timeout max_secs ≤ larger max_secs 1)
unfolding effective_timeout_secs
effective_timeout_secs-bounds none m = ground arith
effective_timeout_secs-bounds (some (pos t)) m = ground arith
effective_timeout_secs-bounds (some (negsuc t)) m = ground arith
