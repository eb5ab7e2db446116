-- ===== src/Exec.antt =====
-- src/exec.rs: the runtimes that a job may ask for, and the time that it gets. The containers are
-- Docker's.
pub mod Limits
pub mod Redact
pub mod Pump
pub mod Files
pub mod Host
pub mod Job
use dokan.Prelude.{
  ℕ, String, Bool, Option, none, some, ltb, leb, min, max, ◌||◌, str_eq, if◌then◌else◌,
}
use dokan.Prelude.Int.{ℤ, pos, negsuc}

abbrev pub default_timeout_secs : ℕ
default_timeout_secs = 300

unfoldable pub runtime_spec : String → Option (String × String)
runtime_spec runtime =
    if str_eq runtime "python" || str_eq runtime "python3" || str_eq runtime "python3.12"
    then some ("python:3.12-slim", "python")
    else if str_eq runtime "node" || str_eq runtime "nodejs" || str_eq runtime "javascript"
    then some ("node:22-slim", "node")
    else if str_eq runtime "bash" || str_eq runtime "sh" || str_eq runtime "shell"
    then some ("alpine:3.20", "sh")
    else none

abbrev pub larger : ℕ → ℕ → ℕ
larger a b = if ltb a b then b else a

abbrev pub smaller : ℕ → ℕ → ℕ
smaller a b = if ltb b a then b else a

unfoldable pub effective_timeout_secs : Option ℤ → ℕ → ℕ
effective_timeout_secs none max_secs = smaller default_timeout_secs (larger max_secs 1)
effective_timeout_secs (some (pos t)) max_secs =
    if leb 1 t
    then smaller t (larger max_secs 1)
    else smaller default_timeout_secs (larger max_secs 1)
effective_timeout_secs (some (negsuc t)) max_secs = smaller default_timeout_secs (larger max_secs 1)
