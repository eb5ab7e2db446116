-- ===== src/Db/Outcome.antt =====
-- src/db.rs, `classify_outcome`: what an operator reads of a run that has ended.
use dokan.Prelude.{Option, some, leb, ◌==◌, if◌then◌else◌}
use dokan.Prelude.Int.{ℤ}
use dokan.Db.{Status}

pub data Outcome : Type 0 where
  ok verdict error canceled running pending : Outcome

unfoldable pub classify_outcome : Status → Option ℤ → Outcome
classify_outcome Status.succeeded code = ok
classify_outcome Status.failed (some (ℤ.pos n)) =
    if n == 0 then ok else if leb n 127 then verdict else error
classify_outcome Status.failed code = error
classify_outcome Status.canceled code = canceled
classify_outcome Status.running code = running
classify_outcome Status.pending code = pending
