-- ===== src/Tests/Limits.antt =====
-- The limiter over a counter, the time limit of a job, the quota and the ticks of a schedule.
use dokan.Prelude.{
  ℕ, zero, suc, ◌+◌, ◌-◌, ◌≤◌, ◌≡◌, refl, some, none, true, false, arith, Option, leb, ltb,
  if◌then◌else◌,
}
use dokan.Prelude.Int.{pos, ◌<ℤ◌}
use dokan.Db.{Run, Schedule, Db}
use dokan.Db.Queue.{start}
use dokan.Quota.{service_time}
use dokan.Quota.Limits.{service_time_negative}
use dokan.Cron.{Host, enqueue, enqueue_tick}
use dokan.Cron.Ticks.{enqueue_tick_once}
use dokan.Scale.{Semaphore, new, acquire, set, Pool, pool, Step, Reach}
use dokan.Scale.Slots.{Reach-held_le}
use dokan.Tests.{two_pending, run_one, empty_object}

abbrev take : ℕ → Option ℕ
take zero = none
take (suc n) = some n

-- Permits as a number.
abbrev forget : ℕ → ℕ → ℕ × ℕ
forget n h = if leb n h then (n, h - n) else (h, 0)

forget-count : (n h : ℕ) → (forget n h).0 ≡ (if leb n h then n else h)
forget-count n h = ground arith

forget-left : (n h : ℕ) → (forget n h).1 + (forget n h).0 ≡ h
forget-left n h = ground arith

abbrev counter : Semaphore
counter = record {
  Handle = ℕ;
  fresh = λ n. n;
  available = λ h. h;
  acquire_owned = take;
  drop_permit = suc;
  add_permits = λ n h. h + n;
  forget_permits = forget;
  available-fresh = λ n. refl;
  acquire_owned-empty = λ h e. rw e refl;
  acquire_owned-free = λ h n e. (n, rw e refl, refl);
  available-drop_permit = λ h. refl;
  available-add_permits = λ n h. refl;
  forget_permits-count = forget-count;
  available-forget_permits = forget-left;
}

-- Four slots at most, two at first, one of them taken, and then a growth to three.
abbrev one_held : Pool counter
one_held = pool counter (record { sem = 2; current = 3; max = 4 }) 1

three_of_four : Reach counter 2 4 one_held
unfolding new acquire set
three_of_four =
    Reach.next
      (Reach.next Reach.start (Step.acquired {c' = record { sem = 1; current = 2; max = 4 }} refl))
      (Step.resized 3)

Reach-held_le_example : (1 + 2 ≡ 3) × (1 ≤ 3) × (3 ≤ (if ltb 4 1 then 1 else 4))
Reach-held_le_example = Reach-held_le counter 2 4 one_held three_of_four

-- Retried after its failure at 50, and running again since 60.
abbrev retried : Run
retried = record (start 60 run_one) { agent_id = some "agent"; finished_at = some 50 }

service_time_negative_example : service_time "agent" 70 100 retried <ℤ pos 0
service_time_negative_example =
    service_time_negative "agent" 70 100 60 50 retried refl refl refl (omega arith) (omega arith)

abbrev pub hourly : Schedule
hourly = record {
  id = 7;
  script_id = 1;
  cron = "0 * * * *";
  input = empty_object;
  enabled = true;
  agent_id = some "agent";
  input_blobs = none;
  capture_output = false;
  idempotency = true;
  timezone = none;
}

abbrev healthy : Host
healthy = record { whole_seconds = λ s. "0"; check_fails = false; insert_fails = false }

abbrev undisturbed : Db → Db
undisturbed db = db

enqueue_tick_once_example :
    let u = (enqueue_tick healthy 100 hourly 3600 undisturbed two_pending).1 in
    ((enqueue_tick healthy 101 hourly 3600 undisturbed u).0 ≡ none)
    × ((enqueue_tick healthy 101 hourly 3600 undisturbed u).1.runs ≡ u.runs)
enqueue_tick_once_example =
    enqueue_tick_once healthy refl refl healthy 100 101 hourly 3600 undisturbed undisturbed
      two_pending refl refl (λ taken. taken)

-- Two ticks pass the check before either inserts its run.
abbrev overlapped : Db
overlapped =
    (enqueue healthy 100 hourly (some "b") (enqueue healthy 100 hourly (some "a") two_pending).1).1
