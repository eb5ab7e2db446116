-- ===== src/Tests/Tickers.antt =====
-- A daemon that adds a schedule twice and removes it.
use mathlib.Core.List.Memᴰ
use dokan.Prelude.{false, inl, inr, arith, ◌≡◌, ◌≢◌, refl, true, Bool, Memᴰ, filter}
use dokan.Db.{Schedule, no_rows}
use dokan.Db.Scripts.{enabled_schedules}
use dokan.Cron.Tickers.{Ticker, Task, Cron, start, begin, add, remove, job_of, forget_job}
use dokan.Cron.Tickers.Live.{Ran, Ran-one_ticker, remove-silences}
use dokan.Tests.Limits.{hourly}

abbrev all_parse : Schedule → Bool
all_parse s = true

abbrev twice : Cron
twice = (add all_parse hourly (add all_parse hourly (start all_parse no_rows)).1).1

twice-Ran : Ran all_parse no_rows twice
twice-Ran = Ran.added hourly (Ran.added hourly Ran.started)

abbrev second_ticker : Task
second_ticker = record { ticker = Ticker.utc 1; schedule = 7 }

running : Memᴰ second_ticker twice.tasks
unfolding add begin start job_of forget_job enabled_schedules filter
running = Memᴰ.head refl

-- The first ticker was told to stop, the second was not.
stays : ¬ Memᴰ second_ticker.ticker twice.leaving
unfolding add begin start job_of forget_job enabled_schedules filter
stays m = elim (Memᴰ.cases_cons m) [
  | inl e ↦ let same : Ticker.utc 1 ≡ Ticker.utc 0 = e in absurd (ground (arith, same))
  | inr r ↦ elim r [ ]
]

Ran-one_ticker_example : second_ticker.ticker ≡ second_ticker.ticker
Ran-one_ticker_example =
    Ran-one_ticker all_parse no_rows twice second_ticker second_ticker twice-Ran running running
      stays stays refl

remove-silences_example :
    ((k : Task)
      → Memᴰ k (remove true 7 twice).1.tasks
      → ¬ Memᴰ k.ticker twice.leaving
      → k.schedule ≢ 7)
    × ((s : Schedule) → Memᴰ s (enabled_schedules (remove false 7 twice).1.db) → s.id ≢ 7)
remove-silences_example = remove-silences all_parse no_rows twice false 7 twice-Ran
