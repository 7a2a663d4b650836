-- ===== src/Cron/Examples.antt =====
-- The theorems on internal/cron at one schedule, one lease, one job.
use n8n_turbo.Prelude.{
  ℕ, ◌+◌, ◌-◌, ◌*◌, ◌/◌, ◌%◌, ◌^◌, ◌≤◌, ◌<◌, ◌≡◌, ◌≢◌, ◌⊎◌, none, some, [], ◌∷◌, refl, arith, true,
  false, pos,
}
use n8n_turbo.Cron.Schedule.{Calendar, Schedule, one_second, one_hour, one_minute, bit_set, next}
use n8n_turbo.Cron.Text.{
  cut, atoi, trim_left, trim_right, contains_char, split_at, cut_prefix, to_lower, words,
  replace_from,
}
use n8n_turbo.Cron.Fields.{parsed, endless, parse_field, set_bits, enough}
use n8n_turbo.Cron.Limits.{parse_field-ends}
use n8n_turbo.Cron.Values.{lists, mild, parse_field-lists}
use n8n_turbo.Cron.Listed.{mild_part}
use n8n_turbo.Cron.Overflow.{set_bits-wraps}
use n8n_turbo.Cron.Parse.{names, parse}
use n8n_turbo.Cron.Valid.{IsValid, mild_field, mild_expression, parse-IsValid}
use n8n_turbo.Cron.Next.{IsUtc, one_day, matches}
use n8n_turbo.Cron.Leader.{new_redis_leader}
use n8n_turbo.Cron.Lease.{Timely, new_redis_leader-Timely}
use n8n_turbo.Cron.Job.{Job, new_job, called, ended, new_history, happen_all, begin_run, due}
use n8n_turbo.Cron.Runs.{IsCounted, happen_all-IsCounted, begin_run-again}
use n8n_turbo.Cron.Scheduler.{Scheduler, next_wakeup}
use n8n_turbo.Cron.Wakeups.{next_wakeup-lookup}
use n8n_turbo.Prelude.Map.{lookup}
use n8n_turbo.Cron.Search.{next-earliest}

-- A calendar of twelve months of 31 days.
abbrev even_calendar : Calendar
even_calendar = record {
  year = λ t. t / one_day / 372;
  month = λ t. t / one_day % 372 / 31 + 1;
  day = λ t. t / one_day % 31 + 1;
  weekday = λ t. t / one_day % 7;
  hour = λ t. t / one_hour % 24;
  minute = λ t. t / one_minute % 60;
  second = λ t. t / one_second % 60;
  date = λ year month day hour.
      (year * 372 + (month - 1) * 31 + (day - 1)) * one_day + hour * one_hour;
  add_day = λ t. t + one_day;
  add_four_years = λ t. t + 1488 * one_day;
}

even_calendar-IsUtc : IsUtc even_calendar
even_calendar-IsUtc = record {
  month_range = λ t. (omega arith, omega arith);
  month_start = λ year month u low high.
      (λ le. omega (arith, le, low, high), λ le. omega (arith, le, low, high));
  month_whole = λ year month. omega arith;
  day_start = λ t. omega arith;
  hour_start = λ t. omega arith;
  same_day = λ t u eq. omega (arith, eq);
  same_weekday = λ t u eq. omega (arith, eq);
  hours = λ t. refl;
  minutes = λ t. refl;
  seconds = λ t. refl;
  days = λ t. refl;
}

-- Half past nine, on any day.
abbrev at_half_past_nine : Schedule
at_half_past_nine = record {
  second = 1;
  minute = 1073741824;
  hour = 512;
  dom = 4294967294;
  month = 8190;
  dow = 127;
  location = even_calendar;
  interval = pos 0;
}

-- Half past nine of the second day is not before the first day's.
next-earliest_example :
    (5 < next at_half_past_nine 5)
    × (matches at_half_past_nine (next at_half_past_nine 5) ≡ true)
    × (next at_half_past_nine 5 ≤ 120600000000000)
unfolding matches bit_set
next-earliest_example =
    next-earliest at_half_past_nine even_calendar-IsUtc 5 120600000000000 refl (omega arith)
      (omega arith) refl

-- The largest `int` as the step.
parse_field-ends_example : parse_field "5/9223372036854775807" 0 59 ≢ endless
parse_field-ends_example = parse_field-ends 0 59 (omega arith) (omega arith) "5/9223372036854775807"

parse_field-lists_example : bit_set 674 7 ≡ lists 0 59 (split_at "," "5-9/2,1") 7
unfolding parse_field cut atoi trim_left trim_right contains_char mild mild_part
parse_field-lists_example =
    parse_field-lists 0 59 (omega arith) (omega arith) "5-9/2,1" 674 7 refl refl (omega arith)

set_bits-wraps_example :
    (mask : ℕ) × (set_bits enough (2 ^ 63 - 1) 59 5 0 ≡ parsed mask)
    × (bit_set mask 5 ≡ true)
    × (bit_set mask (5 - 2) ≡ true)
set_bits-wraps_example = set_bits-wraps 59 5 0 (omega arith) (omega arith) (omega arith)

parse-IsValid_example : IsValid at_half_past_nine 9
unfolding parse cut_prefix trim_right trim_left to_lower words parse_field cut atoi replace_from
    bit_set mild_expression mild_field mild mild_part
parse-IsValid_example =
    parse-IsValid (λ _. none) names even_calendar "30 9 * * *" at_half_past_nine 9 refl refl
      (omega arith)

new_redis_leader-Timely_example :
    Timely
      (new_redis_leader "1" "" "" (pos 10000000000) (pos 8000000000)).ttl
      (new_redis_leader "1" "" "" (pos 10000000000) (pos 8000000000)).interval
new_redis_leader-Timely_example =
    new_redis_leader-Timely "1" "" "" (pos 10000000000) (pos 8000000000) (omega arith)

happen_all-IsCounted_example : IsCounted (
    happen_all
      (called 5 ∷ called 6 ∷ ended true ∷ called 7 ∷ [])
      (new_history (new_job "a" at_half_past_nine 0)))
happen_all-IsCounted_example =
    happen_all-IsCounted (called 5 ∷ called 6 ∷ ended true ∷ called 7 ∷ []) "a" at_half_past_nine 0

abbrev nine_thirty : Job
nine_thirty = record {
  id = "a";
  schedule = at_half_past_nine;
  last_run = 0;
  next_run = 34200000000000;
  run_count = pos 0;
  fail_count = pos 0;
  running = false;
}

-- A run 300 ms early.
begin_run-again_example :
    ((begin_run 34199700000000 nine_thirty).1 ≡ true)
    × ((begin_run 34199700000000 nine_thirty).0.next_run ≡ 34200000000000)
unfolding matches bit_set due
begin_run-again_example =
    begin_run-again nine_thirty 34199700000000 even_calendar-IsUtc refl refl refl refl (omega arith)
      (omega arith) refl

abbrev one_job : Scheduler
one_job = record {
  jobs = ("a", nine_thirty) ∷ [];
  location = even_calendar;
  running = true;
  stop = some false;
  done = some false;
}

next_wakeup-lookup_example :
    (50000000 ≤ next_wakeup 34199000000000 one_job)
    × (next_wakeup 34199000000000 one_job ≤ 60000000000)
    × ((next_wakeup 34199000000000 one_job ≡ 50000000)
        ⊎ (next_wakeup 34199000000000 one_job ≤ 34200000000000 - 34199000000000))
unfolding lookup
next_wakeup-lookup_example =
    next_wakeup-lookup 34199000000000 one_job "a" nine_thirty refl (omega arith)
