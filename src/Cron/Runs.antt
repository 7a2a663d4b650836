-- ===== src/Cron/Runs.antt =====
-- The runs of a job of internal/cron/job.go.
use n8n_turbo.Prelude.{
  ℕ, ◌+◌, ◌%◌, ◌≤◌, ◌<◌, ◌≡◌, inl, inr, refl, arith, true, false, if◌then◌else◌, List, [], ◌∷◌,
  String, pos, positive,
}
use n8n_turbo.Cron.Schedule.{Schedule, next, one_second, truncate}
use n8n_turbo.Cron.Next.{IsUtc, matches}
use n8n_turbo.Cron.Search.{next-matches, next-earliest}
use n8n_turbo.Cron.Job.{
  Job, new_job, begin_run, end_run, due, Event, called, ended, History, happen, happen_all,
  new_history,
}

-- A job runs once at a time, and its counts are those of its calls.
pub record IsCounted (h : History) : Type 0 where
  pub alone : (if h.job.running then 1 else 0) ≡ h.going_on
  pub counted : h.job.run_count ≡ pos h.begun
  pub failed : h.job.fail_count ≡ pos h.panics

happen-IsCounted : (e : Event) (h : History) → IsCounted h → IsCounted (happen e h)
unfolding happen begin_run end_run
happen-IsCounted (called at) h c = record {
  alone = ground (arith, c.alone);
  counted = ground (arith, c.counted);
  failed = ground (arith, c.failed);
}
happen-IsCounted (ended panicked) h c = record {
  alone = ground (arith, c.alone);
  counted = ground (arith, c.counted);
  failed = ground (arith, c.failed);
}

keep-IsCounted : (events : List Event) (h : History) → IsCounted h → IsCounted (happen_all events h)
unfolding happen_all
keep-IsCounted [] h c = c
keep-IsCounted (e ∷ events) h c = keep-IsCounted events (happen e h) (happen-IsCounted e h c)

-- A new job, whoever calls its `run` and however the calls of its function end: its function is
-- running once at most, and then only if the job says so, and its counts of runs and of failures are
-- the calls that have begun and those that panicked.
pub happen_all-IsCounted :
    (events : List Event) (id : String) (s : Schedule) (now : ℕ)
    → IsCounted (happen_all events (new_history (new_job id s now)))
unfolding new_job new_history
happen_all-IsCounted events id s now =
    keep-IsCounted events (new_history (new_job id s now))
      (record { alone = refl; counted = refl; failed = refl })

-- In UTC and without an interval: a job that is not running, and is run up to half a second before
-- its next time, a whole second that its schedule matches and that lies before the limit, runs and
-- has that time as its next time again.
pub begin_run-again :
    (j : Job) (at : ℕ)
    → IsUtc j.schedule.location
    → positive j.schedule.interval ≡ false
    → j.running ≡ false
    → matches j.schedule j.next_run ≡ true
    → j.next_run % one_second ≡ 0
    → at < j.next_run
    → j.next_run < j.schedule.location.add_four_years j.next_run
    → due at j ≡ true
    → ((begin_run at j).1 ≡ true) × ((begin_run at j).0.next_run ≡ j.next_run)
unfolding begin_run due
begin_run-again j at utc cron idle fits whole early limit ready =
    let slack : j.next_run ≤ at + 500000000 = ground (arith, ready) in
    let here : truncate one_second (at + one_second) ≡ j.next_run =
      omega (arith, slack, whole, early) in
    let before : j.next_run
        < j.schedule.location.add_four_years (truncate one_second (at + one_second)) =
      rw here limit in
    let (after, found, soon) =
      next-earliest j.schedule utc at j.next_run cron (omega (arith, here)) before fits in
    let same : next j.schedule at ≡ j.next_run = elim (next-matches j.schedule utc at cron) [
      | inl zero_time ↦ absurd (omega (arith, zero_time, after))
      | inr (later, second_, _, _) ↦ omega (arith, later, second_, soon, whole, early, slack)
    ] in
    (ground (arith, idle), ground (arith, idle, same))
