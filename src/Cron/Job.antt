-- ===== src/Cron/Job.antt =====
-- internal/cron/job.go. A run has two steps, around the call of the job's function.
use n8n_turbo.Prelude.{
  ℕ, zero, suc, Bool, true, false, String, List, [], ◌∷◌, if◌then◌else◌, ◌+◌, not, ◌&&◌, nat_eqb,
  leb, ℤ, pos, add_one,
}
use n8n_turbo.Cron.Schedule.{Schedule, next}

pub record Job : Type 0 where
  pub id : String
  pub schedule : Schedule
  pub last_run : ℕ
  pub next_run : ℕ
  pub run_count : ℤ
  pub fail_count : ℤ
  pub running : Bool

unfoldable pub new_job : String → Schedule → ℕ → Job
new_job id schedule now = record {
  id = id;
  schedule = schedule;
  last_run = 0;
  next_run = next schedule now;
  run_count = pos 0;
  fail_count = pos 0;
  running = false;
}

-- Up to the call of the job's function, and whether it is called.
unfoldable pub begin_run : ℕ → Job → Job × Bool
begin_run at j = if j.running then (j, false) else (
  record j {
    running = true;
    run_count = add_one j.run_count;
    last_run = at;
    next_run = next j.schedule at;
  },
  true,
)

-- The deferred function, after a panic or a return; its two locks as one step.
unfoldable pub end_run : Bool → Job → Job
end_run panicked j = record j {
  fail_count = if panicked then add_one j.fail_count else j.fail_count;
  running = false;
}

-- Whether `tick` of internal/cron/scheduler.go runs a job: a next time that is not the zero time, and
-- not more than half a second away.
unfoldable pub due : ℕ → Job → Bool
due now j = not (nat_eqb j.next_run 0) && leb j.next_run (now + 500000000)

-- What happens to a job: somebody calls its `run`, or a call of its function ends.
pub data Event : Type 0 where
  called : ℕ → Event
  ended : Bool → Event

-- A job with the calls of its function that go on, those that have begun, and those that panicked.
pub record History : Type 0 where
  pub job : Job
  pub going_on : ℕ
  pub begun : ℕ
  pub panics : ℕ

unfoldable pub happen : Event → History → History
unfolding begin_run end_run
happen (called at) h =
    let (j, calls) = begin_run at h.job in
    record h {
      job = j;
      going_on = if calls then suc h.going_on else h.going_on;
      begun = if calls then suc h.begun else h.begun;
    }
happen (ended panicked) h = elim h.going_on [
  | zero ↦ h
  | suc others ↦ record h {
    job = end_run panicked h.job;
    going_on = others;
    panics = if panicked then suc h.panics else h.panics;
  }
]

unfoldable pub happen_all : List Event → History → History
unfolding happen
happen_all [] h = h
happen_all (e ∷ events) h = happen_all events (happen e h)

unfoldable pub new_history : Job → History
new_history j = record { job = j; going_on = 0; begun = 0; panics = 0 }
