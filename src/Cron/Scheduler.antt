-- ===== src/Cron/Scheduler.antt =====
-- internal/cron/scheduler.go and LocalLeader. A channel of `struct{}` is whether it is closed. Loading
-- a location by its name, and the other identifiers, are arguments.
use n8n_turbo.Prelude.{
  ℕ, ◌-◌, Bool, true, false, String, Option, none, some, List, [], ◌∷◌, if◌then◌else◌, ltb, nat_eqb,
  ◌==◌, string_eq, ℤ,
}
use n8n_turbo.Prelude.Map.{Map, lookup, insert, delete}
use n8n_turbo.Cron.Schedule.{Calendar, Schedule}
use n8n_turbo.Cron.Fields.{Parsed, parsed, failed, endless, ParseError}
use n8n_turbo.Cron.Parse.{parse}
use n8n_turbo.Cron.Job.{Job, new_job, due}

pub record Scheduler : Type 0 where
  pub jobs : Map String Job
  pub location : Calendar
  pub running : Bool
  -- `stop` and `done`; `none` is nil.
  pub stop : Option Bool
  pub done : Option Bool

unfoldable pub new_scheduler : Calendar → Scheduler
new_scheduler location = record {
  jobs = [];
  location = location;
  running = false;
  stop = none;
  done = none;
}

-- The identifier of the job that was added, or why none was.
pub data Added : Type 0 where
  added : String → Added
  invalid_timezone : Added
  invalid_cron : ParseError → Added
  parse_hangs : Added

-- What becomes of a parsed expression.
unfoldable pub add_parsed : String → ℕ → Scheduler → Parsed Schedule → Scheduler × Added
add_parsed id now s (failed e) = (s, invalid_cron e)
add_parsed id now s endless = (s, parse_hangs)
add_parsed id now s (parsed schedule) =
    (record s { jobs = insert id (new_job id schedule now) s.jobs }, added id)

module _ (parse_duration : String → Option ℤ) (order : List (String × String))
    (load_location : String → Option Calendar) (new_id : String) where
  unfoldable pub add_with : String → String → Calendar → ℕ → Scheduler → Scheduler × Added
  unfolding add_parsed
  add_with id expr location now s = add_parsed id now s (parse parse_duration order location expr)

  unfoldable pub add_job_with_id : String → String → String → ℕ → Scheduler → Scheduler × Added
  unfolding add_with
  add_job_with_id given expr timezone now s =
      let id = if given == "" then new_id else given in
      if timezone == "" then add_with id expr s.location now s else (elim (load_location timezone) [
        | none ↦ (s, invalid_timezone)
        | some location ↦ add_with id expr location now s
      ])

-- Whether the job was there.
unfoldable pub remove_job : String → Scheduler → Scheduler × Bool
remove_job id s = elim (lookup id s.jobs) [
  | none ↦ (s, false)
  | some _ ↦ (record s { jobs = delete id s.jobs }, true)
]

-- Whether it was not running yet.
unfoldable pub start : Scheduler → Scheduler × Bool
start s =
    if s.running
    then (s, false)
    else (record s { running = true; stop = some false; done = some false }, true)

-- `Stop` up to its `select`.
pub data StopBegin : Type 0 where
  not_running : StopBegin
  waits : StopBegin
  -- close of a closed or a nil channel
  panics : StopBegin

unfoldable pub begin_stop : Scheduler → Scheduler × StopBegin
begin_stop s =
    if s.running
    then (elim s.stop [
      | some false ↦ (record s { stop = some true }, waits)
      | some true ↦ (s, panics)
      | none ↦ (s, panics)
    ])
    else (s, not_running)

-- The case of `done`, and the rest.
unfoldable pub stopped : Scheduler → Scheduler
stopped s = record s { running = false; stop = none; done = none }

-- The jobs that `tick` runs, in the order in which it goes through them.
unfoldable pub tick : Option Bool → ℕ → Scheduler → List String
unfolding due
tick leader now s = elim leader [ some false ↦ [] | _ ↦ due_ids now s.jobs ]
  where
    due_ids : ℕ → Map String Job → List String
    due_ids now [] = []
    due_ids now ((id, j) ∷ jobs) =
        let rest = due_ids now jobs in if due now j then id ∷ rest else rest

-- The least time to a job's next run, and `next` if that is less.
unfoldable pub soonest : ℕ → Map String Job → ℕ → ℕ
soonest now [] next = next
soonest now ((_, j) ∷ jobs) next = soonest now jobs (
    if nat_eqb j.next_run 0
    then next
    else if ltb (j.next_run - now) next
    then j.next_run - now
    else next)

unfoldable pub next_wakeup : ℕ → Scheduler → ℕ
unfolding soonest
next_wakeup now s =
    let next = soonest now s.jobs 60000000000 in if ltb next 50000000 then 50000000 else next
