-- ===== src/Cron/Calls.antt =====
-- The calls of a scheduler of internal/cron/scheduler.go, in any order.
use n8n_turbo.Prelude.{ℕ, Bool, true, String, Option, none, some, List, [], ◌∷◌, ℤ, string_eq}
use n8n_turbo.Prelude.Map.{lookup, insert}
use n8n_turbo.Cron.Schedule.{Calendar}
use n8n_turbo.Cron.Job.{Job, begin_run, end_run}
use n8n_turbo.Cron.Scheduler.{
  Scheduler, add_job_with_id, remove_job, start, begin_stop, stopped, tick,
}

-- A call, or the end of one that waits: an `AddJobWithID` with the identifier that Go would make, the
-- `tick` of the loop with the clock that each run reads, the end of a run of a job that the scheduler
-- still has, and the two steps of a `Stop`. The end of a run of a job that was replaced or removed
-- leaves the scheduler as it is.
pub data Request : Type 0 where
  adds : String → String → String → String → ℕ → Request
  removes : String → Request
  starts : Request
  stop_begins : Request
  stop_ends : Request
  ticks : Option Bool → ℕ → (String → ℕ) → Request
  run_ends : String → Bool → Request

-- The end of a `Stop` that has closed the channel.
unfoldable pub end_stop : Scheduler → Scheduler
unfolding stopped
end_stop s = elim s.stop [ some true ↦ stopped s | _ ↦ s ]

unfoldable pub update_job : String → (Job → Job) → Scheduler → Scheduler
update_job id change s = elim (lookup id s.jobs) [
  | none ↦ s
  | some j ↦ record s { jobs = insert id (change j) s.jobs }
]

-- `go job.run(ctx)` for each job that is due.
unfoldable pub run_jobs : List String → (String → ℕ) → Scheduler → Scheduler
unfolding update_job begin_run
run_jobs [] clock s = s
run_jobs (id ∷ ids) clock s = run_jobs ids clock (update_job id (λ j. (begin_run (clock id) j).0) s)

module _ (parse_duration : String → Option ℤ) (order : List (String × String))
    (load_location : String → Option Calendar) where
  unfoldable pub serve : Request → Scheduler → Scheduler
  unfolding add_job_with_id remove_job start begin_stop end_stop tick run_jobs end_run
  serve (adds new_id given expr timezone now) s =
      (add_job_with_id parse_duration order load_location new_id given expr timezone now s).0
  serve (removes id) s = (remove_job id s).0
  serve starts s = (start s).0
  serve stop_begins s = (begin_stop s).0
  serve stop_ends s = end_stop s
  serve (ticks leader now clock) s = run_jobs (tick leader now s) clock s
  serve (run_ends id panicked) s = update_job id (end_run panicked) s

  unfoldable pub serve_all : List Request → Scheduler → Scheduler
  unfolding serve
  serve_all [] s = s
  serve_all (r ∷ requests) s = serve_all requests (serve r s)
