-- ===== src/Cron/Sound.antt =====
-- What stays true of a scheduler of internal/cron/scheduler.go.
use n8n_turbo.Prelude.{ℕ, ◌<◌, ◌≡◌, Bool, true, false, String, Option, none, some, List, string_eq}
use n8n_turbo.Cron.Schedule.{Schedule}
use n8n_turbo.Cron.Valid.{mild_expression}
use n8n_turbo.Cron.Job.{Job}
use n8n_turbo.Cron.Scheduler.{Scheduler}
use n8n_turbo.Cron.Calls.{Request, adds}
use n8n_turbo.Cron.Fits.{Fits, AllFit}

-- No field of an expression that the request adds has a step above 2^62.
abbrev pub mild_request : List (String × String) → Request → Bool
mild_request order (adds new_id given expr timezone now) = mild_expression order expr
mild_request order _ = true

abbrev is_some : Option Bool → Bool
is_some none = false
is_some (some _) = true

module _ (b : ℕ) (lt : b < 64) where
  -- Every job fits, and the scheduler has its channels just while it runs.
  pub record IsSound (s : Scheduler) : Type 0 where
    pub jobs : AllFit b s.jobs
    pub stop : is_some s.stop ≡ s.running
    pub done : is_some s.done ≡ s.running
