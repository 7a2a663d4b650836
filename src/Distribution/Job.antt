-- ===== src/Distribution/Job.antt =====
-- internal/engine/distribution/distributor.go
use n8n_turbo.Prelude.{
  Bool, String, Option, none, some, List, [], if◌then◌else◌, ℤ, pos, int_eqb, ◌==◌, string_eq,
}
use n8n_turbo.Prelude.Map.{Map}
use n8n_turbo.Dataplane.Types.{Output}

-- `metadata` is `none` for a nil map. `workflow_data` stands for the bytes.
pub record Job : Type 0 where
  pub id : String
  pub workflow_id : String
  pub workflow_data : String
  pub trigger_data : List (Map String Output)
  pub mode : String
  pub priority : ℤ
  pub enqueued_at : ℤ
  pub metadata : Option (Map String String)
  pub retry_of : String

pub record JobResult : Type 0 where
  pub job_id : String
  pub workflow_id : String
  pub success : Bool
  pub error : String
  pub duration_ms : ℤ
  pub finished_at : ℤ

abbrev pub or_empty : Option (Map String String) → Map String String
or_empty none = []
or_empty (some m) = m

-- `normalizeJob`; `now` is the clock in milliseconds.
unfoldable pub normalize_job : ℤ → Job → Job
normalize_job now job = record job {
  enqueued_at = if int_eqb job.enqueued_at (pos 0) then now else job.enqueued_at;
  metadata = some (or_empty job.metadata);
}

-- `firstNonEmpty` of pool.go, of two values.
unfoldable pub first_non_empty : String → String → String
first_non_empty a b = if a == "" then b else a
