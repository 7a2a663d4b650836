-- ===== src/Distribution/Pool.antt =====
-- `WorkerPool` of internal/engine/distribution/pool.go: a job's way through a worker. The distributor
-- is the one of local.go, the limiter the semaphore of internal/engine/concurrency.go.
use n8n_turbo.Prelude.{
  ℕ, ◌+◌, ◌*◌, Bool, true, false, String, Option, none, some, if◌then◌else◌, ℤ, pos, positive,
  pos_part, ◌==◌, string_eq,
}
use n8n_turbo.Concurrency.Semaphore
use n8n_turbo.Concurrency.Semaphore.{Semaphore, Outcome, acquired, canceled, blocked}
use n8n_turbo.Distribution.Job.{Job, JobResult, first_non_empty}
use n8n_turbo.Distribution.Local.{LocalDistributor, Reply, taken, closed_error, nack}
use n8n_turbo.Distribution.Results.{acknowledge}

pub record PoolConfig : Type 0 where
  pub num_workers : ℤ
  pub max_jobs_per_worker : ℤ
  pub shutdown_timeout : ℤ
  pub job_timeout : ℤ

-- The counters are `int64`; their wrap is not modelled.
pub record PoolMetrics : Type 0 where
  pub jobs_processed : ℕ
  pub jobs_succeeded : ℕ
  pub jobs_failed : ℕ
  pub jobs_timed_out : ℕ
  pub active_workers : ℕ

pub record WorkerPool : Type 0 where
  pub limiter : Semaphore
  pub cfg : PoolConfig
  pub metrics : PoolMetrics

-- Durations are in nanoseconds.
unfoldable pub default_pool_config : PoolConfig
default_pool_config = record {
  num_workers = pos 10;
  max_jobs_per_worker = pos 1;
  shutdown_timeout = pos 30000000000;
  job_timeout = pos 300000000000;
}

unfoldable pub pool_with_defaults : PoolConfig → PoolConfig
unfolding default_pool_config
pool_with_defaults cfg = record cfg {
  num_workers =
      if positive cfg.num_workers then cfg.num_workers else default_pool_config.num_workers;
  max_jobs_per_worker =
      if positive cfg.max_jobs_per_worker
      then cfg.max_jobs_per_worker
      else default_pool_config.max_jobs_per_worker;
  shutdown_timeout =
      if positive cfg.shutdown_timeout
      then cfg.shutdown_timeout
      else default_pool_config.shutdown_timeout;
}

-- Both factors are positive by then.
unfoldable pub pool_size : PoolConfig → ℤ
pool_size cfg = pos (pos_part cfg.num_workers * pos_part cfg.max_jobs_per_worker)

unfoldable pub new_worker_pool : PoolConfig → WorkerPool
unfolding pool_with_defaults pool_size Semaphore.new
new_worker_pool cfg = record {
  limiter = Semaphore.new "worker-pool" (pool_size (pool_with_defaults cfg));
  cfg = pool_with_defaults cfg;
  metrics = record {
    jobs_processed = 0;
    jobs_succeeded = 0;
    jobs_failed = 0;
    jobs_timed_out = 0;
    active_workers = 0;
  };
}

-- What the executor gave: its result, or the text of its error; whether the job's own deadline has
-- passed; and the clock.
pub record Ran : Type 0 where
  pub result : JobResult
  pub err : Option String
  pub timed_out : Bool
  pub duration_ms : ℤ
  pub finished_at : ℤ

-- The result that is acknowledged.
unfoldable pub finish_result : Job → Ran → JobResult
unfolding first_non_empty
finish_result job ran = record {
  job_id = first_non_empty ran.result.job_id job.id;
  workflow_id = first_non_empty ran.result.workflow_id job.workflow_id;
  success = if ran.result.error == "" then true else false;
  error = ran.result.error;
  duration_ms = ran.duration_ms;
  finished_at = ran.finished_at;
}

unfoldable pub count_failed : Bool → PoolMetrics → PoolMetrics
count_failed timed_out m = record m {
  jobs_processed = m.jobs_processed + 1;
  jobs_failed = m.jobs_failed + 1;
  jobs_timed_out = if timed_out then m.jobs_timed_out + 1 else m.jobs_timed_out;
}

unfoldable pub count_finished : Bool → PoolMetrics → PoolMetrics
count_finished success m = record m {
  jobs_processed = m.jobs_processed + 1;
  jobs_succeeded = if success then m.jobs_succeeded + 1 else m.jobs_succeeded;
  jobs_failed = if success then m.jobs_failed else m.jobs_failed + 1;
}

abbrev pub give_permit_back : WorkerPool × LocalDistributor → WorkerPool × LocalDistributor
give_permit_back (p, d) = (record p { limiter = (Semaphore.release p.limiter).0 }, d)

-- `late` is the text of an error that has passed the deadline.
module _ (late : String → String) where
  -- `processJob` after its permit.
  unfoldable pub settle_job :
      Job → Ran → WorkerPool × LocalDistributor → WorkerPool × LocalDistributor
  unfolding count_failed count_finished finish_result
  settle_job job ran (p, d) = elim ran.err [
    | some reason ↦ (
      record p { metrics = count_failed ran.timed_out p.metrics },
      (nack job.id (if ran.timed_out then late reason else reason) d).0,
    )
    | none ↦
        let result = finish_result job ran in
        (
          record p { metrics = count_finished result.success p.metrics },
          (acknowledge job.id result d).0,
        )
  ]

  -- `processJob`; `none` while it waits for a permit. `ended` is whether the context has ended, with
  -- the text of its error, and `pick` is Go's choice where both are ready.
  unfoldable pub process_job :
      Bool
      → Bool
      → String
      → Job
      → Ran
      → WorkerPool × LocalDistributor
      → Option (WorkerPool × LocalDistributor)
  unfolding settle_job
  process_job ended pick reason job ran (p, d) =
      let (limiter', outcome) = Semaphore.acquire ended pick p.limiter in
      elim outcome [
        | blocked ↦ none
        | canceled ↦ some (p, (nack job.id reason d).0)
        | acquired ↦
            some (give_permit_back (settle_job job ran (record p { limiter = limiter' }, d)))
      ]

-- What a worker does after a `Dequeue`.
pub data Next : Type 0 where
  work : Job → Next
  stop pause : Next

unfoldable pub after_dequeue : Bool → Reply → Next
after_dequeue ended (taken job) = work job
after_dequeue ended closed_error = stop
after_dequeue ended _ = if ended then stop else pause
