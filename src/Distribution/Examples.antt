-- ===== src/Distribution/Examples.antt =====
-- The theorems on internal/engine/distribution at one job.
use n8n_turbo.Prelude.{◌≡◌, refl, arith, true, false, none, some, [], ◌∷◌, pos, string_eq, inl}
use n8n_turbo.Prelude.Map
use n8n_turbo.Prelude.Map.{lookup}
use n8n_turbo.Concurrency.Semaphore
use n8n_turbo.Distribution.Job.{Job, JobResult, normalize_job}
use n8n_turbo.Distribution.Local
use n8n_turbo.Distribution.Local.{
  LocalConfig, LocalDistributor, new_local_distributor, with_defaults, push_job, pop_job, Channel,
}
use n8n_turbo.Distribution.Results.{
  acknowledge, begin_wait, claim, hand_over, on_result, selecting, result, zero_result,
  still_waiting,
}
use n8n_turbo.Distribution.Delivery.{named, open_channel, lost_result, second_waiter}
use n8n_turbo.Distribution.Ledger
use n8n_turbo.Distribution.Ledger.{Ledger, Call, enqueueing, step_ledger}
use n8n_turbo.Distribution.View.{Represents}
use n8n_turbo.Distribution.Refinement.{perform, Agree, perform-Agree}
use n8n_turbo.Distribution.Racing.{
  Race, storing, deleting, calls, sends, receives, Reaches, start, next, opened,
}
use n8n_turbo.Distribution.Counts.{IsCounted, opened-IsCounted}
use n8n_turbo.Distribution.Pool
use n8n_turbo.Distribution.Pool.{WorkerPool, Ran, PoolMetrics, process_job}
use n8n_turbo.Distribution.Workers.{Settled, process_job-Settled}

abbrev idle : LocalDistributor
idle = record {
  job_queue = [];
  results = [];
  closed = false;
  active_jobs = [];
  pending_jobs = [];
  completed = [];
  waiters = [];
  channels = [];
  active_count = pos 0;
  pending_count = pos 0;
  retrying = [];
  cfg = record { queue_size = pos 2; max_workers = pos 1; retry_delay = pos 5 };
}

abbrev nothing : Ledger
nothing = record { pending = []; active = []; retrying = []; closed = false; capacity = 2 }

abbrev job_1 : Job
job_1 = record {
  id = "1";
  workflow_id = "w";
  workflow_data = "";
  trigger_data = [];
  mode = "trigger";
  priority = pos 0;
  enqueued_at = pos 0;
  metadata = none;
  retry_of = "";
}

abbrev ok_result : JobResult
ok_result = record {
  job_id = "";
  workflow_id = "w";
  success = true;
  error = "";
  duration_ms = pos 4;
  finished_at = pos 9;
}

lost_result_example :
    let (claimed, waiter) = claim "1" idle in
    let (waiting, b) = begin_wait "1" 0 claimed in
    let after = hand_over "1" ok_result waiter waiting in
    (b ≡ selecting 0)
    × ((on_result 0 after).1 ≡ still_waiting)
    × (lookup "1" after.completed ≡ some ok_result)
unfolding lookup
lost_result_example = lost_result "1" 0 ok_result idle refl refl

-- Two callers wait for the job on channel 0.
abbrev waited_for : LocalDistributor
waited_for = record idle { waiters = ("1", 0) ∷ []; channels = (0, open_channel) ∷ [] }

second_waiter_example :
    let (first, end) = on_result 0 (acknowledge "1" ok_result waited_for).0 in
    (end ≡ result (named "1" ok_result)) × ((on_result 0 first).1 ≡ zero_result)
unfolding lookup
second_waiter_example = second_waiter "1" 0 ok_result waited_for refl refl

idle-Represents : Represents idle nothing
unfolding lookup Ledger.find_job
idle-Represents = record {
  queue = refl;
  pending = λ id. refl;
  active = λ id. refl;
  pending_counted = refl;
  active_counted = refl;
  retrying = refl;
  closed = refl;
  capacity = refl;
  idle = λ id. inl refl;
  apart = (tt, tt);
}

perform-Agree_example :
    Agree
      (perform (enqueueing (pos 3) false false job_1) idle)
      (step_ledger (enqueueing (pos 3) false false job_1) nothing)
unfolding Ledger.find_job
perform-Agree_example =
    perform-Agree (enqueueing (pos 3) false false job_1) idle nothing (refl, refl) idle-Represents

abbrev one_worker : WorkerPool
one_worker = record {
  limiter = record { ch = 0; max_size = 1; current = 0; name = "worker-pool" };
  cfg = record {
    num_workers = pos 1;
    max_jobs_per_worker = pos 1;
    shutdown_timeout = pos 1;
    job_timeout = pos 1;
  };
  metrics = record {
    jobs_processed = 0;
    jobs_succeeded = 0;
    jobs_failed = 0;
    jobs_timed_out = 0;
    active_workers = 1;
  };
}

abbrev late_run : Ran
late_run = record {
  result = ok_result;
  err = some "slow";
  timed_out = true;
  duration_ms = pos 7;
  finished_at = pos 9;
}

abbrev working : LocalDistributor
working = record idle { active_jobs = ("1", job_1) ∷ []; active_count = pos 1 }

abbrev after_late : WorkerPool × LocalDistributor
after_late = (
  record one_worker {
    metrics = record one_worker.metrics { jobs_processed = 1; jobs_failed = 1; jobs_timed_out = 1 };
  },
  record idle { retrying = record job_1 { metadata = some (("nackReason", "late") ∷ []) } ∷ [] },
)

process_job-Settled_example : Settled one_worker.limiter job_1 after_late
unfolding process_job Pool.settle_job Pool.count_failed Local.nack Local.with_reason
    Semaphore.acquire Semaphore.release Map.lookup Map.delete Map.insert
process_job-Settled_example =
    process_job-Settled (λ text. "late") false false "" job_1 late_run one_worker working after_late
      refl (record { split = refl; late = omega arith }) refl

abbrev small_config : LocalConfig
small_config = record { queue_size = pos 2; max_workers = pos 1; retry_delay = pos 5 }

abbrev overtaking : Race
overtaking = record {
  distributor =
      pop_job [] (push_job (normalize_job (pos 3) job_1) (new_local_distributor small_config));
  flights = deleting (normalize_job (pos 3) job_1) ∷ storing (normalize_job (pos 3) job_1) ∷ [];
}

overtaking-Reaches : Reaches (opened small_config) overtaking
unfolding new_local_distributor with_defaults
overtaking-Reaches =
    let sent = normalize_job (pos 3) job_1 in
    next (next (next start (calls (pos 3) job_1 refl refl)) (sends [] [] sent refl refl))
      (receives sent [] refl)

opened-IsCounted_example : IsCounted overtaking
opened-IsCounted_example = opened-IsCounted small_config overtaking overtaking-Reaches
