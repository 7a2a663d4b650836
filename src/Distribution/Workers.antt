-- ===== src/Distribution/Workers.antt =====
-- What a job's way through a worker of internal/engine/distribution/pool.go leaves.
use n8n_turbo.Prelude.{
  ◌+◌, ◌≤◌, ◌≡◌, refl, ap, ◌∙◌, subst, if◌then◌else◌, arith, Bool, false, String, Option, none,
  some, ◌==◌, string_eq, beq_refl,
}
use n8n_turbo.Prelude.Map.{lookup, lookup-delete}
use n8n_turbo.Concurrency.Semaphore
use n8n_turbo.Concurrency.Semaphore.{Semaphore, Outcome, acquired, canceled, blocked}
use n8n_turbo.Distribution.Job.{Job, JobResult}
use n8n_turbo.Distribution.Local.{LocalDistributor, nack, deactivate}
use n8n_turbo.Distribution.Results.{
  acknowledge, claim, hand_over, publish, send_result, store_completed,
}
use n8n_turbo.Distribution.Pool.{
  PoolMetrics, WorkerPool, Ran, count_failed, count_finished, finish_result, settle_job,
  process_job, give_permit_back,
}

-- Every processed job has succeeded or failed, and the late ones are among the failed.
pub record IsBalanced (m : PoolMetrics) : Type 0 where
  pub split : m.jobs_processed ≡ m.jobs_succeeded + m.jobs_failed
  pub late : m.jobs_timed_out ≤ m.jobs_failed

nack-inactive :
    (id reason : String) (d : LocalDistributor) → lookup id (nack id reason d).0.active_jobs ≡ none
unfolding nack
nack-inactive id reason d = ground (arith, lookup-delete id id d.active_jobs, beq_refl id)

acknowledge-inactive :
    (id : String) (r : JobResult) (d : LocalDistributor)
    → (id == "") ≡ false
    → lookup id (acknowledge id r d).0.active_jobs ≡ none
unfolding acknowledge deactivate claim hand_over publish send_result store_completed
acknowledge-inactive id r d named =
    ground (arith, named, lookup-delete id id d.active_jobs, beq_refl id)

count_failed-IsBalanced :
    (timed_out : Bool) (m : PoolMetrics) → IsBalanced m → IsBalanced (count_failed timed_out m)
unfolding count_failed
count_failed-IsBalanced timed_out m h = record {
  split = omega (arith, h.split);
  late = ground (arith, h.late);
}

count_finished-IsBalanced :
    (success : Bool) (m : PoolMetrics) → IsBalanced m → IsBalanced (count_finished success m)
unfolding count_finished
count_finished-IsBalanced success m h = record {
  split = ground (arith, h.split);
  late = ground (arith, h.late);
}

-- The permit that a job took is back, the counters balance, and the job is not active any more.
abbrev pub Settled : Semaphore → Job → WorkerPool × LocalDistributor → Type 0
Settled limiter job (p, d) =
    (p.limiter ≡ limiter) × IsBalanced p.metrics × (lookup job.id d.active_jobs ≡ none)

module _ (late : String → String) where
  settle_job-Settled :
      (job : Job) (ran : Ran) (p : WorkerPool) (d : LocalDistributor)
      → (job.id == "") ≡ false
      → IsBalanced p.metrics
      → Settled p.limiter job (settle_job late job ran (p, d))
  unfolding settle_job
  settle_job-Settled job ran p d named h = at_error ran.err
    where
      at_error :
          (err : Option String)
          → Settled p.limiter job (elim err [
            | some reason ↦ (
              record p { metrics = count_failed ran.timed_out p.metrics },
              (nack job.id (if ran.timed_out then late reason else reason) d).0,
            )
            | none ↦
                let result = finish_result job ran in
                (
                  record p { metrics = count_finished result.success p.metrics },
                  (acknowledge job.id result d).0,
                )
          ])
      at_error none = (
        refl,
        count_finished-IsBalanced (finish_result job ran).success p.metrics h,
        acknowledge-inactive job.id (finish_result job ran) d named,
      )
      at_error (some reason) = (
        refl,
        count_failed-IsBalanced ran.timed_out p.metrics h,
        nack-inactive job.id (if ran.timed_out then late reason else reason) d,
      )

  release-acquire :
      (ended pick : Bool) (s s' : Semaphore)
      → Semaphore.acquire ended pick s ≡ (s', Semaphore.acquired)
      → (Semaphore.release s').0 ≡ s
  unfolding Semaphore.acquire Semaphore.release
  release-acquire ended pick s s' h = ground (arith, h)

  -- Once a job that was dequeued is through `processJob`, whatever its executor gave and whether its
  -- permit came or the context ended: its permit is back, every processed job is counted as succeeded
  -- or failed and the late ones as failed, and the job is not active in the distributor.
  pub process_job-Settled :
      (ended pick : Bool) (reason : String) (job : Job) (ran : Ran) (p : WorkerPool)
      (d : LocalDistributor) (after : WorkerPool × LocalDistributor)
      → (job.id == "") ≡ false
      → IsBalanced p.metrics
      → process_job late ended pick reason job ran (p, d) ≡ some after
      → Settled p.limiter job after
  unfolding process_job
  process_job-Settled ended pick reason job ran p d after named h e =
      at_permit (Semaphore.acquire ended pick p.limiter) refl e
    where
      at_permit :
          (x : Semaphore × Outcome)
          → Semaphore.acquire ended pick p.limiter ≡ x
          → elim x.1 [
            | blocked ↦ none
            | canceled ↦ some (p, (nack job.id reason d).0)
            | acquired ↦
                some (give_permit_back (settle_job late job ran (record p { limiter = x.0 }, d)))
          ]
            ≡ some after
          → Settled p.limiter job after
      at_permit (s', blocked) a e = absurd (ground (arith, e))
      at_permit (s', canceled) a e =
          subst (Settled p.limiter job) {x = (p, (nack job.id reason d).0)} {y = after}
            (ground (arith, e)) (refl, h, nack-inactive job.id reason d)
      at_permit (s', acquired) a e =
          let settled = settle_job-Settled job ran (record p { limiter = s' }) d named h in
          subst (Settled p.limiter job)
            {x = give_permit_back (settle_job late job ran (record p { limiter = s' }, d))}
            {y = after} (ground (arith, e))
            (
              ap (λ s. (Semaphore.release s).0) settled.0
                  ∙ release-acquire ended pick p.limiter s' a,
              settled.1,
              settled.2,
            )
