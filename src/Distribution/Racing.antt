-- ===== src/Distribution/Racing.antt =====
-- `Enqueue`, `EnqueueBlocking` and `Dequeue` of internal/engine/distribution/local.go as they race: no
-- lock is held between their operations on the channel, on the maps and on the counters, so each
-- operation is a step, and calls in flight take their steps in any order.
use n8n_turbo.Prelude.{◌≡◌, true, false, List, [], ◌∷◌, ◌++◌, ℤ, ◌==◌, string_eq}
use n8n_turbo.Distribution.Job.{Job, normalize_job}
use n8n_turbo.Distribution.Local.{
  LocalConfig, LocalDistributor, new_local_distributor, has_room, push_job, store_pending,
  count_pending, pop_job, delete_pending, discount_pending, store_active, count_active,
}

-- A call in flight, by the operation that is its next. `sending` is the `select` of the two ways to
-- enqueue.
pub data Flight : Type 0 where
  sending storing : Job → Flight
  counting : Flight
  deleting discounting activating : Job → Flight
  counting_active : Flight

pub record Race : Type 0 where
  pub distributor : LocalDistributor
  pub flights : List Flight

-- One call goes on, as `later` says.
abbrev pub moved : LocalDistributor → List Flight → List Flight → List Flight → Race
moved d before later after = record { distributor = d; flights = before ++ (later ++ after) }

module _ (s : Race) where
  abbrev InFlight : List Flight → Flight → List Flight → Type 0
  InFlight before flight after = s.flights ≡ before ++ flight ∷ after

  -- `others` is what `Acknowledge`, `Nack`, `WaitResult` and `Close` do: nothing to the queue, to the
  -- pending jobs and their number, or to the configuration. A job's retry is one more `calls`.
  pub data Advance : Race → Type 0 where
    calls :
        (now : ℤ) (job : Job)
        → s.distributor.closed ≡ false
        → (job.id == "") ≡ false
        → Advance (record {
          distributor = s.distributor;
          flights = sending (normalize_job now job) ∷ s.flights;
        })
    sends :
        (before after : List Flight) (job : Job)
        → InFlight before (sending job) after
        → has_room s.distributor ≡ true
        → Advance (moved (push_job job s.distributor) before (storing job ∷ []) after)
    gives_up :
        (before after : List Flight) (job : Job)
        → InFlight before (sending job) after
        → Advance (moved s.distributor before [] after)
    stores :
        (before after : List Flight) (job : Job)
        → InFlight before (storing job) after
        → Advance (moved (store_pending job s.distributor) before (counting ∷ []) after)
    counts :
        (before after : List Flight)
        → InFlight before counting after
        → Advance (moved (count_pending s.distributor) before [] after)
    receives :
        (job : Job) (rest : List Job)
        → s.distributor.job_queue ≡ job ∷ rest
        → Advance (record {
          distributor = pop_job rest s.distributor;
          flights = deleting job ∷ s.flights;
        })
    deletes :
        (before after : List Flight) (job : Job)
        → InFlight before (deleting job) after
        → Advance (moved (delete_pending job s.distributor) before (discounting job ∷ []) after)
    discounts :
        (before after : List Flight) (job : Job)
        → InFlight before (discounting job) after
        → Advance (moved (discount_pending s.distributor) before (activating job ∷ []) after)
    activates :
        (before after : List Flight) (job : Job)
        → InFlight before (activating job) after
        → Advance (moved (store_active job s.distributor) before (counting_active ∷ []) after)
    counts_active :
        (before after : List Flight)
        → InFlight before counting_active after
        → Advance (moved (count_active s.distributor) before [] after)
    others :
        (d : LocalDistributor)
        → d.job_queue ≡ s.distributor.job_queue
        → d.pending_jobs ≡ s.distributor.pending_jobs
        → d.pending_count ≡ s.distributor.pending_count
        → d.cfg ≡ s.distributor.cfg
        → Advance (record { distributor = d; flights = s.flights })

-- Any number of steps.
pub data Reaches (s : Race) : Race → Type 0 where
  start : Reaches s s
  next : {t u : Race} → Reaches s t → Advance t u → Reaches s u

abbrev pub opened : LocalConfig → Race
opened cfg = record { distributor = new_local_distributor cfg; flights = [] }
