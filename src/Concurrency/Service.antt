-- ===== src/Concurrency/Service.antt =====
-- `ConcurrencyControlService` of internal/engine/concurrency.go. What runs under the mutex is one
-- function. A wait is two: `wait_with_options` up to its `select`, and `after_select`.
use n8n_turbo.Prelude.{
  ℕ, zero, suc, ◌+◌, Bool, true, false, String, Option, none, some, List, [], ◌∷◌, ltb,
  if◌then◌else◌, ℤ, positive, ◌==◌, string_eq, length,
}
use n8n_turbo.Prelude.Map.{Map, lookup, insert, get_or}
use n8n_turbo.Concurrency.Semaphore
use n8n_turbo.Concurrency.Semaphore.{Semaphore}
use n8n_turbo.Concurrency.Queue
use n8n_turbo.Concurrency.Queue.{Priority, normal, QueuedExecution, PriorityQueue}

pub record Config : Type 0 where
  pub max_global_concurrent : ℤ
  pub max_per_workflow_concurrent : ℤ
  pub workflow_overrides : Map String ℤ
  pub queue_size : ℤ
  pub acquire_timeout : ℤ

-- The counters are `int64`; their wrap after 2^63 calls is not modelled.
pub record Metrics : Type 0 where
  pub total_acquired : ℕ
  pub total_released : ℕ
  pub total_rejected : ℕ
  pub total_queued : ℕ
  pub total_timed_out : ℕ
  pub max_concurrent : ℕ

-- `granted` holds the queued executions whose `granted` flag is set and whose `Ready` is closed,
-- until the goroutine that waits on them returns.
pub record Service : Type 0 where
  pub global_sem : Option Semaphore
  pub workflow_sems : Map String Semaphore
  pub queue : PriorityQueue
  pub config : Config
  pub metrics : Metrics
  pub granted : List QueuedExecution

pub record WaitOptions : Type 0 where
  pub execution_id : String
  pub workflow_id : String
  pub priority : Priority

abbrev pub zero_metrics : Metrics
zero_metrics = record {
  total_acquired = 0;
  total_released = 0;
  total_rejected = 0;
  total_queued = 0;
  total_timed_out = 0;
  max_concurrent = 0;
}

unfoldable pub new : Config → Service
unfolding Semaphore.new Queue.new
new cfg = record {
  global_sem =
      if positive cfg.max_global_concurrent
      then some (Semaphore.new "global" cfg.max_global_concurrent)
      else none;
  workflow_sems = [];
  queue = Queue.new cfg.queue_size;
  config = cfg;
  metrics = zero_metrics;
  granted = [];
}

-- `workflowLimitLocked`
unfoldable pub workflow_limit : String → Config → ℤ
workflow_limit workflow_id cfg =
    get_or workflow_id cfg.max_per_workflow_concurrent cfg.workflow_overrides

-- The global half of `tryAcquireLocked`.
unfoldable pub acquire_global : Option Semaphore → Option Semaphore × Bool
unfolding Semaphore.try_acquire
acquire_global none = (none, true)
acquire_global (some g) = let (g', ok) = Semaphore.try_acquire g in (some g', ok)

unfoldable pub release_global : Option Semaphore → Option Semaphore
unfolding Semaphore.release
release_global none = none
release_global (some g) = some (Semaphore.release g).0

-- `workflowSemaphoreLocked`: the map with the semaphore in it, and the semaphore.
unfoldable pub workflow_semaphore :
    String → Config → Map String Semaphore → Map String Semaphore × Option Semaphore
workflow_semaphore workflow_id cfg sems =
    if workflow_id == "" then (sems, none) else elim (lookup workflow_id sems) [
      | some sem ↦ (sems, some sem)
      | none ↦
          let limit = workflow_limit workflow_id cfg in
          let sem = Semaphore.new workflow_id limit in
          if positive limit then (insert workflow_id sem sems, some sem) else (sems, none)
    ]

-- `workflowSem.TryAcquire()`, written through to the map that holds the semaphore.
unfoldable pub take_token :
    String → Map String Semaphore × Option Semaphore → Map String Semaphore × Bool
take_token workflow_id (sems, none) = (sems, true)
take_token workflow_id (sems, some sem) =
    let (sem', ok) = Semaphore.try_acquire sem in
    if ok then (insert workflow_id sem' sems, true) else (sems, false)

-- The workflow's half of `tryAcquireLocked`: the map afterwards, and whether there was room.
unfoldable pub acquire_workflow :
    String → Config → Map String Semaphore → Map String Semaphore × Bool
acquire_workflow workflow_id cfg sems =
    take_token workflow_id (workflow_semaphore workflow_id cfg sems)

unfoldable pub try_acquire : String → Service → Service × Bool
try_acquire workflow_id svc =
    let (global', ok) = acquire_global svc.global_sem in
    let (sems', room) = acquire_workflow workflow_id svc.config svc.workflow_sems in
    if ok
    then (if room
        then (record svc { global_sem = global'; workflow_sems = sems' }, true)
        else (record svc { global_sem = release_global global'; workflow_sems = sems' }, false))
    else (record svc { global_sem = global' }, false)

-- `recordAcquireLocked`; nothing else writes `MaxConcurrent`, so its loop runs once.
unfoldable pub record_acquire : Service → Service
record_acquire svc =
    let current : ℕ = elim svc.global_sem [ none ↦ 0 | some g ↦ g.current ] in
    record svc {
      metrics = record svc.metrics {
        total_acquired = svc.metrics.total_acquired + 1;
        max_concurrent =
            if ltb svc.metrics.max_concurrent current then current else svc.metrics.max_concurrent;
      };
    }

-- The inner loop of `dispatchLocked`: the first item that can be acquired, and the others.
unfoldable pub scan :
    List QueuedExecution → Service → Service × Option (QueuedExecution × List QueuedExecution)
scan [] svc = (svc, none)
scan (item ∷ rest) svc =
    let (svc', ok) = try_acquire item.workflow_id svc in
    let (svc'', found) = scan rest svc' in
    if ok
    then (svc', some (item, rest))
    else (svc'', elim found [ none ↦ none | some (q, others) ↦ some (q, item ∷ others) ])

unfoldable pub grant : QueuedExecution → List QueuedExecution → Service → Service
grant q others svc =
    record_acquire
      (record svc { queue = record svc.queue { items = others }; granted = q ∷ svc.granted })

-- `dispatchLocked` on fuel; a round takes an item out of the queue.
unfoldable pub dispatch_loop : ℕ → Service → Service
dispatch_loop zero svc = svc
dispatch_loop (suc fuel) svc =
    let (svc', found) = scan svc.queue.items svc in
    elim found [ none ↦ svc' | some (q, others) ↦ dispatch_loop fuel (grant q others svc') ]

unfoldable pub dispatch : Service → Service
unfolding dispatch_loop
dispatch svc = dispatch_loop (suc (length svc.queue.items)) svc
