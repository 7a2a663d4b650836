-- ===== src/Concurrency/Calls.antt =====
-- The calls on `ConcurrencyControlService` of internal/engine/concurrency.go that its clients make:
-- waiting, releasing and changing the configuration.
use n8n_turbo.Prelude.{
  ℕ, ◌+◌, Bool, true, false, ◌||◌, not, String, Option, none, some, List, [], ◌∷◌, nat_eqb,
  if◌then◌else◌, pos, positive, int_eqb, ◌==◌, string_eq,
}
use n8n_turbo.Prelude.Map.{Map}
use n8n_turbo.Concurrency.Semaphore
use n8n_turbo.Concurrency.Semaphore.{Semaphore}
use n8n_turbo.Concurrency.Queue
use n8n_turbo.Concurrency.Queue.{normal, QueuedExecution}
use n8n_turbo.Concurrency.Service.{
  Config, Service, WaitOptions, workflow_limit, release_global, try_acquire, record_acquire,
  dispatch,
}

-- The closure of `releaseFunc`, with its `sync.Once`.
pub record Release : Type 0 where
  pub workflow_id : String
  pub done : Bool

abbrev pub release_func : String → Release
release_func workflow_id = record { workflow_id = workflow_id; done = false }

-- What a wait gives before its `select`: an answer, or the execution that it put in the queue.
pub data Begin : Type 0 where
  acquired : Release → Begin
  limit_reached : Begin
  queue_full : Begin
  queued : QueuedExecution → Begin

abbrev pub count_rejected : Service → Service
count_rejected svc = record svc {
  metrics = record svc.metrics { total_rejected = svc.metrics.total_rejected + 1 };
}

abbrev pub count_timed_out : Service → Service
count_timed_out svc = record svc {
  metrics = record svc.metrics { total_timed_out = svc.metrics.total_timed_out + 1 };
}

-- The part of `WaitWithOptions` after `tryAcquireLocked` has not given a permit.
unfoldable pub enqueue_waiter : WaitOptions → ℕ → Service → Service × Begin
enqueue_waiter opts now svc =
    let q : QueuedExecution = record {
      id = opts.execution_id;
      workflow_id = opts.workflow_id;
      priority = opts.priority;
      enqueued_at = now;
      sequence = 0;
    } in
    if positive svc.config.queue_size
    then elim (Queue.enqueue q svc.queue) [
      | none ↦ (count_rejected svc, queue_full)
      | some (queue', q') ↦ (
        record svc {
          queue = queue';
          metrics = record svc.metrics { total_queued = svc.metrics.total_queued + 1 };
        },
        queued q',
      )
    ]
    else (count_rejected svc, limit_reached)

abbrev pub is_empty : List QueuedExecution → Bool
is_empty [] = true
is_empty (q ∷ qs) = false

-- `WaitWithOptions` up to its `select`; `now` is the clock. The context, its timeout included, is
-- seen only by `after_select`.
unfoldable pub wait_with_options : WaitOptions → ℕ → Service → Service × Begin
wait_with_options opts now svc =
    if is_empty svc.queue.items
    then (let (svc', ok) = try_acquire opts.workflow_id svc in
        if ok
        then (record_acquire svc', acquired (release_func opts.workflow_id))
        else enqueue_waiter opts now svc')
    else enqueue_waiter opts now svc

-- `Wait`
unfoldable pub wait : String → ℕ → Service → Service × Begin
wait workflow_id now svc =
    wait_with_options (record { execution_id = ""; workflow_id = workflow_id; priority = normal })
      now svc

-- The case of the `select` that Go took: `Ready` is closed, or the context has ended.
pub data Wake : Type 0 where
  ready done : Wake

pub data WaitResult : Type 0 where
  permit : Release → WaitResult
  canceled : WaitResult

-- `queued.granted`, read from the service: the waiter has not returned yet.
unfoldable pub is_granted : ℕ → List QueuedExecution → Bool
is_granted ticket [] = false
is_granted ticket (q ∷ qs) = nat_eqb q.sequence ticket || is_granted ticket qs

-- The waiter on `ticket` returns, so it leaves the list of those that are granted and still wait.
unfoldable pub leave : ℕ → Service → Service
leave ticket svc = record svc { granted = (Queue.remove_item ticket svc.granted).0 }

-- The rest of `WaitWithOptions`, from its `select`.
unfoldable pub after_select : Wake → QueuedExecution → Service → Service × WaitResult
after_select ready q svc = (leave q.sequence svc, permit (release_func q.workflow_id))
after_select done q svc =
    let (queue', removed) = Queue.remove q.sequence svc.queue in
    let granted = is_granted q.sequence svc.granted in
    if removed
    then (count_timed_out (record svc { queue = queue' }), canceled)
    else if granted
    then (leave q.sequence svc, permit (release_func q.workflow_id))
    else (count_timed_out svc, canceled)

-- `sem.Release()` on the workflow's semaphore, if there is one.
unfoldable pub release_workflow : String → Map String Semaphore → Map String Semaphore
release_workflow workflow_id [] = []
release_workflow workflow_id ((j, sem) ∷ rest) =
    if j == workflow_id
    then (j, (Semaphore.release sem).0) ∷ rest
    else (j, sem) ∷ release_workflow workflow_id rest

-- The part of `release` before it dispatches.
unfoldable pub give_back : String → Service → Service
give_back workflow_id svc = record svc {
  workflow_sems =
      if workflow_id == ""
      then svc.workflow_sems
      else release_workflow workflow_id svc.workflow_sems;
  global_sem = release_global svc.global_sem;
  metrics = record svc.metrics { total_released = svc.metrics.total_released + 1 };
}

-- `release`
unfoldable pub release : String → Service → Service
release workflow_id svc = dispatch (give_back workflow_id svc)

-- A call of the closure that `releaseFunc` returns.
unfoldable pub call_release : Release → Service → Release × Service
call_release r svc =
    if r.done then (r, svc) else (record r { done = true }, release r.workflow_id svc)

-- The loop of `UpdateConfig` that deletes the semaphores whose limit is not theirs any more.
unfoldable pub prune : Config → Map String Semaphore → Map String Semaphore
prune cfg [] = []
prune cfg ((workflow_id, sem) ∷ rest) =
    let kept = prune cfg rest in
    let limit = workflow_limit workflow_id cfg in
    if not (positive limit) || not (int_eqb (pos sem.max_size) limit)
    then kept
    else (workflow_id, sem) ∷ kept

unfoldable pub update_global : Config → Option Semaphore → Option Semaphore
update_global cfg none =
    if positive cfg.max_global_concurrent
    then some (Semaphore.new "global" cfg.max_global_concurrent)
    else none
update_global cfg (some g) =
    if positive cfg.max_global_concurrent
    then (if int_eqb (pos g.max_size) cfg.max_global_concurrent
        then some g
        else some (Semaphore.new "global" cfg.max_global_concurrent))
    else none

-- The part of `UpdateConfig` before it dispatches.
unfoldable pub reconfigure : Config → Service → Service
reconfigure cfg svc = record svc {
  config = cfg;
  queue = record svc.queue { max_size = cfg.queue_size };
  global_sem = update_global cfg svc.global_sem;
  workflow_sems = prune cfg svc.workflow_sems;
}

unfoldable pub update_config : Config → Service → Service
update_config cfg svc = dispatch (reconfigure cfg svc)
