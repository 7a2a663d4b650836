-- ===== src/Concurrency/Examples.antt =====
-- The theorems on internal/engine/concurrency.go at concrete runs: two workflows share one global
-- permit.
use n8n_turbo.Prelude.{◌+◌, ◌≤◌, ◌≡◌, refl, true, some, [], ◌∷◌, length, pos, arith}
use n8n_turbo.Prelude.Map
use mathlib.Core.List.{Perm}
use n8n_turbo.Concurrency.Semaphore
use n8n_turbo.Concurrency.Queue
use n8n_turbo.Concurrency.Queue.{normal, high, critical, QueuedExecution, PriorityQueue}
use n8n_turbo.Concurrency.Service
use n8n_turbo.Concurrency.Service.{Config, Service, WaitOptions, zero_metrics}
use n8n_turbo.Concurrency.Calls
use n8n_turbo.Concurrency.Calls.{release_func}
use n8n_turbo.Concurrency.System.{System, Reach, here, next, begin, finish, start}
use n8n_turbo.Concurrency.Invariant.{held}
use n8n_turbo.Concurrency.Permits.{of_workflow}
use n8n_turbo.Concurrency.Dispatch.{IsExhausted, waiters, dispatch-waiters}
use n8n_turbo.Concurrency.Admission.{FoundBy, scan_lem}
use n8n_turbo.Concurrency.Order.{IsQueue, enqueue-IsQueue}
use n8n_turbo.Concurrency.Removal.{remove-enqueue}
use n8n_turbo.Concurrency.Limits.{
  global_limit, workflow_bound, permits_accounted, release_done, wait_left_idle,
}

abbrev one_permit : Config
one_permit = record {
  max_global_concurrent = pos 1;
  max_per_workflow_concurrent = pos 1;
  workflow_overrides = ("b", pos 2) ∷ [];
  queue_size = pos 3;
  acquire_timeout = pos 0;
}

abbrev of_a : WaitOptions
of_a = record { execution_id = "1"; workflow_id = "a"; priority = normal }

abbrev of_b : WaitOptions
of_b = record { execution_id = "2"; workflow_id = "b"; priority = high }

abbrev ticket_b : QueuedExecution
ticket_b = record { id = "2"; workflow_id = "b"; priority = high; enqueued_at = 5; sequence = 1 }

-- `a` holds the permit and `b` waits for it.
abbrev contended : Service
contended = record {
  global_sem = some (record { ch = 1; max_size = 1; current = 1; name = "global" });
  workflow_sems = ("a", record { ch = 1; max_size = 1; current = 1; name = "a" }) ∷ [];
  queue = record { items = ticket_b ∷ []; max_size = pos 3; sequence = 1 };
  config = one_permit;
  metrics = record zero_metrics { total_acquired = 1; total_queued = 1; max_concurrent = 1 };
  granted = [];
}

abbrev both_called : System
both_called = record { svc = contended; holders = "a" ∷ [] }

Reach-contended : Reach (start one_permit) both_called
unfolding Service.new Service.workflow_limit Service.acquire_global Service.workflow_semaphore
    Service.take_token Service.acquire_workflow Service.try_acquire Service.record_acquire
    Service.release_global Semaphore.new Semaphore.try_acquire Semaphore.release Queue.new
    Queue.position Queue.insert_at Queue.enqueue Calls.wait_with_options Calls.enqueue_waiter
    Map.lookup Map.insert
Reach-contended = next (next here (begin of_a 4 refl)) (begin of_b 5 refl)

Reach-handed_over :
    Reach (start one_permit) (record { svc = Calls.release "a" contended; holders = [] })
Reach-handed_over = next Reach-contended (finish "a" [] [] refl refl)

global_limit_example : length (held contended ("a" ∷ [])) ≤ 1
global_limit_example = global_limit one_permit Reach-contended refl

workflow_bound_example : of_workflow "b" (held (Calls.release "a" contended) []) ≤ 2
unfolding Service.workflow_limit Map.lookup
workflow_bound_example = workflow_bound one_permit "b" Reach-handed_over refl refl

permits_accounted_example :
    ((Calls.release "a" contended).metrics.total_acquired
      ≡ (Calls.release "a" contended).metrics.total_released
        + length (held (Calls.release "a" contended) []))
    × ((Calls.release "a" contended).metrics.max_concurrent ≤ 1)
permits_accounted_example = permits_accounted one_permit Reach-handed_over

release_done_example : IsExhausted (Calls.release "a" contended)
release_done_example = release_done "a" contended

dispatch-waiters_example :
    Perm
      (waiters (Calls.give_back "a" contended))
      (waiters (Service.dispatch (Calls.give_back "a" contended)))
dispatch-waiters_example = dispatch-waiters (Calls.give_back "a" contended)

scan_lem_example : FoundBy (ticket_b ∷ []) contended (Service.scan (ticket_b ∷ []) contended)
scan_lem_example = scan_lem (ticket_b ∷ []) contended

abbrev ticket_c : QueuedExecution
ticket_c = record {
  id = "3";
  workflow_id = "c";
  priority = critical;
  enqueued_at = 6;
  sequence = 0;
}

abbrev joined_c : PriorityQueue
joined_c = record {
  items = record ticket_c { sequence = 2 } ∷ ticket_b ∷ [];
  max_size = pos 3;
  sequence = 2;
}

abbrev one_waits : PriorityQueue
one_waits = record { items = ticket_b ∷ []; max_size = pos 3; sequence = 1 }

one_waits-IsQueue : IsQueue one_waits
one_waits-IsQueue = record { ordered = (tt, tt); numbered = (omega arith, tt) }

enqueue-IsQueue_example :
    IsQueue joined_c
    × Perm
        (record ticket_c { sequence = 2 } ∷ ticket_b ∷ [])
        (record ticket_c { sequence = 2 } ∷ ticket_b ∷ [])
unfolding Queue.enqueue Queue.position Queue.insert_at
enqueue-IsQueue_example =
    enqueue-IsQueue ticket_c (record ticket_c { sequence = 2 }) one_waits joined_c one_waits-IsQueue
      refl

remove-enqueue_example : Queue.remove 2 joined_c ≡ (record one_waits { sequence = 2 }, true)
unfolding Queue.enqueue Queue.position Queue.insert_at
remove-enqueue_example =
    remove-enqueue ticket_c (record ticket_c { sequence = 2 }) one_waits joined_c one_waits-IsQueue
      refl

-- `b` and the global permit are free again, but somebody of the full workflow `a` waits.
abbrev blocked : Service
blocked = record contended {
  global_sem = some (record { ch = 1; max_size = 2; current = 1; name = "global" });
  queue = record {
    items = record ticket_b { workflow_id = "a" } ∷ [];
    max_size = pos 3;
    sequence = 1;
  };
}

abbrev after_call : Service
after_call = record blocked {
  queue = record {
    items =
        record ticket_b { workflow_id = "a" }
        ∷ record { id = "3"; workflow_id = "c"; priority = normal; enqueued_at = 6; sequence = 2 }
        ∷ [];
    max_size = pos 3;
    sequence = 2;
  };
  metrics = record blocked.metrics { total_queued = 2 };
}

wait_left_idle_example : ¬ IsExhausted after_call
unfolding Service.workflow_limit Service.acquire_global Service.workflow_semaphore
    Service.take_token Service.acquire_workflow Service.try_acquire Semaphore.new
    Semaphore.try_acquire Queue.position Queue.insert_at Queue.enqueue Calls.wait_with_options
    Calls.enqueue_waiter Map.lookup Map.insert
wait_left_idle_example =
    wait_left_idle (record { execution_id = "3"; workflow_id = "c"; priority = normal }) 6 blocked
      after_call
      (record { id = "3"; workflow_id = "c"; priority = normal; enqueued_at = 6; sequence = 2 })
      refl refl refl
