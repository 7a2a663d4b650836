-- ===== src/Concurrency/System.antt =====
-- The clients of `ConcurrencyControlService` (internal/engine/concurrency.go) and the service
-- together: goroutines that begin a wait, wake up from one and release a permit, in any order.
use n8n_turbo.Prelude.{
  ℕ, ◌+◌, ◌≡◌, ◌⊎◌, refl, ap, String, some, List, [], ◌∷◌, ◌++◌, arith, positive, count_if-append,
  nat_eqb, Option-cases, inl, inr, Bool-cases,
}
use n8n_turbo.Prelude.Map
use n8n_turbo.Concurrency.Semaphore
use n8n_turbo.Concurrency.Queue
use n8n_turbo.Concurrency.Queue.{QueuedExecution, PriorityQueue, position, insert_at, remove_item}
use n8n_turbo.Concurrency.Service
use n8n_turbo.Concurrency.Service.{
  Config, Metrics, Service, WaitOptions, workflow_limit, try_acquire, record_acquire,
}
use n8n_turbo.Concurrency.Order.{insert, insert-cons, enqueue-some, enqueue-IsQueue}
use n8n_turbo.Concurrency.Invariant.{IsSound, tickets}
use n8n_turbo.Concurrency.Calls.{
  Begin, acquired, wait_with_options, enqueue_waiter, Wake, ready, done, WaitResult, permit,
  canceled, after_select, release,
}

-- The service, and the workflows of the permits that clients hold.
pub record System : Type 0 where
  pub svc : Service
  pub holders : List String

-- What the caller of a wait holds afterwards.
abbrev pub keep_begin : WaitOptions → List String → Service × Begin → System
keep_begin opts holders (svc, acquired r) = record { svc = svc; holders = r.workflow_id ∷ holders }
keep_begin opts holders (svc, _) = record { svc = svc; holders = holders }

abbrev pub keep_wake : List String → Service × WaitResult → System
keep_wake holders (svc, permit r) = record { svc = svc; holders = r.workflow_id ∷ holders }
keep_wake holders (svc, canceled) = record { svc = svc; holders = holders }

-- `q` is among `qs`.
pub record Among (q : QueuedExecution) (qs : List QueuedExecution) : Type 0 where
  pub before : List QueuedExecution
  pub after : List QueuedExecution
  pub split : qs ≡ before ++ q ∷ after

-- A waiter wakes up because its `Ready` is closed, or because its context has ended.
abbrev pub CanWake : Wake → QueuedExecution → Service → Type 0
CanWake ready q svc = Among q svc.granted
CanWake done q svc = Among q svc.granted ⊎ Among q svc.queue.items

pub data Step (s t : System) : Type 0 where
  begin :
      (opts : WaitOptions) (now : ℕ)
      → t ≡ keep_begin opts s.holders (wait_with_options opts now s.svc)
      → Step s t
  wake :
      (w : Wake) (q : QueuedExecution)
      → CanWake w q s.svc
      → t ≡ keep_wake s.holders (after_select w q s.svc)
      → Step s t
  finish :
      (w : String) (before after : List String)
      → s.holders ≡ before ++ w ∷ after
      → t ≡ record { svc = release w s.svc; holders = before ++ after }
      → Step s t

pub data Reach (s : System) : System → Type 0 where
  here : Reach s s
  next : {t u : System} → Reach s t → Step t u → Reach s u

abbrev pub start : Config → System
start cfg = record { svc = Service.new cfg; holders = [] }

pub start-IsSound : (cfg : Config) → IsSound (start cfg).svc []
unfolding Service.new Semaphore.new Queue.new Map.lookup
start-IsSound cfg = record {
  permitted = record { global = ground arith; workflow = λ w. inr (inr refl) };
  accounts = omega arith;
  peak = omega arith;
  queue = record { ordered = tt; numbered = tt };
  unique = λ t. omega arith;
  fresh = λ t lt. refl;
}

tickets-insert :
    (t : ℕ) (q : QueuedExecution) (items : List QueuedExecution)
    → tickets t (insert q items) ≡ tickets t (q ∷ items)
unfolding position insert_at
tickets-insert t q [] = refl
tickets-insert t q (x ∷ items) = ground (arith, insert-cons q x items, tickets-insert t q items)

-- The counters of refusals and timeouts are no part of the invariant.
pub IsSound-metrics :
    (svc : Service) (m : Metrics) (holders : List String)
    → m.total_acquired ≡ svc.metrics.total_acquired
    → m.total_released ≡ svc.metrics.total_released
    → m.max_concurrent ≡ svc.metrics.max_concurrent
    → IsSound svc holders
    → IsSound (record svc { metrics = m }) holders
IsSound-metrics svc m holders e1 e2 e3 h = record {
  permitted = record { global = h.permitted.global; workflow = h.permitted.workflow };
  accounts = omega (arith, h.accounts);
  peak = omega (arith, h.peak);
  queue = h.queue;
  unique = h.unique;
  fresh = h.fresh;
}

tickets-joined :
    (t : ℕ) (q q' : QueuedExecution) (pq pq' : PriorityQueue) (granted : List QueuedExecution)
    → Queue.enqueue q pq ≡ some (pq', q')
    → (q'.sequence ≡ pq.sequence + 1)
      × (pq'.sequence ≡ pq.sequence + 1)
      × (tickets t (granted ++ pq'.items) ≡ tickets t (granted ++ pq.items) + tickets t (q' ∷ []))
tickets-joined t q q' pq pq' granted h =
    let e = enqueue-some q q' pq pq' h in
    (
      ap (λ (x : QueuedExecution). x.sequence) e.0,
      ap (λ (x : PriorityQueue). x.sequence) e.1,
      rw e.1 (
          ground (
            arith,
            tickets-insert t q' pq.items,
            count_if-append (λ x. nat_eqb x.sequence t) granted pq.items,
            count_if-append (λ x. nat_eqb x.sequence t) granted (insert q' pq.items),
          )),
    )

joined-IsSound :
    (q q' : QueuedExecution) (pq' : PriorityQueue) (svc : Service) (holders : List String)
    → Queue.enqueue q svc.queue ≡ some (pq', q')
    → IsSound svc holders
    → IsSound (record svc { queue = pq' }) holders
joined-IsSound q q' pq' svc holders e h = record {
  permitted = record { global = h.permitted.global; workflow = h.permitted.workflow };
  accounts = h.accounts;
  peak = h.peak;
  queue = (enqueue-IsQueue q q' svc.queue pq' h.queue e).0;
  unique =
      λ t. ground (arith, tickets-joined t q q' svc.queue pq' svc.granted e, h.unique t, h.fresh t);
  fresh = λ t lt. ground (arith, tickets-joined t q q' svc.queue pq' svc.granted e, h.fresh t);
}

pub enqueue_waiter-IsSound :
    (opts : WaitOptions) (now : ℕ) (svc : Service) (holders : List String)
    → IsSound svc holders
    → IsSound (enqueue_waiter opts now svc).0 holders
unfolding enqueue_waiter
enqueue_waiter-IsSound opts now svc holders h = elim (Bool-cases (positive svc.config.queue_size)) [
  | inl room ↦ rw room (elim (Option-cases (Queue.enqueue q svc.queue)) [
    | inl full ↦ rw full (IsSound-metrics svc _ holders refl refl refl h)
    | inr (p, joined) ↦ rw joined (
        IsSound-metrics (record svc { queue = p.0 }) _ holders refl refl refl
          (joined-IsSound q p.1 p.0 svc holders joined h))
  ])
  | inr shut ↦ rw shut (IsSound-metrics svc _ holders refl refl refl h)
]
  where
    q : QueuedExecution
    q = record {
      id = opts.execution_id;
      workflow_id = opts.workflow_id;
      priority = opts.priority;
      enqueued_at = now;
      sequence = 0;
    }
