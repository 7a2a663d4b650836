-- ===== src/Concurrency/Limits.antt =====
-- What the clients of `ConcurrencyControlService` (internal/engine/concurrency.go) can rely on, and
-- where they cannot.
use n8n_turbo.Prelude.{
  ℕ, ◌+◌, ◌≤◌, ◌≡◌, true, false, String, Option, some, List, [], ◌∷◌, arith, length, All, ℤ, pos,
  pos_part, positive, int_eqb, ◌==◌, string_eq, subst, inl, inr,
}
use n8n_turbo.Concurrency.Semaphore
use n8n_turbo.Concurrency.Semaphore.{Semaphore}
use n8n_turbo.Concurrency.Queue
use n8n_turbo.Concurrency.Queue.{QueuedExecution, PriorityQueue}
use n8n_turbo.Concurrency.Service
use n8n_turbo.Concurrency.Service.{
  Config, Service, WaitOptions, workflow_limit, acquire_global, acquire_workflow,
  workflow_semaphore, take_token, try_acquire, dispatch, dispatch_loop, scan,
}
use n8n_turbo.Concurrency.Dispatch.{IsExhausted, dispatch_done}
use n8n_turbo.Concurrency.Order.{insert, insert-cons}
use n8n_turbo.Concurrency.Permits.{GlobalHolds, WorkflowHolds, of_workflow}
use n8n_turbo.Concurrency.Invariant.{IsSound, held}
use n8n_turbo.Concurrency.Calls.{
  queued, wait_with_options, enqueue_waiter, Release, call_release, release, give_back,
  update_config, reconfigure, update_global, is_empty,
}
use n8n_turbo.Concurrency.System.{System, Reach, start, start-IsSound}
use n8n_turbo.Concurrency.Safety.{Reach-IsSound, Reach-config}

sound : (cfg : Config) {t : System} → Reach (start cfg) t → IsSound t.svc t.holders
sound cfg r = Reach-IsSound r (start-IsSound cfg)

same_config : (cfg : Config) {t : System} → Reach (start cfg) t → t.svc.config ≡ cfg
unfolding Service.new
same_config cfg r = Reach-config r

GlobalHolds-le :
    (limit : ℤ) (g : Option Semaphore) (n : ℕ)
    → GlobalHolds limit g n
    → positive limit ≡ true
    → n ≤ pos_part limit
GlobalHolds-le limit g n h p = ground arith

WorkflowHolds-le :
    (w : String) (limit : ℤ) (s : Option Semaphore) (n : ℕ)
    → WorkflowHolds w limit s n
    → (w == "") ≡ false
    → positive limit ≡ true
    → n ≤ pos_part limit
WorkflowHolds-le w limit s n h named p = ground arith

-- However the clients' calls interleave from the service's start, while the configuration stays: the
-- permits that are out, those of granted executions whose waiter has not returned yet included, are
-- at most the global limit, if that is positive.
pub global_limit :
    (cfg : Config) {t : System}
    → Reach (start cfg) t
    → positive cfg.max_global_concurrent ≡ true
    → length (held t.svc t.holders) ≤ pos_part cfg.max_global_concurrent
global_limit cfg {t} r p =
    subst
      (λ c.
        positive c.max_global_concurrent ≡ true
        → length (held t.svc t.holders) ≤ pos_part c.max_global_concurrent)
      (same_config cfg r)
      (GlobalHolds-le t.svc.config.max_global_concurrent t.svc.global_sem _
        (sound cfg r).permitted.global)
      p

-- However the clients' calls interleave from the service's start, while the configuration stays: the
-- permits that are out for a workflow whose identifier is not empty are at most its limit, which is
-- its override or the common one, if that is positive.
pub workflow_bound :
    (cfg : Config) {t : System} (w : String)
    → Reach (start cfg) t
    → (w == "") ≡ false
    → positive (workflow_limit w cfg) ≡ true
    → of_workflow w (held t.svc t.holders) ≤ pos_part (workflow_limit w cfg)
workflow_bound cfg {t} w r named p =
    subst
      (λ c.
        positive (workflow_limit w c) ≡ true
        → of_workflow w (held t.svc t.holders) ≤ pos_part (workflow_limit w c))
      (same_config cfg r)
      (WorkflowHolds-le w (workflow_limit w t.svc.config) _ _ ((sound cfg r).permitted.workflow w)
        named)
      p

-- However the clients' calls interleave from the service's start, while the configuration stays: the
-- permits that are out are those acquired less those released, and the recorded peak is within the
-- global limit (0 if there is none).
pub permits_accounted :
    (cfg : Config) {t : System}
    → Reach (start cfg) t
    → (t.svc.metrics.total_acquired ≡ t.svc.metrics.total_released + length (held t.svc t.holders))
      × (t.svc.metrics.max_concurrent ≤ pos_part cfg.max_global_concurrent)
permits_accounted cfg {t} r = (
  (sound cfg r).accounts,
  subst (λ c. t.svc.metrics.max_concurrent ≤ pos_part c.max_global_concurrent) (same_config cfg r)
      (sound cfg r).peak,
)

-- After a release nobody who waits could be admitted: the loop of `dispatchLocked` has ended by its
-- own test.
pub release_done : (w : String) (svc : Service) → IsExhausted (release w svc)
unfolding release
release_done w svc = dispatch_done (give_back w svc)

-- A second call of a release function changes nothing.
pub call_release_once :
    (r : Release) (svc : Service)
    → let (r', svc') = call_release r svc in call_release r' svc' ≡ (r', svc')
unfolding call_release
call_release_once r svc = ground arith

All-insert_head {ℓ} :
    (P : QueuedExecution → Type ℓ) (q : QueuedExecution) (xs : List QueuedExecution)
    → All P (insert q xs)
    → P q
unfolding Queue.position Queue.insert_at
All-insert_head P q [] h = h.0
All-insert_head P q (x ∷ xs) h = elim (insert-cons q x xs) [
  | inl e ↦ (subst (All P) e.1 h).0
  | inr e ↦ All-insert_head P q xs (subst (All P) e.1 h).1
]

joined :
    (opts : WaitOptions) (now : ℕ) (svc svc' : Service) (q : QueuedExecution)
    → is_empty svc.queue.items ≡ false
    → (try_acquire opts.workflow_id svc).1 ≡ true
    → wait_with_options opts now svc ≡ (svc', queued q)
    → (svc'.queue.items ≡ insert q svc.queue.items) × ((try_acquire q.workflow_id svc').1 ≡ true)
unfolding wait_with_options enqueue_waiter try_acquire Queue.enqueue
joined opts now svc svc' q busy fits h = ground arith

-- A caller that finds somebody in the queue, and room in it, joins the queue and is left there though
-- its own permit is free: afterwards an execution that could be admitted waits.
pub wait_left_idle :
    (opts : WaitOptions) (now : ℕ) (svc svc' : Service) (q : QueuedExecution)
    → is_empty svc.queue.items ≡ false
    → (try_acquire opts.workflow_id svc).1 ≡ true
    → wait_with_options opts now svc ≡ (svc', queued q)
    → ¬ IsExhausted svc'
wait_left_idle opts now svc svc' q busy fits h all =
    let j = joined opts now svc svc' q busy fits h in
    cc (
      j.1,
      All-insert_head (λ x. (try_acquire x.workflow_id svc').1 ≡ false) q svc.queue.items
          (subst (All (λ x. (try_acquire x.workflow_id svc').1 ≡ false)) j.0 all),
    )

dispatch_empty : (svc : Service) → svc.queue.items ≡ [] → dispatch svc ≡ svc
unfolding dispatch dispatch_loop scan
dispatch_empty svc e = ground arith

-- An execution of no named workflow needs a global token alone.
try_acquire_unnamed :
    (svc : Service) → (acquire_global svc.global_sem).1 ≡ true → (try_acquire "" svc).1 ≡ true
unfolding try_acquire acquire_workflow workflow_semaphore take_token
try_acquire_unnamed svc h = ground arith

update_global_new :
    (cfg : Config) (g : Semaphore)
    → positive cfg.max_global_concurrent ≡ true
    → int_eqb (pos g.max_size) cfg.max_global_concurrent ≡ false
    → (acquire_global (update_global cfg (some g))).1 ≡ true
unfolding acquire_global update_global Semaphore.new Semaphore.try_acquire
update_global_new cfg g p ne = ground arith

-- When the global limit is changed to another positive one, its semaphore is made anew and the
-- permits that are out are forgotten: with an empty queue the next execution of no named workflow is
-- admitted, however many permits are out.
update_config_forgets :
    (cfg : Config) (svc : Service) (g : Semaphore)
    → svc.global_sem ≡ some g
    → positive cfg.max_global_concurrent ≡ true
    → int_eqb (pos g.max_size) cfg.max_global_concurrent ≡ false
    → svc.queue.items ≡ []
    → (try_acquire "" (update_config cfg svc)).1 ≡ true
unfolding update_config reconfigure
update_config_forgets cfg svc g e p ne empty =
    rw (dispatch_empty (reconfigure cfg svc) empty)
      (try_acquire_unnamed (reconfigure cfg svc) (rw e (update_global_new cfg g p ne)))
