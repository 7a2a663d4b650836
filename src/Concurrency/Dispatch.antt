-- ===== src/Concurrency/Dispatch.antt =====
-- `dispatchLocked` of internal/engine/concurrency.go: the whole loop.
use mathlib.Core.List.{Perm, perm_middle}
use mathlib.Core.List.Perm
use n8n_turbo.Prelude.{
  ℕ, zero, suc, ◌<◌, ◌≡◌, refl, ap, sym, true, String, none, some, List, ◌∷◌, ◌++◌, arith, length,
  length-append, subst,
}
use n8n_turbo.Concurrency.Queue.{QueuedExecution}
use n8n_turbo.Concurrency.Service.{
  Service, try_acquire, record_acquire, scan, grant, dispatch_loop, dispatch,
}
use n8n_turbo.Concurrency.Admission.{NoneFits, Found, Answer, FoundBy, scan_lem}

-- `tryAcquireLocked` touches the semaphores alone.
pub record SameFrame (s t : Service) : Type 0 where
  pub queue : t.queue ≡ s.queue
  pub granted : t.granted ≡ s.granted
  pub config : t.config ≡ s.config
  pub metrics : t.metrics ≡ s.metrics

pub try_acquire-SameFrame : (w : String) (svc : Service) → SameFrame svc (try_acquire w svc).0
unfolding try_acquire
try_acquire-SameFrame w svc = ground arith

-- What `grant` does, when `q` has just been admitted.
abbrev pub admit : QueuedExecution → List QueuedExecution → Service → Service
admit q others svc = grant q others (try_acquire q.workflow_id svc).0

pub grant-items :
    (q : QueuedExecution) (others : List QueuedExecution) (svc : Service)
    → (grant q others svc).queue.items ≡ others
unfolding grant record_acquire
grant-items q others svc = refl

pub admit-granted :
    (q : QueuedExecution) (others : List QueuedExecution) (svc : Service)
    → (admit q others svc).granted ≡ q ∷ svc.granted
unfolding grant record_acquire
admit-granted q others svc = ap (λ l. q ∷ l) (try_acquire-SameFrame q.workflow_id svc).granted

-- One round of the loop.
abbrev round : ℕ → Answer → Service
round fuel (svc', none) = svc'
round fuel (svc', some (q, others)) = dispatch_loop fuel (grant q others svc')

round_lem :
    (fuel : ℕ) (svc : Service)
    → dispatch_loop (suc fuel) svc ≡ round fuel (scan svc.queue.items svc)
unfolding dispatch_loop
round_lem fuel svc = ground arith

length-others :
    (items : List QueuedExecution) (svc svc' : Service) (q : QueuedExecution)
    (others : List QueuedExecution)
    → Found items svc svc' q others
    → length items ≡ suc (length others)
length-others items svc svc' q others f =
    rw (f.items_eq, f.others_eq)
      (omega (arith, length-append f.before (q ∷ f.after), length-append f.before f.after))

-- An invariant of admissions is one of the loop, whatever the fuel.
module _ {ℓ} (P : Service → Type ℓ)
    (keep : (q : QueuedExecution) (before after : List QueuedExecution) (svc : Service)
      → svc.queue.items ≡ before ++ q ∷ after
      → (try_acquire q.workflow_id svc).1 ≡ true
      → P svc
      → P (admit q (before ++ after) svc)) where
  round_keeps :
      (fuel : ℕ) (svc : Service) (a : Answer)
      → FoundBy svc.queue.items svc a
      → P svc
      → ((s : Service) → P s → P (dispatch_loop fuel s))
      → P (round fuel a)
  round_keeps fuel svc (svc', none) f h go = subst P (sym f.0) h
  round_keeps fuel svc (svc', some (q, others)) f h go =
      go (grant q others svc')
        (rw (f.state_eq, f.others_eq) (keep q f.before f.after svc f.items_eq f.admitted h))

  pub dispatch_loop_induction : (fuel : ℕ) (svc : Service) → P svc → P (dispatch_loop fuel svc)
  unfolding dispatch_loop
  dispatch_loop_induction zero svc h = h
  dispatch_loop_induction (suc fuel) svc h = subst P (sym (round_lem fuel svc)) (
      round_keeps fuel svc (scan svc.queue.items svc) (scan_lem svc.queue.items svc) h
        (dispatch_loop_induction fuel))

  pub dispatch_induction : (svc : Service) → P svc → P (dispatch svc)
  unfolding dispatch
  dispatch_induction svc h = dispatch_loop_induction (suc (length svc.queue.items)) svc h

-- Nobody who waits can be admitted.
abbrev pub IsExhausted : Service → Type 0
IsExhausted svc = NoneFits svc svc.queue.items

round_done :
    (fuel : ℕ) (svc : Service) (a : Answer)
    → FoundBy svc.queue.items svc a
    → length svc.queue.items < suc fuel
    → ((s : Service) → length s.queue.items < fuel → IsExhausted (dispatch_loop fuel s))
    → IsExhausted (round fuel a)
round_done fuel svc (svc', none) f h go = rw f.0 f.1
round_done fuel svc (svc', some (q, others)) f h go = go (grant q others svc') (
    rw (grant-items q others svc')
      (omega (arith, length-others svc.queue.items svc svc' q others f)))

dispatch_loop_done :
    (fuel : ℕ) (svc : Service)
    → length svc.queue.items < fuel
    → IsExhausted (dispatch_loop fuel svc)
dispatch_loop_done zero svc h = elim h [ ]
dispatch_loop_done (suc fuel) svc h = rw (round_lem fuel svc) (
    round_done fuel svc (scan svc.queue.items svc) (scan_lem svc.queue.items svc) h
      (dispatch_loop_done fuel))

-- The loop ends by its own test: afterwards nobody in the queue can be admitted, so no permit lies
-- idle that a waiting execution could have.
pub dispatch_done : (svc : Service) → IsExhausted (dispatch svc)
unfolding dispatch
dispatch_done svc = dispatch_loop_done (suc (length svc.queue.items)) svc (omega arith)

abbrev pub waiters : Service → List QueuedExecution
waiters svc = svc.granted ++ svc.queue.items

admit-waiters :
    (q : QueuedExecution) (before after : List QueuedExecution) (svc : Service)
    → svc.queue.items ≡ before ++ q ∷ after
    → Perm (waiters svc) (waiters (admit q (before ++ after) svc))
admit-waiters q before after svc e =
    rw (admit-granted, grant-items, e)
      (Perm.trans (Perm.append_left svc.granted (perm_middle before after))
        (perm_middle svc.granted (before ++ after)))

-- The loop moves executions from the queue to those that are granted; none is lost or doubled.
pub dispatch-waiters : (svc : Service) → Perm (waiters svc) (waiters (dispatch svc))
dispatch-waiters svc =
    dispatch_induction (λ s. Perm (waiters svc) (waiters s))
      (λ q before after s e _ h. Perm.trans h (admit-waiters q before after s e)) svc
      (Perm.refl (waiters svc))
