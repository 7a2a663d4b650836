-- ===== src/Concurrency/Admission.antt =====
-- What `tryAcquireLocked` and `dispatchLocked` of internal/engine/concurrency.go do to the queue:
-- who is let in, in which order, and that nobody is lost.
use n8n_turbo.Prelude.{
  ℤ, positive, ◌≡◌, refl, ap, true, false, String, Option, none, some, List, [], ◌∷◌, ◌++◌, arith,
  All, Bool-cases, inl, inr, string_eq,
}
use n8n_turbo.Prelude.Map.{Map}
use n8n_turbo.Concurrency.Semaphore
use n8n_turbo.Concurrency.Semaphore.{Semaphore}
use n8n_turbo.Concurrency.Queue.{QueuedExecution}
use n8n_turbo.Concurrency.Service.{
  Config, Service, acquire_global, release_global, acquire_workflow, try_acquire, scan, take_token,
  workflow_semaphore, workflow_limit,
}

-- A semaphore that has just given a token takes it back without a trace.
release-try_acquire :
    (s : Semaphore)
    → (Semaphore.try_acquire s).1 ≡ true
    → (Semaphore.release (Semaphore.try_acquire s).0).0 ≡ s
unfolding Semaphore.try_acquire Semaphore.release
release-try_acquire s h = ground arith

try_acquire_full :
    (s : Semaphore) → (Semaphore.try_acquire s).1 ≡ false → (Semaphore.try_acquire s).0 ≡ s
unfolding Semaphore.try_acquire
try_acquire_full s h = ground arith

new_has_room :
    (w : String) (limit : ℤ)
    → positive limit ≡ true
    → (Semaphore.try_acquire (Semaphore.new w limit)).1 ≡ true
unfolding Semaphore.try_acquire Semaphore.new
new_has_room w limit h = ground arith

-- A new semaphore has room, so no semaphore is made in vain.
acquire_workflow_full :
    (w : String) (cfg : Config) (sems : Map String Semaphore)
    → (acquire_workflow w cfg sems).1 ≡ false
    → (acquire_workflow w cfg sems).0 ≡ sems
unfolding acquire_workflow take_token workflow_semaphore
acquire_workflow_full w cfg sems h = ground (arith, new_has_room w (workflow_limit w cfg))

release_global-acquire_global :
    (g : Option Semaphore) → (acquire_global g).1 ≡ true → release_global (acquire_global g).0 ≡ g
unfolding acquire_global release_global
release_global-acquire_global g h = ground arith

acquire_global_full :
    (g : Option Semaphore) → (acquire_global g).1 ≡ false → (acquire_global g).0 ≡ g
unfolding acquire_global
acquire_global_full g h = ground arith

-- An execution that is not admitted leaves no trace: the global token that it took is given back,
-- and no semaphore is made for it.
pub try_acquire_refused :
    (w : String) (svc : Service) → (try_acquire w svc).1 ≡ false → (try_acquire w svc).0 ≡ svc
unfolding try_acquire
try_acquire_refused w svc h = ground (
  arith,
  release_global-acquire_global svc.global_sem,
  acquire_global_full svc.global_sem,
  acquire_workflow_full w svc.config svc.workflow_sems,
)

-- Nobody in `qs` can be admitted in `svc`.
abbrev pub NoneFits : Service → List QueuedExecution → Type 0
NoneFits svc qs = All (λ q. (try_acquire q.workflow_id svc).1 ≡ false) qs

-- What `scan` found: `q` is admitted, those before it in the queue cannot be.
pub record Found (items : List QueuedExecution) (svc svc' : Service) (q : QueuedExecution)
    (others : List QueuedExecution) : Type 0 where
  pub before : List QueuedExecution
  pub after : List QueuedExecution
  pub items_eq : items ≡ before ++ q ∷ after
  pub others_eq : others ≡ before ++ after
  pub admitted : (try_acquire q.workflow_id svc).1 ≡ true
  pub state_eq : svc' ≡ (try_acquire q.workflow_id svc).0
  pub passed_over : NoneFits svc before

-- The head of the queue does not fit: the search goes on behind it, in the same state.
scan_skip :
    (x : QueuedExecution) (items : List QueuedExecution) (svc : Service)
    → (try_acquire x.workflow_id svc).1 ≡ false
    → scan (x ∷ items) svc ≡ (
      (scan items svc).0,
      elim (scan items svc).1 [ none ↦ none | some (q, others) ↦ some (q, x ∷ others) ],
    )
unfolding scan
scan_skip x items svc full = ground (arith, try_acquire_refused x.workflow_id svc full)

Found-skip :
    (x : QueuedExecution) (items : List QueuedExecution) (svc svc' : Service) (q : QueuedExecution)
    (others : List QueuedExecution)
    → (try_acquire x.workflow_id svc).1 ≡ false
    → Found items svc svc' q others
    → Found (x ∷ items) svc svc' q (x ∷ others)
Found-skip x items svc svc' q others full f = record {
  before = x ∷ f.before;
  after = f.after;
  items_eq = ap (λ l. x ∷ l) f.items_eq;
  others_eq = ap (λ l. x ∷ l) f.others_eq;
  admitted = f.admitted;
  state_eq = f.state_eq;
  passed_over = (full, f.passed_over);
}

Found-here :
    (x : QueuedExecution) (items : List QueuedExecution) (svc : Service)
    → (try_acquire x.workflow_id svc).1 ≡ true
    → Found (x ∷ items) svc (try_acquire x.workflow_id svc).0 x items
Found-here x items svc fits = record {
  before = [];
  after = items;
  items_eq = refl;
  others_eq = refl;
  admitted = fits;
  state_eq = refl;
  passed_over = tt;
}

abbrev pub Answer : Type 0
Answer = Service × Option (QueuedExecution × List QueuedExecution)

-- `Found`, of an answer of `scan`.
abbrev pub FoundBy : List QueuedExecution → Service → Answer → Type 0
FoundBy items svc (svc', none) = (svc' ≡ svc) × NoneFits svc items
FoundBy items svc (svc', some (q, others)) = Found items svc svc' q others

FoundBy-skip :
    (x : QueuedExecution) (items : List QueuedExecution) (svc : Service) (a : Answer)
    → (try_acquire x.workflow_id svc).1 ≡ false
    → FoundBy items svc a
    → FoundBy
        (x ∷ items)
        svc
        (a.0, elim a.1 [ none ↦ none | some (q, others) ↦ some (q, x ∷ others) ])
FoundBy-skip x items svc (svc', none) full f = (f.0, (full, f.1))
FoundBy-skip x items svc (svc', some (q, others)) full f =
    Found-skip x items svc svc' q others full f

-- Either the search finds nobody, leaves the service as it is and nobody of the queue can be
-- admitted; or it takes out the first execution, in the queue's order, that can be, and the service
-- is as after that admission.
pub scan_lem : (items : List QueuedExecution) (svc : Service) → FoundBy items svc (scan items svc)
unfolding scan
scan_lem [] svc = (refl, tt)
scan_lem (x ∷ items) svc = elim (Bool-cases (try_acquire x.workflow_id svc).1) [
  | inl fits ↦ rw fits (Found-here x items svc fits)
  | inr full ↦
      rw (scan_skip x items svc full)
        (FoundBy-skip x items svc (scan items svc) full (scan_lem items svc))
]
