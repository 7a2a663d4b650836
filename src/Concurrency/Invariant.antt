-- ===== src/Concurrency/Invariant.antt =====
-- The invariant of `ConcurrencyControlService` of internal/engine/concurrency.go between two calls, and
-- that admissions and dispatches keep it.
use n8n_turbo.Prelude.{
  ℕ, suc, ◌+◌, ◌≤◌, ◌<◌, ◌≡◌, sym, true, String, List, ◌∷◌, ◌++◌, map, arith, length, count_if,
  count_if-append, nat_eqb, pos_part, subst, string_eq,
}
use n8n_turbo.Concurrency.Queue.{QueuedExecution}
use n8n_turbo.Concurrency.Service.{Service, try_acquire, record_acquire, grant, dispatch}
use n8n_turbo.Concurrency.Dispatch.{try_acquire-SameFrame, admit, waiters, dispatch_induction}
use n8n_turbo.Concurrency.Order.{IsQueue}
use n8n_turbo.Concurrency.Removal.{IsQueue-middle}
use n8n_turbo.Concurrency.Permits.{
  IsPermitted, IsPermitted-same, of_workflow-middle, length-middle, GlobalHolds,
  try_acquire-IsPermitted,
}

abbrev pub workflows : List QueuedExecution → List String
workflows qs = map (λ q. q.workflow_id) qs

-- The workflows of all permits: those of executions whose waiter has not returned, and those that
-- clients hold.
abbrev pub held : Service → List String → List String
held svc holders = workflows svc.granted ++ holders

-- How many executions that wait have the number `t`.
abbrev pub tickets : ℕ → List QueuedExecution → ℕ
tickets t qs = count_if (λ q. nat_eqb q.sequence t) qs

pub record IsSound (svc : Service) (holders : List String) : Type 0 where
  pub permitted : IsPermitted svc (held svc holders)
  pub accounts : svc.metrics.total_acquired ≡ svc.metrics.total_released + length (held svc holders)
  pub peak : svc.metrics.max_concurrent ≤ pos_part svc.config.max_global_concurrent
  pub queue : IsQueue svc.queue
  pub unique : (t : ℕ) → tickets t (waiters svc) ≤ 1
  pub fresh : (t : ℕ) → svc.queue.sequence < t → tickets t (waiters svc) ≡ 0

-- What the counter of admissions and the record of the peak become.
pub record Recorded (svc svc' : Service) : Type 0 where
  pub acquired : svc'.metrics.total_acquired ≡ svc.metrics.total_acquired + 1
  pub released : svc'.metrics.total_released ≡ svc.metrics.total_released
  pub peak :
      svc.metrics.max_concurrent ≤ pos_part svc.config.max_global_concurrent
      → svc'.metrics.max_concurrent ≤ pos_part svc.config.max_global_concurrent

record_acquire-Recorded :
    (svc : Service) (n : ℕ)
    → GlobalHolds svc.config.max_global_concurrent svc.global_sem n
    → Recorded svc (record_acquire svc)
unfolding record_acquire
record_acquire-Recorded svc n h = ground arith

-- What an admission of `w` does, before anybody is recorded as its holder.
pub record Admitted (svc svc' : Service) (w : String) (holders : List String) : Type 0 where
  pub permitted : IsPermitted svc' (w ∷ held svc holders)
  pub accounts :
      svc'.metrics.total_acquired ≡ svc'.metrics.total_released + suc (length (held svc holders))
  pub peak : svc'.metrics.max_concurrent ≤ pos_part svc'.config.max_global_concurrent
  pub queue : svc'.queue ≡ svc.queue
  pub granted : svc'.granted ≡ svc.granted

record_acquire-Admitted :
    (w : String) (svc : Service) (holders : List String)
    → IsSound svc holders
    → (try_acquire w svc).1 ≡ true
    → Admitted svc (record_acquire (try_acquire w svc).0) w holders
unfolding record_acquire
record_acquire-Admitted w svc holders h k =
    let f = try_acquire-SameFrame w svc in
    let s1 = (try_acquire w svc).0 in
    let p = try_acquire-IsPermitted w svc (held svc holders) h.permitted k in
    let r = record_acquire-Recorded s1 (suc (length (held svc holders))) p.global in
    record {
      permitted = record { global = p.global; workflow = p.workflow };
      accounts = ground (arith, r.acquired, r.released, f.metrics, h.accounts);
      peak = ground (arith, r.peak, f.metrics, f.config, h.peak);
      queue = f.queue;
      granted = f.granted;
    }

held_cons :
    (w : String) (svc svc' : Service) (holders : List String)
    → svc'.granted ≡ svc.granted
    → IsPermitted svc' (w ∷ held svc holders)
    → IsPermitted svc' (held svc' (w ∷ holders))
held_cons w svc svc' holders e p =
    subst (λ g. IsPermitted svc' (workflows g ++ w ∷ holders)) (sym e)
      (IsPermitted-same svc' (w ∷ held svc holders) (workflows svc.granted ++ w ∷ holders)
        (sym (length-middle w (workflows svc.granted) holders))
        (λ v. sym (of_workflow-middle v w (workflows svc.granted) holders)) p)

-- An admission for one who does not wait: the permit goes to the caller.
pub record_acquire-IsSound :
    (w : String) (svc : Service) (holders : List String)
    → IsSound svc holders
    → (try_acquire w svc).1 ≡ true
    → IsSound (record_acquire (try_acquire w svc).0) (w ∷ holders)
record_acquire-IsSound w svc holders h k =
    let a = record_acquire-Admitted w svc holders h k in
    record {
      permitted =
          held_cons w svc (record_acquire (try_acquire w svc).0) holders a.granted a.permitted;
      accounts =
          rw a.granted (omega (arith, a.accounts, length-middle w (workflows svc.granted) holders));
      peak = a.peak;
      queue = rw a.queue h.queue;
      unique = rw (a.granted, a.queue) h.unique;
      fresh = rw (a.granted, a.queue) h.fresh;
    }

tickets-move :
    (t : ℕ) (granted before : List QueuedExecution) (q : QueuedExecution)
    (after : List QueuedExecution)
    → tickets t (granted ++ (before ++ q ∷ after)) ≡ tickets t ((q ∷ granted) ++ (before ++ after))
tickets-move t granted before q after = ground (
  arith,
  count_if-append (λ x. nat_eqb x.sequence t) granted (before ++ q ∷ after),
  count_if-append (λ x. nat_eqb x.sequence t) before (q ∷ after),
  count_if-append (λ x. nat_eqb x.sequence t) granted (before ++ after),
  count_if-append (λ x. nat_eqb x.sequence t) before after,
)

-- An admission of one who waits: the permit goes to its waiter.
admit-IsSound :
    (q : QueuedExecution) (before after : List QueuedExecution) (svc : Service)
    (holders : List String)
    → svc.queue.items ≡ before ++ q ∷ after
    → (try_acquire q.workflow_id svc).1 ≡ true
    → IsSound svc holders
    → IsSound (admit q (before ++ after) svc) holders
unfolding grant record_acquire
admit-IsSound q before after svc holders e k h =
    let a = record_acquire-Admitted q.workflow_id svc holders h k in
    let s1 = (try_acquire q.workflow_id svc).0 in
    let f = try_acquire-SameFrame q.workflow_id svc in
    let p : IsPermitted (record_acquire s1) (q.workflow_id ∷ held s1 holders) =
      subst (λ g. IsPermitted (record_acquire s1) (q.workflow_id ∷ (workflows g ++ holders)))
        (sym f.granted) a.permitted in
    let moved : (t : ℕ)
        → tickets t (waiters svc) ≡ tickets t ((q ∷ svc.granted) ++ (before ++ after)) =
      λ t.
        subst
          (λ l. tickets t (svc.granted ++ l) ≡ tickets t ((q ∷ svc.granted) ++ (before ++ after)))
          (sym e) (tickets-move t svc.granted before q after) in
    record {
      permitted = record { global = p.global; workflow = p.workflow };
      accounts = rw f.granted a.accounts;
      peak = a.peak;
      queue = rw f.queue (IsQueue-middle svc.queue before q after e h.queue);
      unique = λ t. rw f.granted (subst (λ n. n ≤ 1) (moved t) (h.unique t));
      fresh = λ t lt.
          rw f.granted
            (subst (λ n. n ≡ 0) (moved t) (h.fresh t (subst (λ p. p.sequence < t) f.queue lt)));
    }

pub dispatch-IsSound :
    (svc : Service) (holders : List String) → IsSound svc holders → IsSound (dispatch svc) holders
dispatch-IsSound svc holders h =
    dispatch_induction (λ s. IsSound s holders)
      (λ q before after s e k i. admit-IsSound q before after s holders e k i) svc h
