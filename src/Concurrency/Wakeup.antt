-- ===== src/Concurrency/Wakeup.antt =====
-- The end of a wait on `ConcurrencyControlService` (internal/engine/concurrency.go): `after_select`
-- keeps the invariant, whichever case of the `select` is taken.
use n8n_turbo.Prelude.{
  ℕ, suc, ◌+◌, ◌≤◌, ◌≡◌, refl, ap, sym, true, false, String, List, [], ◌∷◌, ◌++◌, arith, length,
  count_if-append, nat_eqb, inl, inr, subst,
}
use n8n_turbo.Concurrency.Queue
use n8n_turbo.Concurrency.Queue.{QueuedExecution, remove_item}
use n8n_turbo.Concurrency.Service.{Service}
use n8n_turbo.Concurrency.Dispatch.{waiters}
use n8n_turbo.Concurrency.Removal.{IsQueue-middle}
use n8n_turbo.Concurrency.Permits.{
  IsPermitted, IsPermitted-same, of_workflow, of_workflow-middle, length-middle,
}
use n8n_turbo.Concurrency.Invariant.{IsSound, tickets, workflows}
use n8n_turbo.Concurrency.Calls.{Wake, ready, done, after_select, leave, is_granted}
use n8n_turbo.Concurrency.System.{keep_wake, Among, CanWake, IsSound-metrics}

remove_item-middle :
    (q : QueuedExecution) (before after : List QueuedExecution)
    → tickets q.sequence (before ++ q ∷ after) ≤ 1
    → remove_item q.sequence (before ++ q ∷ after) ≡ (before ++ after, true)
unfolding remove_item
remove_item-middle q [] after h = ground arith
remove_item-middle q (b ∷ before) after h = ground (
  arith,
  remove_item-middle q before after,
  count_if-append (λ x. nat_eqb x.sequence q.sequence) before (q ∷ after),
)

remove_item_absent :
    (t : ℕ) (items : List QueuedExecution)
    → tickets t items ≡ 0
    → remove_item t items ≡ (items, false)
unfolding remove_item
remove_item_absent t [] h = refl
remove_item_absent t (x ∷ items) h = ground (arith, remove_item_absent t items)

is_granted-middle :
    (q : QueuedExecution) (before after : List QueuedExecution)
    → is_granted q.sequence (before ++ q ∷ after) ≡ true
unfolding is_granted
is_granted-middle q [] after = ground arith
is_granted-middle q (b ∷ before) after = ground (arith, is_granted-middle q before after)

tickets-append :
    (t : ℕ) (xs ys : List QueuedExecution) → tickets t (xs ++ ys) ≡ tickets t xs + tickets t ys
tickets-append t xs ys = count_if-append (λ x. nat_eqb x.sequence t) xs ys

tickets-middle :
    (t : ℕ) (before : List QueuedExecution) (q : QueuedExecution) (after : List QueuedExecution)
    → tickets t (before ++ q ∷ after) ≡ tickets t (before ++ after) + tickets t (q ∷ [])
tickets-middle t before q after =
    ground (arith, tickets-append t before (q ∷ after), tickets-append t before after)

tickets_self : (q : QueuedExecution) → tickets q.sequence (q ∷ []) ≡ 1
tickets_self q = ground arith

of_workflow-move :
    (v : String) (before : List QueuedExecution) (q : QueuedExecution)
    (after : List QueuedExecution) (holders : List String)
    → of_workflow v (workflows (before ++ q ∷ after) ++ holders)
      ≡ of_workflow v (workflows (before ++ after) ++ q.workflow_id ∷ holders)
of_workflow-move v [] q after holders =
    sym (of_workflow-middle v q.workflow_id (workflows after) holders)
of_workflow-move v (b ∷ before) q after holders =
    ground (arith, of_workflow-move v before q after holders)

length-move :
    (before : List QueuedExecution) (q : QueuedExecution) (after : List QueuedExecution)
    (holders : List String)
    → length (workflows (before ++ q ∷ after) ++ holders)
      ≡ length (workflows (before ++ after) ++ q.workflow_id ∷ holders)
length-move [] q after holders = sym (length-middle q.workflow_id (workflows after) holders)
length-move (b ∷ before) q after holders = ap suc (length-move before q after holders)

remove_item-granted :
    (q : QueuedExecution) (svc : Service) (holders : List String) (m : Among q svc.granted)
    → IsSound svc holders
    → remove_item q.sequence svc.granted ≡ (m.before ++ m.after, true)
remove_item-granted q svc holders m h = rw m.split (
    remove_item-middle q m.before m.after (
      subst (λ l. tickets q.sequence l ≤ 1) m.split
        (omega
          (arith, h.unique q.sequence, tickets-append q.sequence svc.granted svc.queue.items))))

remove_item-queued :
    (q : QueuedExecution) (svc : Service) (holders : List String) (m : Among q svc.queue.items)
    → IsSound svc holders
    → remove_item q.sequence svc.queue.items ≡ (m.before ++ m.after, true)
remove_item-queued q svc holders m h = rw m.split (
    remove_item-middle q m.before m.after (
      subst (λ l. tickets q.sequence l ≤ 1) m.split
        (omega
          (arith, h.unique q.sequence, tickets-append q.sequence svc.granted svc.queue.items))))

-- A granted execution is not in the queue any more.
remove_item-gone :
    (q : QueuedExecution) (svc : Service) (holders : List String)
    → Among q svc.granted
    → IsSound svc holders
    → remove_item q.sequence svc.queue.items ≡ (svc.queue.items, false)
remove_item-gone q svc holders m h = remove_item_absent q.sequence svc.queue.items (
    omega (
      arith,
      h.unique q.sequence,
      tickets-append q.sequence svc.granted svc.queue.items,
      ap (tickets q.sequence) m.split,
      tickets-middle q.sequence m.before q m.after,
      tickets_self q,
    ))

-- The waiter on a granted execution takes its permit along.
leave-IsSound :
    (q : QueuedExecution) (svc : Service) (holders : List String)
    → Among q svc.granted
    → IsSound svc holders
    → IsSound (leave q.sequence svc) (q.workflow_id ∷ holders)
unfolding leave
leave-IsSound q svc holders m h =
    subst (λ r. IsSound (record svc { granted = r.0 }) (q.workflow_id ∷ holders))
      (sym (remove_item-granted q svc holders m h))
      (record {
        permitted = record { global = p.global; workflow = p.workflow };
        accounts = omega (
          arith,
          h.accounts,
          ap (λ g. length (held_of g)) m.split,
          length-move m.before q m.after holders,
        );
        peak = h.peak;
        queue = h.queue;
        unique = λ t. omega (arith, less t, h.unique t);
        fresh = λ t lt. omega (arith, less t, h.fresh t lt);
      })
  where
    held_of : List QueuedExecution → List String
    held_of g = workflows g ++ holders

    p : IsPermitted svc (workflows (m.before ++ m.after) ++ q.workflow_id ∷ holders)
    p =
        IsPermitted-same svc (workflows (m.before ++ q ∷ m.after) ++ holders) _
          (length-move m.before q m.after holders)
          (λ v. of_workflow-move v m.before q m.after holders)
          (subst (λ g. IsPermitted svc (workflows g ++ holders)) m.split h.permitted)

    less : (t : ℕ) → tickets t ((m.before ++ m.after) ++ svc.queue.items) ≤ tickets t (waiters svc)
    less t =
        subst
          (λ g.
            tickets t ((m.before ++ m.after) ++ svc.queue.items) ≤ tickets t (g ++ svc.queue.items))
          (sym m.split)
          (omega (
            arith,
            tickets-append t (m.before ++ m.after) svc.queue.items,
            tickets-append t (m.before ++ q ∷ m.after) svc.queue.items,
            tickets-middle t m.before q m.after,
          ))

-- A waiter whose context ends leaves the queue.
drop-IsSound :
    (q : QueuedExecution) (svc : Service) (holders : List String)
    → (m : Among q svc.queue.items) → IsSound svc holders
    → IsSound (record svc { queue = record svc.queue { items = m.before ++ m.after } }) holders
drop-IsSound q svc holders m h = record {
  permitted = record { global = h.permitted.global; workflow = h.permitted.workflow };
  accounts = h.accounts;
  peak = h.peak;
  queue = IsQueue-middle svc.queue m.before q m.after m.split h.queue;
  unique = λ t. omega (arith, less t, h.unique t);
  fresh = λ t lt. omega (arith, less t, h.fresh t lt);
}
  where
    less : (t : ℕ) → tickets t (svc.granted ++ (m.before ++ m.after)) ≤ tickets t (waiters svc)
    less t =
        subst (λ l. tickets t (svc.granted ++ (m.before ++ m.after)) ≤ tickets t (svc.granted ++ l))
          (sym m.split)
          (omega (
            arith,
            tickets-append t svc.granted (m.before ++ m.after),
            tickets-append t svc.granted (m.before ++ q ∷ m.after),
            tickets-middle t m.before q m.after,
          ))

pub after_select-IsSound :
    (w : Wake) (q : QueuedExecution) (svc : Service) (holders : List String)
    → CanWake w q svc
    → IsSound svc holders
    → let s = keep_wake holders (after_select w q svc) in IsSound s.svc s.holders
unfolding after_select Queue.remove
after_select-IsSound ready q svc holders m h = leave-IsSound q svc holders m h
after_select-IsSound done q svc holders (inl m) h =
    rw (remove_item-gone q svc holders m h, granted) (leave-IsSound q svc holders m h)
  where
    granted : is_granted q.sequence svc.granted ≡ true
    granted = rw m.split (is_granted-middle q m.before m.after)
after_select-IsSound done q svc holders (inr m) h = rw (remove_item-queued q svc holders m h) (
    IsSound-metrics (record svc { queue = record svc.queue { items = m.before ++ m.after } }) _
      holders refl refl refl (drop-IsSound q svc holders m h))
