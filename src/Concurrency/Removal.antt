-- ===== src/Concurrency/Removal.antt =====
-- Taking executions out of `PriorityQueue` of internal/engine/concurrency.go: from its head, by
-- identity, and from the middle.
use n8n_turbo.Prelude.{
  ℕ, ◌+◌, ◌≤◌, ◌<◌, ◌≡◌, ◌⊎◌, ◌↔◌, refl, ap, Bool, true, false, none, some, List, [], ◌∷◌, ◌++◌,
  arith, length, All, Bool-cases, inl, inr, positive, pos_part, nat_eqb, nat_eqb_iff, subst,
}
use n8n_turbo.Concurrency.Queue.{
  QueuedExecution, PriorityQueue, position, insert_at, enqueue, dequeue, remove_item, remove,
}
use n8n_turbo.Concurrency.Order.{
  Ahead, IsOrdered, Numbered, IsQueue, insert, insert-cons, Numbered-lt, enqueue-some,
}

All-middle {ℓ κ} :
    {A : Type ℓ} (P : A → Type κ) (before : List A) (x : A) (after : List A)
    → All P (before ++ x ∷ after)
    → All P (before ++ after)
All-middle P [] x after h = h.1
All-middle P (b ∷ before) x after h = (h.0, All-middle P before x after h.1)

IsOrdered-middle :
    (before : List QueuedExecution) (q : QueuedExecution) (after : List QueuedExecution)
    → IsOrdered (before ++ q ∷ after)
    → IsOrdered (before ++ after)
IsOrdered-middle [] q after h = h.1
IsOrdered-middle (b ∷ before) q after h =
    (All-middle (Ahead b) before q after h.0, IsOrdered-middle before q after h.1)

-- Whatever is taken out, the rest stays in order.
pub IsQueue-middle :
    (pq : PriorityQueue) (before : List QueuedExecution) (q : QueuedExecution)
    (after : List QueuedExecution)
    → pq.items ≡ before ++ q ∷ after
    → IsQueue pq
    → IsQueue (record pq { items = before ++ after })
IsQueue-middle pq before q after e inv = record {
  ordered = IsOrdered-middle before q after (subst IsOrdered e inv.ordered);
  numbered =
      All-middle (λ x. x.sequence ≤ pq.sequence) before q after
        (subst (Numbered pq.sequence) e inv.numbered);
}

-- What `remove_item` does: it takes out the execution with that number, or there is none.
pub record Hit (ticket : ℕ) (items items' : List QueuedExecution) : Type 0 where
  pub before : List QueuedExecution
  pub item : QueuedExecution
  pub after : List QueuedExecution
  pub items_eq : items ≡ before ++ item ∷ after
  pub rest_eq : items' ≡ before ++ after
  pub ticket_eq : item.sequence ≡ ticket

abbrev pub Miss : ℕ → List QueuedExecution → List QueuedExecution → Type 0
Miss ticket items items' = (items' ≡ items) × All (λ q. nat_eqb q.sequence ticket ≡ false) items

abbrev pub RemovedBy : ℕ → List QueuedExecution → List QueuedExecution × Bool → Type 0
RemovedBy ticket items (items', true) = Hit ticket items items'
RemovedBy ticket items (items', false) = Miss ticket items items'

RemovedBy-cons :
    (ticket : ℕ) (x : QueuedExecution) (items : List QueuedExecution)
    (r : List QueuedExecution × Bool)
    → nat_eqb x.sequence ticket ≡ false
    → RemovedBy ticket items r
    → RemovedBy ticket (x ∷ items) (x ∷ r.0, r.1)
RemovedBy-cons ticket x items (items', true) ne h = record {
  before = x ∷ h.before;
  item = h.item;
  after = h.after;
  items_eq = ap (λ l. x ∷ l) h.items_eq;
  rest_eq = ap (λ l. x ∷ l) h.rest_eq;
  ticket_eq = h.ticket_eq;
}
RemovedBy-cons ticket x items (items', false) ne h = (ap (λ l. x ∷ l) h.0, (ne, h.1))

pub remove_item_lem :
    (ticket : ℕ) (items : List QueuedExecution) → RemovedBy ticket items (remove_item ticket items)
unfolding remove_item
remove_item_lem ticket [] = (refl, tt)
remove_item_lem ticket (x ∷ items) = elim (Bool-cases (nat_eqb x.sequence ticket)) [
  | inl e ↦ rw e (record {
    before = [];
    item = x;
    after = items;
    items_eq = refl;
    rest_eq = refl;
    ticket_eq = (nat_eqb_iff x.sequence ticket).0 e;
  })
  | inr e ↦
      rw e
        (RemovedBy-cons ticket x items (remove_item ticket items) e (remove_item_lem ticket items))
]

remove_item-insert :
    (q : QueuedExecution) (items : List QueuedExecution)
    → All (λ x. x.sequence < q.sequence) items
    → remove_item q.sequence (insert q items) ≡ (items, true)
unfolding remove_item position insert_at
remove_item-insert q [] h = ground arith
remove_item-insert q (x ∷ items) h = elim (insert-cons q x items) [
  | inl e ↦ rw e.1 (ground arith)
  | inr e ↦ rw e.1 (ground (arith, remove_item-insert q items h.1))
]

-- An execution that has just joined a queue in order and is removed leaves the queue as it was, but
-- for the number that is used up.
pub remove-enqueue :
    (q q' : QueuedExecution) (pq pq' : PriorityQueue)
    → IsQueue pq
    → enqueue q pq ≡ some (pq', q')
    → remove q'.sequence pq' ≡ (record pq { sequence = pq.sequence + 1 }, true)
unfolding remove
remove-enqueue q q' pq pq' inv h =
    let e = enqueue-some q q' pq pq' h in
    let seq : q'.sequence ≡ pq.sequence + 1 = ap (λ (x : QueuedExecution). x.sequence) e.0 in
    rw e.1 (
      ground (
        arith,
        remove_item-insert q' pq.items (rw seq (Numbered-lt pq.sequence pq.items inv.numbered)),
      ))

-- The queue refuses exactly when it has a positive bound that its length has reached.
pub enqueue-eq-none :
    (q : QueuedExecution) (pq : PriorityQueue)
    → (enqueue q pq ≡ none)
      ↔ ((positive pq.max_size ≡ true) × (pos_part pq.max_size ≤ length pq.items))
unfolding enqueue
enqueue-eq-none q pq = (λ h. ground arith, λ h. ground arith)

-- The head leaves first: it goes ahead of all that stay, which are still in order.
pub dequeue_first :
    (pq : PriorityQueue)
    → IsQueue pq
    → ((pq.items ≡ []) × (dequeue pq ≡ (pq, none)))
      ⊎ ((q : QueuedExecution) × (rest : List QueuedExecution) × (dequeue pq
            ≡ (record pq { items = rest }, some q))
          × All (Ahead q) rest
          × IsQueue (record pq { items = rest }))
unfolding dequeue
dequeue_first pq inv = first pq.items refl
  where
    first :
        (items : List QueuedExecution)
        → pq.items ≡ items
        → ((pq.items ≡ []) × (dequeue pq ≡ (pq, none)))
          ⊎ ((q : QueuedExecution) × (rest : List QueuedExecution) × (dequeue pq
                ≡ (record pq { items = rest }, some q))
              × All (Ahead q) rest
              × IsQueue (record pq { items = rest }))
    first [] e = inl (e, ground arith)
    first (q ∷ rest) e = inr (
      q,
      rest,
      ground arith,
      (subst IsOrdered e inv.ordered).0,
      IsQueue-middle pq [] q rest e inv,
    )
