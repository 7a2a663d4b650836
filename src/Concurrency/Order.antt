-- ===== src/Concurrency/Order.antt =====
-- The order of `PriorityQueue` of internal/engine/concurrency.go: by priority, and by arrival within
-- one priority.
use mathlib.Core.List.{Perm}
use mathlib.Core.List.Perm
use n8n_turbo.Prelude.{
  ℕ, ◌+◌, ◌≤◌, ◌<◌, ◌≡◌, ◌⊎◌, ap, true, false, some, List, [], ◌∷◌, arith, All, inl, inr,
}
use n8n_turbo.Concurrency.Queue.{
  rank, QueuedExecution, PriorityQueue, goes_before, position, insert_at, enqueue,
}

-- `a` leaves the queue ahead of `b`.
abbrev pub Ahead : QueuedExecution → QueuedExecution → Type 0
Ahead a b =
    (rank b.priority < rank a.priority)
    ⊎ ((rank a.priority ≡ rank b.priority) × (a.sequence < b.sequence))

abbrev pub IsOrdered : List QueuedExecution → Type 0
IsOrdered [] = Unit
IsOrdered (x ∷ xs) = All (Ahead x) xs × IsOrdered xs

-- The numbers in the queue have been handed out.
abbrev pub Numbered : ℕ → List QueuedExecution → Type 0
Numbered n items = All (λ q. q.sequence ≤ n) items

pub record IsQueue (pq : PriorityQueue) : Type 0 where
  pub ordered : IsOrdered pq.items
  pub numbered : Numbered pq.sequence pq.items

-- The list after `enqueueLocked`, as an insertion into a sorted list.
abbrev pub insert : QueuedExecution → List QueuedExecution → List QueuedExecution
insert exec items = insert_at (position exec items) exec items

pub insert-cons :
    (exec x : QueuedExecution) (xs : List QueuedExecution)
    → ((goes_before exec x ≡ true) × (insert exec (x ∷ xs) ≡ exec ∷ x ∷ xs))
      ⊎ ((goes_before exec x ≡ false) × (insert exec (x ∷ xs) ≡ x ∷ insert exec xs))
unfolding position insert_at
insert-cons exec x xs = ground arith

All-insert {ℓ} :
    (P : QueuedExecution → Type ℓ) (exec : QueuedExecution) (xs : List QueuedExecution)
    → P exec
    → All P xs
    → All P (insert exec xs)
unfolding position insert_at
All-insert P exec [] p h = (p, tt)
All-insert P exec (x ∷ xs) p h = elim (insert-cons exec x xs) [
  | inl e ↦ rw e.1 (p, h)
  | inr e ↦ rw e.1 (h.0, All-insert P exec xs p h.1)
]

Ahead-trans : (a b c : QueuedExecution) → Ahead a b → Ahead b c → Ahead a c
Ahead-trans a b c h k = omega arith

All-Ahead :
    (a b : QueuedExecution) (xs : List QueuedExecution)
    → Ahead a b
    → All (Ahead b) xs
    → All (Ahead a) xs
All-Ahead a b [] h k = tt
All-Ahead a b (x ∷ xs) h k = (Ahead-trans a b x h k.0, All-Ahead a b xs h k.1)

before-Ahead : (exec x : QueuedExecution) → goes_before exec x ≡ true → Ahead exec x
before-Ahead exec x h = ground arith

not-before-Ahead :
    (exec x : QueuedExecution)
    → goes_before exec x ≡ false
    → x.sequence < exec.sequence
    → Ahead x exec
not-before-Ahead exec x h k = ground arith

insert-IsOrdered :
    (exec : QueuedExecution) (xs : List QueuedExecution)
    → All (λ q. q.sequence < exec.sequence) xs
    → IsOrdered xs
    → IsOrdered (insert exec xs)
unfolding position insert_at
insert-IsOrdered exec [] n h = (tt, tt)
insert-IsOrdered exec (x ∷ xs) n h = elim (insert-cons exec x xs) [
  | inl e ↦
      let ahead = before-Ahead exec x e.0 in rw e.1 ((ahead, All-Ahead exec x xs ahead h.0), h)
  | inr e ↦ rw e.1 (
    All-insert (Ahead x) exec xs (not-before-Ahead exec x e.0 n.0) h.0,
    insert-IsOrdered exec xs n.1 h.1,
  )
]

insert-perm :
    (exec : QueuedExecution) (xs : List QueuedExecution) → Perm (exec ∷ xs) (insert exec xs)
unfolding position insert_at
insert-perm exec [] = Perm.refl (exec ∷ [])
insert-perm exec (x ∷ xs) = elim (insert-cons exec x xs) [
  | inl e ↦ rw e.1 (Perm.refl (exec ∷ x ∷ xs))
  | inr e ↦ rw e.1 (Perm.trans (Perm.swap x exec xs) (Perm.cons x (insert-perm exec xs)))
]

Numbered-mono : (m n : ℕ) (xs : List QueuedExecution) → m ≤ n → Numbered m xs → Numbered n xs
Numbered-mono m n [] h k = tt
Numbered-mono m n (x ∷ xs) h k = (omega arith, Numbered-mono m n xs h k.1)

pub Numbered-lt :
    (n : ℕ) (xs : List QueuedExecution) → Numbered n xs → All (λ q. q.sequence < n + 1) xs
Numbered-lt n [] h = tt
Numbered-lt n (x ∷ xs) h = (omega arith, Numbered-lt n xs h.1)

-- What a successful `enqueue` returns.
pub enqueue-some :
    (q q' : QueuedExecution) (pq pq' : PriorityQueue)
    → enqueue q pq ≡ some (pq', q')
    → (q' ≡ record q { sequence = pq.sequence + 1 })
      × (pq' ≡ record pq { sequence = pq.sequence + 1; items = insert q' pq.items })
unfolding enqueue
enqueue-some q q' pq pq' h = ground arith

-- An accepted execution leaves the queue ordered by priority and then by arrival, its numbers within
-- those handed out, and is all that the queue gains.
pub enqueue-IsQueue :
    (q q' : QueuedExecution) (pq pq' : PriorityQueue)
    → IsQueue pq
    → enqueue q pq ≡ some (pq', q')
    → IsQueue pq' × Perm (q' ∷ pq.items) pq'.items
enqueue-IsQueue q q' pq pq' inv h =
    let e = enqueue-some q q' pq pq' h in
    let seq : q'.sequence ≡ pq.sequence + 1 = ap (λ (x : QueuedExecution). x.sequence) e.0 in
    rw e.1 (
      record {
        ordered =
            insert-IsOrdered q' pq.items (rw seq (Numbered-lt pq.sequence pq.items inv.numbered))
              inv.ordered;
        numbered =
            All-insert (λ x. x.sequence ≤ pq.sequence + 1) q' pq.items (omega arith)
              (Numbered-mono pq.sequence (pq.sequence + 1) pq.items (omega arith) inv.numbered);
      },
      insert-perm q' pq.items,
    )
