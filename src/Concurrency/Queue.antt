-- ===== src/Concurrency/Queue.antt =====
-- `PriorityQueue` and `QueuedExecution` of internal/engine/concurrency.go. The methods that take the
-- queue's own lock are these with the lock around them. A queued execution is a pointer in the
-- source; here its `sequence`, which the queue hands out once, stands for its identity.
use n8n_turbo.Prelude.{
  ℕ, suc, ◌+◌, Bool, true, false, ◌&&◌, ◌||◌, String, Option, none, some, List, [], ◌∷◌, ◌++◌, ltb,
  leb, nat_eqb, if◌then◌else◌, ℤ, pos_part, positive, length, take, drop,
}

-- `ExecutionPriority`: the four constants, by their `iota` values.
pub data Priority : Type 0 where
  low normal high critical : Priority

abbrev pub rank : Priority → ℕ
rank low = 0
rank normal = 1
rank high = 2
rank critical = 3

pub record QueuedExecution : Type 0 where
  pub id : String
  pub workflow_id : String
  pub priority : Priority
  pub enqueued_at : ℕ
  pub sequence : ℕ

pub record PriorityQueue : Type 0 where
  pub items : List QueuedExecution
  pub max_size : ℤ
  pub sequence : ℕ

unfoldable pub new : ℤ → PriorityQueue
new max_size = record { items = []; max_size = max_size; sequence = 0 }

-- The test that ends the loop of `enqueueLocked`.
abbrev pub goes_before : QueuedExecution → QueuedExecution → Bool
goes_before exec current =
    ltb (rank current.priority) (rank exec.priority)
    || (nat_eqb (rank exec.priority) (rank current.priority) && ltb exec.sequence current.sequence)

unfoldable pub position : QueuedExecution → List QueuedExecution → ℕ
position exec [] = 0
position exec (current ∷ rest) =
    let after = position exec rest in if goes_before exec current then 0 else suc after

-- `append(items, nil)`, `copy` and the write at `pos`.
unfoldable pub insert_at : ℕ → QueuedExecution → List QueuedExecution → List QueuedExecution
insert_at pos exec items = take pos items ++ exec ∷ drop pos items

-- `none` is the error that the queue is full; else the queue, and the execution with its number.
unfoldable pub enqueue : QueuedExecution → PriorityQueue → Option (PriorityQueue × QueuedExecution)
unfolding position insert_at
enqueue exec pq =
    let exec' = record exec { sequence = pq.sequence + 1 } in
    if positive pq.max_size && leb (pos_part pq.max_size) (length pq.items)
    then none
    else some (
      record pq {
        sequence = pq.sequence + 1;
        items = insert_at (position exec' pq.items) exec' pq.items;
      },
      exec',
    )

unfoldable pub dequeue_items : List QueuedExecution → List QueuedExecution × Option QueuedExecution
dequeue_items [] = ([], none)
dequeue_items (item ∷ rest) = (rest, some item)

unfoldable pub dequeue : PriorityQueue → PriorityQueue × Option QueuedExecution
unfolding dequeue_items
dequeue pq = let (rest, item) = dequeue_items pq.items in (record pq { items = rest }, item)

unfoldable pub remove_item : ℕ → List QueuedExecution → List QueuedExecution × Bool
remove_item ticket [] = ([], false)
remove_item ticket (item ∷ rest) =
    let (rest', found) = remove_item ticket rest in
    if nat_eqb item.sequence ticket then (rest, true) else (item ∷ rest', found)

-- `removeLocked(exec)`, where `ticket` is the sequence of `exec`.
unfoldable pub remove : ℕ → PriorityQueue → PriorityQueue × Bool
unfolding remove_item
remove ticket pq =
    let (items, removed) = remove_item ticket pq.items in (record pq { items = items }, removed)
