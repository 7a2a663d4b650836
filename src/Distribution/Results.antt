-- ===== src/Distribution/Results.antt =====
-- `Acknowledge` and `WaitResult` of internal/engine/distribution/local.go: how a result finds its
-- waiter. Each operation on a `sync.Map` or a channel is a step of its own, since the calls take no
-- lock; the calls are the steps in their order.
use n8n_turbo.Prelude.{
  ℕ, true, false, String, Option, none, some, [], ◌∷◌, ◌++◌, if◌then◌else◌, ltb, pos_part, length,
  ◌==◌, string_eq, nat_eq,
}
use n8n_turbo.Prelude.Map.{lookup, insert, delete}
use n8n_turbo.Distribution.Job.{JobResult, first_non_empty}
use n8n_turbo.Distribution.Local.{LocalDistributor, Reply, done, id_required, deactivate}

-- `completed.LoadAndDelete`
unfoldable pub load_completed : String → LocalDistributor → LocalDistributor × Option JobResult
load_completed job_id d = elim (lookup job_id d.completed) [
  | none ↦ (d, none)
  | some r ↦ (record d { completed = delete job_id d.completed }, some r)
]

-- `make(chan JobResult, 1)`, with an index that is not in use, and `waiters.LoadOrStore`.
unfoldable pub join : String → ℕ → LocalDistributor → LocalDistributor × ℕ
join job_id fresh d =
    let made = insert fresh (record { buffer = none; is_closed = false }) d.channels in
    elim (lookup job_id d.waiters) [
      | some ch ↦ (record d { channels = made }, ch)
      | none ↦ (record d { channels = made; waiters = insert job_id fresh d.waiters }, fresh)
    ]

-- `waiters.LoadAndDelete`
unfoldable pub claim : String → LocalDistributor → LocalDistributor × Option ℕ
claim job_id d = elim (lookup job_id d.waiters) [
  | none ↦ (d, none)
  | some ch ↦ (record d { waiters = delete job_id d.waiters }, some ch)
]

unfoldable pub forget_waiter : String → LocalDistributor → LocalDistributor
forget_waiter job_id d = record d { waiters = delete job_id d.waiters }

-- `ch <- result` and `close(ch)`; whoever sends has claimed the channel, so it is empty and open.
unfoldable pub send_result : ℕ → JobResult → LocalDistributor → LocalDistributor
send_result ch r d = record d {
  channels = insert ch (record { buffer = some r; is_closed = true }) d.channels;
}

unfoldable pub store_completed : String → JobResult → LocalDistributor → LocalDistributor
store_completed job_id r d = record d { completed = insert job_id r d.completed }

-- `d.results <- result`, or `default` when that is full.
unfoldable pub publish : JobResult → LocalDistributor → LocalDistributor
publish r d =
    if ltb (length d.results) (pos_part d.cfg.queue_size)
    then record d { results = d.results ++ r ∷ [] }
    else d

-- `Acknowledge` after its claim.
unfoldable pub hand_over : String → JobResult → Option ℕ → LocalDistributor → LocalDistributor
unfolding send_result store_completed
hand_over job_id r (some ch) d = send_result ch r d
hand_over job_id r none d = store_completed job_id r d

unfoldable pub acknowledge : String → JobResult → LocalDistributor → LocalDistributor × Reply
unfolding claim hand_over publish deactivate first_non_empty
acknowledge job_id result d =
    let r = record result { job_id = first_non_empty result.job_id job_id } in
    let (d', waiter) = claim job_id (deactivate job_id d) in
    if job_id == "" then (d, id_required) else (publish r (hand_over job_id r waiter d'), done)

-- What a receive from a channel gives; `zero_value` is that of a closed and empty one.
pub data Received : Type 0 where
  received : JobResult → Received
  zero_value not_yet : Received

unfoldable pub receive : ℕ → LocalDistributor → LocalDistributor × Received
receive ch d = elim (lookup ch d.channels) [
  | none ↦ (d, not_yet)
  | some c ↦ elim c.buffer [
    | some r ↦
        (record d { channels = insert ch (record c { buffer = none }) d.channels }, received r)
    | none ↦ (d, (if c.is_closed then zero_value else not_yet))
  ]
]

-- `WaitResult` up to its `select`.
pub data WaitBegin : Type 0 where
  answered : JobResult → WaitBegin
  selecting : ℕ → WaitBegin

unfoldable pub recheck : String → ℕ → LocalDistributor → LocalDistributor × WaitBegin
unfolding load_completed forget_waiter
recheck job_id ch d =
    let (d', found) = load_completed job_id d in
    elim found [ some r ↦ (forget_waiter job_id d', answered r) | none ↦ (d', selecting ch) ]

unfoldable pub begin_wait : String → ℕ → LocalDistributor → LocalDistributor × WaitBegin
unfolding load_completed join recheck
begin_wait job_id fresh d =
    let (d', found) = load_completed job_id d in
    let (joined, ch) = join job_id fresh d' in
    elim found [ some r ↦ (d', answered r) | none ↦ recheck job_id ch joined ]

-- The case that the `select` took, and what `WaitResult` returns; `drained` is a receive that must
-- come, since `Acknowledge` has claimed the channel.
pub data WaitEnd : Type 0 where
  result : JobResult → WaitEnd
  zero_result gave_up still_waiting : WaitEnd

abbrev pub end_of : LocalDistributor × Received → LocalDistributor × WaitEnd
end_of (d, received r) = (d, result r)
end_of (d, zero_value) = (d, zero_result)
end_of (d, not_yet) = (d, still_waiting)

unfoldable pub on_result : ℕ → LocalDistributor → LocalDistributor × WaitEnd
unfolding receive
on_result ch d = end_of (receive ch d)

-- The context or the distributor has ended.
unfoldable pub on_end : String → ℕ → LocalDistributor → LocalDistributor × WaitEnd
unfolding claim receive
on_end job_id ch d =
    let (d', waiter) = claim job_id d in
    elim waiter [ some c ↦ (d', gave_up) | none ↦ end_of (receive ch d) ]
