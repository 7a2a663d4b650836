-- ===== src/Distribution/Local.antt =====
-- `LocalDistributor` of internal/engine/distribution/local.go: the queue of jobs. A channel is the list
-- of what it buffers. The functions of the calls are the calls that run with no other beside them; their
-- single operations on the channel, the maps and the counters race in Racing.antt and Results.antt.
use n8n_turbo.Prelude.{
  ℕ, Bool, true, false, not, ◌&&◌, String, Option, none, some, List, [], ◌∷◌, ◌++◌, if◌then◌else◌,
  ℤ, pos, positive, pos_part, ltb_ℤ, ltb, length, ◌==◌, string_eq, nat_eq, add_one, sub_one,
}
use n8n_turbo.Prelude.Map.{Map, lookup, insert, delete}
use n8n_turbo.Distribution.Job.{Job, JobResult, normalize_job, or_empty}

pub record LocalConfig : Type 0 where
  pub queue_size : ℤ
  pub max_workers : ℤ
  pub retry_delay : ℤ

unfoldable pub default_local_config : LocalConfig
default_local_config = record {
  queue_size = pos 1000;
  max_workers = pos 10;
  retry_delay = pos 5000000000;
}

-- A waiter's channel, of capacity 1.
pub record Channel : Type 0 where
  pub buffer : Option JobResult
  pub is_closed : Bool

-- `waiters` holds the channels by their index in `channels`; `retrying` are the jobs whose timer runs
-- in a goroutine of `Nack`.
pub record LocalDistributor : Type 0 where
  pub job_queue : List Job
  pub results : List JobResult
  pub closed : Bool
  pub active_jobs : Map String Job
  pub pending_jobs : Map String Job
  pub completed : Map String JobResult
  pub waiters : Map String ℕ
  pub channels : Map ℕ Channel
  pub active_count : ℤ
  pub pending_count : ℤ
  pub retrying : List Job
  pub cfg : LocalConfig

-- The four tests of `NewLocalDistributor` on its configuration, in turn.
unfoldable pub with_defaults : LocalConfig → LocalConfig
unfolding default_local_config
with_defaults cfg =
    let delay = if ltb_ℤ cfg.retry_delay (pos 0) then pos 0 else cfg.retry_delay in
    record {
      queue_size =
          if positive cfg.queue_size then cfg.queue_size else default_local_config.queue_size;
      max_workers =
          if positive cfg.max_workers then cfg.max_workers else default_local_config.max_workers;
      retry_delay = if positive delay then delay else default_local_config.retry_delay;
    }

unfoldable pub new_local_distributor : LocalConfig → LocalDistributor
unfolding with_defaults
new_local_distributor cfg = record {
  job_queue = [];
  results = [];
  closed = false;
  active_jobs = [];
  pending_jobs = [];
  completed = [];
  waiters = [];
  channels = [];
  active_count = pos 0;
  pending_count = pos 0;
  retrying = [];
  cfg = with_defaults cfg;
}

-- What a call answers; `blocked` is a `select` with no case ready.
pub data Reply : Type 0 where
  done : Reply
  taken : Job → Reply
  closed_error id_required canceled queue_full not_active blocked : Reply

abbrev pub has_room : LocalDistributor → Bool
has_room d = ltb (length d.job_queue) (pos_part d.cfg.queue_size)

-- The operations of a send, in turn: on the channel, on the map and on the counter.
abbrev pub push_job : Job → LocalDistributor → LocalDistributor
push_job job d = record d { job_queue = d.job_queue ++ job ∷ [] }

abbrev pub store_pending : Job → LocalDistributor → LocalDistributor
store_pending job d = record d { pending_jobs = insert job.id job d.pending_jobs }

abbrev pub count_pending : LocalDistributor → LocalDistributor
count_pending d = record d { pending_count = add_one d.pending_count }

-- The case of a send.
unfoldable pub send_job : Job → LocalDistributor → LocalDistributor
send_job job d = count_pending (store_pending job (push_job job d))

-- `Enqueue`, with no other call beside it. `ended` is whether the context has ended; where that and the send are both ready,
-- `pick` is Go's choice of the context.
unfoldable pub enqueue_job : ℤ → Bool → Bool → Job → LocalDistributor → LocalDistributor × Reply
unfolding send_job normalize_job
enqueue_job now ended pick job d =
    if d.closed
    then (d, closed_error)
    else if job.id == ""
    then (d, id_required)
    else if has_room d && not (ended && pick)
    then (send_job (normalize_job now job) d, done)
    else if ended
    then (d, canceled)
    else (d, queue_full)

-- `EnqueueBlocking`, with no other call beside it; closing the distributor is one more case of its `select`.
unfoldable pub enqueue_blocking :
    ℤ → Bool → Bool → Job → LocalDistributor → LocalDistributor × Reply
unfolding send_job normalize_job
enqueue_blocking now ended pick job d =
    if d.closed
    then (d, closed_error)
    else if job.id == ""
    then (d, id_required)
    else if has_room d && not (ended && pick)
    then (send_job (normalize_job now job) d, done)
    else if ended
    then (d, canceled)
    else (d, blocked)

-- The case of the `select` of `Dequeue` that Go took.
pub data Case : Type 0 where
  from_queue from_context from_done : Case

-- The operations that follow a receive, in turn.
abbrev pub pop_job : List Job → LocalDistributor → LocalDistributor
pop_job rest d = record d { job_queue = rest }

abbrev pub delete_pending : Job → LocalDistributor → LocalDistributor
delete_pending job d = record d { pending_jobs = delete job.id d.pending_jobs }

abbrev pub discount_pending : LocalDistributor → LocalDistributor
discount_pending d = record d { pending_count = sub_one d.pending_count }

abbrev pub store_active : Job → LocalDistributor → LocalDistributor
store_active job d = record d { active_jobs = insert job.id job d.active_jobs }

abbrev pub count_active : LocalDistributor → LocalDistributor
count_active d = record d { active_count = add_one d.active_count }

unfoldable pub take_job : List Job → LocalDistributor → LocalDistributor × Reply
take_job [] d = (d, blocked)
take_job (job ∷ rest) d = (
  count_active (store_active job (discount_pending (delete_pending job (pop_job rest d)))),
  taken job,
)

-- `Dequeue`, with no other call beside it.
unfoldable pub dequeue_job : Case → Bool → LocalDistributor → LocalDistributor × Reply
unfolding take_job
dequeue_job from_queue ended d = take_job d.job_queue d
dequeue_job from_context ended d = (d, (if ended then canceled else blocked))
dequeue_job from_done ended d = (d, (if d.closed then closed_error else blocked))

-- `activeJobs.LoadAndDelete` and the count.
unfoldable pub deactivate : String → LocalDistributor → LocalDistributor
deactivate job_id d = elim (lookup job_id d.active_jobs) [
  | none ↦ d
  | some job ↦ record d {
    active_jobs = delete job_id d.active_jobs;
    active_count = sub_one d.active_count;
  }
]

-- `job.Metadata["nackReason"] = reason`
unfoldable pub with_reason : String → Job → Job
with_reason reason job = record job {
  metadata = some (insert "nackReason" reason (or_empty job.metadata));
}

unfoldable pub nack : String → String → LocalDistributor → LocalDistributor × Reply
unfolding with_reason
nack job_id reason d = elim (lookup job_id d.active_jobs) [
  | none ↦ (d, not_active)
  | some job ↦ (
    record d {
      active_jobs = delete job_id d.active_jobs;
      active_count = sub_one d.active_count;
      retrying = with_reason reason job ∷ d.retrying;
    },
    done,
  )
]

-- The goroutine of `Nack` when its timer fires: the job goes back, or is dropped once the distributor
-- is closed. `blocked` is the wait for room.
unfoldable pub retry_fires :
    ℤ → List Job → Job → List Job → LocalDistributor → LocalDistributor × Reply
unfolding enqueue_blocking
retry_fires now before job after d =
    let before_send = record d { retrying = before ++ after } in
    let (d', reply) = enqueue_blocking now false false job before_send in
    if d.closed
    then (before_send, closed_error)
    else elim reply [ blocked ↦ (d, blocked) | other ↦ (d', other) ]

-- `Close`; a second call changes nothing.
unfoldable pub close : LocalDistributor → LocalDistributor
close d = record d { closed = true }
