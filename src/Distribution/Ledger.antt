-- ===== src/Distribution/Ledger.antt =====
-- What the queue of internal/engine/distribution/local.go promises: jobs wait in a line, are active
-- one by one, and are done or wait for their retry. There are no maps and no counters here.
use n8n_turbo.Prelude.{
  ℕ, Bool, true, not, ◌&&◌, String, Option, none, some, List, [], ◌∷◌, ◌++◌, if◌then◌else◌, ℤ, ltb,
  length, ◌==◌, string_eq,
}
use n8n_turbo.Distribution.Job.{Job, JobResult, normalize_job}
use n8n_turbo.Distribution.Local.{
  Reply, done, taken, closed_error, id_required, canceled, queue_full, not_active, blocked, Case,
  from_queue, from_context, from_done, with_reason,
}

pub record Ledger : Type 0 where
  pub pending : List Job
  pub active : List Job
  pub retrying : List Job
  pub closed : Bool
  pub capacity : ℕ

unfoldable pub find_job : String → List Job → Option Job
find_job id [] = none
find_job id (job ∷ jobs) = if job.id == id then some job else find_job id jobs

unfoldable pub drop_job : String → List Job → List Job
drop_job id [] = []
drop_job id (job ∷ jobs) = if job.id == id then jobs else job ∷ drop_job id jobs

-- The calls, with what Go and the clock choose.
pub data Call : Type 0 where
  enqueueing : ℤ → Bool → Bool → Job → Call
  dequeueing : Case → Bool → Call
  acknowledging : String → JobResult → Call
  nacking : String → String → Call
  retrying_fires : ℤ → List Job → Job → List Job → Call
  closing : Call

abbrev pub admits : Job → Ledger → Bool
admits job a = not a.closed && ltb (length a.pending) a.capacity && not (job.id == "")

unfoldable pub line_up : ℤ → Job → Ledger → Ledger
unfolding normalize_job
line_up now job a = record a { pending = a.pending ++ normalize_job now job ∷ [] }

unfoldable pub start_first : List Job → Ledger → Ledger × Reply
start_first [] a = (a, blocked)
start_first (job ∷ rest) a = (record a { pending = rest; active = job ∷ a.active }, taken job)

unfoldable pub step_ledger : Call → Ledger → Ledger × Reply
unfolding line_up start_first with_reason
step_ledger (enqueueing now ended pick job) a =
    if admits job a && not (ended && pick) then (line_up now job a, done) else (
      a,
      (if a.closed
          then closed_error
          else if job.id == ""
          then id_required
          else if ended
          then canceled
          else queue_full),
    )
step_ledger (dequeueing from_queue ended) a = start_first a.pending a
step_ledger (dequeueing from_context ended) a = (a, (if ended then canceled else blocked))
step_ledger (dequeueing from_done ended) a = (a, (if a.closed then closed_error else blocked))
step_ledger (acknowledging id r) a =
    if id == "" then (a, id_required) else (record a { active = drop_job id a.active }, done)
step_ledger (nacking id reason) a = elim (find_job id a.active) [
  | none ↦ (a, not_active)
  | some job ↦ (
    record a { active = drop_job id a.active; retrying = with_reason reason job ∷ a.retrying },
    done,
  )
]
step_ledger (retrying_fires now before job after) a =
    let rest = record a { retrying = before ++ after } in
    if a.closed
    then (rest, closed_error)
    else if job.id == ""
    then (rest, id_required)
    else if ltb (length a.pending) a.capacity
    then (line_up now job rest, done)
    else (a, blocked)
step_ledger closing a = (record a { closed = true }, done)
