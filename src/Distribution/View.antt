-- ===== src/Distribution/View.antt =====
-- The maps and counters of `LocalDistributor` (internal/engine/distribution/local.go) as a view of the
-- ledger of its jobs.
use n8n_turbo.Prelude.{
  ℤ, ◌≡◌, ◌⊎◌, subst, refl, ap, ◌∙◌, arith, true, String, none, some, List, [], ◌∷◌, ◌++◌, length,
  length-append, pos, pos_part, string_eq, str_iff, beq_refl, sub_one,
}
use n8n_turbo.Prelude.Map.{lookup, delete, lookup-insert, lookup-delete}
use n8n_turbo.Distribution.Job.{Job, normalize_job}
use n8n_turbo.Distribution.Local.{LocalDistributor, send_job, take_job, close}
use n8n_turbo.Distribution.Jobs.{
  Apart, find_job-append, Apart-append, find_job-drop_job, length-drop_job, drop_job-Apart,
}
use n8n_turbo.Distribution.Ledger.{
  Ledger, find_job, drop_job, Call, enqueueing, retrying_fires, line_up, start_first,
}

pub record Represents (d : LocalDistributor) (a : Ledger) : Type 0 where
  pub queue : d.job_queue ≡ a.pending
  pub pending : (id : String) → lookup id d.pending_jobs ≡ find_job id a.pending
  pub active : (id : String) → lookup id d.active_jobs ≡ find_job id a.active
  pub pending_counted : d.pending_count ≡ pos (length a.pending)
  pub active_counted : d.active_count ≡ pos (length a.active)
  pub retrying : d.retrying ≡ a.retrying
  pub closed : d.closed ≡ a.closed
  pub capacity : pos_part d.cfg.queue_size ≡ a.capacity
  pub idle : (id : String) → (find_job id a.pending ≡ none) ⊎ (find_job id a.active ≡ none)
  pub apart : Apart a.pending × Apart a.active

-- A job that joins the line is not in it and not active.
abbrev pub IsNew : String → Ledger → Type 0
IsNew id a = (find_job id a.pending ≡ none) × (find_job id a.active ≡ none)

abbrev pub IsFresh : Call → Ledger → Type 0
IsFresh (enqueueing now ended pick job) a = IsNew job.id a
IsFresh (retrying_fires now before job after) a = IsNew job.id a
IsFresh _ a = Unit

pub joined :
    (now : ℤ) (job : Job) (d : LocalDistributor) (a : Ledger)
    → IsNew job.id a
    → Represents d a
    → Represents (send_job (normalize_job now job) d) (line_up now job a)
unfolding send_job line_up normalize_job find_job
joined now job d a new h = record {
  queue = ap (λ q. q ++ normalize_job now job ∷ []) h.queue;
  pending = λ id. ground (
    arith,
    lookup-insert job.id id (normalize_job now job) d.pending_jobs,
    find_job-append id a.pending (normalize_job now job),
    h.pending id,
    new.0,
    str_iff job.id id,
  );
  active = h.active;
  pending_counted =
      ground (arith, h.pending_counted, length-append a.pending (normalize_job now job ∷ []));
  active_counted = h.active_counted;
  retrying = h.retrying;
  closed = h.closed;
  capacity = h.capacity;
  idle = λ id. ground (
    arith,
    find_job-append id a.pending (normalize_job now job),
    h.idle id,
    new.1,
    str_iff job.id id,
  );
  apart = (Apart-append a.pending (normalize_job now job) new.0 h.apart.0, h.apart.1);
}

pub started :
    (job : Job) (rest : List Job) (d : LocalDistributor) (a : Ledger)
    → a.pending ≡ job ∷ rest
    → Represents d a
    → Represents (take_job (job ∷ rest) d).0 (start_first (job ∷ rest) a).0
unfolding take_job start_first find_job
started job rest d a e h = record {
  queue = refl;
  pending = λ id. ground (
    arith,
    lookup-delete job.id id d.pending_jobs,
    h.pending id,
    e,
    (subst Apart e h.apart.0).0,
    str_iff job.id id,
  );
  active = λ id. ground (arith, lookup-insert job.id id job d.active_jobs, h.active id);
  pending_counted = ground (arith, h.pending_counted, e);
  active_counted = ground (arith, h.active_counted);
  retrying = h.retrying;
  closed = h.closed;
  capacity = h.capacity;
  idle = λ id. ground (arith, h.idle id, e, (subst Apart e h.apart.0).0, str_iff job.id id);
  apart =
      ((subst Apart e h.apart.0).1, (ground (arith, h.idle job.id, e, beq_refl job.id), h.apart.1));
}

-- An active job stops being active, and may wait for its retry.
pub stopped :
    (id : String) (job : Job) (d d' : LocalDistributor) (a : Ledger) (jobs : List Job)
    → find_job id a.active ≡ some job
    → d'.job_queue ≡ d.job_queue
    → d'.pending_jobs ≡ d.pending_jobs
    → d'.active_jobs ≡ delete id d.active_jobs
    → d'.pending_count ≡ d.pending_count
    → d'.active_count ≡ sub_one d.active_count
    → d'.retrying ≡ jobs
    → d'.closed ≡ d.closed
    → d'.cfg ≡ d.cfg
    → Represents d a
    → Represents d' (record a { active = drop_job id a.active; retrying = jobs })
stopped id job d d' a jobs there e1 e2 e3 e4 e5 e6 e7 e8 h = record {
  queue = e1 ∙ h.queue;
  pending = λ k. ap (lookup k) e2 ∙ h.pending k;
  active = λ k.
      ap (lookup k) e3
      ∙ ground (
        arith,
        lookup-delete id k d.active_jobs,
        find_job-drop_job id k a.active h.apart.1,
        h.active k,
      );
  pending_counted = e4 ∙ h.pending_counted;
  active_counted = ground (arith, e5, h.active_counted, length-drop_job id a.active job there);
  retrying = e6;
  closed = e7 ∙ h.closed;
  capacity = ap (λ c. pos_part c.queue_size) e8 ∙ h.capacity;
  idle = λ k. ground (arith, find_job-drop_job id k a.active h.apart.1, h.idle k);
  apart = (h.apart.0, drop_job-Apart id a.active h.apart.1);
}

pub same_view :
    (d d' : LocalDistributor) (a : Ledger)
    → d'.job_queue ≡ d.job_queue
    → d'.pending_jobs ≡ d.pending_jobs
    → d'.active_jobs ≡ d.active_jobs
    → d'.pending_count ≡ d.pending_count
    → d'.active_count ≡ d.active_count
    → d'.retrying ≡ d.retrying
    → d'.closed ≡ d.closed
    → d'.cfg ≡ d.cfg
    → Represents d a
    → Represents d' a
same_view d d' a e1 e2 e3 e4 e5 e6 e7 e8 h = record {
  queue = e1 ∙ h.queue;
  pending = λ k. ap (lookup k) e2 ∙ h.pending k;
  active = λ k. ap (lookup k) e3 ∙ h.active k;
  pending_counted = e4 ∙ h.pending_counted;
  active_counted = e5 ∙ h.active_counted;
  retrying = e6 ∙ h.retrying;
  closed = e7 ∙ h.closed;
  capacity = ap (λ c. pos_part c.queue_size) e8 ∙ h.capacity;
  idle = h.idle;
  apart = h.apart;
}

pub resumed :
    (rest : List Job) (d : LocalDistributor) (a : Ledger)
    → Represents d a
    → Represents (record d { retrying = rest }) (record a { retrying = rest })
resumed rest d a h = record {
  queue = h.queue;
  pending = h.pending;
  active = h.active;
  pending_counted = h.pending_counted;
  active_counted = h.active_counted;
  retrying = refl;
  closed = h.closed;
  capacity = h.capacity;
  idle = h.idle;
  apart = h.apart;
}

pub closed_alike :
    (d : LocalDistributor) (a : Ledger)
    → Represents d a
    → Represents (close d) (record a { closed = true })
unfolding close
closed_alike d a h = record {
  queue = h.queue;
  pending = h.pending;
  active = h.active;
  pending_counted = h.pending_counted;
  active_counted = h.active_counted;
  retrying = h.retrying;
  closed = refl;
  capacity = h.capacity;
  idle = h.idle;
  apart = h.apart;
}
