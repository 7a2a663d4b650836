-- ===== src/Distribution/Refinement.antt =====
-- `LocalDistributor` (internal/engine/distribution/local.go) against the ledger of its jobs, for calls
-- of which none runs beside another.
use n8n_turbo.Prelude.{
  ℤ, ◌≡◌, if◌then◌else◌, subst, refl, sym, ap, ◌∙◌, arith, Bool, false, not, ◌&&◌, String, List, [],
  ◌∷◌, ◌++◌, length, ltb, ◌==◌, string_eq, Bool-cases, Option-cases, inl, inr, sub_one,
}
use n8n_turbo.Prelude.Map.{delete}
use n8n_turbo.Distribution.Job.{Job, JobResult, normalize_job}
use n8n_turbo.Distribution.Local.{
  LocalDistributor, Reply, id_required, canceled, queue_full, not_active, done, blocked,
  closed_error, Case, from_queue, from_context, from_done, send_job, enqueue_job, enqueue_blocking,
  take_job, dequeue_job, deactivate, nack, retry_fires, close, with_reason,
}
use n8n_turbo.Distribution.Results.{
  acknowledge, claim, hand_over, publish, send_result, store_completed,
}
use n8n_turbo.Distribution.Jobs.{drop_job-absent}
use n8n_turbo.Distribution.View.{
  Represents, IsNew, IsFresh, joined, started, stopped, same_view, resumed, closed_alike,
}
use n8n_turbo.Distribution.Ledger.{
  Ledger, admits, find_job, drop_job, Call, enqueueing, dequeueing, acknowledging, nacking,
  retrying_fires, closing, step_ledger, line_up, start_first,
}

-- The distributor's call.
abbrev pub perform : Call → LocalDistributor → LocalDistributor × Reply
perform (enqueueing now ended pick job) d = enqueue_job now ended pick job d
perform (dequeueing c ended) d = dequeue_job c ended d
perform (acknowledging id r) d = acknowledge id r d
perform (nacking id reason) d = nack id reason d
perform (retrying_fires now before job after) d = retry_fires now before job after d
perform closing d = (close d, done)

-- Both answer alike, and what the distributor is left with is again the ledger.
abbrev pub Agree : LocalDistributor × Reply → Ledger × Reply → Type 0
Agree x y = Represents x.0 y.0 × (x.1 ≡ y.1)

Agree-of :
    {x x' : LocalDistributor × Reply} {y y' : Ledger × Reply}
    → x ≡ x'
    → y ≡ y'
    → Agree x' y'
    → Agree x y
Agree-of {x} {x'} {y} {y'} e f h = subst (λ z. Agree z y) (sym e) (subst (Agree x') (sym f) h)

enqueue-Agree :
    (now : ℤ) (ended pick : Bool) (job : Job) (d : LocalDistributor) (a : Ledger)
    → IsNew job.id a
    → Represents d a
    → Agree (enqueue_job now ended pick job d) (step_ledger (enqueueing now ended pick job) a)
unfolding enqueue_job step_ledger
enqueue-Agree now ended pick job d a new h =
    elim (Bool-cases (admits job a && not (ended && pick))) [
      | inl let_in ↦
          Agree-of {x' = (send_job (normalize_job now job) d, done)}
            {y' = (line_up now job a, done)} (ground (arith, let_in, h.queue, h.closed, h.capacity))
            (ground (arith, let_in)) (joined now job d a new h, refl)
      | inr kept_out ↦
          Agree-of {x' = (d, refusal)} {y' = (a, refusal)}
            (ground (arith, kept_out, h.queue, h.closed, h.capacity)) (ground (arith, kept_out))
            (h, refl)
    ]
  where
    refusal : Reply
    refusal =
        if a.closed
        then closed_error
        else if job.id == ""
        then id_required
        else if ended
        then canceled
        else queue_full

dequeue-Agree :
    (c : Case) (ended : Bool) (d : LocalDistributor) (a : Ledger)
    → Represents d a
    → Agree (dequeue_job c ended d) (step_ledger (dequeueing c ended) a)
unfolding dequeue_job step_ledger take_job start_first
dequeue-Agree from_queue ended d a h = at_first a.pending h.queue refl
  where
    at_first :
        (jobs : List Job)
        → d.job_queue ≡ a.pending
        → a.pending ≡ jobs
        → Agree (take_job d.job_queue d) (start_first a.pending a)
    at_first [] q e =
        subst (λ l. Agree (take_job l d) (start_first a.pending a)) (sym (q ∙ e))
          (subst (λ l. Agree (d, blocked) (start_first l a)) (sym e) (h, refl))
    at_first (job ∷ rest) q e =
        subst (λ l. Agree (take_job l d) (start_first a.pending a)) (sym (q ∙ e))
          (subst (λ l. Agree (take_job (job ∷ rest) d) (start_first l a)) (sym e)
            (started job rest d a e h, refl))
dequeue-Agree from_context ended d a h = (h, refl)
dequeue-Agree from_done ended d a h = (h, ap (λ c. if c then closed_error else blocked) h.closed)

-- What `Acknowledge` leaves as `LoadAndDelete` on the active jobs left it.
acknowledge-view :
    (id : String) (r : JobResult) (d : LocalDistributor)
    → (id == "") ≡ false
    → let d' = (acknowledge id r d).0 in
      let e = deactivate id d in
      (d'.job_queue ≡ e.job_queue)
      × (d'.pending_jobs ≡ e.pending_jobs)
      × (d'.active_jobs ≡ e.active_jobs)
      × (d'.pending_count ≡ e.pending_count)
      × (d'.active_count ≡ e.active_count)
      × (d'.retrying ≡ e.retrying)
      × (d'.closed ≡ e.closed)
      × (d'.cfg ≡ e.cfg)
unfolding acknowledge claim hand_over publish send_result store_completed
acknowledge-view id r d named = ground (arith, named)

deactivated :
    (id : String) (d : LocalDistributor) (a : Ledger)
    → Represents d a
    → Represents (deactivate id d) (record a { active = drop_job id a.active })
unfolding deactivate
deactivated id d a h = elim (Option-cases (find_job id a.active)) [
  | inl gone ↦
      subst (λ l. Represents (deactivate id d) (record a { active = l }))
        (sym (drop_job-absent id a.active gone))
        (let e : deactivate id d ≡ d = ground (arith, h.active id, gone) in
          subst (λ x. Represents x a) (sym e) h)
  | inr (job, there) ↦
      let e : deactivate id d ≡ record d {
        active_jobs = delete id d.active_jobs;
        active_count = sub_one d.active_count;
      } =
        ground (arith, h.active id, there) in
      subst (λ x. Represents x (record a { active = drop_job id a.active })) (sym e)
        (stopped id job d _ a a.retrying there refl refl refl refl refl h.retrying refl refl h)
]

acknowledge-Agree :
    (id : String) (r : JobResult) (d : LocalDistributor) (a : Ledger)
    → Represents d a
    → Agree (acknowledge id r d) (step_ledger (acknowledging id r) a)
unfolding step_ledger acknowledge
acknowledge-Agree id r d a h = elim (Bool-cases (id == "")) [
  | inl unnamed ↦
      Agree-of {x' = (d, id_required)} {y' = (a, id_required)} (ground (arith, unnamed))
        (ground (arith, unnamed)) (h, refl)
  | inr named ↦
      let (e1, e2, e3, e4, e5, e6, e7, e8) = acknowledge-view id r d named in
      Agree-of {x' = ((acknowledge id r d).0, done)}
        {y' = (record a { active = drop_job id a.active }, done)} (ground (arith, named))
        (ground (arith, named))
        (
          same_view (deactivate id d) (acknowledge id r d).0 _ e1 e2 e3 e4 e5 e6 e7 e8
              (deactivated id d a h),
          refl,
        )
]

nack-Agree :
    (id reason : String) (d : LocalDistributor) (a : Ledger)
    → Represents d a
    → Agree (nack id reason d) (step_ledger (nacking id reason) a)
unfolding step_ledger nack
nack-Agree id reason d a h = elim (Option-cases (find_job id a.active)) [
  | inl gone ↦
      Agree-of {x' = (d, not_active)} {y' = (a, not_active)} (ground (arith, h.active id, gone))
        (ground (arith, gone)) (h, refl)
  | inr (job, there) ↦
      let jobs = with_reason reason job ∷ a.retrying in
      let d' = record d {
        active_jobs = delete id d.active_jobs;
        active_count = sub_one d.active_count;
        retrying = with_reason reason job ∷ d.retrying;
      } in
      Agree-of {x' = (d', done)}
        {y' = (record a { active = drop_job id a.active; retrying = jobs }, done)}
        (ground (arith, h.active id, there)) (ground (arith, there))
        (
          stopped id job d d' a jobs there refl refl refl refl refl
              (ap (λ l. with_reason reason job ∷ l) h.retrying) refl refl h,
          refl,
        )
]

retry_fires-Agree :
    (now : ℤ) (before : List Job) (job : Job) (after : List Job) (d : LocalDistributor) (a : Ledger)
    → IsNew job.id a
    → Represents d a
    → Agree
        (retry_fires now before job after d)
        (step_ledger (retrying_fires now before job after) a)
unfolding step_ledger retry_fires enqueue_blocking
retry_fires-Agree now before job after d a new h = elim (Bool-cases a.closed) [
  | inl shut ↦
      Agree-of {x' = (d', closed_error)} {y' = (a', closed_error)} (ground (arith, h.closed, shut))
        (ground (arith, shut)) (resumed (before ++ after) d a h, refl)
  | inr still_open ↦ elim (Bool-cases (job.id == "")) [
    | inl unnamed ↦
        Agree-of {x' = (d', id_required)} {y' = (a', id_required)}
          (ground (arith, h.closed, still_open, unnamed)) (ground (arith, still_open, unnamed))
          (resumed (before ++ after) d a h, refl)
    | inr named ↦ elim (Bool-cases (ltb (length a.pending) a.capacity)) [
      | inl room ↦
          Agree-of {x' = (send_job (normalize_job now job) d', done)}
            {y' = (line_up now job a', done)}
            (ground (arith, h.closed, h.queue, h.capacity, still_open, named, room))
            (ground (arith, still_open, named, room))
            (joined now job d' a' new (resumed (before ++ after) d a h), refl)
      | inr full ↦
          Agree-of {x' = (d, blocked)} {y' = (a, blocked)}
            (ground (arith, h.closed, h.queue, h.capacity, still_open, named, full))
            (ground (arith, still_open, named, full)) (h, refl)
    ]
  ]
]
  where
    d' : LocalDistributor
    d' = record d { retrying = before ++ after }

    a' : Ledger
    a' = record a { retrying = before ++ after }

-- A call that runs with no other beside it, whatever it is and whatever Go chooses: the distributor
-- answers as the ledger does and represents what the ledger is left with. Its queue is the line of
-- pending jobs, its maps hold just the pending and the active jobs and its counters are their numbers;
-- provided that no job is enqueued while one of its identifier is pending or active.
pub perform-Agree :
    (c : Call) (d : LocalDistributor) (a : Ledger)
    → IsFresh c a
    → Represents d a
    → Agree (perform c d) (step_ledger c a)
unfolding step_ledger
perform-Agree (enqueueing now ended pick job) d a new h = enqueue-Agree now ended pick job d a new h
perform-Agree (dequeueing c ended) d a new h = dequeue-Agree c ended d a h
perform-Agree (acknowledging id r) d a new h = acknowledge-Agree id r d a h
perform-Agree (nacking id reason) d a new h = nack-Agree id reason d a h
perform-Agree (retrying_fires now before job after) d a new h =
    retry_fires-Agree now before job after d a new h
perform-Agree closing d a new h = (closed_alike d a h, refl)
