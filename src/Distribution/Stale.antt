-- ===== src/Distribution/Stale.antt =====
-- Runs of the operations of internal/engine/distribution/local.go: the calls that run alone, and a
-- `Dequeue` that overtakes the `Store` of `Enqueue`.
use n8n_turbo.Prelude.{
  ◌≡◌, refl, ◌∙◌, if◌then◌else◌, subst, arith, ap, Bool, true, false, not, ◌&&◌, String, some, List,
  [], ◌∷◌, ◌++◌, ℤ, Bool-cases, inl, inr, ◌==◌, string_eq, beq_refl,
}
use n8n_turbo.Prelude.Map.{Map, lookup, insert, delete, lookup-insert}
use n8n_turbo.Distribution.Job.{Job, normalize_job}
use n8n_turbo.Distribution.Local.{
  LocalDistributor, has_room, push_job, store_pending, count_pending, pop_job, delete_pending,
  discount_pending, store_active, count_active, send_job, take_job, enqueue_job, Case, from_queue,
  from_context, from_done, dequeue_job,
}
use n8n_turbo.Distribution.Racing.{
  storing, Race, calls, sends, stores, counts, receives, deletes, discounts, activates,
  counts_active, Reaches, start, next,
}

-- No call in flight.
abbrev quiet : LocalDistributor → Race
quiet d = record { distributor = d; flights = [] }

send_job-Reaches :
    (now : ℤ) (job : Job) (d : LocalDistributor)
    → d.closed ≡ false
    → (job.id == "") ≡ false
    → has_room d ≡ true
    → Reaches (quiet d) (quiet (send_job (normalize_job now job) d))
unfolding send_job
send_job-Reaches now job d unclosed named room =
    let sent = normalize_job now job in
    next
      (next (next (next start (calls now job unclosed named)) (sends [] [] sent refl room))
        (stores [] [] sent refl))
      (counts [] [] refl)

-- `Enqueue` with no other call beside it is a run of its operations.
enqueue_job-Reaches :
    (now : ℤ) (ended pick : Bool) (job : Job) (d : LocalDistributor)
    → Reaches (quiet d) (quiet (enqueue_job now ended pick job d).0)
unfolding enqueue_job
enqueue_job-Reaches now ended pick job d = elim (Bool-cases d.closed) [
  | inl shut ↦ subst (λ x. Reaches (quiet d) (quiet x)) (ground (arith, shut)) start
  | inr unclosed ↦ elim (Bool-cases (job.id == "")) [
    | inl unnamed ↦
        subst (λ x. Reaches (quiet d) (quiet x)) (ground (arith, unclosed, unnamed)) start
    | inr named ↦ elim (Bool-cases (has_room d && not (ended && pick))) [
      | inl let_in ↦
          subst (λ x. Reaches (quiet d) (quiet x)) (ground (arith, unclosed, named, let_in))
            (send_job-Reaches now job d unclosed named (ground (arith, let_in)))
      | inr kept_out ↦
          subst (λ x. Reaches (quiet d) (quiet x)) (ground (arith, unclosed, named, kept_out)) start
    ]
  ]
]

take_job-Reaches :
    (jobs : List Job) (d : LocalDistributor)
    → d.job_queue ≡ jobs
    → Reaches (quiet d) (quiet (take_job jobs d).0)
unfolding take_job
take_job-Reaches [] d e = start
take_job-Reaches (job ∷ rest) d e =
    next
      (next
        (next (next (next start (receives job rest e)) (deletes [] [] job refl))
          (discounts [] [] job refl))
        (activates [] [] job refl))
      (counts_active [] [] refl)

-- So is `Dequeue`.
dequeue_job-Reaches :
    (c : Case) (ended : Bool) (d : LocalDistributor)
    → Reaches (quiet d) (quiet (dequeue_job c ended d).0)
unfolding dequeue_job
dequeue_job-Reaches from_queue ended d = take_job-Reaches d.job_queue d refl
dequeue_job-Reaches from_context ended d = start
dequeue_job-Reaches from_done ended d = start

-- The distributor when a `Dequeue` has run between the send of `Enqueue` and its `Store`.
abbrev overtaken : Job → LocalDistributor → LocalDistributor
overtaken job d = count_pending (
    store_pending job (
      count_active
        (store_active job (discount_pending (delete_pending job (pop_job [] (push_job job d)))))))

inserted :
    (id : String) (job : Job) (jobs : Map String Job) → lookup id (insert id job jobs) ≡ some job
inserted id job jobs =
    lookup-insert id id job jobs ∙ ap (λ b. if b then some job else lookup id jobs) (beq_refl id)

-- From any open distributor with an empty queue and room in it, `Enqueue` of a job with an identifier
-- and a `Dequeue` can run so that, with no call left in flight, the queue is empty again and the job is
-- active, while it is still among the pending ones.
stale_pending :
    (now : ℤ) (job : Job) (d : LocalDistributor)
    → d.closed ≡ false
    → (job.id == "") ≡ false
    → has_room d ≡ true
    → d.job_queue ≡ []
    → (d' : LocalDistributor) × Reaches (quiet d) (quiet d')
      × (d'.job_queue ≡ [])
      × (lookup job.id d'.active_jobs ≡ some (normalize_job now job))
      × (lookup job.id d'.pending_jobs ≡ some (normalize_job now job))
unfolding normalize_job
stale_pending now job d unclosed named room empty =
    let sent = normalize_job now job in
    let first : d.job_queue ++ sent ∷ [] ≡ sent ∷ [] = ap (λ q. q ++ sent ∷ []) empty in
    let sent_run = next (next start (calls now job unclosed named)) (sends [] [] sent refl room) in
    let taken_run =
      next
        (next
          (next
            (next (next sent_run (receives sent [] first))
              (deletes [] (storing sent ∷ []) sent refl))
            (discounts [] (storing sent ∷ []) sent refl))
          (activates [] (storing sent ∷ []) sent refl))
        (counts_active [] (storing sent ∷ []) refl) in
    (
      overtaken sent d,
      next (next taken_run (stores [] [] sent refl)) (counts [] [] refl),
      refl,
      inserted job.id sent d.active_jobs,
      inserted job.id sent (delete job.id d.pending_jobs),
    )
