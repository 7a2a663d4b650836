-- ===== src/Distribution/Jobs.antt =====
-- Lists of jobs by their identifiers (internal/engine/distribution/local.go).
use n8n_turbo.Prelude.{
  ◌≡◌, refl, sym, subst, arith, suc, if◌then◌else◌, String, none, some, List, [], ◌∷◌, ◌++◌, length,
  ◌==◌, string_eq, str_iff, Bool-cases, inl, inr,
}
use n8n_turbo.Distribution.Job.{Job}
use n8n_turbo.Distribution.Ledger.{find_job, drop_job}

-- No two jobs have one identifier.
abbrev pub Apart : List Job → Type 0
Apart [] = Unit
Apart (job ∷ jobs) = (find_job job.id jobs ≡ none) × Apart jobs

pub find_job-append :
    (id : String) (jobs : List Job) (job : Job)
    → find_job id (jobs ++ job ∷ [])
      ≡ elim (find_job id jobs) [ some j ↦ some j | none ↦ if job.id == id then some job else none ]
unfolding find_job
find_job-append id [] job = refl
find_job-append id (j ∷ jobs) job = ground (arith, find_job-append id jobs job)

pub Apart-append :
    (jobs : List Job) (job : Job)
    → find_job job.id jobs ≡ none
    → Apart jobs
    → Apart (jobs ++ job ∷ [])
unfolding find_job
Apart-append [] job new h = (refl, tt)
Apart-append (j ∷ jobs) job new h = (
  ground (arith, find_job-append j.id jobs job, new, h.0, str_iff j.id job.id, str_iff job.id j.id),
  Apart-append jobs job (ground (arith, new)) h.1,
)

pub find_job-drop_job :
    (id k : String) (jobs : List Job)
    → Apart jobs
    → find_job k (drop_job id jobs) ≡ (if id == k then none else find_job k jobs)
unfolding find_job drop_job
find_job-drop_job id k [] h = ground arith
find_job-drop_job id k (j ∷ jobs) h =
    ground
      (arith, find_job-drop_job id k jobs h.1, h.0, str_iff j.id id, str_iff j.id k, str_iff id k)

pub length-drop_job :
    (id : String) (jobs : List Job) (job : Job)
    → find_job id jobs ≡ some job
    → suc (length (drop_job id jobs)) ≡ length jobs
unfolding find_job drop_job
length-drop_job id [] job h = absurd (ground (arith, h))
length-drop_job id (j ∷ jobs) job h = ground (arith, h, length-drop_job id jobs job)

pub drop_job-Apart : (id : String) (jobs : List Job) → Apart jobs → Apart (drop_job id jobs)
unfolding find_job drop_job
drop_job-Apart id [] h = tt
drop_job-Apart id (j ∷ jobs) h = elim (Bool-cases (j.id == id)) [
  | inl same ↦ subst (λ b. Apart (if b then jobs else j ∷ drop_job id jobs)) (sym same) h.1
  | inr other ↦
      subst (λ b. Apart (if b then jobs else j ∷ drop_job id jobs)) (sym other)
        (ground (arith, find_job-drop_job id j.id jobs h.1, h.0), drop_job-Apart id jobs h.1)
]

pub drop_job-absent :
    (id : String) (jobs : List Job) → find_job id jobs ≡ none → drop_job id jobs ≡ jobs
unfolding find_job drop_job
drop_job-absent id [] h = refl
drop_job-absent id (j ∷ jobs) h = ground (arith, h, drop_job-absent id jobs)
