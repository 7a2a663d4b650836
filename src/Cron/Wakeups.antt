-- ===== src/Cron/Wakeups.antt =====
-- When the timer of internal/cron/scheduler.go is set to go off.
use n8n_turbo.Prelude.{
  ℕ, ◌-◌, ◌≤◌, ◌≡◌, ◌≢◌, ◌⊎◌, inl, inr, ap, arith, String, some, [], ◌∷◌, if◌then◌else◌, ltb,
  nat_eqb, ◌==◌, string_eq, Bool-cases,
}
use n8n_turbo.Prelude.Map.{Map, lookup}
use n8n_turbo.Cron.Job.{Job}
use n8n_turbo.Cron.Scheduler.{Scheduler, soonest, next_wakeup}

soonest-le : (now : ℕ) (jobs : Map String Job) (next : ℕ) → soonest now jobs next ≤ next
unfolding soonest
soonest-le now [] next = omega arith
soonest-le now ((_, j) ∷ jobs) next =
    let first =
      if nat_eqb j.next_run 0
      then next
      else if ltb (j.next_run - now) next
      then j.next_run - now
      else next in
    let rest = soonest-le now jobs first in ground (arith, rest)

soonest-lookup :
    (now : ℕ) (jobs : Map String Job) (next : ℕ) (id : String) (j : Job)
    → lookup id jobs ≡ some j
    → j.next_run ≢ 0
    → soonest now jobs next ≤ j.next_run - now
unfolding soonest lookup
soonest-lookup now [] next id j there some_time = ground (arith, there)
soonest-lookup now ((k, i) ∷ jobs) next id j there some_time =
    let first =
      if nat_eqb i.next_run 0
      then next
      else if ltb (i.next_run - now) next
      then i.next_run - now
      else next in
    elim (Bool-cases (k == id)) [
      | inl here ↦
          let same : i ≡ j = ground (arith, here, there) in
          let rest = soonest-le now jobs first in
          let when : i.next_run ≡ j.next_run = ap (λ i. i.next_run) same in
          ground (arith, rest, when, some_time)
      | inr further ↦ soonest-lookup now jobs first id j (ground (arith, further, there)) some_time
    ]

-- When a job has a next time: the timer goes off after 50 ms to a minute, and not after that time
-- unless it goes off after 50 ms.
pub next_wakeup-lookup :
    (now : ℕ) (s : Scheduler) (id : String) (j : Job)
    → lookup id s.jobs ≡ some j
    → j.next_run ≢ 0
    → (50000000 ≤ next_wakeup now s)
      × (next_wakeup now s ≤ 60000000000)
      × ((next_wakeup now s ≡ 50000000) ⊎ (next_wakeup now s ≤ j.next_run - now))
unfolding next_wakeup
next_wakeup-lookup now s id j there some_time =
    let bound = soonest-le now s.jobs 60000000000 in
    let soon = soonest-lookup now s.jobs 60000000000 id j there some_time in
    elim (Bool-cases (ltb (soonest now s.jobs 60000000000) 50000000)) [
      | inl near ↦ (ground (arith, near), ground (arith, near), inl (ground (arith, near)))
      | inr far ↦ (ground (arith, far), ground (arith, far, bound), inr (ground (arith, far, soon)))
    ]
