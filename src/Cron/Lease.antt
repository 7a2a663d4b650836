-- ===== src/Cron/Lease.antt =====
-- The times of internal/cron/leader.go: a renewal that stalls ends before the lease does.
use n8n_turbo.Prelude.{
  ℕ, zero, suc, ◌+◌, ◌-◌, ◌*◌, ◌/◌, ◌≤◌, ◌<◌, ◌≡◌, inl, inr, refl, sym, subst, ap, ◌∙◌, arith,
  String, if◌then◌else◌, ltb, ℤ, pos, negsuc, positive, pos_part, Bool-cases,
}
use n8n_turbo.Cron.Leader.{
  quot, default_interval, cap_interval, clamp_renew_interval, call_timeout, lease_time,
  new_redis_leader_with_client, new_redis_leader,
}

-- A positive duration of at most a third of the lease.
abbrev pub Third : ℤ → ℕ → Type 0
Third interval ttl = (n : ℕ) × (interval ≡ pos n) × (1 ≤ n) × (3 * n ≤ ttl)

clamp_renew_interval-Third :
    (interval : ℤ) (ttl : ℕ) → 3 ≤ ttl → Third (clamp_renew_interval interval (pos ttl)) ttl
unfolding clamp_renew_interval quot default_interval cap_interval
clamp_renew_interval-Third (negsuc n) ttl long =
    (ttl / 3, ground (arith, long), omega (arith, long), omega arith)
clamp_renew_interval-Third (pos n) ttl long = elim (Bool-cases (ltb 0 n)) [
  | inr none_given ↦ (ttl / 3, ground (arith, long, none_given), omega (arith, long), omega arith)
  | inl given ↦ elim (Bool-cases (ltb (ttl / 3) n)) [
    | inl above ↦ (ttl / 3, ground (arith, long, given, above), omega (arith, long), omega arith)
    | inr within ↦
        (n, ground (arith, long, given, within), ground (arith, given), ground (arith, within))
  ]
]

call_timeout_lem :
    (n ttl : ℕ) → 1 ≤ n → 3 * n ≤ ttl → call_timeout (pos ttl) (pos n) ≡ pos (ttl - 2 * n)
unfolding call_timeout
call_timeout_lem n ttl some_time third = ground (arith, some_time, third)

-- The renewals and the calls are positive times, and one of each is less than the lease.
abbrev pub Timely : ℤ → ℤ → Type 0
Timely ttl interval =
    (lease n t : ℕ) × (ttl ≡ pos lease)
    × (interval ≡ pos n)
    × (call_timeout ttl interval ≡ pos t)
    × (1 ≤ n)
    × (1 ≤ t)
    × (n + t < lease)

clamp_renew_interval-Timely :
    (interval : ℤ) (ttl : ℕ) → 3 ≤ ttl → Timely (pos ttl) (clamp_renew_interval interval (pos ttl))
clamp_renew_interval-Timely interval ttl long =
    let (n, eq, some_time, third) = clamp_renew_interval-Third interval ttl long in
    (
      ttl,
      n,
      ttl - 2 * n,
      refl,
      eq,
      ap (call_timeout (pos ttl)) eq ∙ call_timeout_lem n ttl some_time third,
      some_time,
      omega (arith, some_time, third),
      omega (arith, some_time, third),
    )

lease_time-pos : (ttl : ℤ) → lease_time ttl ≡ pos (pos_part (lease_time ttl))
lease_time-pos (pos zero) = refl
lease_time-pos (pos (suc n)) = ground arith
lease_time-pos (negsuc n) = refl

-- When the lease of a new RedisLeader is 3 ns at least, whatever the interval it is given: the time
-- between its calls and the time of a call are positive, and together less than the lease.
pub new_redis_leader-Timely :
    (new_id key instance_id : String) (ttl renew_interval : ℤ)
    → 3 ≤ pos_part (lease_time ttl)
    → Timely
        (new_redis_leader new_id key instance_id ttl renew_interval).ttl
        (new_redis_leader new_id key instance_id ttl renew_interval).interval
unfolding new_redis_leader
new_redis_leader-Timely new_id key instance_id ttl renew_interval long =
    let first = (new_redis_leader_with_client new_id key instance_id ttl).interval in
    subst
      (λ lease.
        Timely lease
          (clamp_renew_interval (if positive renew_interval then renew_interval else first) lease))
      (sym (lease_time-pos ttl))
      (clamp_renew_interval-Timely (if positive renew_interval then renew_interval else first)
        (pos_part (lease_time ttl)) long)
