-- ===== src/Cron/Leader.antt =====
-- internal/cron/leader.go: the lease on the Redis key, and the times that it is renewed and called
-- with. A duration is an `int64` of nanoseconds.
use n8n_turbo.Prelude.{
  ℕ, zero, suc, ◌+◌, ◌-◌, ◌*◌, ◌/◌, Bool, false, ◌&&◌, String, if◌then◌else◌, leb, ℤ, pos, negsuc,
  positive, ltb_ℤ, pos_part, neg_part, ◌==◌, string_eq,
}

-- Go's quotient by a positive number, which goes towards zero.
unfoldable pub quot : ℤ → ℕ → ℤ
quot (pos n) k = pos (n / k)
quot (negsuc n) k = elim (suc n / k) [ zero ↦ pos 0 | suc m ↦ negsuc m ]

abbrev pub sub_ℕ : ℕ → ℕ → ℤ
sub_ℕ m n = if leb n m then pos (m - n) else negsuc (n - m - 1)

-- `a - b`
abbrev pub sub_ℤ : ℤ → ℤ → ℤ
sub_ℤ a b = sub_ℕ (pos_part a + neg_part b) (neg_part a + pos_part b)

-- `2 * a`
abbrev pub double : ℤ → ℤ
double (pos n) = pos (2 * n)
double (negsuc n) = negsuc (2 * n + 1)

unfoldable pub default_interval : ℤ → ℤ → ℤ
unfolding quot
default_interval interval ttl = if positive interval then interval else quot ttl 3

unfoldable pub cap_interval : ℤ → ℤ → ℤ
unfolding quot
cap_interval interval ttl =
    if positive (quot ttl 3) && ltb_ℤ (quot ttl 3) interval then quot ttl 3 else interval

unfoldable pub clamp_renew_interval : ℤ → ℤ → ℤ
unfolding default_interval cap_interval
clamp_renew_interval interval ttl =
    let capped = cap_interval (default_interval interval ttl) ttl in
    if positive capped then capped else pos 1000000

unfoldable pub call_timeout : ℤ → ℤ → ℤ
unfolding quot
call_timeout ttl interval =
    let timeout = sub_ℤ ttl (double interval) in if positive timeout then timeout else quot ttl 2

pub record RedisLeader : Type 0 where
  pub key : String
  pub instance_id : String
  pub ttl : ℤ
  pub interval : ℤ
  pub leader : Bool
  -- `cancel` and `done` are set.
  pub started : Bool

abbrev pub lease_time : ℤ → ℤ
lease_time ttl = if positive ttl then ttl else pos 30000000000

abbrev pub first_interval : ℤ → ℤ
first_interval ttl = if ltb_ℤ (quot ttl 3) (pos 100000000) then pos 100000000 else quot ttl 3

-- NewRedisLeaderWithClient; `new_id` is `uuid.NewString()`.
unfoldable pub new_redis_leader_with_client : String → String → String → ℤ → RedisLeader
unfolding clamp_renew_interval
new_redis_leader_with_client new_id key instance_id ttl = record {
  key = if key == "" then "n8n-turbo:scheduler:leader" else key;
  instance_id = if instance_id == "" then new_id else instance_id;
  ttl = lease_time ttl;
  interval = clamp_renew_interval (first_interval (lease_time ttl)) (lease_time ttl);
  leader = false;
  started = false;
}

-- NewRedisLeader, of the fields that stay
unfoldable pub new_redis_leader : String → String → String → ℤ → ℤ → RedisLeader
unfolding new_redis_leader_with_client
new_redis_leader new_id key instance_id ttl renew_interval =
    let l = new_redis_leader_with_client new_id key instance_id ttl in
    record l {
      interval =
          clamp_renew_interval (if positive renew_interval then renew_interval else l.interval)
            l.ttl;
    }
