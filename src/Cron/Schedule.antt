-- ===== src/Cron/Schedule.antt =====
-- `Schedule` of internal/cron/parser.go and its `Next`. Instants are nanoseconds since the zero time,
-- which is 0; `time.Date`, `AddDate` and the fields of an instant are a location's calendar.
use Prim.Native.Nat.{bit_and}
use n8n_turbo.Prelude.{
  ℕ, zero, suc, ◌+◌, ◌-◌, ◌%◌, ◌^◌, Bool, not, ◌||◌, Option, none, some, if◌then◌else◌, ltb,
  nat_eqb, ℤ, positive, pos_part,
}

pub record Calendar : Type 0 where
  pub year : ℕ → ℕ
  pub month : ℕ → ℕ
  pub day : ℕ → ℕ
  pub weekday : ℕ → ℕ
  pub hour : ℕ → ℕ
  pub minute : ℕ → ℕ
  pub second : ℕ → ℕ
  -- `time.Date(year, month, day, hour, 0, 0, 0, location)`
  pub date : ℕ → ℕ → ℕ → ℕ → ℕ
  -- `AddDate(0, 0, 1)` and `AddDate(4, 0, 0)`
  pub add_day : ℕ → ℕ
  pub add_four_years : ℕ → ℕ

-- The fields are `uint64` masks.
pub record Schedule : Type 0 where
  pub second : ℕ
  pub minute : ℕ
  pub hour : ℕ
  pub dom : ℕ
  pub month : ℕ
  pub dow : ℕ
  pub location : Calendar
  pub interval : ℤ

abbrev pub one_second : ℕ
one_second = 1000000000

abbrev pub one_minute : ℕ
one_minute = 60000000000

abbrev pub one_hour : ℕ
one_hour = 3600000000000

-- `Truncate`
abbrev pub truncate : ℕ → ℕ → ℕ
truncate unit t = t - t % unit

unfoldable pub bit_set : ℕ → ℕ → Bool
bit_set mask value = not (nat_eqb (bit_and mask (2 ^ value % 2 ^ 64)) 0)

module _ (c : Calendar) where
  unfoldable pub next_month : ℕ → ℕ
  next_month t =
      let month = c.month t + 1 in
      if ltb 12 month then c.date (c.year t + 1) 1 1 0 else c.date (c.year t) month 1 0

  unfoldable pub next_day : ℕ → ℕ
  next_day t = let next = c.add_day t in c.date (c.year next) (c.month next) (c.day next) 0

  unfoldable pub next_hour : ℕ → ℕ
  next_hour t =
      let next = t + one_hour in c.date (c.year next) (c.month next) (c.day next) (c.hour next)

-- The first test of the loop's body that fails, as the candidate that it goes on with; `none` is a
-- candidate that passes them all.
unfoldable pub advance : Schedule → ℕ → Option ℕ
unfolding next_month next_day next_hour bit_set
advance s t =
    let c = s.location in
    if not (bit_set s.month (c.month t))
    then some (next_month c t)
    else if not (bit_set s.dom (c.day t)) || not (bit_set s.dow (c.weekday t))
    then some (next_day c t)
    else if not (bit_set s.hour (c.hour t))
    then some (next_hour c t)
    else if not (bit_set s.minute (c.minute t))
    then some (truncate one_minute (t + one_minute))
    else if not (bit_set s.second (c.second t))
    then some (t + one_second)
    else none

-- The loop of `Next`, on fuel; 0 is the zero time.
unfoldable pub search_next : ℕ → Schedule → ℕ → ℕ → ℕ
search_next zero s limit t = 0
search_next (suc fuel) s limit t =
    if ltb t limit
    then (elim (advance s t) [ none ↦ t | some t' ↦ search_next fuel s limit t' ])
    else 0

-- `Next`. Every candidate is later than the one before, so as many rounds as there are nanoseconds up
-- to the limit, and one more, are enough.
unfoldable pub next : Schedule → ℕ → ℕ
unfolding search_next advance
next s after =
    if positive s.interval
    then after + pos_part s.interval
    else let candidate = truncate one_second (after + one_second) in
      let limit = s.location.add_four_years candidate in
      search_next (suc (limit - candidate)) s limit candidate
