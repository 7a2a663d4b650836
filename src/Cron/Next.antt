-- ===== src/Cron/Next.antt =====
-- The steps of the loop of `Next`, internal/cron/parser.go, in UTC.
use n8n_turbo.Prelude.{
  ℕ, suc, ◌+◌, ◌*◌, ◌/◌, ◌%◌, ◌≤◌, ◌<◌, ◌≡◌, ◌⊎◌, ◌↔◌, refl, arith, Bool, ◌&&◌, ltb, Bool-cases,
  inl, inr,
}
use n8n_turbo.Cron.Schedule.{
  Calendar, Schedule, one_second, one_minute, one_hour, truncate, bit_set, next_month, next_day,
  next_hour,
}

abbrev pub one_day : ℕ
one_day = 86400000000000

-- The months since the zero time's year began.
abbrev pub month_key : Calendar → ℕ → ℕ
month_key c t = c.year t * 12 + c.month t

-- What package time documents of UTC: a day has 24 hours of 60 minutes and begins at a multiple of
-- 24 hours, and `date` is the first instant of its hour.
pub record IsUtc (c : Calendar) : Type 0 where
  pub month_range : (t : ℕ) → (1 ≤ c.month t) × (c.month t ≤ 12)
  pub month_start :
      (year month u : ℕ)
      → 1 ≤ month
      → month ≤ 12
      → (c.date year month 1 0 ≤ u) ↔ (year * 12 + month ≤ month_key c u)
  pub month_whole : (year month : ℕ) → c.date year month 1 0 % one_second ≡ 0
  pub day_start : (t : ℕ) → c.date (c.year t) (c.month t) (c.day t) 0 ≡ t / one_day * one_day
  pub hour_start :
      (t : ℕ) → c.date (c.year t) (c.month t) (c.day t) (c.hour t) ≡ t / one_hour * one_hour
  pub same_day : (t u : ℕ) → t / one_day ≡ u / one_day → c.day t ≡ c.day u
  pub same_weekday : (t u : ℕ) → t / one_day ≡ u / one_day → c.weekday t ≡ c.weekday u
  pub hours : (t : ℕ) → c.hour t ≡ t / one_hour % 24
  pub minutes : (t : ℕ) → c.minute t ≡ t / one_minute % 60
  pub seconds : (t : ℕ) → c.second t ≡ t / one_second % 60
  pub days : (t : ℕ) → c.add_day t ≡ t + one_day

-- The instant passes all five tests.
unfoldable pub matches : Schedule → ℕ → Bool
matches s t =
    bit_set s.month (s.location.month t)
    && (bit_set s.dom (s.location.day t)
        && (bit_set s.dow (s.location.weekday t)
            && (bit_set s.hour (s.location.hour t)
                && (bit_set s.minute (s.location.minute t)
                    && bit_set s.second (s.location.second t)))))

pub le-or-lt : (a b : ℕ) → (a ≤ b) ⊎ (b < a)
le-or-lt a b = omega arith

-- Later, and a whole second.
abbrev pub Onward : ℕ → ℕ → Type 0
Onward t t' = (t < t') × (t' % one_second ≡ 0)

module _ (c : Calendar) (utc : IsUtc c) where
  month_key_le : (t u : ℕ) → t ≤ u → month_key c t ≤ month_key c u
  month_key_le t u le =
      let range = utc.month_range t in
      let here = utc.month_start (c.year t) (c.month t) t (range.0) (range.1) in
      let there = utc.month_start (c.year t) (c.month t) u (range.0) (range.1) in
      let start : c.date (c.year t) (c.month t) 1 0 ≤ t = here.1 (omega arith) in
      there.0 (omega (arith, start, le))

  -- The first instant of the month after.
  abbrev NextMonth : ℕ → ℕ → Type 0
  NextMonth t t' =
      (t' % one_second ≡ 0) × ((u : ℕ) → (t' ≤ u) ↔ (suc (month_key c t) ≤ month_key c u))

  next_month-NextMonth : (t : ℕ) → NextMonth t (next_month c t)
  unfolding next_month
  next_month-NextMonth t =
      let range = utc.month_range t in
      elim (Bool-cases (ltb 12 (c.month t + 1))) [
        | inl e ↦ rw e (
          utc.month_whole (c.year t + 1) 1,
          λ u.
              let start = utc.month_start (c.year t + 1) 1 u (omega arith) (omega arith) in
              let last : c.month t ≡ 12 = ground (arith, e, range) in
              (
                λ le. let after = start.0 le in omega (arith, after, last),
                λ le. start.1 (omega (arith, le, last)),
              ),
        )
        | inr e ↦ rw e (
          utc.month_whole (c.year t) (c.month t + 1),
          λ u.
              let early : c.month t + 1 ≤ 12 = ground (arith, e) in
              let start = utc.month_start (c.year t) (c.month t + 1) u (omega arith) early in
              (
                λ le. let after = start.0 le in omega (arith, after),
                λ le. start.1 (omega (arith, le)),
              ),
        )
      ]

  pub next_month-Onward : (t : ℕ) → Onward t (next_month c t)
  next_month-Onward t =
      let start = next_month-NextMonth t in
      let here = start.1 t in
      (
        elim (le-or-lt (next_month c t) t) [
          | inl le ↦ (let after = here.0 le in omega (arith, after))
          | inr gt ↦ gt
        ],
        start.0,
      )

  -- Up to `next_month t` the month stays.
  pub next_month-month : (t u : ℕ) → t ≤ u → u < next_month c t → c.month t ≡ c.month u
  next_month-month t u le lt =
      let range = utc.month_range t in
      let range' = utc.month_range u in
      let mono = month_key_le t u le in
      let start = (next_month-NextMonth t).1 u in
      elim (le-or-lt (suc (month_key c t)) (month_key c u)) [
        | inl after ↦ (let reached = start.1 after in omega (arith, reached, lt))
        | inr same ↦ omega (arith, same, mono, range, range')
      ]

  pub next_day-Onward : (t : ℕ) → Onward t (next_day c t)
  unfolding next_day
  next_day-Onward t = rw (utc.day_start (c.add_day t), utc.days t) (omega arith, omega arith)

  pub next_day-day : (t u : ℕ) → t ≤ u → u < next_day c t → t / one_day ≡ u / one_day
  unfolding next_day
  next_day-day t u le lt =
      let start : next_day c t ≡ (t + one_day) / one_day * one_day =
        rw (utc.day_start (c.add_day t), utc.days t) refl in
      omega (arith, start, le, lt)

  pub next_hour-Onward : (t : ℕ) → Onward t (next_hour c t)
  unfolding next_hour
  next_hour-Onward t = rw (utc.hour_start (t + one_hour)) (omega arith, omega arith)

  pub next_hour-hour : (t u : ℕ) → t ≤ u → u < next_hour c t → c.hour t ≡ c.hour u
  unfolding next_hour
  next_hour-hour t u le lt =
      let start = utc.hour_start (t + one_hour) in
      let here = utc.hours t in let there = utc.hours u in omega (arith, start, here, there, le, lt)

  pub next_minute-minute :
      (t u : ℕ) → t ≤ u → u < truncate one_minute (t + one_minute) → c.minute t ≡ c.minute u
  next_minute-minute t u le lt =
      let here = utc.minutes t in let there = utc.minutes u in omega (arith, here, there, le, lt)

  pub next_second-second :
      (t u : ℕ) → t % one_second ≡ 0 → t ≤ u → u < t + one_second → c.second t ≡ c.second u
  next_second-second t u whole le lt =
      let here = utc.seconds t in
      let there = utc.seconds u in omega (arith, whole, here, there, le, lt)
