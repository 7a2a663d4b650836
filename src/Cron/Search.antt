-- ===== src/Cron/Search.antt =====
-- `Next` of internal/cron/parser.go against what a schedule means, in UTC.
use n8n_turbo.Prelude.{
  ℕ, zero, suc, ◌+◌, ◌-◌, ◌%◌, ◌≤◌, ◌<◌, ◌≡◌, ◌⊎◌, refl, subst, arith, true, false, none, some, ltb,
  positive, Option-cases, Bool-cases, inl, inr,
}
use n8n_turbo.Cron.Schedule.{
  Schedule, one_second, one_minute, truncate, bit_set, next_month, next_day, next_hour, advance,
  search_next, next,
}
use n8n_turbo.Cron.Next.{
  le-or-lt, IsUtc, matches, Onward, next_month-Onward, next_month-month, next_day-Onward,
  next_day-day, next_hour-Onward, next_hour-hour, next_minute-minute, next_second-second,
}

module _ (s : Schedule) (utc : IsUtc s.location) where
  -- No instant from `t` up to `t'` passes the tests.
  abbrev Passed : ℕ → ℕ → Type 0
  Passed t t' = (u : ℕ) → t ≤ u → u < t' → matches s u ≡ false

  Skips : ℕ → ℕ → Type 0
  Skips t t' = Onward t t' × Passed t t'

  -- A test that fails at `t`, on a field that stays the same up to `t'`.
  field-Passed :
      (mask : ℕ)
      → (field : ℕ → ℕ) → ((u : ℕ) → bit_set mask (field u) ≡ false → matches s u ≡ false)
      → (t t' : ℕ) → bit_set mask (field t) ≡ false
      → ((u : ℕ) → t ≤ u → u < t' → field t ≡ field u)
      → Passed t t'
  field-Passed mask field decides t t' failed same u le lt =
      decides u (subst (λ x. bit_set mask x ≡ false) (same u le lt) failed)

  next_day-Skips :
      (t : ℕ)
      → (bit_set s.dom (s.location.day t) ≡ false) ⊎ (bit_set s.dow (s.location.weekday t) ≡ false)
      → Skips t (next_day s.location t)
  unfolding Skips matches
  next_day-Skips t (inl failed) = (
    next_day-Onward s.location utc t,
    field-Passed s.dom s.location.day (λ u no. ground (arith, no)) t (next_day s.location t) failed
        (λ u le lt. utc.same_day t u (next_day-day s.location utc t u le lt)),
  )
  next_day-Skips t (inr failed) = (
    next_day-Onward s.location utc t,
    field-Passed s.dow s.location.weekday (λ u no. ground (arith, no)) t (next_day s.location t)
        failed (λ u le lt. utc.same_weekday t u (next_day-day s.location utc t u le lt)),
  )

  -- A candidate that the loop goes on with is later, and no instant that it skips matches.
  advance-Skips : (t t' : ℕ) → t % one_second ≡ 0 → advance s t ≡ some t' → Skips t t'
  unfolding advance matches Skips
  advance-Skips t t' whole eq =
      let c = s.location in
      elim (Bool-cases (bit_set s.month (c.month t))) [
        | inr month ↦ subst (Skips t) (ground (arith, eq, month)) (
          next_month-Onward c utc t,
          field-Passed s.month c.month (λ u no. ground (arith, no)) t (next_month c t) month
              (next_month-month c utc t),
        )
        | inl month ↦ elim (Bool-cases (bit_set s.dom (c.day t))) [
          | inr dom ↦ subst (Skips t) (ground (arith, eq, month, dom)) (next_day-Skips t (inl dom))
          | inl dom ↦ elim (Bool-cases (bit_set s.dow (c.weekday t))) [
            | inr dow ↦
                subst (Skips t) (ground (arith, eq, month, dom, dow)) (next_day-Skips t (inr dow))
            | inl dow ↦ elim (Bool-cases (bit_set s.hour (c.hour t))) [
              | inr hour ↦ subst (Skips t) (ground (arith, eq, month, dom, dow, hour)) (
                next_hour-Onward c utc t,
                field-Passed s.hour c.hour (λ u no. ground (arith, no)) t (next_hour c t) hour
                    (next_hour-hour c utc t),
              )
              | inl hour ↦ elim (Bool-cases (bit_set s.minute (c.minute t))) [
                | inr minute ↦ subst (Skips t) (ground (arith, eq, month, dom, dow, hour, minute)) (
                  (omega arith, omega arith),
                  field-Passed s.minute c.minute (λ u no. ground (arith, no)) t
                      (truncate one_minute (t + one_minute)) minute (next_minute-minute c utc t),
                )
                | inl minute ↦ elim (Bool-cases (bit_set s.second (c.second t))) [
                  | inr second ↦
                      subst (Skips t) (ground (arith, eq, month, dom, dow, hour, minute, second)) (
                        (omega arith, omega arith),
                        field-Passed s.second c.second (λ u no. ground (arith, no)) t
                            (t + one_second) second
                            (λ u le lt. next_second-second c utc t u whole le lt),
                      )
                  | inl second ↦ ground (arith, eq, month, dom, dow, hour, minute, second)
                ]
              ]
            ]
          ]
        ]
      ]

  -- A candidate on which the loop stops matches.
  advance-matches : (t : ℕ) → advance s t ≡ none → matches s t ≡ true
  unfolding advance matches
  advance-matches t eq = ground (arith, eq)

  -- What the loop finds from `t` on: the first match, or none before the limit.
  abbrev First : ℕ → ℕ → ℕ → Type 0
  First limit t found =
      ((t ≤ found)
        × (found < limit)
        × (found % one_second ≡ 0)
        × (matches s found ≡ true)
        × Passed t found)
      ⊎ ((found ≡ 0) × Passed t limit)

  Passed-late : (t t' : ℕ) → t' ≤ t → Passed t t'
  Passed-late t t' late u le lt = let never : ⊥ = omega (arith, late, le, lt) in elim never [ ]

  Passed-join : (t t' t'' : ℕ) → Passed t t' → Passed t' t'' → Passed t t''
  Passed-join t t' t'' before after u le lt = elim (le-or-lt t' u) [
    | inl later ↦ after u later lt
    | inr sooner ↦ before u le sooner
  ]

  First-Skips : (limit t t' found : ℕ) → Skips t t' → First limit t' found → First limit t found
  unfolding Skips
  First-Skips limit t t' found skip (inl (le, lt, whole, found_match, passed)) =
      inl
        (omega (arith, skip.0.0, le), lt, whole, found_match, Passed-join t t' found skip.1 passed)
  First-Skips limit t t' found skip (inr (none_found, passed)) =
      inr (none_found, Passed-join t t' limit skip.1 passed)

  search_next-First :
      (fuel limit t : ℕ)
      → limit < fuel + t
      → t % one_second ≡ 0
      → First limit t (search_next fuel s limit t)
  unfolding search_next Skips
  search_next-First zero limit t enough whole =
      inr (refl, Passed-late t limit (omega (arith, enough)))
  search_next-First (suc fuel) limit t enough whole = elim (Bool-cases (ltb t limit)) [
    | inr late ↦
        subst (First limit t) (ground (arith, late))
          (inr (refl, Passed-late t limit (ground (arith, late))))
    | inl early ↦ elim (Option-cases (advance s t)) [
      | inl stop ↦
          let found : matches s t ≡ true = advance-matches t stop in
          subst (First limit t) (ground (arith, early, stop))
            (inl (omega arith, ground (arith, early), whole, found, Passed-late t t (omega arith)))
      | inr (t', go_on) ↦
          let skip = advance-Skips t t' whole go_on in
          let later : t < t' = skip.0.0 in
          subst (First limit t) (ground (arith, early, go_on)) (
            First-Skips limit t t' (search_next fuel s limit t') skip
              (search_next-First fuel limit t' (omega (arith, later, enough)) skip.0.1))
    ]
  ]

  next-First :
      (after : ℕ)
      → positive s.interval ≡ false
      → First
          (s.location.add_four_years (truncate one_second (after + one_second)))
          (truncate one_second (after + one_second))
          (next s after)
  unfolding next
  next-First after cron =
      let candidate = truncate one_second (after + one_second) in
      let limit = s.location.add_four_years candidate in
      subst (First limit candidate) (ground (arith, cron))
        (search_next-First (suc (limit - candidate)) limit candidate (omega arith) (omega arith))

  -- In UTC and without an interval: what `next` returns is the zero time, or an instant after `after`
  -- that passes the tests of all six fields, is a whole second, and lies before the limit of four
  -- years.
  pub next-matches :
      (after : ℕ)
      → positive s.interval ≡ false
      → (next s after ≡ 0)
        ⊎ ((after < next s after)
            × (next s after % one_second ≡ 0)
            × (matches s (next s after) ≡ true)
            × (next s after < s.location.add_four_years (truncate one_second (after + one_second))))
  next-matches after cron = elim (next-First after cron) [
    | inl (le, lt, whole, found, _) ↦ inr (omega (arith, le), whole, found, lt)
    | inr (none_found, _) ↦ inl none_found
  ]

  -- In UTC and without an interval, when an instant `u` between the next whole second and the limit
  -- of four years passes the tests of all six fields, `next` finds one: an instant after `after` that
  -- passes them, and that is not later than `u`.
  pub next-earliest :
      (after u : ℕ)
      → positive s.interval ≡ false
      → truncate one_second (after + one_second) ≤ u
      → u < s.location.add_four_years (truncate one_second (after + one_second))
      → matches s u ≡ true
      → (after < next s after) × (matches s (next s after) ≡ true) × (next s after ≤ u)
  next-earliest after u cron from before passes = elim (next-First after cron) [
    | inl (le, lt, whole, found, passed) ↦ (
      omega (arith, le),
      found,
      elim (le-or-lt (next s after) u) [
        | inl early ↦ early
        | inr late ↦ ground (arith, passed u from late, passes)
      ],
    )
    | inr (none_found, passed) ↦ ground (arith, passed u from before, passes)
  ]
