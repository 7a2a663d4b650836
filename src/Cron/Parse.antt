-- ===== src/Cron/Parse.antt =====
-- Parse of internal/cron/parser.go. `time.ParseDuration` and the order in which Go goes through the
-- map of names are arguments.
use Prim.Native.Nat.{bit_or, bit_and}
use n8n_turbo.Prelude.{
  ℕ, ◌-◌, ◌^◌, String, Option, none, some, List, [], ◌∷◌, if◌then◌else◌, ℤ, pos, positive, ◌==◌,
  string_eq,
}
use n8n_turbo.Cron.Schedule.{Calendar, Schedule, bit_set}
use n8n_turbo.Cron.Text.{words, trim_space, to_lower, cut_prefix, replace_all}
use n8n_turbo.Cron.Fields.{
  Parsed, parsed, failed, ◌>>=◌, parse_field, invalid_expression, invalid_duration,
  duration_not_positive,
}

abbrev pub names : List (String × String)
names =
    ("jan", "1")
    ∷ ("feb", "2")
    ∷ ("mar", "3")
    ∷ ("apr", "4")
    ∷ ("may", "5")
    ∷ ("jun", "6")
    ∷ ("jul", "7")
    ∷ ("aug", "8")
    ∷ ("sep", "9")
    ∷ ("oct", "10")
    ∷ ("nov", "11")
    ∷ ("dec", "12")
    ∷ ("sun", "0")
    ∷ ("mon", "1")
    ∷ ("tue", "2")
    ∷ ("wed", "3")
    ∷ ("thu", "4")
    ∷ ("fri", "5")
    ∷ ("sat", "6")
    ∷ []

unfoldable pub normalize_names : List (String × String) → String → String
normalize_names [] value = value
normalize_names ((key, replacement) ∷ order) value =
    normalize_names order (replace_all key replacement value)

-- The expressions that `Parse` calls itself on.
unfoldable pub alias : String → String
alias expr =
    if expr == "@yearly"
    then "0 0 1 1 *"
    else if expr == "@annually"
    then "0 0 1 1 *"
    else if expr == "@monthly"
    then "0 0 1 * *"
    else if expr == "@weekly"
    then "0 0 * * 0"
    else if expr == "@daily"
    then "0 0 * * *"
    else if expr == "@midnight"
    then "0 0 * * *"
    else if expr == "@hourly"
    then "0 * * * *"
    else expr

-- Sunday is 0 besides 7.
unfoldable pub sunday : ℕ → ℕ
sunday dow = if bit_set dow 7 then bit_and (bit_or dow (2 ^ 0)) (2 ^ 64 - 1 - 2 ^ 7) else dow

module _ (parse_duration : String → Option ℤ) (order : List (String × String))
    (location : Calendar) where
  unfoldable pub parse_every : String → Parsed Schedule
  parse_every text = elim (parse_duration (trim_space text)) [
    | none ↦ failed invalid_duration
    | some interval ↦
        if positive interval
        then parsed (record {
          second = 0;
          minute = 0;
          hour = 0;
          dom = 0;
          month = 0;
          dow = 0;
          location = location;
          interval = interval;
        })
        else failed duration_not_positive
  ]

  unfoldable pub parse_six : String → String → String → String → String → String → Parsed Schedule
  unfolding sunday normalize_names
  parse_six f0 f1 f2 f3 f4 f5 = do
    second ← parse_field f0 0 59
    minute ← parse_field f1 0 59
    hour ← parse_field f2 0 23
    dom ← parse_field f3 1 31
    month ← parse_field (normalize_names order f4) 1 12
    dow ← parse_field (normalize_names order f5) 0 7
    parsed (record {
      second = second;
      minute = minute;
      hour = hour;
      dom = dom;
      month = month;
      dow = sunday dow;
      location = location;
      interval = pos 0;
    })

  unfoldable pub parse_fields : List String → Parsed Schedule
  unfolding parse_six
  parse_fields (f1 ∷ f2 ∷ f3 ∷ f4 ∷ f5 ∷ []) = parse_six "0" f1 f2 f3 f4 f5
  parse_fields (f0 ∷ f1 ∷ f2 ∷ f3 ∷ f4 ∷ f5 ∷ []) = parse_six f0 f1 f2 f3 f4 f5
  parse_fields _ = failed invalid_expression

  unfoldable pub parse : String → Parsed Schedule
  unfolding parse_every parse_fields alias
  parse text =
      let expr = alias (trim_space (to_lower text)) in
      elim (cut_prefix "@every " expr) [
        | some rest ↦ parse_every rest
        | none ↦ parse_fields (words expr)
      ]
