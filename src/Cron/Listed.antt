-- ===== src/Cron/Listed.antt =====
-- What a part of a field lists, said of its text alone: the meaning that parseField of
-- internal/cron/parser.go gives to cron expressions.
use n8n_turbo.Prelude.{
  ℕ, ◌-◌, ◌^◌, ◌%◌, Bool, true, false, ◌&&◌, ◌||◌, String, Option, none, some, if◌then◌else◌, leb,
  nat_eqb, ℤ, pos, ◌==◌, string_eq,
}
use n8n_turbo.Cron.Text.{cut, atoi}

-- The number that the text writes, unless it is below zero.
abbrev pub natural : Option ℤ → Option ℕ
natural (some (pos n)) = some n
natural _ = none

-- The first and the last value of `*`, of a range `a-b` and of a single number.
unfoldable pub first_of : ℕ → String → Option ℕ
first_of low text = if text == "*" || text == "" then some low else (elim (cut "-" text) [
  | some (start, end) ↦ natural (atoi start)
  | none ↦ natural (atoi text)
])

unfoldable pub last_of : ℕ → String → Option ℕ
last_of high text = if text == "*" || text == "" then some high else (elim (cut "-" text) [
  | some (start, end) ↦ natural (atoi end)
  | none ↦ natural (atoi text)
])

-- With a step, only a range ends before the largest value of the field.
unfoldable pub last_stepped : ℕ → String → Option ℕ
last_stepped high text = elim (cut "-" text) [
  | some (start, end) ↦ natural (atoi end)
  | none ↦ some high
]

-- `b` is the first value or follows it in steps, up to the last.
unfoldable pub runs : Option ℕ → Option ℕ → Option ℕ → ℕ → Bool
runs (some first) (some last) (some step) b =
    leb first b && (leb b last && nat_eqb ((b - first) % step) 0)
runs _ _ _ b = false

-- Whether the part `text` lists `b`.
unfoldable pub in_part : ℕ → ℕ → String → ℕ → Bool
in_part low high text b = elim (cut "/" text) [
  | none ↦ runs (first_of low text) (last_of high text) (some 1) b
  | some (before, after) ↦
      runs (first_of low before) (last_stepped high before) (natural (atoi after)) b
]

-- The text has no step above 2^62.
unfoldable pub mild_part : String → Bool
mild_part text = elim (cut "/" text) [
  | none ↦ true
  | some (before, after) ↦ elim (natural (atoi after)) [
    | none ↦ true
    | some step ↦ leb step (2 ^ 62)
  ]
]
