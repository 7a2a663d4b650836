-- ===== src/Cron/Valid.antt =====
-- Which schedules Parse of internal/cron/parser.go returns.
use Prim.Native.Nat.{bit_and, bit_or}
use n8n_turbo.Prelude.{
  ℕ, ◌-◌, ◌^◌, ◌≤◌, ◌<◌, ◌≡◌, ◌≢◌, ◌⊎◌, inl, inr, refl, subst, arith, true, false, String, Option,
  List, [], ◌∷◌, Bool, ◌&&◌, all, leb, Bool-cases, ℤ, positive,
}
use n8n_turbo.Cron.Schedule.{Calendar, Schedule, bit_set}
use n8n_turbo.Cron.Bits.{bit_set-zero, bit_set-bit_or, bit_set-bit_and}
use n8n_turbo.Cron.Listed.{mild_part}
use n8n_turbo.Cron.Text.{
  split_at, cut, trim_left, trim_right, trim_space, to_lower, cut_prefix, words,
}
use n8n_turbo.Cron.Fields.{parsed, parse_field}
use n8n_turbo.Cron.Parts.{Holds, Holds-bind, Holds-map, Holds-if, Holds-option}
use n8n_turbo.Cron.Values.{mild}
use n8n_turbo.Cron.Ranges.{parse_field-Within}
use n8n_turbo.Cron.Parse.{
  normalize_names, alias, sunday, parse_every, parse_six, parse_fields, parse,
}

-- If the mask has the bit, that is a value from `low` to `high`.
abbrev pub Ranged : ℕ → ℕ → ℕ → ℕ → Type 0
Ranged low high mask b = (bit_set mask b ≡ false) ⊎ ((low ≤ b) × (b ≤ high))

abbrev pub Filled : Schedule → Type 0
Filled s = (s.second ≢ 0) × (s.minute ≢ 0) × (s.hour ≢ 0) × (s.dom ≢ 0) × (s.month ≢ 0)

-- The masks are within the ranges of their fields, days of the month from 1 to 31 and months from 1 to
-- 12 among them, and the first five are not empty unless there is an interval.
abbrev pub IsValid : Schedule → ℕ → Type 0
IsValid s b =
    Ranged 0 59 s.second b
    × Ranged 0 59 s.minute b
    × Ranged 0 23 s.hour b
    × Ranged 1 31 s.dom b
    × Ranged 1 12 s.month b
    × Ranged 0 6 s.dow b
    × ((positive s.interval ≡ true) ⊎ Filled s)

-- No step in the field is above 2^62, as it stands and with its names replaced.
unfoldable pub mild_field : List (String × String) → String → Bool
mild_field order field =
    mild (split_at "," field) && mild (split_at "," (normalize_names order field))

-- No field of the expression has a step above 2^62.
unfoldable pub mild_expression : List (String × String) → String → Bool
mild_expression order text = all (mild_field order) (words (alias (trim_space (to_lower text))))

no_seven : bit_set (2 ^ 64 - 1 - 2 ^ 7) 7 ≡ false
unfolding bit_set
no_seven = refl

-- The mask of the days once the seventh is cleared.
cleared-seven : (mask : ℕ) → bit_set (bit_and (bit_or mask (2 ^ 0)) (2 ^ 64 - 1 - 2 ^ 7)) 7 ≡ false
cleared-seven mask =
    rw (bit_set-bit_and (bit_or mask (2 ^ 0)) (2 ^ 64 - 1 - 2 ^ 7) 7 (omega arith), no_seven)
      (ground arith)

cleared-off :
    (mask b : ℕ)
    → b < 64
    → 6 < b
    → bit_set mask b ≡ false
    → bit_set (bit_and (bit_or mask (2 ^ 0)) (2 ^ 64 - 1 - 2 ^ 7)) b ≡ false
cleared-off mask b lt above off =
    rw
      (
        bit_set-bit_and (bit_or mask (2 ^ 0)) (2 ^ 64 - 1 - 2 ^ 7) b lt,
        bit_set-bit_or mask 0 b (omega arith) lt,
        off,
      )
      (ground (arith, above))

sunday-off : (mask b : ℕ) → b < 64 → 6 < b → Ranged 0 7 mask b → bit_set (sunday mask) b ≡ false
unfolding sunday
sunday-off mask b lt above (inl off) = elim (Bool-cases (bit_set mask 7)) [
  | inl on ↦ rw on (cleared-off mask b lt above off)
  | inr clear ↦ rw clear off
]
sunday-off mask b lt above (inr (_, le)) =
    let seven : b ≡ 7 = omega (arith, above, le) in
    elim (Bool-cases (bit_set mask 7)) [
      | inl on ↦ rw (seven, on) (cleared-seven mask)
      | inr clear ↦ rw (seven, clear) clear
    ]

sunday-Ranged : (mask b : ℕ) → b < 64 → Ranged 0 7 mask b → Ranged 0 6 (sunday mask) b
sunday-Ranged mask b lt limited = elim (Bool-cases (leb b 6)) [
  | inl le ↦ inr (omega arith, ground (arith, le))
  | inr above ↦ inl (sunday-off mask b lt (ground (arith, above)) limited)
]

field-Ranged :
    (field : String) (low high : ℕ)
    → low ≤ high
    → high < 64
    → mild (split_at "," field) ≡ true
    → Holds
        (λ mask. (mask ≢ 0) × ((b : ℕ) → b < 64 → Ranged low high mask b))
        (parse_field field low high)
field-Ranged field low high range small steps =
    Holds-map _ _ (parse_field field low high) (parse_field-Within low high range small field steps)
      (λ mask (filled, bits). (
        filled,
        λ b lt. elim (Bool-cases (bit_set mask b)) [
          | inl on ↦ elim (bits b lt on) [
            | inl never ↦ absurd (ground (arith, never, bit_set-zero b lt))
            | inr within ↦ inr within
          ]
          | inr off ↦ inl off
        ],
      ))

-- The seconds of an expression of five fields.
zero_seconds : mild (split_at "," "0") ≡ true
unfolding mild mild_part cut trim_left trim_right split_at
zero_seconds = refl

module _ (parse_duration : String → Option ℤ) (order : List (String × String))
    (location : Calendar) where
  Good : Schedule → Type 0
  Good s = (b : ℕ) → b < 64 → IsValid s b

  parse_every-Good : (text : String) → Holds Good (parse_every parse_duration order location text)
  unfolding parse_every Good Holds
  parse_every-Good text =
      Holds-option Good (parse_duration (trim_space text)) _ _ (λ _. tt)
        (λ interval _.
          Holds-if Good (positive interval) _ _
            (λ up b lt.
              let empty : bit_set 0 b ≡ false = bit_set-zero b lt in
              (inl empty, inl empty, inl empty, inl empty, inl empty, inl empty, inl up))
            (λ _. tt))

  parse_six-Good :
      (f0 f1 f2 f3 f4 f5 : String)
      → mild (split_at "," f0) ≡ true
      → all (mild_field order) (f1 ∷ f2 ∷ f3 ∷ f4 ∷ f5 ∷ []) ≡ true
      → Holds Good (parse_six parse_duration order location f0 f1 f2 f3 f4 f5)
  unfolding parse_six Good Holds mild_field
  parse_six-Good f0 f1 f2 f3 f4 f5 step0 steps =
      Holds-bind _ Good (parse_field f0 0 59) _
        (field-Ranged f0 0 59 (omega arith) (omega arith) step0)
        (λ second l0.
          Holds-bind _ Good (parse_field f1 0 59) _
            (field-Ranged f1 0 59 (omega arith) (omega arith) (ground (arith, steps)))
            (λ minute l1.
              Holds-bind _ Good (parse_field f2 0 23) _
                (field-Ranged f2 0 23 (omega arith) (omega arith) (ground (arith, steps)))
                (λ hour l2.
                  Holds-bind _ Good (parse_field f3 1 31) _
                    (field-Ranged f3 1 31 (omega arith) (omega arith) (ground (arith, steps)))
                    (λ dom l3.
                      Holds-bind _ Good (parse_field (normalize_names order f4) 1 12) _
                        (field-Ranged (normalize_names order f4) 1 12 (omega arith) (omega arith)
                          (ground (arith, steps)))
                        (λ month l4.
                          Holds-bind _ Good (parse_field (normalize_names order f5) 0 7) _
                            (field-Ranged (normalize_names order f5) 0 7 (omega arith) (omega arith)
                              (ground (arith, steps)))
                            (λ dow l5 b lt. (
                              l0.1 b lt,
                              l1.1 b lt,
                              l2.1 b lt,
                              l3.1 b lt,
                              l4.1 b lt,
                              sunday-Ranged dow b lt (l5.1 b lt),
                              inr (l0.0, l1.0, l2.0, l3.0, l4.0),
                            )))))))

  parse_fields-Good :
      (fields : List String)
      → all (mild_field order) fields ≡ true
      → Holds Good (parse_fields parse_duration order location fields)
  unfolding parse_fields Holds mild_field
  parse_fields-Good [] steps = tt
  parse_fields-Good (f1 ∷ []) steps = tt
  parse_fields-Good (f1 ∷ f2 ∷ []) steps = tt
  parse_fields-Good (f1 ∷ f2 ∷ f3 ∷ []) steps = tt
  parse_fields-Good (f1 ∷ f2 ∷ f3 ∷ f4 ∷ []) steps = tt
  parse_fields-Good (f1 ∷ f2 ∷ f3 ∷ f4 ∷ f5 ∷ []) steps =
      parse_six-Good "0" f1 f2 f3 f4 f5 zero_seconds steps
  parse_fields-Good (f0 ∷ f1 ∷ f2 ∷ f3 ∷ f4 ∷ f5 ∷ []) steps =
      parse_six-Good f0 f1 f2 f3 f4 f5 (ground (arith, steps)) (ground (arith, steps))
  parse_fields-Good (f0 ∷ f1 ∷ f2 ∷ f3 ∷ f4 ∷ f5 ∷ f6 ∷ fields) steps = tt

  -- If no field of the expression has a step above 2^62, a schedule that `parse` returns for it is
  -- valid at every bit: its masks are within the ranges of their fields (seconds and minutes to 59,
  -- hours to 23, days of the month from 1 to 31, months from 1 to 12, days of the week to 6, with
  -- Sunday as 0 only), and the first five are not zero unless it has an interval.
  pub parse-IsValid :
      (text : String) (s : Schedule) (b : ℕ)
      → mild_expression order text ≡ true
      → parse parse_duration order location text ≡ parsed s
      → b < 64
      → IsValid s b
  unfolding parse Good Holds mild_expression
  parse-IsValid text s b steps eq lt =
      let expr = alias (trim_space (to_lower text)) in
      subst (Holds Good) eq
        (Holds-option Good (cut_prefix "@every " expr) _ _
          (λ _. parse_fields-Good (words expr) steps) (λ rest _. parse_every-Good rest))
        b lt
