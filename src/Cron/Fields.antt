-- ===== src/Cron/Fields.antt =====
-- parseField and parseRange of internal/cron/parser.go. A loop variable is an `int` of 64 bits, kept
-- as its two's complement.
use Prim.Native.Nat.{bit_or}
use n8n_turbo.Prelude.{
  ℕ, zero, suc, ◌+◌, ◌-◌, ◌^◌, ◌%◌, Bool, not, ◌&&◌, ◌||◌, String, Option, none, some, List, [],
  ◌∷◌, if◌then◌else◌, ltb, leb, nat_eqb, ℤ, pos, negsuc, ltb_ℤ, positive, ◌==◌, string_eq,
}
use n8n_turbo.Cron.Text.{split_at, cut, contains_char, trim_space, atoi}

-- The errors of parser.go, told apart by where they arise.
pub data ParseError : Type 0 where
  invalid_step : ParseError
  invalid_range_start : ParseError
  invalid_range_end : ParseError
  range_outside : ParseError
  invalid_value : ParseError
  value_outside : ParseError
  empty_field : ParseError
  invalid_expression : ParseError
  invalid_duration : ParseError
  duration_not_positive : ParseError

-- A value, an error, or a loop that has not ended on its fuel.
pub data Parsed {ℓ} (A : Type ℓ) : Type ℓ where
  parsed : A → Parsed A
  failed : ParseError → Parsed A
  endless : Parsed A

infixl 5 ◌>>=◌
abbrev pub ◌>>=◌ {ℓ κ} : {A : Type ℓ} {B : Type κ} → Parsed A → (A → Parsed B) → Parsed B
parsed a >>= f = f a
failed e >>= f = failed e
endless >>= f = endless

abbrev pub number_or : ParseError → Option ℤ → Parsed ℤ
number_or e none = failed e
number_or e (some n) = parsed n

unfoldable pub parse_range : String → ℕ → ℕ → Parsed (ℤ × ℤ)
parse_range part low high =
    if part == "*" || part == "" then parsed (pos low, pos high) else (elim (cut "-" part) [
      | some (start_text, end_text) ↦ do
        start ← number_or invalid_range_start (atoi start_text)
        end ← number_or invalid_range_end (atoi end_text)
        if ltb_ℤ start (pos low) || (ltb_ℤ (pos high) end || ltb_ℤ end start)
            then failed range_outside
            else parsed (start, end)
      | none ↦ do
        value ← number_or invalid_value (atoi part)
        if ltb_ℤ value (pos low) || ltb_ℤ (pos high) value
            then failed value_outside
            else parsed (value, value)
    ])

-- The two's complement of an `int`, and `<=` on it.
abbrev pub word : ℤ → ℕ
word (pos n) = n % 2 ^ 64
word (negsuc n) = 2 ^ 64 - 1 - n % 2 ^ 64

abbrev pub word_leb : ℕ → ℕ → Bool
word_leb a b = leb ((a + 2 ^ 63) % 2 ^ 64) ((b + 2 ^ 63) % 2 ^ 64)

-- `1 << uint(value)` in a `uint64`
unfoldable pub one_bit : ℕ → ℕ
one_bit value = if ltb value 64 then 2 ^ value else 0

-- `for value := start; value <= end; value += step`, on fuel.
unfoldable pub set_bits : ℕ → ℕ → ℕ → ℕ → ℕ → Parsed ℕ
unfolding one_bit
set_bits zero step end value mask = endless
set_bits (suc fuel) step end value mask =
    let rest = set_bits fuel step end ((value + step) % 2 ^ 64) (bit_or mask (one_bit value)) in
    if word_leb value end then rest else parsed mask

-- The rounds that are enough for every step, from a value below 64.
abbrev pub enough : ℕ
enough = 70

pub record Item : Type 0 where
  pub start : ℤ
  pub end : ℤ
  pub step : ℤ

-- N/step runs N..max, like */step.
unfoldable pub stepped : String → ℕ → ℤ → ℤ × ℤ → Item
stepped before high step (start, end) =
    if not (before == "*") && not (contains_char "-" before)
    then record { start = start; end = pos high; step = step }
    else record { start = start; end = end; step = step }

-- What a trimmed part lists.
unfoldable pub parse_item : String → ℕ → ℕ → Parsed Item
unfolding parse_range stepped
parse_item part low high = elim (cut "/" part) [
  | some (before, after) ↦ elim (atoi after) [
    | none ↦ failed invalid_step
    | some step ↦
        if positive step
        then parse_range before low high >>= (λ range. parsed (stepped before high step range))
        else failed invalid_step
  ]
  | none ↦ do
    (start, end) ← parse_range part low high
    parsed (record { start = start; end = end; step = pos 1 })
]

-- One round of the loop over the parts.
unfoldable pub add_part : String → ℕ → ℕ → ℕ → Parsed ℕ
unfolding parse_item set_bits
add_part text low high mask =
    let part = trim_space text in
    if part == "" then parsed mask else do
      item ← parse_item part low high
      set_bits enough (word item.step) (word item.end) (word item.start) mask

unfoldable pub add_parts : List String → ℕ → ℕ → ℕ → Parsed ℕ
unfolding add_part
add_parts [] low high mask = parsed mask
add_parts (part ∷ parts) low high mask = do
  mask' ← add_part part low high mask
  add_parts parts low high mask'

unfoldable pub parse_field : String → ℕ → ℕ → Parsed ℕ
unfolding add_parts split_at
parse_field field low high = do
  mask ← add_parts (split_at "," field) low high 0
  if nat_eqb mask 0 then failed empty_field else parsed mask
