-- ===== src/Cron/Masks.antt =====
-- The loop of parseField, internal/cron/parser.go: it ends, and which bits it sets.
use Prim.Native.Nat.{bit_or}
use native.Mathlib.Nat.{zero-mod, mod-eq-sub-mod, mod-eq_of_lt}
use n8n_turbo.Prelude.{
  ℕ, zero, suc, ◌+◌, ◌-◌, ◌^◌, ◌%◌, ◌≤◌, ◌<◌, ◌≡◌, inl, inr, refl, ◌∙◌, arith, Bool, true, false,
  ◌&&◌, ◌||◌, ltb, leb, nat_eqb, Bool-cases,
}
use n8n_turbo.Cron.Schedule.{bit_set}
use n8n_turbo.Cron.Bits.{bit_set-bit_or}
use n8n_turbo.Cron.Fields.{Parsed, parsed, one_bit, set_bits, word_leb}

-- `value` is in the progression from `start` to `end`.
abbrev pub covers : ℕ → ℕ → ℕ → ℕ → Bool
covers start end step value =
    leb start value && (leb value end && nat_eqb ((value - start) % step) 0)

covers-step :
    (start end step value : ℕ)
    → 1 ≤ step
    → start ≤ end
    → covers start end step value ≡ (nat_eqb value start || covers (start + step) end step value)
covers-step start end step value some_step le = elim (Bool-cases (leb (start + step) value)) [
  | inl far ↦
      let again : (value - start) % step ≡ (value - (start + step)) % step =
        let less : value - start - step ≡ value - (start + step) = omega arith in
        rw (mod-eq-sub-mod {n = value - start} {m = step} (ground (arith, far)), less) refl in
      ground (arith, far, again, some_step)
  | inr near ↦ elim (Bool-cases (ltb start value)) [
    | inl after ↦
        let short = mod-eq_of_lt {n = value - start} {m = step} (ground (arith, near, after)) in
        ground (arith, near, after, short)
    | inr early ↦
        let from_start : 0 % step ≡ 0 = zero-mod step in
        ground (arith, near, early, some_step, from_start)
  ]
]

-- In a word, a small value is as the number.
pub word_leb-small : (v end : ℕ) → v < 2 ^ 63 → end < 64 → word_leb v end ≡ leb v end
word_leb-small v end low small = ground arith

unfoldable pub Sets : ℕ → ℕ → ℕ → ℕ → Parsed ℕ → Type 0
Sets v end step mask result =
    (mask' : ℕ) × (result ≡ parsed mask')
    × ((b : ℕ) → b < 64 → bit_set mask' b ≡ (bit_set mask b || covers v end step b))

pub set_bits-past :
    (fuel step end v mask : ℕ)
    → end < 64
    → v < 2 ^ 63
    → end < v
    → Sets v end step mask (set_bits (suc fuel) step end v mask)
unfolding set_bits Sets
set_bits-past fuel step end v mask small low past =
    let over : word_leb v end ≡ false =
      rw (word_leb-small v end low small) (ground (arith, past)) in
    (mask, ground (arith, over), λ b lt. ground (arith, past))

pub set_bits-round :
    (fuel step end v mask : ℕ)
    → word_leb v end ≡ true
    → set_bits (suc fuel) step end v mask
      ≡ set_bits fuel step end ((v + step) % 2 ^ 64) (bit_or mask (one_bit v))
unfolding set_bits
set_bits-round fuel step end v mask on = ground (arith, on)

pub set_bits-within :
    (fuel step end v mask : ℕ)
    → v ≤ end
    → end < 64
    → v + step < 2 ^ 64
    → set_bits (suc fuel) step end v mask ≡ set_bits fuel step end (v + step) (bit_or mask (2 ^ v))
unfolding one_bit
set_bits-within fuel step end v mask le small low =
    let on : word_leb v end ≡ true =
      rw (word_leb-small v end (omega (arith, le, small)) small) (ground (arith, le)) in
    let bit : one_bit v ≡ 2 ^ v = ground (arith, le, small) in
    rw (set_bits-round fuel step end v mask on, bit, mod-eq_of_lt {n = v + step} {m = 2 ^ 64} low)
      refl

-- With a step that does not wrap around, the bits set are those of the progression.
pub set_bits-Sets :
    (fuel step end v mask : ℕ)
    → 1 ≤ step
    → step ≤ 2 ^ 62
    → end < 64
    → v ≤ 2 ^ 62 + 63
    → end < fuel + v
    → Sets v end step mask (set_bits (suc fuel) step end v mask)
unfolding Sets
set_bits-Sets zero step end v mask some_step mild small low enough =
    set_bits-past zero step end v mask small (omega (arith, low)) (omega (arith, enough))
set_bits-Sets (suc fuel) step end v mask some_step mild small low enough =
    elim (Bool-cases (leb v end)) [
      | inr past ↦
          set_bits-past (suc fuel) step end v mask small (omega (arith, low)) (ground (arith, past))
      | inl within ↦
          let le : v ≤ end = ground (arith, within) in
          let (mask', eq, bits) =
            set_bits-Sets fuel step end (v + step) (bit_or mask (2 ^ v)) some_step mild small
              (omega (arith, le, small, mild)) (omega (arith, enough, some_step)) in
          (
            mask',
            set_bits-within (suc fuel) step end v mask le small (omega (arith, le, small, mild))
                ∙ eq,
            λ b lt.
                rw
                  (
                    bits b lt,
                    bit_set-bit_or mask v b (omega (arith, le, small)) lt,
                    covers-step v end step b some_step le,
                  )
                  (ground arith),
          )
    ]
