-- ===== src/Cron/Wrapping.antt =====
-- The loop of parseField, internal/cron/parser.go, with a step so large that the `int` wraps around.
use Prim.Native.Nat.{bit_or}
use native.Mathlib.Nat.{zero-mod}
use n8n_turbo.Prelude.{
  ℕ, zero, suc, ◌+◌, ◌-◌, ◌^◌, ◌%◌, ◌≤◌, ◌<◌, ◌≡◌, ◌⊎◌, inl, inr, refl, sym, ◌∙◌, arith, true, ltb,
  leb, Bool-cases,
}
use n8n_turbo.Cron.Schedule.{bit_set}
use n8n_turbo.Cron.Bits.{bit_set-bit_or, bit_set-bit_or_zero}
use n8n_turbo.Cron.Fields.{Parsed, parsed, one_bit, set_bits, word_leb, enough}
use n8n_turbo.Cron.Masks.{Sets, set_bits-past, set_bits-within, set_bits-round, set_bits-Sets}

at_start : (v step : ℕ) → (v - v) % step ≡ 0
at_start v step = let none_left : v - v ≡ 0 = omega arith in rw none_left (zero-mod step)

-- The loop ends, keeps the bits of the mask, sets that of its first value, and no bit above `end`.
unfoldable pub Ends : ℕ → ℕ → ℕ → Parsed ℕ → Type 0
Ends v end mask result =
    (mask' : ℕ) × (result ≡ parsed mask')
    × ((b : ℕ) → b < 64 → bit_set mask' b ≡ true → (bit_set mask b ≡ true) ⊎ (b ≤ end))
    × ((b : ℕ) → b < 64 → bit_set mask b ≡ true → bit_set mask' b ≡ true)
    × (v ≤ end → bit_set mask' v ≡ true)

Sets-Ends :
    (v end step mask : ℕ) (result : Parsed ℕ)
    → end < 64
    → Sets v end step mask result
    → Ends v end mask result
unfolding Sets Ends
Sets-Ends v end step mask result small (mask', eq, bits) = (
  mask',
  eq,
  λ b lt on. elim (Bool-cases (leb b end)) [
    | inl le ↦ inr (ground (arith, le))
    | inr gt ↦ inl (ground (arith, bits b lt, on, gt))
  ],
  λ b lt on. ground (arith, bits b lt, on),
  λ le. ground (arith, bits v (omega (arith, le, small)), le, at_start v step),
)

-- A round that sets a bit that is not above `end`.
Ends-bit :
    (v next end mask : ℕ) (result : Parsed ℕ)
    → v ≤ end
    → end < 64
    → Ends next end (bit_or mask (2 ^ v)) result
    → Ends v end mask result
unfolding Ends
Ends-bit v next end mask result le small (mask', eq, bits, keeps, first) = (
  mask',
  eq,
  λ b lt on. elim (bits b lt on) [
    | inl before ↦ elim (Bool-cases (bit_set mask b)) [
      | inl old ↦ inl old
      | inr new ↦
          let at_v : b ≡ v =
            ground (arith, before, new, bit_set-bit_or mask v b (omega (arith, le, small)) lt) in
          inr (omega (arith, at_v, le))
    ]
    | inr below ↦ inr below
  ],
  λ b lt on. keeps b lt (ground (arith, on, bit_set-bit_or mask v b (omega (arith, le, small)) lt)),
  λ _. keeps v (omega (arith, le, small)) (
      ground
        (arith, bit_set-bit_or mask v v (omega (arith, le, small)) (omega (arith, le, small)))),
)

-- A round outside the mask.
Ends-none :
    (v next end mask : ℕ) (result : Parsed ℕ)
    → end < v
    → Ends next end (bit_or mask 0) result
    → Ends v end mask result
unfolding Ends
Ends-none v next end mask result past (mask', eq, bits, keeps, first) = (
  mask',
  eq,
  λ b lt on. elim (bits b lt on) [
    | inl before ↦ inl (sym (bit_set-bit_or_zero mask b lt) ∙ before)
    | inr below ↦ inr below
  ],
  λ b lt on. keeps b lt (bit_set-bit_or_zero mask b lt ∙ on),
  λ le. absurd (omega (arith, le, past)),
)

-- A negative value.
pub set_bits-negative :
    (fuel step end v mask : ℕ)
    → 2 ^ 63 ≤ v
    → v < 2 ^ 64
    → end < 64
    → set_bits (suc fuel) step end v mask
      ≡ set_bits fuel step end ((v + step) % 2 ^ 64) (bit_or mask 0)
unfolding one_bit
set_bits-negative fuel step end v mask high word_ small =
    let on : word_leb v end ≡ true = ground (arith, high, word_, small) in
    let bit : one_bit v ≡ 0 = ground (arith, high) in
    rw (set_bits-round fuel step end v mask on, bit) refl

set_bits-past_Ends :
    (fuel step end v mask : ℕ)
    → end < 64
    → v < 2 ^ 63
    → end < v
    → Ends v end mask (set_bits (suc fuel) step end v mask)
set_bits-past_Ends fuel step end v mask small low past =
    Sets-Ends v end step mask (set_bits (suc fuel) step end v mask) small
      (set_bits-past fuel step end v mask small low past)

set_bits-Ends_large :
    (fuel step end v mask : ℕ)
    → 2 ^ 62 < step
    → step < 2 ^ 63
    → end < 64
    → v < 64
    → v + 3 ≤ fuel
    → Ends v end mask (set_bits (suc fuel) step end v mask)
set_bits-Ends_large zero step end v mask large signed small low enough =
    absurd (omega (arith, enough))
set_bits-Ends_large (suc zero) step end v mask large signed small low enough =
    absurd (omega (arith, enough))
set_bits-Ends_large (suc (suc zero)) step end v mask large signed small low enough =
    absurd (omega (arith, enough))
set_bits-Ends_large (suc (suc (suc fuel))) step end v mask large signed small low enough =
    elim (Bool-cases (leb v end)) [
      | inr past ↦
          set_bits-past_Ends (suc (suc (suc fuel))) step end v mask small (omega (arith, low))
            (ground (arith, past))
      | inl within ↦
          let le : v ≤ end = ground (arith, within) in
          let mask' = bit_or mask (2 ^ v) in
          rw
            (set_bits-within (suc (suc (suc fuel))) step end v mask le small
              (omega (arith, le, small, signed)))
            (Ends-bit v (v + step) end mask
              (set_bits (suc (suc (suc fuel))) step end (v + step) mask') le small
              (elim (Bool-cases (ltb (v + step) (2 ^ 63))) [
                | inl positive ↦
                    set_bits-past_Ends (suc (suc fuel)) step end (v + step) mask' small
                      (ground (arith, positive)) (omega (arith, large, small))
                | inr negative ↦
                    let w = v + step in
                    let m2 = bit_or mask' 0 in
                    let high : 2 ^ 63 ≤ v + step = ground (arith, negative) in
                    rw
                      (set_bits-negative (suc (suc fuel)) step end w mask' high
                        (omega (arith, low, signed)) small)
                      (Ends-none w ((w + step) % 2 ^ 64) end mask'
                        (set_bits (suc (suc fuel)) step end ((w + step) % 2 ^ 64) m2)
                        (omega (arith, high, small))
                        (elim (Bool-cases (ltb (v + step + step) (2 ^ 64))) [
                          | inr around ↦
                              let back : (v + step + step) % 2 ^ 64 + 2 ≤ v =
                                ground (arith, around, signed, low) in
                              set_bits-Ends_large (suc fuel) step end ((w + step) % 2 ^ 64) m2 large
                                signed small (omega (arith, back, low))
                                (omega (arith, back, enough))
                          | inl still ↦
                              let same : (v + step + step) % 2 ^ 64 ≡ v + step + step =
                                ground (arith, still) in
                              let last : (v + step + step + step) % 2 ^ 64
                                  ≡ v + step + step + step - 2 ^ 64 =
                                ground (arith, still, signed, low, high) in
                              rw
                                (
                                  same,
                                  set_bits-negative (suc fuel) step end (w + step) m2
                                      (omega (arith, high)) (ground (arith, still)) small,
                                )
                                (Ends-none (w + step) ((w + step + step) % 2 ^ 64) end m2
                                  (set_bits (suc fuel) step end ((w + step + step) % 2 ^ 64)
                                    (bit_or m2 0))
                                  (omega (arith, high, small))
                                  (set_bits-past_Ends fuel step end ((w + step + step) % 2 ^ 64)
                                    (bit_or m2 0) small (omega (arith, last, high, signed))
                                    (omega (arith, last, high, signed, small))))
                        ]))
              ]))
    ]

-- Whatever the step.
pub set_bits-Ends :
    (fuel step end v mask : ℕ)
    → 1 ≤ step
    → step < 2 ^ 63
    → end < 64
    → v < 64
    → 66 ≤ fuel
    → Ends v end mask (set_bits (suc fuel) step end v mask)
set_bits-Ends fuel step end v mask some_step signed small low enough =
    elim (Bool-cases (leb step (2 ^ 62))) [
      | inl mild ↦ Sets-Ends v end step mask (set_bits (suc fuel) step end v mask) small (
          set_bits-Sets fuel step end v mask some_step (ground (arith, mild)) small
            (omega (arith, low)) (omega (arith, small, enough)))
      | inr large ↦
          set_bits-Ends_large fuel step end v mask (ground (arith, large)) signed small low
            (omega (arith, low, enough))
    ]
