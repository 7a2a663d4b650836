-- ===== src/Cron/Overflow.antt =====
-- What the loop of parseField, internal/cron/parser.go, sets with the largest `int` as the step.
use Prim.Native.Nat.{bit_or}
use n8n_turbo.Prelude.{ℕ, ◌+◌, ◌-◌, ◌^◌, ◌%◌, ◌≤◌, ◌<◌, ◌≡◌, refl, ◌∙◌, arith, true}
use n8n_turbo.Cron.Schedule.{bit_set}
use n8n_turbo.Cron.Bits.{bit_set-bit_or, bit_set-bit_or_zero}
use n8n_turbo.Cron.Fields.{parsed, set_bits, enough}
use n8n_turbo.Cron.Masks.{set_bits-within}
use n8n_turbo.Cron.Wrapping.{Ends, set_bits-negative, set_bits-Ends}

-- The step that wraps around: from `v` to `v` - 2.
set_bits-back :
    (end v mask : ℕ)
    → 2 ≤ v
    → v ≤ end
    → end < 64
    → set_bits enough (2 ^ 63 - 1) end v mask
      ≡ set_bits 68 (2 ^ 63 - 1) end (v - 2) (bit_or (bit_or mask (2 ^ v)) 0)
set_bits-back end v mask two le small =
    let back : (v + (2 ^ 63 - 1) + (2 ^ 63 - 1)) % 2 ^ 64 ≡ v - 2 = omega (arith, two, le, small) in
    rw
      (
        set_bits-within 69 (2 ^ 63 - 1) end v mask le small (omega (arith, le, small)),
        set_bits-negative 68 (2 ^ 63 - 1) end (v + (2 ^ 63 - 1)) (bit_or mask (2 ^ v))
            (omega (arith, two)) (omega (arith, le, small)) small,
        back,
      )
      refl

-- With the largest `int` as the step, from a value of 2 at least that is in the range, the loop also
-- sets the bit of the value less 2.
pub set_bits-wraps :
    (end v mask : ℕ)
    → 2 ≤ v
    → v ≤ end
    → end < 64
    → (mask' : ℕ) × (set_bits enough (2 ^ 63 - 1) end v mask ≡ parsed mask')
      × (bit_set mask' v ≡ true)
      × (bit_set mask' (v - 2) ≡ true)
unfolding Ends
set_bits-wraps end v mask two le small =
    let rest = bit_or (bit_or mask (2 ^ v)) 0 in
    let (mask', eq, bits, keeps, first) =
      set_bits-Ends 67 (2 ^ 63 - 1) end (v - 2) rest (omega arith) (omega arith) small
        (omega (arith, le, small)) (omega arith) in
    let lt : v < 64 = omega (arith, le, small) in
    (
      mask',
      set_bits-back end v mask two le small ∙ eq,
      keeps v lt (
          bit_set-bit_or_zero (bit_or mask (2 ^ v)) v lt
          ∙ ground (arith, bit_set-bit_or mask v v lt lt)),
      first (omega (arith, le)),
    )
