-- ===== src/Cron/Bits.antt =====
-- The `uint64` masks of internal/cron/parser.go: which bits `|`, `&` and a shift set.
use Prim.Native.Nat.{bit_and, bit_or, digits, bitwise, bit_and-bitwise, bit_or-bitwise}
use native.Mathlib.Nat.{pow-suc, mul_assoc, pow-le-pow_right, one-le-pow}
use n8n_turbo.Prelude.{
  ℕ, zero, suc, ◌+◌, ◌*◌, ◌/◌, ◌%◌, ◌^◌, ◌≤◌, ◌<◌, ◌≡◌, refl, ap, min, max, arith, false, not, ◌&&◌,
  nat_eqb, ◌||◌, if◌then◌else◌,
}
use n8n_turbo.Cron.Schedule.{bit_set}

-- An operation on digits: `past` is what it makes of the second number once the first has run out.
module _ (past : ℕ → ℕ) (op : ℕ → ℕ → ℕ)
    (runs_out : (y : ℕ) → past y ≡ past (y / 2) * 2 + op 0 (y % 2)) where
  -- More rounds than the first number has digits change nothing.
  rounds : (k l x y : ℕ) → x ≤ k → x ≤ l → digits past op k x y ≡ digits past op l x y
  rounds zero zero zero y _ _ = refl
  rounds zero (suc l) zero y _ _ = refl
  rounds (suc k) zero zero y _ _ = refl
  rounds (suc k) (suc l) zero y _ _ = refl
  rounds (suc k) (suc l) (suc x) y in_k in_l =
      let rest = rounds k l (suc x / 2) (y / 2) (omega (arith, in_k)) (omega (arith, in_l)) in
      ap (λ r. r * 2 + op (suc x % 2) (y % 2)) rest
  rounds zero l (suc x) y in_k _ = absurd (omega (arith, in_k))
  rounds k zero (suc x) y _ in_l = absurd (omega (arith, in_l))

  bitwise_lem :
      (x y : ℕ) → bitwise past op x y ≡ bitwise past op (x / 2) (y / 2) * 2 + op (x % 2) (y % 2)
  bitwise_lem zero y = runs_out y
  bitwise_lem (suc x) y =
      ap (λ r. r * 2 + op (suc x % 2) (y % 2))
        (rounds x (suc x / 2) (suc x / 2) (y / 2) (omega arith) (omega arith))

-- `&` and `|` go digit by digit.
halves-bit_and : (x y : ℕ) → bit_and x y ≡ bit_and (x / 2) (y / 2) * 2 + min (x % 2) (y % 2)
halves-bit_and x y =
    rw (bit_and-bitwise x y, bit_and-bitwise (x / 2) (y / 2))
      (bitwise_lem (λ _. 0) min (λ y. omega arith) x y)

halves-bit_or : (x y : ℕ) → bit_or x y ≡ bit_or (x / 2) (y / 2) * 2 + max (x % 2) (y % 2)
halves-bit_or x y =
    rw (bit_or-bitwise x y, bit_or-bitwise (x / 2) (y / 2))
      (bitwise_lem (λ y. y) max (λ y. omega arith) x y)

digit : ℕ → ℕ → ℕ
digit zero m = m % 2
digit (suc b) m = digit b (m / 2)

digit-bit_or : (b x y : ℕ) → digit b (bit_or x y) ≡ max (digit b x) (digit b y)
unfolding digit
digit-bit_or zero x y = omega (arith, halves-bit_or x y)
digit-bit_or (suc b) x y =
    let e : bit_or x y / 2 ≡ bit_or (x / 2) (y / 2) = omega (arith, halves-bit_or x y) in
    rw e (digit-bit_or b (x / 2) (y / 2))

-- By the bound on the first number.
nothing-bit_and : (k x : ℕ) → x < k → bit_and x 0 ≡ 0
nothing-bit_and (suc k) zero lt = bit_and-bitwise 0 0
nothing-bit_and (suc k) (suc x) lt =
    omega (arith, halves-bit_and (suc x) 0, nothing-bit_and k (suc x / 2) (omega (arith, lt)))
nothing-bit_and zero x lt = absurd (omega (arith, lt))

-- Half of a power of two, its last digit.
halve : (b : ℕ) → 2 ^ suc b / 2 ≡ 2 ^ b
halve b = omega (arith, pow-suc 2 b)

even : (b : ℕ) → 2 ^ suc b % 2 ≡ 0
even b = omega (arith, pow-suc 2 b)

bit_and-digit : (b m : ℕ) → bit_and m (2 ^ b) ≡ digit b m * 2 ^ b
unfolding digit
bit_and-digit zero m =
    omega (arith, halves-bit_and m 1, nothing-bit_and (suc (m / 2)) (m / 2) (omega arith))
bit_and-digit (suc b) m =
    let halved : bit_and (m / 2) (2 ^ suc b / 2) ≡ digit b (m / 2) * 2 ^ b =
      rw (halve b) (bit_and-digit b (m / 2)) in
    let shifted : digit b (m / 2) * 2 ^ suc b ≡ digit b (m / 2) * 2 ^ b * 2 =
      rw (pow-suc 2 b, mul_assoc (digit b (m / 2)) (2 ^ b) 2) refl in
    omega (arith, halved, shifted, halves-bit_and m (2 ^ suc b), even b)

digit-zero : (b : ℕ) → digit b 0 ≡ 0
unfolding digit
digit-zero zero = refl
digit-zero (suc b) = digit-zero b

digit-pow : (b v : ℕ) → digit b (2 ^ v) ≡ (if nat_eqb b v then 1 else 0)
unfolding digit
digit-pow zero zero = refl
digit-pow zero (suc v) = ground (arith, even v)
digit-pow (suc b) zero = ground (arith, digit-zero b)
digit-pow (suc b) (suc v) = rw (halve v, digit-pow b v) (ground arith)

digit-small : (b m : ℕ) → digit b m ≤ 1
unfolding digit
digit-small zero m = omega arith
digit-small (suc b) m = digit-small b (m / 2)

below_word : (b : ℕ) → b < 64 → 2 ^ b % 2 ^ 64 ≡ 2 ^ b
below_word b lt =
    omega (arith, pow-le-pow_right {n = 2} (omega arith) {i = b} {j = 63} (omega arith))

scaled : (d p : ℕ) → d ≤ 1 → 1 ≤ p → not (nat_eqb (d * p) 0) ≡ nat_eqb d 1
scaled zero p small least = ground arith
scaled (suc zero) p small least = ground (arith, least)
scaled (suc (suc d)) p small least = absurd (omega arith)

bit_set-digit : (m b : ℕ) → b < 64 → bit_set m b ≡ nat_eqb (digit b m) 1
unfolding bit_set
bit_set-digit m b lt =
    let least : 1 ≤ 2 ^ b = one-le-pow b 2 (omega arith) in
    rw (below_word b lt, bit_and-digit b m) (scaled (digit b m) (2 ^ b) (digit-small b m) least)

-- `mask | 1<<v` sets the bit `v` besides those of the mask.
pub bit_set-bit_or :
    (m v b : ℕ) → v < 64 → b < 64 → bit_set (bit_or m (2 ^ v)) b ≡ (bit_set m b || nat_eqb b v)
bit_set-bit_or m v b in_word lt =
    rw
      (
        bit_set-digit (bit_or m (2 ^ v)) b lt,
        bit_set-digit m b lt,
        digit-bit_or b m (2 ^ v),
        digit-pow b v,
      )
      (ground (arith, digit-small b m))

pub bit_set-zero : (b : ℕ) → b < 64 → bit_set 0 b ≡ false
bit_set-zero b lt = rw (bit_set-digit 0 b lt, digit-zero b) (ground arith)

pub bit_set-bit_or_zero : (m b : ℕ) → b < 64 → bit_set (bit_or m 0) b ≡ bit_set m b
bit_set-bit_or_zero m b lt =
    rw (bit_set-digit (bit_or m 0) b lt, bit_set-digit m b lt, digit-bit_or b m 0, digit-zero b)
      (ground arith)

digit-bit_and : (b x y : ℕ) → digit b (bit_and x y) ≡ min (digit b x) (digit b y)
unfolding digit
digit-bit_and zero x y = omega (arith, halves-bit_and x y)
digit-bit_and (suc b) x y =
    let halved : bit_and x y / 2 ≡ bit_and (x / 2) (y / 2) = omega (arith, halves-bit_and x y) in
    rw halved (digit-bit_and b (x / 2) (y / 2))

-- `mask & other` has the bits of both.
pub bit_set-bit_and : (m n b : ℕ) → b < 64 → bit_set (bit_and m n) b ≡ (bit_set m b && bit_set n b)
bit_set-bit_and m n b lt =
    rw
      (
        bit_set-digit (bit_and m n) b lt,
        bit_set-digit m b lt,
        bit_set-digit n b lt,
        digit-bit_and b m n,
      )
      (ground (arith, digit-small b m, digit-small b n))
