-- ===== src/Flatted/Decimal.antt =====
-- `strconv.Itoa`, which internal/flatted/flatted.go calls for the references, and its way back through
-- `strconv.Atoi`, which is Cron/Text.antt's.
use Prim.Native.Char.{Char, code}
use Prim.Native.String.{◌∷◌}
use n8n_turbo.Prelude.{
  ℕ, zero, suc, ◌+◌, ◌*◌, ◌/◌, ◌%◌, ◌^◌, ◌≤◌, ◌<◌, String, some, ◌≡◌, refl, ◌∙◌, sym, ap, arith,
  if◌then◌else◌, ltb, pos, Bool-cases, inl, inr,
}
use n8n_turbo.Cron.Text.{read_digits, unsigned, atoi}

unfoldable pub digit : ℕ → Char
digit zero = "0"
digit (suc zero) = "1"
digit (suc (suc zero)) = "2"
digit (suc (suc (suc zero))) = "3"
digit (suc (suc (suc (suc zero)))) = "4"
digit (suc (suc (suc (suc (suc zero))))) = "5"
digit (suc (suc (suc (suc (suc (suc zero)))))) = "6"
digit (suc (suc (suc (suc (suc (suc (suc zero))))))) = "7"
digit (suc (suc (suc (suc (suc (suc (suc (suc zero)))))))) = "8"
digit _ = "9"

-- The digits of a number ahead of those that are there; the fuel is the number.
unfoldable pub digits : ℕ → ℕ → String → String
unfolding digit
digits zero n out = digit n ∷ out
digits (suc fuel) n out =
    let more = digits fuel (n / 10) (digit (n % 10) ∷ out) in
    if ltb n 10 then digit n ∷ out else more

unfoldable pub itoa : ℕ → String
unfolding digits
itoa n = digits n n ""

code-digit : (n : ℕ) → n < 10 → code (digit n) ≡ 48 + n
unfolding digit
code-digit zero h = refl
code-digit (suc zero) h = refl
code-digit (suc (suc zero)) h = refl
code-digit (suc (suc (suc zero))) h = refl
code-digit (suc (suc (suc (suc zero)))) h = refl
code-digit (suc (suc (suc (suc (suc zero))))) h = refl
code-digit (suc (suc (suc (suc (suc (suc zero)))))) h = refl
code-digit (suc (suc (suc (suc (suc (suc (suc zero))))))) h = refl
code-digit (suc (suc (suc (suc (suc (suc (suc (suc zero)))))))) h = refl
code-digit (suc (suc (suc (suc (suc (suc (suc (suc (suc zero))))))))) h = refl
code-digit (suc (suc (suc (suc (suc (suc (suc (suc (suc (suc n)))))))))) h =
    absurd (omega (arith, h))

read-digit :
    (m n : ℕ) (s : String) → n < 10 → read_digits m (digit n ∷ s) ≡ read_digits (m * 10 + n) s
unfolding read_digits
read-digit m n s h = ground (arith, code-digit n h)

digits-read :
    (fuel n : ℕ) (out : String) → n ≤ fuel → read_digits 0 (digits fuel n out) ≡ read_digits n out
unfolding digits
digits-read zero n out h =
    read-digit 0 n out (omega (arith, h)) ∙ ap (λ k. read_digits k out) (omega (arith, h))
digits-read (suc fuel) n out h =
    let enough : n / 10 ≤ fuel = omega (arith, h) in
    let one : n < 10 → read_digits 0 (digit n ∷ out) ≡ read_digits n out =
      λ small. read-digit 0 n out small ∙ ap (λ k. read_digits k out) (omega arith) in
    let ih : read_digits 0 (digits fuel (n / 10) (digit (n % 10) ∷ out))
        ≡ read_digits (n / 10 * 10 + n % 10) out =
      digits-read fuel (n / 10) (digit (n % 10) ∷ out) enough
      ∙ read-digit (n / 10) (n % 10) out (omega arith) in
    let whole : n / 10 * 10 + n % 10 ≡ n = omega arith in ground (arith, one, ih, whole)

digits-head :
    (fuel n : ℕ) (out : String)
    → n ≤ fuel
    → (c : Char) × (s : String) × (digits fuel n out ≡ c ∷ s) × (48 ≤ code c)
unfolding digits
digits-head zero n out h = (digit n, out, refl, omega (arith, h, code-digit n (omega (arith, h))))
digits-head (suc fuel) n out h =
    let (c, s, eq, le) = digits-head fuel (n / 10) (digit (n % 10) ∷ out) (omega (arith, h)) in
    elim (Bool-cases (ltb n 10)) [
      | inl small ↦ (digit n, out, ground (arith, small), ground (arith, small, code-digit n))
      | inr big ↦ (c, s, ground (arith, big, eq), le)
    ]

atoi-read :
    (c : Char) (s : String) (n : ℕ)
    → 48 ≤ code c
    → n < 2 ^ 63
    → read_digits 0 (c ∷ s) ≡ some n
    → atoi (c ∷ s) ≡ some (pos n)
unfolding atoi unsigned
atoi-read c s n le small read = ground (arith, le, small, read)

-- A number that an `int` has is read back from its print.
pub atoi-itoa : (n : ℕ) → n < 2 ^ 63 → atoi (itoa n) ≡ some (pos n)
unfolding itoa read_digits
atoi-itoa n small =
    let (c, s, eq, le) = digits-head n n "" (omega arith) in
    ap atoi eq
    ∙ atoi-read c s n le small (ap (read_digits 0) (sym eq) ∙ digits-read n n "" (omega arith))
