-- ===== src/Cron/Parts.antt =====
-- What parseRange and the parts of a field give, internal/cron/parser.go.
use Prim.Native.String.{[], ◌∷◌}
use n8n_turbo.Prelude.{
  ℕ, zero, suc, ◌^◌, ◌≤◌, ◌<◌, ◌≡◌, inl, inr, refl, arith, Bool, true, false, not, ◌&&◌, ◌||◌,
  String, Option, none, some, if◌then◌else◌, Bool-cases, Option-cases, ℤ, pos, negsuc, ltb_ℤ,
  positive, ◌==◌, string_eq,
}
use n8n_turbo.Cron.Text.{cut, contains_char, atoi, unsigned, as_positive, as_negative, same_char}
use n8n_turbo.Cron.Fields.{
  ParseError, Parsed, parsed, failed, endless, ◌>>=◌, number_or, parse_range, word, Item, stepped,
  parse_item, invalid_range_start, invalid_range_end, invalid_value,
}

-- In the field's range.
abbrev pub Within : ℕ → ℕ → ℤ × ℤ → Type 0
Within low high (start, end) = (low ≤ word start) × (word start ≤ word end) × (word end ≤ high)

Within-of :
    (low high : ℕ) (start end : ℤ)
    → high < 64
    → (ltb_ℤ start (pos low) || (ltb_ℤ (pos high) end || ltb_ℤ end start)) ≡ false
    → Within low high (start, end)
Within-of low high (pos s) (pos e) small tests =
    (ground (arith, small, tests), ground (arith, small, tests), ground (arith, small, tests))
Within-of low high (pos s) (negsuc e) small tests = ground (arith, tests)
Within-of low high (negsuc s) (pos e) small tests = ground (arith, tests)
Within-of low high (negsuc s) (negsuc e) small tests = ground (arith, tests)

Within-single :
    (low high : ℕ) (value : ℤ)
    → high < 64
    → (ltb_ℤ value (pos low) || ltb_ℤ (pos high) value) ≡ false
    → Within low high (value, value)
Within-single low high (pos n) small tests =
    (ground (arith, small, tests), ground (arith, small, tests), ground (arith, small, tests))
Within-single low high (negsuc n) small tests = ground (arith, tests)

-- What a parsed value is like; nothing of an error.
unfoldable pub Holds {ℓ} : {A : Type ℓ} → (A → Type 0) → Parsed A → Type 0
Holds P (parsed a) = P a
Holds P (failed e) = Unit
Holds P endless = ⊥

pub Holds-bind {ℓ κ} :
    {A : Type ℓ} {B : Type κ} (P : A → Type 0) (Q : B → Type 0) (x : Parsed A) (f : A → Parsed B)
    → Holds P x
    → ((a : A) → P a → Holds Q (f a))
    → Holds Q (x >>= f)
unfolding Holds
Holds-bind P Q (parsed a) f h next = next a h
Holds-bind P Q (failed e) f h next = tt
Holds-bind P Q endless f h next = h

pub Holds-map {ℓ} :
    {A : Type ℓ} (P Q : A → Type 0) (x : Parsed A) → Holds P x → ((a : A) → P a → Q a) → Holds Q x
unfolding Holds
Holds-map P Q (parsed a) h weaken = weaken a h
Holds-map P Q (failed e) h weaken = tt
Holds-map P Q endless h weaken = h

number_or-Holds : (e : ParseError) (n : Option ℤ) → Holds (λ _. Unit) (number_or e n)
unfolding Holds
number_or-Holds e none = tt
number_or-Holds e (some n) = tt

pub Holds-if {ℓ} :
    {A : Type ℓ} (P : A → Type 0) (b : Bool) (x y : Parsed A)
    → (b ≡ true → Holds P x)
    → (b ≡ false → Holds P y)
    → Holds P (if b then x else y)
Holds-if P true x y then_ else_ = then_ refl
Holds-if P false x y then_ else_ = else_ refl

pub Holds-option {ℓ κ} :
    {A : Type ℓ} {B : Type κ} (P : A → Type 0) (o : Option B) (x : Parsed A) (f : B → Parsed A)
    → (o ≡ none → Holds P x)
    → ((b : B) → o ≡ some b → Holds P (f b))
    → Holds P (elim o [ none ↦ x | some b ↦ f b ])
Holds-option P none x f without with_ = without refl
Holds-option P (some b) x f without with_ = with_ b refl

parse_range-Within :
    (part : String) (low high : ℕ)
    → low ≤ high
    → high < 64
    → Holds (Within low high) (parse_range part low high)
unfolding parse_range Holds
parse_range-Within part low high le small =
    let P : ℤ × ℤ → Type 0 = Within low high in
    Holds-if P (part == "*" || part == "") _ _
      (λ _. (ground (arith, small), ground (arith, le, small), ground (arith, small)))
      (λ _.
        Holds-option P (cut "-" part) _ _
          (λ _.
            Holds-bind (λ _. Unit) P (number_or invalid_value (atoi part)) _
              (number_or-Holds invalid_value (atoi part))
              (λ value _.
                Holds-if P _ _ _ (λ _. tt) (λ tests. Within-single low high value small tests)))
          (λ texts _.
            Holds-bind (λ _. Unit) P (number_or invalid_range_start (atoi texts.0)) _
              (number_or-Holds invalid_range_start (atoi texts.0))
              (λ start _.
                Holds-bind (λ _. Unit) P (number_or invalid_range_end (atoi texts.1)) _
                  (number_or-Holds invalid_range_end (atoi texts.1))
                  (λ end _.
                    Holds-if P _ _ _ (λ _. tt)
                      (λ tests. Within-of low high start end small tests)))))

abbrev FittingStep : ℤ → Type 0
FittingStep n = (1 ≤ word n) × (word n < 2 ^ 63)

as_positive-FittingStep :
    (m : ℕ) (n : ℤ) → as_positive m ≡ some n → positive n ≡ true → FittingStep n
as_positive-FittingStep m (pos n) eq up = (ground (arith, eq, up), ground (arith, eq, up))
as_positive-FittingStep m (negsuc n) eq up = ground (arith, up)

as_negative-FittingStep :
    (m : ℕ) (n : ℤ) → as_negative m ≡ some n → positive n ≡ true → FittingStep n
as_negative-FittingStep zero n eq up = ground (arith, eq, up)
as_negative-FittingStep (suc m) n eq up = ground (arith, eq, up)

read_sign-of :
    (P : ℤ → Type 0) (s : String) (make : ℕ → Option ℤ) (n : ℤ)
    → ((m : ℕ) → make m ≡ some n → P n)
    → (elim (unsigned s) [ none ↦ none | some m ↦ make m ]) ≡ some n
    → P n
read_sign-of P s make n each eq = elim (Option-cases (unsigned s)) [
  | inl bad ↦ absurd (ground (arith, bad, eq))
  | inr (m, good) ↦ each m (ground (arith, good, eq))
]

-- What holds of the numbers that the digits give holds of what `atoi` reads.
pub atoi-of :
    (P : ℤ → Type 0) (s : String) (n : ℤ)
    → ((m : ℕ) → as_positive m ≡ some n → P n)
    → ((m : ℕ) → as_negative m ≡ some n → P n)
    → atoi s ≡ some n
    → P n
unfolding atoi
atoi-of P [] n plus minus eq = absurd (ground (arith, eq))
atoi-of P (c ∷ s) n plus minus eq = elim (Bool-cases (same_char c "-")) [
  | inl negative ↦ read_sign-of P s as_negative n minus (ground (arith, negative, eq))
  | inr no_minus ↦ elim (Bool-cases (same_char c "+")) [
    | inl signed ↦ read_sign-of P s as_positive n plus (ground (arith, no_minus, signed, eq))
    | inr no_plus ↦
        read_sign-of P (c ∷ s) as_positive n plus (ground (arith, no_minus, no_plus, eq))
  ]
]

atoi-FittingStep : (s : String) (n : ℤ) → atoi s ≡ some n → positive n ≡ true → FittingStep n
atoi-FittingStep s n eq up =
    atoi-of FittingStep s n (λ m made. as_positive-FittingStep m n made up)
      (λ m made. as_negative-FittingStep m n made up) eq

-- A part lists values of the field's range, and its step is an `int`.
abbrev pub Listing : ℕ → ℕ → Item → Type 0
Listing low high item = Within low high (item.start, item.end) × FittingStep item.step

to_end-Listing :
    (b : Bool) (low high : ℕ) (start end step : ℤ)
    → high < 64
    → Within low high (start, end)
    → FittingStep step
    → Listing low high (
        if b
        then record { start = start; end = pos high; step = step }
        else record { start = start; end = end; step = step })
to_end-Listing true low high start end step small within steps =
    ((within.0, omega (arith, within.1, within.2, small), omega (arith, small)), steps)
to_end-Listing false low high start end step small within steps = (within, steps)

stepped-Listing :
    (before : String) (low high : ℕ) (step : ℤ) (range : ℤ × ℤ)
    → high < 64
    → Within low high range
    → FittingStep step
    → Listing low high (stepped before high step range)
unfolding stepped
stepped-Listing before low high step (start, end) =
    to_end-Listing (not (before == "*") && not (contains_char "-" before)) low high start end step

pub parse_item-Listing :
    (part : String) (low high : ℕ)
    → low ≤ high
    → high < 64
    → Holds (Listing low high) (parse_item part low high)
unfolding parse_item Holds
parse_item-Listing part low high le small =
    let P : Item → Type 0 = Listing low high in
    Holds-option P (cut "/" part) _ _
      (λ _.
        Holds-bind (Within low high) P (parse_range part low high) _
          (parse_range-Within part low high le small)
          (λ range within. (within, (omega arith, omega arith))))
      (λ texts _.
        Holds-option P (atoi texts.1) _ _ (λ _. tt)
          (λ step read.
            Holds-if P (positive step) _ _
              (λ up.
                Holds-bind (Within low high) P (parse_range texts.0 low high) _
                  (parse_range-Within texts.0 low high le small)
                  (λ range within.
                    stepped-Listing texts.0 low high step range small within
                      (atoi-FittingStep texts.1 step read up)))
              (λ _. tt)))
