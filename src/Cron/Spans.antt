-- ===== src/Cron/Spans.antt =====
-- parseRange and the step of parseField, internal/cron/parser.go, against what the text of a part lists.
use Prim.Native.Char.{Char}
use Prim.Native.String.{[], ◌∷◌}
use n8n_turbo.Prelude.{
  ℕ, zero, suc, ◌^◌, ◌≤◌, ◌<◌, ◌≡◌, ◌⊎◌, inl, inr, refl, arith, true, false, ◌||◌, String, Option,
  none, some, Bool-cases, ℤ, pos, negsuc, ltb_ℤ, positive, ◌==◌, string_eq, str_iff,
}
use n8n_turbo.Cron.Text.{same_char, cut, contains_char, atoi, as_positive, as_negative}
use n8n_turbo.Cron.Fields.{
  ParseError, number_or, parse_range, word, Item, stepped, parse_item, invalid_range_start,
  invalid_range_end, invalid_value,
}
use n8n_turbo.Cron.Listed.{natural, first_of, last_of, last_stepped, runs, in_part, mild_part}
use n8n_turbo.Cron.Masks.{covers}
use n8n_turbo.Cron.Parts.{Holds, Holds-bind, Holds-if, Holds-option, atoi-of}

number_or_read : (e : ParseError) (o : Option ℤ) → Holds (λ n. o ≡ some n) (number_or e o)
unfolding Holds
number_or_read e none = tt
number_or_read e (some n) = refl

-- What `parse_range` gives is what the text says.
abbrev Spans : ℕ → ℕ → String → ℤ × ℤ → Type 0
Spans low high text (start, end) =
    (first_of low text ≡ some (word start)) × (last_of high text ≡ some (word end))

range-natural :
    (low high : ℕ) (start end : ℤ)
    → high < 64
    → (ltb_ℤ start (pos low) || (ltb_ℤ (pos high) end || ltb_ℤ end start)) ≡ false
    → (natural (some start) ≡ some (word start)) × (natural (some end) ≡ some (word end))
range-natural low high (pos s) (pos e) small tests =
    (ground (arith, small, tests), ground (arith, small, tests))
range-natural low high (pos s) (negsuc e) small tests = absurd (ground (arith, tests))
range-natural low high (negsuc s) (pos e) small tests = absurd (ground (arith, tests))
range-natural low high (negsuc s) (negsuc e) small tests = absurd (ground (arith, tests))

single-natural :
    (low high : ℕ) (value : ℤ)
    → high < 64
    → (ltb_ℤ value (pos low) || ltb_ℤ (pos high) value) ≡ false
    → natural (some value) ≡ some (word value)
single-natural low high (pos n) small tests = ground (arith, small, tests)
single-natural low high (negsuc n) small tests = absurd (ground (arith, tests))

parse_range-Spans :
    (text : String) (low high : ℕ)
    → low ≤ high
    → high < 64
    → Holds (Spans low high text) (parse_range text low high)
unfolding parse_range Holds first_of last_of
parse_range-Spans text low high le small =
    let P : ℤ × ℤ → Type 0 = Spans low high text in
    Holds-if P (text == "*" || text == "") _ _
      (λ all. (ground (arith, all, le, small), ground (arith, all, small)))
      (λ some_of.
        Holds-option P (cut "-" text) _ _
          (λ single.
            Holds-bind (λ n. atoi text ≡ some n) P (number_or invalid_value (atoi text)) _
              (number_or_read invalid_value (atoi text))
              (λ value read.
                Holds-if P _ _ _ (λ _. tt)
                  (λ tests.
                    let e = single-natural low high value small tests in
                    (
                      ground (arith, some_of, single, read, e),
                      ground (arith, some_of, single, read, e),
                    ))))
          (λ texts range.
            Holds-bind (λ n. atoi texts.0 ≡ some n) P (number_or invalid_range_start (atoi texts.0))
              _ (number_or_read invalid_range_start (atoi texts.0))
              (λ start read0.
                Holds-bind (λ n. atoi texts.1 ≡ some n) P
                  (number_or invalid_range_end (atoi texts.1)) _
                  (number_or_read invalid_range_end (atoi texts.1))
                  (λ end read1.
                    Holds-if P _ _ _ (λ _. tt)
                      (λ tests.
                        let (e0, e1) = range-natural low high start end small tests in
                        (
                          ground (arith, some_of, range, read0, e0),
                          ground (arith, some_of, range, read1, e1),
                        ))))))

-- A text has a character just when it can be cut there.
contains_char-cut :
    (sep : Char) (s : String)
    → ((cut sep s ≡ none) × (contains_char sep s ≡ false))
      ⊎ ((p : String × String) × (cut sep s ≡ some p) × (contains_char sep s ≡ true))
unfolding cut contains_char
contains_char-cut sep [] = inl (refl, refl)
contains_char-cut sep (c ∷ s) = elim (Bool-cases (same_char c sep)) [
  | inl here ↦ inr (([], s), ground (arith, here), ground (arith, here))
  | inr other ↦ elim (contains_char-cut sep s) [
    | inl (a, b) ↦ inl (ground (arith, other, a), ground (arith, other, b))
    | inr ((before, after), a, b) ↦
        inr ((c ∷ before, after), ground (arith, other, a), ground (arith, other, b))
  ]
]

no_dash : (text : String) → (text == "*" || text == "") ≡ true → cut "-" text ≡ none
unfolding cut
no_dash text all = elim (Bool-cases (text == "*")) [
  | inl star ↦ rw ((str_iff text "*").0 star) refl
  | inr other ↦ rw ((str_iff text "").0 (ground (arith, all, other))) refl
]

stepped-last_stepped :
    (text : String) (low high : ℕ) (start end step : ℤ)
    → high < 64
    → last_of high text ≡ some (word end)
    → last_stepped high text ≡ some (word (stepped text high step (start, end)).end)
unfolding last_of last_stepped stepped
stepped-last_stepped text low high start end step small last =
    elim (Bool-cases (text == "*" || text == "")) [
      | inl all ↦ ground (arith, all, last, no_dash text all, small)
      | inr some_of ↦ elim (contains_char-cut "-" text) [
        | inl (single, no_range) ↦ ground (arith, some_of, single, no_range, small)
        | inr ((a, b), range, has) ↦ ground (arith, some_of, range, has, last)
      ]
    ]

-- The step that `atoi` reads is not wrapped around as a word.
atoi-natural :
    (s : String) (n : ℤ) → atoi s ≡ some n → positive n ≡ true → natural (some n) ≡ some (word n)
atoi-natural s n eq up =
    atoi-of (λ n. positive n ≡ true → natural (some n) ≡ some (word n)) s n (plus n) (minus n) eq up
  where
    plus :
        (n : ℤ) (m : ℕ)
        → as_positive m ≡ some n
        → positive n ≡ true
        → natural (some n) ≡ some (word n)
    plus (pos k) m made up = ground (arith, made)
    plus (negsuc k) m made up = absurd (ground (arith, made))

    minus :
        (n : ℤ) (m : ℕ)
        → as_negative m ≡ some n
        → positive n ≡ true
        → natural (some n) ≡ some (word n)
    minus n zero made up = absurd (ground (arith, made, up))
    minus n (suc m) made up = absurd (ground (arith, made, up))

-- The loop over an item sets the bits that its text lists.
abbrev pub Reads : ℕ → ℕ → String → Item → Type 0
Reads low high text item =
    (b : ℕ) → covers (word item.start) (word item.end) (word item.step) b ≡ in_part low high text b

pub parse_item-Reads :
    (text : String) (low high : ℕ)
    → low ≤ high
    → high < 64
    → Holds (Reads low high text) (parse_item text low high)
unfolding parse_item Holds in_part runs stepped
parse_item-Reads text low high le small =
    let P : Item → Type 0 = Reads low high text in
    Holds-option P (cut "/" text) _ _
      (λ whole.
        Holds-bind (Spans low high text) P (parse_range text low high) _
          (parse_range-Spans text low high le small)
          (λ range (first, last) b. rw (in_part, whole, first, last) (ground arith)))
      (λ texts slashed.
        Holds-option P (atoi texts.1) _ _ (λ _. tt)
          (λ step read.
            Holds-if P (positive step) _ _
              (λ up.
                Holds-bind (Spans low high texts.0) P (parse_range texts.0 low high) _
                  (parse_range-Spans texts.0 low high le small)
                  (λ range (first, last) b.
                    let end =
                      stepped-last_stepped texts.0 low high range.0 range.1 step small last in
                    let steps = atoi-natural texts.1 step read up in
                    rw (in_part, slashed, first, end, read, steps) (ground arith)))
              (λ _. tt)))

pub parse_item-mild :
    (text : String) (low high : ℕ)
    → low ≤ high
    → high < 64
    → mild_part text ≡ true
    → Holds (λ item. word item.step ≤ 2 ^ 62) (parse_item text low high)
unfolding parse_item Holds mild_part stepped
parse_item-mild text low high le small mild =
    let P : Item → Type 0 = λ item. word item.step ≤ 2 ^ 62 in
    Holds-option P (cut "/" text) _ _
      (λ whole.
        Holds-bind (Spans low high text) P (parse_range text low high) _
          (parse_range-Spans text low high le small) (λ range _. omega arith))
      (λ texts slashed.
        Holds-option P (atoi texts.1) _ _ (λ _. tt)
          (λ step read.
            Holds-if P (positive step) _ _
              (λ up.
                Holds-bind (Spans low high texts.0) P (parse_range texts.0 low high) _
                  (parse_range-Spans texts.0 low high le small)
                  (λ range _.
                    let steps = atoi-natural texts.1 step read up in
                    ground (arith, slashed, read, steps, mild)))
              (λ _. tt)))
