-- ===== src/Cron/Values.antt =====
-- parseField of internal/cron/parser.go against the values that its parts list.
use n8n_turbo.Prelude.{
  ℕ, ◌^◌, ◌≤◌, ◌<◌, ◌≡◌, ◌≢◌, inl, inr, refl, sym, ap, ◌∙◌, subst, arith, Bool, true, false, ◌&&◌,
  ◌||◌, String, if◌then◌else◌, Bool-cases, List, [], ◌∷◌, ◌==◌, string_eq,
}
use n8n_turbo.Cron.Schedule.{bit_set}
use n8n_turbo.Cron.Bits.{bit_set-zero}
use n8n_turbo.Cron.Text.{split_at, trim_space}
use n8n_turbo.Cron.Fields.{
  Parsed, parsed, failed, endless, ◌>>=◌, word, Item, parse_item, add_part, add_parts, parse_field,
}
use n8n_turbo.Cron.Masks.{Sets, covers, set_bits-Sets}
use n8n_turbo.Cron.Loops.{fill, add_part-item, add_part-empty, parse_field-Holds}
use n8n_turbo.Cron.Parts.{Holds, Holds-bind, Holds-map, Listing, parse_item-Listing}
use n8n_turbo.Cron.Listed.{in_part, mild_part}
use n8n_turbo.Cron.Spans.{parse_item-Reads, parse_item-mild}

-- An empty part lists nothing.
unfoldable pub part_lists : ℕ → ℕ → String → ℕ → Bool
part_lists low high text b =
    if trim_space text == "" then false else in_part low high (trim_space text) b

-- `b` is one of the values that the parts list.
unfoldable pub lists : ℕ → ℕ → List String → ℕ → Bool
lists low high [] b = false
lists low high (part ∷ parts) b = part_lists low high part b || lists low high parts b

-- No part has a step above 2^62.
unfoldable pub mild : List String → Bool
mild [] = true
mild (part ∷ parts) = mild_part (trim_space part) && mild parts

or_assoc : (a b c : Bool) → ((a || b) || c) ≡ (a || (b || c))
or_assoc a b c = ground arith

module _ (low high : ℕ) (range : low ≤ high) (small : high < 64) where
  -- The mask with the values of `values` besides.
  abbrev With : ℕ → (ℕ → Bool) → ℕ → Type 0
  With mask values mask' = (b : ℕ) → b < 64 → bit_set mask' b ≡ (bit_set mask b || values b)

  item-With :
      (r : Parsed Item) (values : ℕ → Bool) (mask : ℕ)
      → Holds (Listing low high) r
      → Holds (λ item. word item.step ≤ 2 ^ 62) r
      → Holds
          (λ item. (b : ℕ) → covers (word item.start) (word item.end) (word item.step) b ≡ values b)
          r
      → Holds (With mask values) (r >>= fill low high mask)
  unfolding Holds Sets
  item-With (failed e) values mask h step reads = tt
  item-With endless values mask h step reads = h
  item-With (parsed item) values mask ((first, order, last), (some_step, signed)) step reads =
      let (mask', eq, bits) =
        set_bits-Sets 69 (word item.step) (word item.end) (word item.start) mask some_step step
          (omega (arith, last, small)) (omega (arith, order, last, small))
          (omega (arith, last, small)) in
      subst (Holds (With mask values)) (sym eq)
        (λ b lt. bits b lt ∙ ap (λ v. bit_set mask b || v) (reads b))

  add_part-With :
      (text : String) (mask : ℕ)
      → mild_part (trim_space text) ≡ true
      → Holds (With mask (part_lists low high text)) (add_part text low high mask)
  unfolding part_lists Holds
  add_part-With text mask step =
      let part = trim_space text in
      elim (Bool-cases (part == "")) [
        | inl empty ↦
            subst (Holds (With mask (part_lists low high text)))
              (sym (add_part-empty low high text mask empty)) (λ b lt. ground (arith, empty))
        | inr filled ↦
            subst (Holds (With mask (part_lists low high text)))
              (sym (add_part-item low high text mask filled))
              (subst
                (λ values.
                  Holds (With mask values) (parse_item part low high >>= fill low high mask))
                {x = in_part low high part} {y = part_lists low high text}
                (λ i b. ap (λ e. if e then false else in_part low high part b) (sym filled) i)
                (item-With (parse_item part low high) (in_part low high part) mask
                  (parse_item-Listing part low high range small)
                  (parse_item-mild part low high range small step)
                  (parse_item-Reads part low high range small)))
      ]

  add_parts-With :
      (parts : List String) (mask : ℕ)
      → mild parts ≡ true
      → Holds (With mask (lists low high parts)) (add_parts parts low high mask)
  unfolding add_parts lists mild Holds
  add_parts-With [] mask step = λ b lt. ground arith
  add_parts-With (part ∷ parts) mask steps =
      Holds-bind (With mask (part_lists low high part)) (With mask (lists low high (part ∷ parts)))
        (add_part part low high mask) _ (add_part-With part mask (ground (arith, steps)))
        (λ mask' one.
          Holds-map (With mask' (lists low high parts)) (With mask (lists low high (part ∷ parts)))
            (add_parts parts low high mask') (add_parts-With parts mask' (ground (arith, steps)))
            (λ mask'' two b lt.
              rw (two b lt, one b lt)
                (or_assoc (bit_set mask b) (part_lists low high part b) (lists low high parts b))))

  -- For a range within 0 to 63, and parts without steps above 2^62: a mask that `parse_field` returns
  -- has the bits of the values that the text of one of the field's parts lists, and no other. `*` lists
  -- the range, `a-b` the values from a to b, a number itself; with `/k`, every k-th value from the
  -- first on, where a single number goes on to the end of the range.
  pub parse_field-lists :
      (field : String) (mask b : ℕ)
      → mild (split_at "," field) ≡ true
      → parse_field field low high ≡ parsed mask
      → b < 64
      → bit_set mask b ≡ lists low high (split_at "," field) b
  unfolding Holds
  parse_field-lists field mask b steps eq lt =
      let values = lists low high (split_at "," field) in
      let (filled, bits) = subst (Holds (λ mask. (mask ≢ 0) × With 0 values mask)) eq (
        parse_field-Holds low high field (With 0 values)
          (add_parts-With (split_at "," field) 0 steps)) in
      rw (bits b lt, bit_set-zero b lt) refl
