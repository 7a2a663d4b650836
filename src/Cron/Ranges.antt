-- ===== src/Cron/Ranges.antt =====
-- parseField of internal/cron/parser.go: its masks against the range of the field.
use n8n_turbo.Prelude.{
  ℕ, ◌^◌, ◌≤◌, ◌<◌, ◌≡◌, ◌≢◌, ◌⊎◌, inl, inr, sym, subst, arith, true, String, Bool-cases, List, [],
  ◌∷◌, ◌==◌, string_eq,
}
use n8n_turbo.Cron.Schedule.{bit_set}
use n8n_turbo.Cron.Text.{split_at, trim_space}
use n8n_turbo.Cron.Fields.{
  Parsed, parsed, failed, endless, ◌>>=◌, word, Item, parse_item, add_part, add_parts, parse_field,
}
use n8n_turbo.Cron.Masks.{Sets, set_bits-Sets}
use n8n_turbo.Cron.Loops.{fill, add_part-item, add_part-empty, parse_field-Holds}
use n8n_turbo.Cron.Parts.{Holds, Holds-bind, Holds-map, Listing, parse_item-Listing}
use n8n_turbo.Cron.Listed.{mild_part}
use n8n_turbo.Cron.Spans.{parse_item-mild}
use n8n_turbo.Cron.Values.{mild}

module _ (low high : ℕ) (range : low ≤ high) (small : high < 64) where
  -- Besides the bits of the mask, only those of the range.
  abbrev pub Within : ℕ → ℕ → Type 0
  Within mask mask' =
      (b : ℕ) → b < 64 → bit_set mask' b ≡ true → (bit_set mask b ≡ true) ⊎ ((low ≤ b) × (b ≤ high))

  item-Within :
      (r : Parsed Item) (mask : ℕ)
      → Holds (Listing low high) r
      → Holds (λ item. word item.step ≤ 2 ^ 62) r
      → Holds (Within mask) (r >>= fill low high mask)
  unfolding Holds Sets
  item-Within (failed e) mask h step = tt
  item-Within endless mask h step = h
  item-Within (parsed item) mask ((first, order, last), (some_step, signed)) step =
      let (mask', eq, bits) =
        set_bits-Sets 69 (word item.step) (word item.end) (word item.start) mask some_step step
          (omega (arith, last, small)) (omega (arith, order, last, small))
          (omega (arith, last, small)) in
      subst (Holds (Within mask)) (sym eq) (λ b lt on. elim (Bool-cases (bit_set mask b)) [
        | inl old ↦ inl old
        | inr new ↦
            let e = bits b lt in
            inr (ground (arith, e, on, new, first), ground (arith, e, on, new, last))
      ])

  add_part-Within :
      (text : String) (mask : ℕ)
      → mild_part (trim_space text) ≡ true
      → Holds (Within mask) (add_part text low high mask)
  unfolding Holds
  add_part-Within text mask step =
      let part = trim_space text in
      elim (Bool-cases (part == "")) [
        | inl empty ↦
            subst (Holds (Within mask)) (sym (add_part-empty low high text mask empty))
              (λ b lt on. inl on)
        | inr filled ↦ subst (Holds (Within mask)) (sym (add_part-item low high text mask filled)) (
            item-Within (parse_item part low high) mask
              (parse_item-Listing part low high range small)
              (parse_item-mild part low high range small step))
      ]

  add_parts-Within :
      (parts : List String) (mask : ℕ)
      → mild parts ≡ true
      → Holds (Within mask) (add_parts parts low high mask)
  unfolding add_parts mild Holds
  add_parts-Within [] mask steps = λ b lt on. inl on
  add_parts-Within (part ∷ parts) mask steps =
      Holds-bind (Within mask) (Within mask) (add_part part low high mask) _
        (add_part-Within part mask (ground (arith, steps)))
        (λ mask' one.
          Holds-map (Within mask') (Within mask) (add_parts parts low high mask')
            (add_parts-Within parts mask' (ground (arith, steps)))
            (λ mask'' two b lt on. elim (two b lt on) [ inl old ↦ one b lt old | inr le ↦ inr le ]))

  pub parse_field-Within :
      (field : String)
      → mild (split_at "," field) ≡ true
      → Holds (λ mask. (mask ≢ 0) × Within 0 mask) (parse_field field low high)
  parse_field-Within field steps =
      parse_field-Holds low high field (Within 0) (add_parts-Within (split_at "," field) 0 steps)
