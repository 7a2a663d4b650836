-- ===== src/Cron/Limits.antt =====
-- parseField of internal/cron/parser.go: it ends, and what its mask is limited to.
use n8n_turbo.Prelude.{
  ℕ, ◌≤◌, ◌<◌, ◌≡◌, ◌≢◌, ◌⊎◌, inl, inr, sym, subst, arith, true, String, Bool-cases, List, [], ◌∷◌,
  ◌==◌, string_eq,
}
use n8n_turbo.Cron.Schedule.{bit_set}
use n8n_turbo.Cron.Text.{split_at, trim_space}
use n8n_turbo.Cron.Fields.{
  Parsed, parsed, failed, endless, ◌>>=◌, word, Item, parse_item, add_part, add_parts, parse_field,
}
use n8n_turbo.Cron.Wrapping.{Ends, set_bits-Ends}
use n8n_turbo.Cron.Loops.{fill, add_part-item, add_part-empty, parse_field-Holds}
use n8n_turbo.Cron.Parts.{Holds, Holds-bind, Holds-map, Listing, parse_item-Listing}

module _ (low high : ℕ) (range : low ≤ high) (small : high < 64) where
  -- No bit above the range, besides those of the mask.
  abbrev Bounded : ℕ → ℕ → Type 0
  Bounded mask mask' =
      (b : ℕ) → b < 64 → bit_set mask' b ≡ true → (bit_set mask b ≡ true) ⊎ (b ≤ high)

  item-Bounded :
      (r : Parsed Item) (mask : ℕ)
      → Holds (Listing low high) r
      → Holds (Bounded mask) (r >>= fill low high mask)
  unfolding Holds Ends
  item-Bounded (failed e) mask h = tt
  item-Bounded endless mask h = h
  item-Bounded (parsed item) mask ((first, order, last), (some_step, signed)) =
      let (mask', eq, bits, _, _) =
        set_bits-Ends 69 (word item.step) (word item.end) (word item.start) mask some_step signed
          (omega (arith, last, small)) (omega (arith, order, last, small)) (omega arith) in
      subst (Holds (Bounded mask)) (sym eq) (λ b lt on. elim (bits b lt on) [
        | inl old ↦ inl old
        | inr le ↦ inr (omega (arith, le, last))
      ])

  add_part-Bounded : (text : String) (mask : ℕ) → Holds (Bounded mask) (add_part text low high mask)
  unfolding Holds
  add_part-Bounded text mask = elim (Bool-cases (trim_space text == "")) [
    | inl empty ↦
        subst (Holds (Bounded mask)) (sym (add_part-empty low high text mask empty))
          (λ b lt on. inl on)
    | inr filled ↦ subst (Holds (Bounded mask)) (sym (add_part-item low high text mask filled)) (
        item-Bounded (parse_item (trim_space text) low high) mask
          (parse_item-Listing (trim_space text) low high range small))
  ]

  add_parts-Bounded :
      (parts : List String) (mask : ℕ) → Holds (Bounded mask) (add_parts parts low high mask)
  unfolding add_parts Holds
  add_parts-Bounded [] mask = λ b lt on. inl on
  add_parts-Bounded (part ∷ parts) mask =
      Holds-bind (Bounded mask) (Bounded mask) (add_part part low high mask) _
        (add_part-Bounded part mask)
        (λ mask' one.
          Holds-map (Bounded mask') (Bounded mask) (add_parts parts low high mask')
            (add_parts-Bounded parts mask')
            (λ mask'' two b lt on. elim (two b lt on) [ inl old ↦ one b lt old | inr le ↦ inr le ]))

  parse_field-Bounded :
      (field : String) → Holds (λ mask. (mask ≢ 0) × Bounded 0 mask) (parse_field field low high)
  parse_field-Bounded field =
      parse_field-Holds low high field (Bounded 0) (add_parts-Bounded (split_at "," field) 0)

  -- For a range within 0 to 63, `parse_field` ends: the fuel of its loop is enough whatever the step.
  pub parse_field-ends : (field : String) → parse_field field low high ≢ endless
  unfolding Holds
  parse_field-ends field eq =
      subst (Holds (λ mask. (mask ≢ 0) × Bounded 0 mask)) eq (parse_field-Bounded field)
