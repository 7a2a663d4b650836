-- ===== src/Cron/Loops.antt =====
-- The loop over the parts of parseField, internal/cron/parser.go, one part at a time.
use n8n_turbo.Prelude.{
  ℕ, ◌≡◌, ◌≢◌, ap, arith, true, false, String, if◌then◌else◌, nat_eqb, ◌==◌, string_eq,
}
use n8n_turbo.Cron.Text.{split_at, trim_space}
use n8n_turbo.Cron.Fields.{
  Parsed, parsed, ◌>>=◌, word, Item, parse_item, set_bits, enough, add_part, add_parts, parse_field,
}
use n8n_turbo.Cron.Parts.{Holds, Holds-bind, Holds-if}

module _ (low high : ℕ) where
  -- The loop over what a part lists.
  abbrev pub fill : ℕ → Item → Parsed ℕ
  fill mask item = set_bits enough (word item.step) (word item.end) (word item.start) mask

  pub add_part-item :
      (text : String) (mask : ℕ)
      → (trim_space text == "") ≡ false
      → add_part text low high mask ≡ (parse_item (trim_space text) low high >>= fill mask)
  unfolding add_part
  add_part-item text mask filled =
      ap (λ b. if b then parsed mask else (parse_item (trim_space text) low high >>= fill mask))
        filled

  pub add_part-empty :
      (text : String) (mask : ℕ)
      → (trim_space text == "") ≡ true
      → add_part text low high mask ≡ parsed mask
  unfolding add_part
  add_part-empty text mask empty =
      ap (λ b. if b then parsed mask else (parse_item (trim_space text) low high >>= fill mask))
        empty

  -- What holds of the mask of the parts holds of the field's, which is not zero.
  pub parse_field-Holds :
      (field : String) (P : ℕ → Type 0)
      → Holds P (add_parts (split_at "," field) low high 0)
      → Holds (λ mask. (mask ≢ 0) × P mask) (parse_field field low high)
  unfolding parse_field Holds
  parse_field-Holds field P h =
      Holds-bind P (λ mask. (mask ≢ 0) × P mask) (add_parts (split_at "," field) low high 0) _ h
        (λ mask holds.
          Holds-if (λ mask. (mask ≢ 0) × P mask) (nat_eqb mask 0) _ _ (λ _. tt)
            (λ filled. (ground (arith, filled), holds)))
