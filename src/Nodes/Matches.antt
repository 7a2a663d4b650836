-- ===== src/Nodes/Matches.antt =====
-- What `mergeByFields` of internal/nodes/merge.go returns, by the way to join.
use n8n_turbo.Prelude.{
  ℕ, suc, Bool, true, false, String, List, [], ◌∷◌, ◌≡◌, refl, sym, ap, ◌∙◌, arith, if◌then◌else◌,
  map,
}
use n8n_turbo.Dataplane.Types.{Item, Json, Output}
use n8n_turbo.Nodes.Merge.{
  MergeParams, MergeFieldMatch, merge_match_key, match_part, match_value, join_parts,
  merge_build_index, find_matches, merge_items, keep_matches, keep_non_matches, both, input2,
}
use n8n_turbo.Nodes.Join.{
  merged, Joined, none_joined, join_item, join_left, finish, merge_input, join_inputs,
  merge_by_fields, and_then, unmatched,
}
use n8n_turbo.Nodes.Positions.{find_matches-positions}
use n8n_turbo.Nodes.Pairs.{pairs, join_left-Yields}

module _ (sprint : Json → String) (fold : String → String) (params : MergeParams) where
  abbrev pub left_key : Item → String
  left_key item = merge_match_key sprint fold params false item.json

  abbrev pub right_key : Item → String
  right_key item = merge_match_key sprint fold params true item.json

  merge_by_fields-join_inputs :
      (inputs : Output) (f : MergeFieldMatch) (fields : List MergeFieldMatch)
      → params.fields_to_match ≡ f ∷ fields
      → merge_by_fields sprint fold params inputs
        ≡ join_inputs sprint fold params (merge_input inputs 0) (merge_input inputs 1)
  unfolding merge_by_fields
  merge_by_fields-join_inputs inputs f fields some_fields = ground (arith, some_fields)

  join_inputs-pairs :
      (lefts right : List Item)
      → params.join_mode ≡ keep_matches
      → params.output_data_from ≡ both
      → params.first_match ≡ false
      → (params.fuzzy_compare ≡ true → (item : Item) → fold (left_key item) ≡ left_key item)
      → (params.fuzzy_compare ≡ true → (item : Item) → fold (right_key item) ≡ right_key item)
      → join_inputs sprint fold params lefts right
        ≡ merged (
            pairs params.fuzzy_compare left_key right_key
              (merge_items params.resolve_clash)
              lefts
              right)
  unfolding join_inputs finish
  join_inputs-pairs lefts right mode from_both all folded_left folded_right =
      let (s, eq, is) =
        join_left-Yields params right from_both params.fuzzy_compare left_key right_key
          (λ item.
            find_matches fold params (merge_build_index fold params right_key right)
              (left_key item))
          (λ left.
            find_matches-positions fold params right_key folded_right right (left_key left)
              (λ fuzzy. folded_left fuzzy left))
          all mode 0 lefts none_joined in
      ap
        (λ m.
          and_then m (λ t. merged (finish params.join_mode params.output_data_from lefts right t)))
        eq
      ∙ (ap (λ o. merged (finish o params.output_data_from lefts right s)) mode
          ∙ (ap (λ o. merged (finish keep_matches o lefts right s)) from_both ∙ ap merged is))

  -- Without fuzzy comparison, when the matches are kept, with the data of both inputs and all matches,
  -- the result is that of two loops: each left item merged with each right item that has its key, once,
  -- in their order.
  pub merge_by_fields-pairs :
      (inputs : Output) (f : MergeFieldMatch) (fields : List MergeFieldMatch)
      → params.fields_to_match ≡ f ∷ fields
      → params.join_mode ≡ keep_matches
      → params.output_data_from ≡ both
      → params.first_match ≡ false
      → params.fuzzy_compare ≡ false
      → merge_by_fields sprint fold params inputs
        ≡ merged (
            pairs false left_key right_key
              (merge_items params.resolve_clash)
              (merge_input inputs 0)
              (merge_input inputs 1))
  merge_by_fields-pairs inputs f fields some_fields mode from_both all exact =
      merge_by_fields-join_inputs inputs f fields some_fields
      ∙ (join_inputs-pairs (merge_input inputs 0) (merge_input inputs 1) mode from_both all
            (λ fuzzy. ground (arith, fuzzy, exact)) (λ fuzzy. ground (arith, fuzzy, exact))
          ∙ ap
              (λ b. merged (
                pairs b left_key right_key (merge_items params.resolve_clash) (merge_input inputs 0)
                  (merge_input inputs 1)))
              exact)

  one_field :
      (f : MergeFieldMatch) (side : Bool) (item : Item)
      → params.fields_to_match ≡ f ∷ []
      → params.fuzzy_compare ≡ true
      → ((s : String) → fold (fold s) ≡ fold s)
      → fold (merge_match_key sprint fold params side item.json)
        ≡ merge_match_key sprint fold params side item.json
  unfolding merge_match_key match_part join_parts
  one_field f side item one fuzzy again =
      let key : merge_match_key sprint fold params side item.json
          ≡ match_part sprint fold params side item.json f =
        ap (λ fs. join_parts (map (match_part sprint fold params side item.json) fs)) one in
      let written : match_part sprint fold params side item.json f
          ≡ fold (sprint (match_value sprint fold params side item.json f)) =
        ap
          (λ b.
            if b
            then fold (sprint (match_value sprint fold params side item.json f))
            else sprint (match_value sprint fold params side item.json f))
          fuzzy in
      let part : fold (match_part sprint fold params side item.json f)
          ≡ match_part sprint fold params side item.json f =
        ap fold written
        ∙ (again (sprint (match_value sprint fold params side item.json f)) ∙ sym written) in
      ap fold key ∙ (part ∙ sym key)

  -- With fuzzy comparison on one field, where the fold of a text folds to itself, each of these pairs
  -- comes twice: the index has each position under the key and under its fold.
  pub merge_by_fields-pairs_twice :
      (inputs : Output) (f : MergeFieldMatch)
      → params.fields_to_match ≡ f ∷ []
      → params.join_mode ≡ keep_matches
      → params.output_data_from ≡ both
      → params.first_match ≡ false
      → params.fuzzy_compare ≡ true
      → ((s : String) → fold (fold s) ≡ fold s)
      → merge_by_fields sprint fold params inputs
        ≡ merged (
            pairs true left_key right_key
              (merge_items params.resolve_clash)
              (merge_input inputs 0)
              (merge_input inputs 1))
  merge_by_fields-pairs_twice inputs f one mode from_both all fuzzy again =
      merge_by_fields-join_inputs inputs f [] one
      ∙ (join_inputs-pairs (merge_input inputs 0) (merge_input inputs 1) mode from_both all
            (λ _ item. one_field f false item one fuzzy again)
            (λ _ item. one_field f true item one fuzzy again)
          ∙ ap
              (λ b. merged (
                pairs b left_key right_key (merge_items params.resolve_clash) (merge_input inputs 0)
                  (merge_input inputs 1)))
              fuzzy)

unmatched-all : (i : ℕ) (items : List Item) → unmatched (λ j. false) i items ≡ items
unfolding unmatched
unmatched-all i [] = refl
unmatched-all i (item ∷ items) = ap (λ l. item ∷ l) (unmatched-all (suc i) items)

module _ (params : MergeParams) (right : List Item) (mode : params.join_mode ≡ keep_non_matches)
    (from_right : params.output_data_from ≡ input2) where
  -- The loop marks nothing.
  join_left-same :
      (matches_of : Item → List ℕ) (n : ℕ) (lefts : List Item) (s : Joined)
      → join_left params matches_of right n lefts s ≡ merged s
  unfolding join_left join_item
  join_left-same matches_of n [] s = refl
  join_left-same matches_of n (left ∷ lefts) s =
      ap
        (λ m.
          and_then (join_item params m right n left (matches_of left) s)
            (λ t. join_left params matches_of right (suc n) lefts t))
        mode
      ∙ (ap (λ m. and_then m (λ t. join_left params matches_of right (suc n) lefts t))
            (passed (matches_of left))
          ∙ join_left-same matches_of (suc n) lefts s)
    where
      passed :
          (matches : List ℕ) → join_item params keep_non_matches right n left matches s ≡ merged s
      passed [] = ground (arith, from_right)
      passed (i ∷ matches) = refl

-- When the items without a match are kept, with the data of the second input, all its items are
-- returned, those with a match as well.
pub merge_by_fields-all_right :
    (sprint : Json → String) (fold : String → String) (params : MergeParams) (inputs : Output)
    (f : MergeFieldMatch) (fields : List MergeFieldMatch)
    → params.fields_to_match ≡ f ∷ fields
    → params.join_mode ≡ keep_non_matches
    → params.output_data_from ≡ input2
    → merge_by_fields sprint fold params inputs ≡ merged (merge_input inputs 1)
unfolding join_inputs finish
merge_by_fields-all_right sprint fold params inputs f fields some_fields mode from_right =
    let lefts : List Item = merge_input inputs 0 in
    let right : List Item = merge_input inputs 1 in
    merge_by_fields-join_inputs sprint fold params inputs f fields some_fields
    ∙ (ap
          (λ m.
            and_then m
              (λ t. merged (finish params.join_mode params.output_data_from lefts right t)))
          (join_left-same params right mode from_right _ 0 lefts none_joined)
        ∙ (ap (λ o. merged (finish o params.output_data_from lefts right none_joined)) mode
            ∙ (ap (λ o. merged (finish keep_non_matches o lefts right none_joined)) from_right
                ∙ ap merged (unmatched-all 0 right))))
