-- ===== src/Nodes/Join.antt =====
-- `mergeByFields` of internal/nodes/merge.go.
use n8n_turbo.Prelude.{
  ℕ, suc, Bool, true, false, none, some, List, [], ◌∷◌, ◌++◌, String, if◌then◌else◌, nat_eqb,
  get_elem?, ◌||◌,
}
use n8n_turbo.Dataplane.Types.{Json, Item, Output}
use n8n_turbo.Nodes.Merge.{
  MergeParams, JoinMode, keep_matches, keep_everything, keep_non_matches, enrich_input1,
  enrich_input2, other_join, OutputDataFrom, both, input1, input2, merge_match_key,
  merge_build_index, find_matches, merge_items, merge_source_item,
}

-- `panicked` is an index out of range.
pub data Merged (A : Type 0) : Type 0 where
  merged : A → Merged A
  no_fields unsupported_join panicked : Merged A

abbrev pub and_then : {A B : Type 0} → Merged A → (A → Merged B) → Merged B
and_then (merged a) f = f a
and_then no_fields f = no_fields
and_then unsupported_join f = unsupported_join
and_then panicked f = panicked

-- The variables of the loop over the left items.
pub record Joined : Type 0 where
  pub matched_left : ℕ → Bool
  pub matched_right : ℕ → Bool
  pub matched_right_items : List Item
  pub result : List Item

abbrev pub none_joined : Joined
none_joined = record {
  matched_left = λ i. false;
  matched_right = λ i. false;
  matched_right_items = [];
  result = [];
}

abbrev pub with_index : ℕ → (ℕ → Bool) → ℕ → Bool
with_index i matched j = nat_eqb j i || matched j

abbrev pub append_item : Item → Joined → Joined
append_item item s = record s { result = s.result ++ item ∷ [] }

abbrev pub mark_left : ℕ → Joined → Joined
mark_left i s = record s { matched_left = with_index i s.matched_left }

abbrev pub mark_right : ℕ → Joined → Joined
mark_right i s = record s { matched_right = with_index i s.matched_right }

abbrev pub keep_right : Item → Joined → Joined
keep_right item s = record s { matched_right_items = s.matched_right_items ++ item ∷ [] }

abbrev pub is_both : OutputDataFrom → Bool
is_both both = true
is_both _ = false

abbrev pub is_input1 : OutputDataFrom → Bool
is_input1 input1 = true
is_input1 _ = false

abbrev pub is_input2 : OutputDataFrom → Bool
is_input2 input2 = true
is_input2 _ = false

-- A loop over the matches of a left item, by its body, which stops after the first if it may.
unfoldable pub each_match :
    Bool → (ℕ → Item → Joined → Joined) → List Item → List ℕ → Joined → Merged Joined
each_match first body right [] s = merged s
each_match first body right (i ∷ matches) s = elim (get_elem? right i) [
  | none ↦ panicked
  | some item ↦
      let s' = body i item s in
      let more = each_match first body right matches s' in if first then merged s' else more
]

module _ (params : MergeParams) where
  unfoldable pub keep_match : Item → ℕ → Item → Joined → Joined
  unfolding merge_items
  keep_match left i item s =
      let s' = keep_right item (mark_right i s) in
      if is_both params.output_data_from
      then append_item (merge_items params.resolve_clash left item) s'
      else s'

  -- The body of the loop over the left items, by the way to join, for an item with the matches.
  unfoldable pub join_item : JoinMode → List Item → ℕ → Item → List ℕ → Joined → Merged Joined
  unfolding each_match keep_match merge_source_item
  join_item keep_matches right at left [] s = merged s
  join_item keep_matches right at left (i ∷ matches) s =
      and_then
        (each_match params.first_match (keep_match left) right (i ∷ matches) (mark_left at s))
        (λ s'. merged (if is_input1 params.output_data_from then append_item left s' else s'))
  join_item keep_everything right at left [] s = merged s
  join_item keep_everything right at left (i ∷ matches) s =
      and_then
        (each_match params.first_match (keep_match left) right (i ∷ matches) (mark_left at s))
        (λ s'. merged (if is_input1 params.output_data_from then append_item left s' else s'))
  join_item keep_non_matches right at left [] s = merged (
      if is_both params.output_data_from
      then append_item (merge_source_item left "input1") s
      else if is_input1 params.output_data_from
      then append_item left s
      else s)
  join_item keep_non_matches right at left (i ∷ matches) s = merged s
  join_item enrich_input1 right at left [] s = merged (append_item left s)
  join_item enrich_input1 right at left (i ∷ matches) s =
      each_match params.first_match
        (λ k item t. append_item (merge_items params.resolve_clash left item) (mark_right k t))
        right (i ∷ matches) (mark_left at s)
  join_item enrich_input2 right at left [] s = merged s
  join_item enrich_input2 right at left (i ∷ matches) s =
      each_match false
        (λ k item t. append_item (merge_items params.resolve_clash item left) (mark_right k t))
        right (i ∷ matches) (mark_left at s)
  join_item other_join right at left matches s = unsupported_join

  -- By what `find_matches` has for each item.
  unfoldable pub join_left : (Item → List ℕ) → List Item → ℕ → List Item → Joined → Merged Joined
  unfolding join_item
  join_left matches_of right at [] s = merged s
  join_left matches_of right at (left ∷ lefts) s =
      and_then (join_item params.join_mode right at left (matches_of left) s)
        (λ s'. join_left matches_of right (suc at) lefts s')

-- The items whose index is not matched.
unfoldable pub unmatched : (ℕ → Bool) → ℕ → List Item → List Item
unmatched matched i [] = []
unmatched matched i (item ∷ items) =
    let rest = unmatched matched (suc i) items in if matched i then rest else item ∷ rest

unfoldable pub tag_items : String → List Item → List Item
unfolding merge_source_item
tag_items source [] = []
tag_items source (item ∷ items) = merge_source_item item source ∷ tag_items source items

-- What follows the loop.
unfoldable pub finish : JoinMode → OutputDataFrom → List Item → List Item → Joined → List Item
unfolding unmatched tag_items
finish keep_matches input2 left right s = s.matched_right_items
finish keep_matches _ left right s = s.result
finish keep_non_matches both left right s =
    s.result ++ tag_items "input2" (unmatched s.matched_right 0 right)
finish keep_non_matches input2 left right s = s.result ++ unmatched s.matched_right 0 right
finish keep_non_matches _ left right s = s.result
finish keep_everything from left right s =
    (if is_input2 from then s.matched_right_items else s.result)
    ++ unmatched s.matched_left 0 left
    ++ unmatched s.matched_right 0 right
finish enrich_input2 _ left right s = s.result ++ unmatched s.matched_right 0 right
finish _ _ left right s = s.result

unfoldable pub merge_input : List (List Item) → ℕ → List Item
merge_input inputs i = elim (get_elem? inputs i) [ none ↦ [] | some items ↦ items ]

module _ (sprint : Json → String) (fold : String → String) (params : MergeParams) where
  unfoldable pub join_inputs : List Item → List Item → Merged (List Item)
  unfolding join_left finish merge_build_index find_matches merge_match_key
  join_inputs left right =
      let index =
        merge_build_index fold params (λ item. merge_match_key sprint fold params true item.json)
          right in
      and_then
        (join_left params
          (λ item.
            find_matches fold params index (merge_match_key sprint fold params false item.json))
          right 0 left none_joined)
        (λ s. merged (finish params.join_mode params.output_data_from left right s))

  unfoldable pub merge_by_fields : Output → Merged (List Item)
  unfolding join_inputs merge_input
  merge_by_fields inputs = elim params.fields_to_match [
    | [] ↦ no_fields
    | f ∷ fields ↦ join_inputs (merge_input inputs 0) (merge_input inputs 1)
  ]
