-- ===== src/Nodes/Safety.antt =====
-- `mergeByFields` of internal/nodes/merge.go does not panic: the positions of its index are in range.
use n8n_turbo.Prelude.{
  ℕ, zero, suc, ◌+◌, ◌≤◌, ◌<◌, Bool, true, false, String, none, List, [], ◌∷◌, ◌++◌, length,
  get_elem?, All, All-append, ◌≢◌, refl, sym, subst, arith, if◌then◌else◌, ◌==◌, string_eq,
  Option-cases, inl, inr, nat_eqb, ◌&&◌,
}
use n8n_turbo.Prelude.Map.{get_or, lookup}
use n8n_turbo.Dataplane.Types.{Item, Json, Output}
use n8n_turbo.Nodes.Merge.{
  MergeParams, Index, add_position, build_from, merge_build_index, find_matches, merge_match_key,
  merge_items, JoinMode, keep_matches, keep_everything, keep_non_matches, enrich_input1,
  enrich_input2, other_join,
}
use n8n_turbo.Nodes.Join.{
  Merged, merged, no_fields, unsupported_join, panicked, Joined, and_then, each_match, keep_match,
  join_item, join_left, join_inputs, merge_by_fields, merge_input, none_joined, append_item,
  mark_right, mark_left,
}
use n8n_turbo.Nodes.Positions.{get_or-add_position}

-- Each index of the list is one of the first `n`.
abbrev InRange : ℕ → List ℕ → Type 0
InRange n = All (λ i. i < n)

abbrev Bounded : ℕ → Index → Type 0
Bounded n index = (key : String) → InRange n (get_or key [] index)

add_position-Bounded :
    (n i : ℕ) (w : String) (index : Index)
    → i < n
    → Bounded n index
    → Bounded n (add_position w i index)
add_position-Bounded n i w index small h key =
    subst (InRange n) (sym (get_or-add_position w key i index))
      (elim (w == key)
        as (λ b. InRange n (if b then get_or key [] index ++ i ∷ [] else get_or key [] index)) [
          | true ↦ All-append (λ j. j < n) (get_or key [] index) (i ∷ []) (h key) (small, tt)
          | false ↦ h key
        ])

module _ (fold : String → String) (params : MergeParams) (key_of : Item → String) where
  build_from-Bounded :
      (n i : ℕ) (items : List Item) (index : Index)
      → i + length items ≤ n
      → Bounded n index
      → Bounded n (build_from fold params key_of i items index)
  unfolding build_from
  build_from-Bounded n i [] index fits h = h
  build_from-Bounded n i (item ∷ items) index fits h =
      let first : Bounded n (add_position (key_of item) i index) =
        add_position-Bounded n i (key_of item) index (omega (arith, fits)) h in
      build_from-Bounded n (suc i) items _ (omega (arith, fits))
        (elim params.fuzzy_compare
          as (λ b. Bounded n (
            if b
            then add_position (fold (key_of item)) i (add_position (key_of item) i index)
            else add_position (key_of item) i index)) [
              | true ↦
                  add_position-Bounded n i (fold (key_of item)) (add_position (key_of item) i index)
                    (omega (arith, fits)) first
              | false ↦ first
            ])

  find_matches-InRange :
      (items : List Item) (key : String)
      → InRange
          (length items)
          (find_matches fold params (merge_build_index fold params key_of items) key)
  unfolding find_matches merge_build_index lookup
  find_matches-InRange items key =
      let h : Bounded (length items) (build_from fold params key_of 0 items []) =
        build_from-Bounded (length items) 0 items [] (omega arith) (λ k. tt) in
      elim (params.fuzzy_compare
          && nat_eqb (length (get_or key [] (build_from fold params key_of 0 items []))) 0)
        as (λ b. InRange (length items) (
          if b
          then get_or (fold key) [] (build_from fold params key_of 0 items [])
          else get_or key [] (build_from fold params key_of 0 items []))) [
            | true ↦ h (fold key)
            | false ↦ h key
          ]

and_then-safe :
    {A B : Type 0} (m : Merged A) (f : A → Merged B)
    → m ≢ panicked
    → ((a : A) → f a ≢ panicked)
    → and_then m f ≢ panicked
and_then-safe (merged a) f safe next = next a
and_then-safe no_fields f safe next = λ e. ground (arith, e)
and_then-safe unsupported_join f safe next = λ e. ground (arith, e)
and_then-safe panicked f safe next = λ e. safe refl

in_range_found : (items : List Item) (i : ℕ) → i < length items → get_elem? items i ≢ none
in_range_found [] i small = absurd (omega (arith, small))
in_range_found (item ∷ items) zero small = λ e. ground (arith, e)
in_range_found (item ∷ items) (suc i) small = in_range_found items i (omega (arith, small))

each_match-safe :
    (first : Bool) (body : ℕ → Item → Joined → Joined) (right : List Item) (matches : List ℕ)
    (s : Joined)
    → InRange (length right) matches
    → each_match first body right matches s ≢ panicked
unfolding each_match
each_match-safe first body right [] s h = λ e. ground (arith, e)
each_match-safe first body right (i ∷ matches) s (small, h) = λ e.
    elim (Option-cases (get_elem? right i)) [
      | inl outside ↦ in_range_found right i small outside
      | inr (item, at) ↦
          ground (arith, at, e, each_match-safe first body right matches (body i item s) h)
    ]

module _ (params : MergeParams) (right : List Item) where
  join_item-safe :
      (mode : JoinMode) (at : ℕ) (left : Item) (matches : List ℕ) (s : Joined)
      → InRange (length right) matches
      → join_item params mode right at left matches s ≢ panicked
  unfolding join_item
  join_item-safe keep_matches at left [] s h = λ e. ground (arith, e)
  join_item-safe keep_matches at left (i ∷ matches) s h =
      and_then-safe _ _
        (each_match-safe params.first_match (keep_match params left) right (i ∷ matches) _ h)
        (λ t e. ground (arith, e))
  join_item-safe keep_everything at left [] s h = λ e. ground (arith, e)
  join_item-safe keep_everything at left (i ∷ matches) s h =
      and_then-safe _ _
        (each_match-safe params.first_match (keep_match params left) right (i ∷ matches) _ h)
        (λ t e. ground (arith, e))
  join_item-safe keep_non_matches at left [] s h = λ e. ground (arith, e)
  join_item-safe keep_non_matches at left (i ∷ matches) s h = λ e. ground (arith, e)
  join_item-safe enrich_input1 at left [] s h = λ e. ground (arith, e)
  join_item-safe enrich_input1 at left (i ∷ matches) s h =
      each_match-safe params.first_match
        (λ k item t. append_item (merge_items params.resolve_clash left item) (mark_right k t))
        right (i ∷ matches) (mark_left at s) h
  join_item-safe enrich_input2 at left [] s h = λ e. ground (arith, e)
  join_item-safe enrich_input2 at left (i ∷ matches) s h =
      each_match-safe false
        (λ k item t. append_item (merge_items params.resolve_clash item left) (mark_right k t))
        right (i ∷ matches) (mark_left at s) h
  join_item-safe other_join at left matches s h = λ e. ground (arith, e)

  join_left-safe :
      (matches_of : Item → List ℕ)
      → ((left : Item) → InRange (length right) (matches_of left))
      → (at : ℕ) (lefts : List Item) (s : Joined)
      → join_left params matches_of right at lefts s ≢ panicked
  unfolding join_left
  join_left-safe matches_of h at [] s = λ e. ground (arith, e)
  join_left-safe matches_of h at (left ∷ lefts) s =
      and_then-safe _ _ (join_item-safe params.join_mode at left (matches_of left) s (h left))
        (λ t. join_left-safe matches_of h (suc at) lefts t)

join_inputs-safe :
    (sprint : Json → String) (fold : String → String) (params : MergeParams)
    (lefts right : List Item)
    → join_inputs sprint fold params lefts right ≢ panicked
unfolding join_inputs
join_inputs-safe sprint fold params lefts right =
    and_then-safe _ _
      (join_left-safe params right _
        (λ left.
          find_matches-InRange fold params
            (λ item. merge_match_key sprint fold params true item.json) right
            (merge_match_key sprint fold params false left.json))
        0 lefts none_joined)
      (λ s e. ground (arith, e))

-- Whatever the inputs and the parameters are, no access to an item of the second input is out of range.
pub merge_by_fields-safe :
    (sprint : Json → String) (fold : String → String) (params : MergeParams) (inputs : Output)
    → merge_by_fields sprint fold params inputs ≢ panicked
unfolding merge_by_fields
merge_by_fields-safe sprint fold params inputs =
    elim params.fields_to_match
      as (λ fields.
        (elim fields [
          | [] ↦ no_fields
          | f ∷ rest ↦ join_inputs sprint fold params (merge_input inputs 0) (merge_input inputs 1)
        ])
        ≢ panicked) [
          | [] ↦ λ e. ground (arith, e)
          | f ∷ rest ↦
              join_inputs-safe sprint fold params (merge_input inputs 0) (merge_input inputs 1)
        ]
