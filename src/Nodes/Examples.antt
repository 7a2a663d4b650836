-- ===== src/Nodes/Examples.antt =====
-- The theorems on internal/nodes/merge.go at small inputs.
use n8n_turbo.Prelude.{Bool, true, false, String, none, [], ◌∷◌, ◌≡◌, ◌≢◌, refl}
use n8n_turbo.Dataplane.Types.{Json, text, Item, Output}
use n8n_turbo.Nodes.Merge.{
  MergeParams, MergeFieldMatch, JoinMode, OutputDataFrom, keep_matches, keep_non_matches, both,
  input2, prefer_field2, merge_items,
}
use n8n_turbo.Nodes.Safety.{merge_by_fields-safe}
use n8n_turbo.Nodes.Join.{panicked, merged, merge_input, merge_by_fields}
use n8n_turbo.Nodes.Pairs.{pairs}
use n8n_turbo.Nodes.Matches.{
  left_key, right_key, merge_by_fields-pairs, merge_by_fields-pairs_twice,
  merge_by_fields-all_right,
}

abbrev item_of : String → Item
item_of id = record { json = ("id", text id) ∷ []; binary = []; paired_item = none; error = none }

abbrev two_inputs : Output
two_inputs = (item_of "1" ∷ item_of "2" ∷ []) ∷ (item_of "2" ∷ item_of "3" ∷ []) ∷ []

abbrev on_id : MergeFieldMatch
on_id = record { field1 = "id"; field2 = "id" }

abbrev by_id : JoinMode → OutputDataFrom → Bool → MergeParams
by_id mode from fuzzy = record {
  join_mode = mode;
  output_data_from = from;
  fields_to_match = on_id ∷ [];
  disable_dot_notation = true;
  first_match = false;
  fuzzy_compare = fuzzy;
  resolve_clash = prefer_field2;
}

abbrev print_text : Json → String
print_text (text s) = s
print_text _ = "<nil>"

abbrev same_text : String → String
same_text s = s

merge_by_fields-pairs_example :
    merge_by_fields print_text same_text (by_id keep_matches both false) two_inputs
    ≡ merged (
        pairs false
          (left_key print_text same_text (by_id keep_matches both false))
          (right_key print_text same_text (by_id keep_matches both false))
          (merge_items prefer_field2)
          (merge_input two_inputs 0)
          (merge_input two_inputs 1))
merge_by_fields-pairs_example =
    merge_by_fields-pairs print_text same_text (by_id keep_matches both false) two_inputs on_id []
      refl refl refl refl refl

merge_by_fields-pairs_twice_example :
    merge_by_fields print_text same_text (by_id keep_matches both true) two_inputs
    ≡ merged (
        pairs true
          (left_key print_text same_text (by_id keep_matches both true))
          (right_key print_text same_text (by_id keep_matches both true))
          (merge_items prefer_field2)
          (merge_input two_inputs 0)
          (merge_input two_inputs 1))
merge_by_fields-pairs_twice_example =
    merge_by_fields-pairs_twice print_text same_text (by_id keep_matches both true) two_inputs on_id
      refl refl refl refl refl (λ s. refl)

merge_by_fields-all_right_example :
    merge_by_fields print_text same_text (by_id keep_non_matches input2 false) two_inputs
    ≡ merged (merge_input two_inputs 1)
merge_by_fields-all_right_example =
    merge_by_fields-all_right print_text same_text (by_id keep_non_matches input2 false) two_inputs
      on_id [] refl refl refl

merge_by_fields-safe_example :
    merge_by_fields print_text same_text (by_id keep_matches both true) two_inputs ≢ panicked
merge_by_fields-safe_example =
    merge_by_fields-safe print_text same_text (by_id keep_matches both true) two_inputs
