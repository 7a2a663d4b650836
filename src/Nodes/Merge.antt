-- ===== src/Nodes/Merge.antt =====
-- The merge of two inputs by fields, internal/nodes/merge.go. The texts of the parameters that select
-- a way to join are the values of a data type each. `fmt.Sprint` of a value and the fold of a text,
-- `strings.ToLower` of its `strings.TrimSpace`, are arguments.
use Prim.Native.String.{◌++◌ as ◌++ˢ◌}
use n8n_turbo.Prelude.{
  ℕ, suc, Bool, not, ◌&&◌, String, Option, none, some, List, [], ◌∷◌, ◌++◌, map, if◌then◌else◌,
  nat_eqb, length, string_eq, ◌==◌,
}
use n8n_turbo.Prelude.Map.{Map, lookup, insert, delete, get_or}
use n8n_turbo.Cron.Text.{split_at, contains_char, trim_space}
use n8n_turbo.Dataplane.Types.{
  Json, null, text, arr, obj, nil, cons, JsonFields, end, field, Item, Binary, NodeError,
}

pub record MergeFieldMatch : Type 0 where
  pub field1 : String
  pub field2 : String

pub data JoinMode : Type 0 where
  keep_matches keep_everything keep_non_matches enrich_input1 enrich_input2 other_join : JoinMode

pub data OutputDataFrom : Type 0 where
  both input1 input2 other_input : OutputDataFrom

pub data ResolveClash : Type 0 where
  prefer_field1 prefer_field2 add_suffix keep_both : ResolveClash

pub record MergeParams : Type 0 where
  pub join_mode : JoinMode
  pub output_data_from : OutputDataFrom
  pub fields_to_match : List MergeFieldMatch
  pub disable_dot_notation : Bool
  -- `MultipleMatches` is "first".
  pub first_match : Bool
  pub fuzzy_compare : Bool
  pub resolve_clash : ResolveClash

unfoldable pub field_value : String → JsonFields → Json
field_value key end = null
field_value key (field k v fields) =
    let rest = field_value key fields in if k == key then v else rest

unfoldable pub nested_value : List String → Json → Json
unfolding field_value
nested_value [] current = current
nested_value (part ∷ parts) (obj fields) = nested_value parts (field_value part fields)
nested_value (part ∷ parts) _ = null

unfoldable pub nested_merge_value : Map String Json → String → Json
unfolding nested_value
nested_merge_value data_ path = elim (split_at "." path) [
  | [] ↦ null
  | part ∷ parts ↦ nested_value parts (get_or part null data_)
]

unfoldable pub join_parts : List String → String
join_parts [] = ""
join_parts (part ∷ []) = part
join_parts (part ∷ next ∷ parts) = part ++ˢ ("||" ++ˢ join_parts (next ∷ parts))

-- `firstNonEmptyNode` of two texts
unfoldable pub first_non_empty : String → String → String
first_non_empty a b = if trim_space a == "" then (if trim_space b == "" then "" else b) else a

module _ (sprint : Json → String) (fold : String → String) (params : MergeParams) where
  unfoldable pub match_value : Bool → Map String Json → MergeFieldMatch → Json
  unfolding nested_merge_value first_non_empty
  match_value use_field2 data_ f =
      let name = if use_field2 then first_non_empty f.field2 f.field1 else f.field1 in
      if not params.disable_dot_notation && contains_char "." name
      then nested_merge_value data_ name
      else get_or name null data_

  unfoldable pub match_part : Bool → Map String Json → MergeFieldMatch → String
  unfolding match_value
  match_part use_field2 data_ f =
      let part = sprint (match_value use_field2 data_ f) in
      if params.fuzzy_compare then fold part else part

  unfoldable pub merge_match_key : Bool → Map String Json → String
  unfolding match_part join_parts
  merge_match_key use_field2 data_ =
      join_parts (map (match_part use_field2 data_) params.fields_to_match)

abbrev pub Index : Type 0
Index = Map String (List ℕ)

abbrev pub add_position : String → ℕ → Index → Index
add_position key i index = insert key (get_or key [] index ++ i ∷ []) index

module _ (fold : String → String) (params : MergeParams) where
  -- With the key of each item as an argument.
  unfoldable pub build_from : (Item → String) → ℕ → List Item → Index → Index
  build_from key_of i [] index = index
  build_from key_of i (item ∷ items) index =
      let key = key_of item in
      let first = add_position key i index in
      build_from key_of (suc i) items
        (if params.fuzzy_compare then add_position (fold key) i first else first)

  unfoldable pub merge_build_index : (Item → String) → List Item → Index
  unfolding build_from
  merge_build_index key_of items = build_from key_of 0 items []

  unfoldable pub find_matches : Index → String → List ℕ
  find_matches index key =
      let matches = get_or key [] index in
      if params.fuzzy_compare && nat_eqb (length matches) 0
      then get_or (fold key) [] index
      else matches

unfoldable pub merge_clash : ResolveClash → String → Json → Json → Map String Json → Map String Json
merge_clash prefer_field1 key existing value result = insert key existing result
merge_clash add_suffix key existing value result =
    insert (key ++ˢ "_2") value (insert (key ++ˢ "_1") existing (delete key result))
merge_clash keep_both key existing value result =
    insert key (arr (cons existing (cons value nil))) result
merge_clash prefer_field2 key existing value result = insert key value result

unfoldable pub merge_json_maps : ResolveClash → Map String Json → Map String Json → Map String Json
unfolding merge_clash
merge_json_maps clash result [] = result
merge_json_maps clash result ((key, value) ∷ right) =
    merge_json_maps clash
      (elim (lookup key result) [
        | some existing ↦ merge_clash clash key existing value result
        | none ↦ insert key value result
      ])
      right

unfoldable pub merge_binary_maps : Map String Binary → Map String Binary → Map String Binary
merge_binary_maps result [] = result
merge_binary_maps result ((key, value) ∷ right) =
    merge_binary_maps
      (elim (lookup key result) [
        | some existing ↦ insert (key ++ˢ "_2") value result
        | none ↦ insert key value result
      ])
      right

abbrev pub first_item_error : Option NodeError → Option NodeError → Option NodeError
first_item_error (some e) right = some e
first_item_error none right = right

unfoldable pub merge_items : ResolveClash → Item → Item → Item
unfolding merge_json_maps merge_binary_maps
merge_items clash left right = record {
  json = merge_json_maps clash left.json right.json;
  binary = merge_binary_maps left.binary right.binary;
  paired_item = left.paired_item;
  error = first_item_error left.error right.error;
}

-- `cloneItem` leaves the error out.
unfoldable pub merge_source_item : Item → String → Item
merge_source_item item source = record item {
  json = insert "_source" (text source) item.json;
  error = none;
}
