-- ===== src/Nodes/Branch.antt =====
-- `mergeChooseBranch` and `Execute` of internal/nodes/merge.go. The texts that select a mode are the
-- values of a data type each, and the merge by SQL is an argument.
use n8n_turbo.Prelude.{
  ℕ, Bool, true, false, String, Option, none, some, List, [], ◌∷◌, length, if◌then◌else◌, ltb, ℤ,
  pos, negsuc,
}
use n8n_turbo.Dataplane.Types.{Json, Item, Output}
use n8n_turbo.Nodes.Merge.{MergeParams}
use n8n_turbo.Nodes.Join.{
  Merged, merged, no_fields, unsupported_join, panicked, merge_input, merge_by_fields,
}
use n8n_turbo.Nodes.Modes.{merge_append, merge_by_position, merge_multiplex}

pub data BranchOutput : Type 0 where
  specified_input empty_item other_output : BranchOutput

pub data Fallback : Type 0 where
  no_fallback prefer_branch1 prefer_branch2 other_fallback : Fallback

pub record BranchParams : Type 0 where
  -- The mode is "waitForAll".
  pub waits_for_all : Bool
  pub output : BranchOutput
  pub input : ℤ
  pub fallback : Fallback

abbrev pub blank_item : Item
blank_item = record { json = []; binary = []; paired_item = none; error = none }

abbrev pub at_least_zero : ℤ → ℕ
at_least_zero (pos i) = i
at_least_zero (negsuc i) = 0

-- An index that is out of range is 0.
abbrev pub branch_index : ℕ → ℤ → ℕ
branch_index n (pos i) = if ltb i n then i else 0
branch_index n (negsuc i) = 0

abbrev pub has_items : List Item → Bool
has_items [] = false
has_items (item ∷ items) = true

abbrev pub prefer : List Item → List Item → List Item
prefer a b = if has_items a then a else b

unfoldable pub fall_back : Fallback → Output → List Item → List Item
unfolding merge_input
fall_back prefer_branch1 inputs chosen = prefer (merge_input inputs 0) (merge_input inputs 1)
fall_back prefer_branch2 inputs chosen = prefer (merge_input inputs 1) (merge_input inputs 0)
fall_back _ inputs chosen = chosen

unfoldable pub choose_at_once : BranchParams → Output → List Item
unfolding fall_back merge_input
choose_at_once params inputs =
    let chosen = merge_input inputs (branch_index (length inputs) params.input) in
    if has_items chosen then chosen else fall_back params.fallback inputs chosen

unfoldable pub choose_after_all : BranchOutput → ℤ → Output → List Item
unfolding merge_input
choose_after_all specified_input i inputs = merge_input inputs (at_least_zero i)
choose_after_all empty_item i inputs = blank_item ∷ []
choose_after_all other_output i inputs = []

unfoldable pub merge_choose_branch : BranchParams → Output → List Item
unfolding choose_at_once choose_after_all
merge_choose_branch params inputs =
    if params.waits_for_all
    then choose_after_all params.output params.input inputs
    else choose_at_once params inputs

pub data MergeMode : Type 0 where
  append choose_branch by_position by_fields multiplex by_sql other_mode : MergeMode

pub data Execution : Type 0 where
  output : Output → Execution
  canceled unsupported_mode failed crashed : Execution

abbrev pub as_output : Merged (List Item) → Execution
as_output (merged items) = output (items ∷ [])
as_output no_fields = failed
as_output unsupported_join = failed
as_output panicked = crashed

module _ (sprint : Json → String) (fold : String → String)
    (by_query : Output → Option (List Item)) where
  unfoldable pub execute : Bool → MergeMode → Bool → MergeParams → BranchParams → Output → Execution
  unfolding merge_append merge_choose_branch merge_by_position merge_by_fields merge_multiplex
  execute canceled_before mode unpaired params branch inputs =
      if canceled_before then canceled else (elim mode [
        | append ↦ output (merge_append inputs ∷ [])
        | choose_branch ↦ output (merge_choose_branch branch inputs ∷ [])
        | by_position ↦ output (merge_by_position unpaired params.resolve_clash inputs ∷ [])
        | by_fields ↦ as_output (merge_by_fields sprint fold params inputs)
        | multiplex ↦ output (merge_multiplex params.resolve_clash inputs ∷ [])
        | by_sql ↦ elim (by_query inputs) [ none ↦ failed | some items ↦ output (items ∷ []) ]
        | other_mode ↦ unsupported_mode
      ])
