-- ===== src/Nodes/Positions.antt =====
-- What the index of internal/nodes/merge.go has for a key: the positions of the items that have it.
use mathlib.Core.List.{append_assoc, append-nil}
use n8n_turbo.Prelude.{
  ℕ, suc, Bool, true, String, List, [], ◌∷◌, ◌++◌, ◌≡◌, sym, ◌∙◌, arith, if◌then◌else◌, ◌==◌,
  string_eq, str_iff, Bool-cases, inl, inr,
}
use n8n_turbo.Prelude.Map.{lookup, get_or, lookup-insert}
use n8n_turbo.Dataplane.Types.{Item}
use n8n_turbo.Nodes.Merge.{
  MergeParams, Index, add_position, build_from, merge_build_index, find_matches,
}

-- Each position once, or twice.
unfoldable pub positions : Bool → (Item → String) → String → ℕ → List Item → List ℕ
positions twice key_of key i [] = []
positions twice key_of key i (item ∷ items) =
    let rest = positions twice key_of key (suc i) items in
    if key_of item == key then (if twice then i ∷ i ∷ rest else i ∷ rest) else rest

pub get_or-add_position :
    (w key : String) (i : ℕ) (index : Index)
    → get_or key [] (add_position w i index)
      ≡ (if w == key then get_or key [] index ++ i ∷ [] else get_or key [] index)
get_or-add_position w key i index =
    ground (arith, lookup-insert w key (get_or w [] index ++ i ∷ []) index, str_iff w key)

module _ (fold : String → String) (params : MergeParams) (key_of : Item → String)
    (folded : params.fuzzy_compare ≡ true → (item : Item) → fold (key_of item) ≡ key_of item) where
  added : (item : Item) (i : ℕ) (index : Index) → Index
  added item i index =
      if params.fuzzy_compare
      then add_position (fold (key_of item)) i (add_position (key_of item) i index)
      else add_position (key_of item) i index

  get_or-added :
      (item : Item) (key : String) (i : ℕ) (index : Index) (rest : List ℕ)
      → get_or key [] (added item i index) ++ rest
        ≡ get_or key [] index
          ++ (if key_of item == key
              then (if params.fuzzy_compare then i ∷ i ∷ rest else i ∷ rest)
              else rest)
  unfolding added
  get_or-added item key i index rest = elim (Bool-cases params.fuzzy_compare) [
    | inl fuzzy ↦
        let same : fold (key_of item) ≡ key_of item = folded fuzzy item in
        ground (
          arith,
          fuzzy,
          same,
          get_or-add_position (key_of item) key i (add_position (key_of item) i index),
          get_or-add_position (key_of item) key i index,
          append_assoc (get_or key [] index) (i ∷ []) (i ∷ rest),
          append_assoc (get_or key [] index ++ i ∷ []) (i ∷ []) rest,
        )
    | inr exact ↦ ground (
      arith,
      exact,
      get_or-add_position (key_of item) key i index,
      append_assoc (get_or key [] index) (i ∷ []) rest,
    )
  ]

  get_or-build_from :
      (items : List Item) (key : String) (i : ℕ) (index : Index)
      → get_or key [] (build_from fold params key_of i items index)
        ≡ get_or key [] index ++ positions params.fuzzy_compare key_of key i items
  unfolding build_from positions added
  get_or-build_from [] key i index = sym (append-nil (get_or key [] index))
  get_or-build_from (item ∷ items) key i index =
      get_or-build_from items key (suc i) (added item i index)
      ∙ get_or-added item key i index (positions params.fuzzy_compare key_of key (suc i) items)

  pub find_matches-positions :
      (items : List Item) (key : String)
      → (params.fuzzy_compare ≡ true → fold key ≡ key)
      → find_matches fold params (merge_build_index fold params key_of items) key
        ≡ positions params.fuzzy_compare key_of key 0 items
  unfolding find_matches merge_build_index lookup
  find_matches-positions items key same = ground (arith, get_or-build_from items key 0 [], same)
