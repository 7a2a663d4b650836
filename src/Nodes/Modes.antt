-- ===== src/Nodes/Modes.antt =====
-- The other ways to merge of internal/nodes/merge.go: append, choose a branch, by position, multiplex.
use n8n_turbo.Prelude.{
  suc, ◌*◌, Bool, true, false, List, [], ◌∷◌, ◌++◌, length, length-append, ◌≡◌, refl, ap, arith,
  if◌then◌else◌, max, min,
}
use n8n_turbo.Dataplane.Types.{Item, Output}
use n8n_turbo.Nodes.Merge.{ResolveClash, merge_items}
use n8n_turbo.Nodes.Join.{merge_input}

unfoldable pub merge_append : Output → List Item
merge_append [] = []
merge_append (input ∷ inputs) = input ++ merge_append inputs

-- The items of both inputs in turn, `IncludeUnpaired` or not.
unfoldable pub zip_items : Bool → ResolveClash → List Item → List Item → List Item
unfolding merge_items
zip_items unpaired clash (left ∷ lefts) (right ∷ rights) =
    merge_items clash left right ∷ zip_items unpaired clash lefts rights
zip_items unpaired clash (left ∷ lefts) [] = if unpaired then left ∷ lefts else []
zip_items unpaired clash [] rights = if unpaired then rights else []

unfoldable pub merge_by_position : Bool → ResolveClash → Output → List Item
unfolding zip_items merge_input
merge_by_position unpaired clash inputs =
    zip_items unpaired clash (merge_input inputs 0) (merge_input inputs 1)

unfoldable pub merge_each : ResolveClash → Item → List Item → List Item
unfolding merge_items
merge_each clash left [] = []
merge_each clash left (right ∷ rights) = merge_items clash left right ∷ merge_each clash left rights

unfoldable pub multiplex_items : ResolveClash → List Item → List Item → List Item
unfolding merge_each
multiplex_items clash [] rights = []
multiplex_items clash (left ∷ lefts) rights =
    merge_each clash left rights ++ multiplex_items clash lefts rights

unfoldable pub merge_multiplex : ResolveClash → Output → List Item
unfolding multiplex_items merge_input
merge_multiplex clash inputs = multiplex_items clash (merge_input inputs 0) (merge_input inputs 1)

length-zip_items :
    (unpaired : Bool) (clash : ResolveClash) (lefts rights : List Item)
    → length (zip_items unpaired clash lefts rights) ≡ (
        if unpaired then max (length lefts) (length rights) else min (length lefts) (length rights))
unfolding zip_items
length-zip_items unpaired clash (left ∷ lefts) (right ∷ rights) =
    ground (arith, length-zip_items unpaired clash lefts rights)
length-zip_items true clash (left ∷ lefts) [] = omega arith
length-zip_items false clash (left ∷ lefts) [] = omega arith
length-zip_items true clash [] rights = omega arith
length-zip_items false clash [] rights = omega arith

length-merge_each :
    (clash : ResolveClash) (left : Item) (rights : List Item)
    → length (merge_each clash left rights) ≡ length rights
unfolding merge_each
length-merge_each clash left [] = refl
length-merge_each clash left (right ∷ rights) = ap suc (length-merge_each clash left rights)

length-multiplex_items :
    (clash : ResolveClash) (lefts rights : List Item)
    → length (multiplex_items clash lefts rights) ≡ length lefts * length rights
unfolding multiplex_items
length-multiplex_items clash [] rights = omega arith
length-multiplex_items clash (left ∷ lefts) rights = grind (
  arith,
  length-append (merge_each clash left rights) (multiplex_items clash lefts rights),
  length-merge_each clash left rights,
  length-multiplex_items clash lefts rights,
)

-- By position there are as many items as in the longer input when unpaired ones are included, and else
-- as in the shorter; multiplexed, there is one for each pair.
pub length-merge_by_position :
    (unpaired : Bool) (clash : ResolveClash) (inputs : Output)
    → (length (merge_by_position unpaired clash inputs) ≡ (
        if unpaired
        then max (length (merge_input inputs 0)) (length (merge_input inputs 1))
        else min (length (merge_input inputs 0)) (length (merge_input inputs 1))))
      × (length (merge_multiplex clash inputs)
          ≡ length (merge_input inputs 0) * length (merge_input inputs 1))
unfolding merge_by_position merge_multiplex
length-merge_by_position unpaired clash inputs = (
  length-zip_items unpaired clash (merge_input inputs 0) (merge_input inputs 1),
  length-multiplex_items clash (merge_input inputs 0) (merge_input inputs 1),
)
