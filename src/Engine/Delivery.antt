-- ===== src/Engine/Delivery.antt =====
-- `deliverOutputs` of internal/engine/evaluator.go.
use n8n_turbo.Prelude.{
  ℕ, suc, Bool, false, not, ◌&&◌, String, Option, none, some, List, [], ◌∷◌, ◌++◌, if◌then◌else◌,
  ◌==◌, string_eq, int_eq,
}
use n8n_turbo.Prelude.Map.{Map, insert, get_or}
use n8n_turbo.Dataplane.Types.{Node, Connection, Item, Output}
use n8n_turbo.Dataplane.Graph.{Graph, StringSet, marked, mark, node, input_count, output_edges}
use n8n_turbo.Engine.Evaluator.{
  DestinationNode, NodeInputs, is_inclusive, is_nil, can_execute_node, has_all_inputs,
}

-- What the loops change: the inputs of all nodes, the names seen and the nodes that are ready.
pub record Delivery : Type 0 where
  pub inputs : Map String NodeInputs
  pub seen : StringSet
  pub ready : List Node

-- `inputs[node][index] = append(inputs[node][index], items...)`
unfoldable pub add_items : Connection → List Item → Map String NodeInputs → Map String NodeInputs
add_items edge items inputs =
    let by_index = get_or edge.node [] inputs in
    insert edge.node (insert edge.index (get_or edge.index [] by_index ++ items) by_index) inputs

-- The tests behind the write: a node that has all its inputs, is not listed yet, is there and is not
-- disabled.
unfoldable pub announce : String → Option Node → Delivery → Delivery
announce name none d = d
announce name (some n) d =
    if n.disabled then d else record d { seen = mark name d.seen; ready = d.ready ++ n ∷ [] }

module _ (g : Graph) (may : Option StringSet) (destination : Option DestinationNode) where
  unfoldable pub deliver_edge : List Item → Connection → Delivery → Delivery
  deliver_edge items edge d =
      let d' = record d { inputs = add_items edge items d.inputs } in
      if not (can_execute_node edge.node may destination)
      then d
      else if not (has_all_inputs (get_or edge.node [] d'.inputs) (input_count g edge.node "main"))
      then d'
      else if marked edge.node d'.seen
      then d'
      else announce edge.node (node g edge.node) d'

  unfoldable pub deliver_edges : List Item → List Connection → Delivery → Delivery
  deliver_edges items [] d = d
  deliver_edges items (edge ∷ edges) d = deliver_edges items edges (deliver_edge items edge d)

  unfoldable pub deliver_from : String → ℕ → Output → Delivery → Delivery
  deliver_from source index [] d = d
  deliver_from source index (items ∷ outputs) d =
      deliver_from source (suc index) outputs
        (if is_nil items then d else deliver_edges items (output_edges g source "main" index) d)

  abbrev pub ends_here : String → Bool
  ends_here source = elim destination [
    | none ↦ false
    | some d ↦ is_inclusive d.mode && source == d.node_name
  ]

  -- The inputs afterwards, and the nodes that are ready.
  unfoldable pub deliver_outputs :
      String → Output → Map String NodeInputs → Map String NodeInputs × List Node
  deliver_outputs source output inputs =
      if ends_here source
      then (inputs, [])
      else let d =
          deliver_from source 0 output (record { inputs = inputs; seen = []; ready = [] }) in
        (d.inputs, d.ready)
