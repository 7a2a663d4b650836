-- ===== src/Dataplane/Connections.antt =====
-- internal/dataplane/connections.go: the inversion of the connections, and the nodes that start a
-- run. The order of `range` over a Go map is that of the list that models the map.
use n8n_turbo.Prelude.{
  ℕ, zero, suc, Bool, not, ◌||◌, ◌&&◌, String, Option, none, some, List, [], ◌∷◌, ◌++◌,
  if◌then◌else◌, pos, negsuc, length, ◌==◌, string_eq, nat_eqb,
}
use n8n_turbo.Prelude.Map.{Map, insert, get_or}
use n8n_turbo.Dataplane.Types.{
  Node, Connection, Connections, InverseConnection, InvertedConnections, Workflow,
}

-- `for len(xs) <= i { xs = append(xs, nil) }`
unfoldable pub grow {ℓ} : {A : Type ℓ} → ℕ → List (List A) → List (List A)
grow zero [] = [] ∷ []
grow zero (x ∷ xs) = x ∷ xs
grow (suc i) [] = [] ∷ grow i []
grow (suc i) (x ∷ xs) = x ∷ grow i xs

-- `xs[i] = append(xs[i], a)`, for an index that is there.
unfoldable pub append_at {ℓ} : {A : Type ℓ} → ℕ → A → List (List A) → List (List A)
append_at i a [] = []
append_at zero a (x ∷ xs) = (x ++ a ∷ []) ∷ xs
append_at (suc i) a (x ∷ xs) = x ∷ append_at i a xs

-- The body of the innermost loop; `none` is the panic at an index below zero, where the slice does
-- not grow.
unfoldable pub add_edge :
    String → String → ℕ → Connection → InvertedConnections → Option InvertedConnections
unfolding grow append_at
add_edge source connection_type output_index edge inverted = elim edge.index [
  | negsuc n ↦ none
  | pos i ↦
      let by_type = get_or edge.node [] inverted in
      let edges = get_or connection_type [] by_type in
      let added : InverseConnection = record { node = source; output_idx = output_index } in
      some (
        insert edge.node (insert connection_type (append_at i added (grow i edges)) by_type)
          inverted)
]

abbrev pub bind {ℓ κ} : {A : Type ℓ} {B : Type κ} → Option A → (A → Option B) → Option B
bind none f = none
bind (some a) f = f a

unfoldable pub invert_edges :
    String → String → ℕ → List Connection → InvertedConnections → Option InvertedConnections
invert_edges source ty output [] inverted = some inverted
invert_edges source ty output (edge ∷ edges) inverted =
    bind (add_edge source ty output edge inverted) (invert_edges source ty output edges)

unfoldable pub invert_outputs :
    String → String → ℕ → List (List Connection) → InvertedConnections → Option InvertedConnections
invert_outputs source ty output [] inverted = some inverted
invert_outputs source ty output (edges ∷ outputs) inverted =
    bind (invert_edges source ty output edges inverted)
      (invert_outputs source ty (suc output) outputs)

unfoldable pub invert_types :
    String → Map String (List (List Connection)) → InvertedConnections → Option InvertedConnections
invert_types source [] inverted = some inverted
invert_types source ((ty, outputs) ∷ types) inverted =
    bind (invert_outputs source ty 0 outputs inverted) (invert_types source types)

unfoldable pub invert_sources : Connections → InvertedConnections → Option InvertedConnections
invert_sources [] inverted = some inverted
invert_sources ((source, types) ∷ sources) inverted =
    bind (invert_types source types inverted) (invert_sources sources)

-- `InvertConnections`
unfoldable pub invert_connections : Connections → Option InvertedConnections
unfolding invert_sources invert_types invert_outputs invert_edges add_edge
invert_connections connections = invert_sources connections []

unfoldable pub node_by_name : List Node → String → Option Node
node_by_name [] name = none
node_by_name (n ∷ nodes) name = if n.name == name then some n else node_by_name nodes name

unfoldable pub is_trigger_node : String → Bool
is_trigger_node t =
    t == "n8n-nodes-base.manualTrigger"
    || t == "n8n-nodes-base.start"
    || t == "n8n-nodes-base.webhook"
    || t == "n8n-nodes-base.scheduleTrigger"
    || t == "n8n-nodes-base.executeWorkflowTrigger"
    || t == "n8n-nodes-base.errorTrigger"
    || t == "n8n-nodes-base.formTrigger"

abbrev pub inputs_of : String → String → InvertedConnections → List (List InverseConnection)
inputs_of name ty inverted = get_or ty [] (get_or name [] inverted)

unfoldable pub select_start : InvertedConnections → List Node → List Node
unfolding is_trigger_node
select_start inverted [] = []
select_start inverted (n ∷ nodes) =
    let rest = select_start inverted nodes in
    if not n.disabled
      && (nat_eqb (length (inputs_of n.name "main" inverted)) 0 || is_trigger_node n.node_type)
    then n ∷ rest
    else rest

-- `StartNodes`
unfoldable pub start_nodes : Workflow → Option (List Node)
unfolding select_start invert_connections
start_nodes workflow =
    bind (invert_connections workflow.connections)
      λ inverted. some (select_start inverted workflow.nodes)
