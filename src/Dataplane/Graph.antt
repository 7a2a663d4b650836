-- ===== src/Dataplane/Graph.antt =====
-- internal/dataplane/graph.go
use n8n_turbo.Prelude.{
  ℕ, zero, suc, Bool, true, false, String, Option, none, some, List, [], ◌∷◌, ◌++◌, map, length,
  get_elem?, string_eq,
}
use n8n_turbo.Prelude.Map.{Map, lookup, insert, get_or}
use n8n_turbo.Dataplane.Types.{
  Node, Connection, Connections, InverseConnection, InvertedConnections, Workflow,
}
use n8n_turbo.Dataplane.Connections.{bind, invert_connections, inputs_of}

pub record Graph : Type 0 where
  pub workflow : Workflow
  pub nodes : Map String ℕ
  pub inverted : InvertedConnections

-- The loop of `NewGraph`: a later node of the same name takes the place of an earlier one.
unfoldable pub index_nodes : ℕ → List Node → Map String ℕ → Map String ℕ
index_nodes i [] nodes = nodes
index_nodes i (n ∷ rest) nodes = index_nodes (suc i) rest (insert n.name i nodes)

-- `none` is the panic of `InvertConnections`.
unfoldable pub new_graph : Workflow → Option Graph
unfolding index_nodes invert_connections
new_graph workflow = bind (invert_connections workflow.connections) λ inverted.
    some
      (record { workflow = workflow; nodes = index_nodes 0 workflow.nodes []; inverted = inverted })

unfoldable pub node : Graph → String → Option Node
node g name = bind (lookup name g.nodes) (get_elem? g.workflow.nodes)

-- A `map[string]bool` that is only ever set to true.
abbrev pub StringSet : Type 0
StringSet = Map String Bool

abbrev pub marked : String → StringSet → Bool
marked name set = get_or name false set

abbrev pub mark : String → StringSet → StringSet
mark name set = insert name true set

-- The two nested loops of `Parents` and `Children` over the names at the ends of the edges.
unfoldable pub collect : StringSet → List String → List String
collect seen [] = []
collect seen (name ∷ names) = elim (marked name seen) [
  | true ↦ collect seen names
  | false ↦ name ∷ collect (mark name seen) names
]

unfoldable pub concat {ℓ} : {A : Type ℓ} → List (List A) → List A
concat [] = []
concat (xs ∷ xss) = xs ++ concat xss

unfoldable pub parents : Graph → String → String → List String
unfolding collect concat
parents g name ty = collect [] (map (λ e. e.node) (concat (inputs_of name ty g.inverted)))

abbrev pub outputs_of : String → String → Connections → List (List Connection)
outputs_of name ty connections = get_or ty [] (get_or name [] connections)

unfoldable pub children : Graph → String → String → List String
unfolding collect concat
children g name ty =
    collect [] (map (λ e. e.node) (concat (outputs_of name ty g.workflow.connections)))

-- The inner loop of `Ancestors`.
unfoldable pub visit : List String → StringSet → List String → StringSet × List String
visit [] visited queue = (visited, queue)
visit (parent ∷ rest) visited queue = elim (marked parent visited) [
  | true ↦ visit rest visited queue
  | false ↦ visit rest (mark parent visited) (queue ++ parent ∷ [])
]

-- The loop over the queue, on fuel.
unfoldable pub ancestors_loop : ℕ → Graph → StringSet → List String → StringSet
unfolding visit
ancestors_loop zero g visited queue = visited
ancestors_loop (suc fuel) g visited [] = visited
ancestors_loop (suc fuel) g visited (current ∷ queue) =
    let (visited', queue') = visit (parents g current "main") visited queue in
    ancestors_loop fuel g visited' queue'

-- The names of all nodes that some edge leaves.
unfoldable pub sources_of_types : Map String (List (List InverseConnection)) → List String
unfolding concat
sources_of_types [] = []
sources_of_types ((ty, edges) ∷ rest) = map (λ e. e.node) (concat edges) ++ sources_of_types rest

unfoldable pub sources : InvertedConnections → List String
unfolding sources_of_types
sources [] = []
sources ((name, types) ∷ rest) = sources_of_types types ++ sources rest

-- `Ancestors`. The queue is empty after as many rounds as there are edges, and one more.
unfoldable pub ancestors : Graph → String → StringSet
unfolding ancestors_loop parents sources
ancestors g name =
    ancestors_loop (suc (suc (length (sources g.inverted)))) g (mark name []) (name ∷ [])

unfoldable pub input_count : Graph → String → String → ℕ
input_count g name ty = length (inputs_of name ty g.inverted)

unfoldable pub input_edges : Graph → String → String → List (List InverseConnection)
input_edges g name ty = inputs_of name ty g.inverted

unfoldable pub output_edges : Graph → String → String → ℕ → List Connection
output_edges g name ty output_index =
    elim (get_elem? (outputs_of name ty g.workflow.connections) output_index) [
      | none ↦ []
      | some edges ↦ edges
    ]
