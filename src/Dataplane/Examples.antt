-- ===== src/Dataplane/Examples.antt =====
-- The theorems on internal/dataplane at a workflow of three nodes, one of which has two inputs.
use n8n_turbo.Prelude.{◌↔◌, ◌≡◌, refl, true, false, some, none, [], ◌∷◌, any, pos, negsuc, String}
use n8n_turbo.Prelude.Map
use n8n_turbo.Prelude.Map.{Map}
use n8n_turbo.Dataplane.Types.{Node, Connections, InvertedConnections, Workflow}
use n8n_turbo.Dataplane.Connections
use n8n_turbo.Dataplane.Connections.{invert_connections, node_by_name}
use n8n_turbo.Dataplane.Graph.{Graph, new_graph, index_nodes, marked, ancestors}
use n8n_turbo.Dataplane.Wires.{wires}
use n8n_turbo.Dataplane.Inversion.{
  edges_into, inverses_into, is_negative, edges_into-invert_connections, invert_connections-eq-none,
}
use n8n_turbo.Dataplane.Paths.{Ancestor, ancestors_exact}

abbrev plain_node : String → String → Node
plain_node name node_type = record {
  id = name;
  name = name;
  node_type = node_type;
  disabled = false;
  continue_on_fail = false;
  on_error = "";
  retry_on_fail = true;
  max_tries = pos 25;
  wait_between_tries = negsuc 4;
  use_exponential_backoff = false;
}

abbrev start_node : Node
start_node = plain_node "start" "n8n-nodes-base.manualTrigger"

abbrev merging : Workflow
merging = record {
  id = "w";
  name = "merging";
  nodes = start_node ∷ plain_node "fetch" "http" ∷ plain_node "merge" "merge" ∷ [];
  connections =
      (
        "start",
        (
          "main",
          (record { node = "fetch"; connection_type = "main"; index = pos 0 }
                ∷ record { node = "merge"; connection_type = "main"; index = pos 1 }
                ∷ [])
              ∷ [],
        )
            ∷ [],
      )
      ∷ (
        "fetch",
        ("main", (record { node = "merge"; connection_type = "main"; index = pos 0 } ∷ []) ∷ [])
            ∷ [],
      )
      ∷ [];
}

abbrev inverted_merging : InvertedConnections
inverted_merging =
    ("fetch", ("main", (record { node = "start"; output_idx = 0 } ∷ []) ∷ []) ∷ [])
    ∷ (
      "merge",
      (
        "main",
        (record { node = "fetch"; output_idx = 0 } ∷ [])
            ∷ (record { node = "start"; output_idx = 0 } ∷ [])
            ∷ [],
      )
          ∷ [],
    )
    ∷ []

abbrev graph_of_merging : Graph
graph_of_merging = record {
  workflow = merging;
  nodes = ("start", 0) ∷ ("fetch", 1) ∷ ("merge", 2) ∷ [];
  inverted = inverted_merging;
}

inverted_lem : invert_connections merging.connections ≡ some inverted_merging
unfolding Connections.invert_connections Connections.invert_sources Connections.invert_types
    Connections.invert_outputs Connections.invert_edges Connections.add_edge Connections.grow
    Connections.append_at Map.lookup Map.insert
inverted_lem = refl

edges_into-invert_connections_example :
    edges_into "merge" "main" 1 inverted_merging
    ≡ inverses_into "merge" "main" 1 (wires merging.connections)
edges_into-invert_connections_example =
    edges_into-invert_connections merging.connections inverted_merging "merge" "main" 1 inverted_lem

abbrev misnumbered : Connections
misnumbered =
    (
      "a",
      ("main", (record { node = "b"; connection_type = "main"; index = negsuc 0 } ∷ []) ∷ []) ∷ [],
    )
    ∷ []

invert_connections-eq-none_example :
    (invert_connections misnumbered ≡ none) ↔ (any is_negative (wires misnumbered) ≡ true)
invert_connections-eq-none_example = invert_connections-eq-none misnumbered

made : new_graph merging ≡ some graph_of_merging
unfolding new_graph index_nodes Connections.invert_connections Connections.invert_sources
    Connections.invert_types Connections.invert_outputs Connections.invert_edges
    Connections.add_edge Connections.grow Connections.append_at Map.lookup Map.insert
made = refl

ancestors_exact_example :
    (marked "start" (ancestors graph_of_merging "merge") ≡ true)
    ↔ ∥ Ancestor merging "merge" "start" ∥₁
ancestors_exact_example = ancestors_exact merging graph_of_merging "merge" "start" made
