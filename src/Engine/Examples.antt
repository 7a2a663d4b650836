-- ===== src/Engine/Examples.antt =====
-- The theorems on internal/engine at a workflow of two nodes and an executor that fails once.
use n8n_turbo.Prelude.{
  ℕ, zero, suc, ◌<◌, ◌≤◌, ◌≡◌, ◌⊎◌, refl, sym, subst, true, false, String, none, some, [], ◌∷◌, pos,
  arith, ◌==◌, string_eq, str_iff, Bool-cases, inl, inr, All, if◌then◌else◌,
}
use n8n_turbo.Prelude.Map
use n8n_turbo.Prelude.Map.{get_or}
use n8n_turbo.Dataplane.Types.{Node, Workflow, RetryConfig}
use n8n_turbo.Dataplane.Connections
use n8n_turbo.Dataplane.Graph
use n8n_turbo.Dataplane.Graph.{Graph, new_graph, index_nodes, output_edges, ancestors}
use n8n_turbo.Engine.Failure.{plain}
use n8n_turbo.Engine.Retry.{Executed, failed, execute_node_with_retry}
use n8n_turbo.Engine.Evaluator
use n8n_turbo.Engine.Evaluator.{ExecuteOptions, exclusive}
use n8n_turbo.Engine.Run.{World}
use n8n_turbo.Engine.Loop.{run_loop, initial_progress, execute_with_options}
use n8n_turbo.Engine.Termination.{Falls, finished, run_loop_finishes}
use n8n_turbo.Engine.Safety.{Untouched, execute_with_options-Untouched}
use n8n_turbo.Engine.Tries.{Retried, Ended, execute_node_with_retry-first}

abbrev answer : Executed
answer = record { output = ([] ∷ []); err = none }

-- The first try fails.
abbrev flaky : ℕ → Executed
flaky zero = failed (plain "busy")
flaky (suc n) = answer

abbrev three_tries : RetryConfig
three_tries = record {
  enabled = true;
  max_tries = pos 3;
  wait_between_tries = pos 5;
  use_exponential_backoff = false;
}

execute_node_with_retry-first_example :
    (r : Executed) × (execute_node_with_retry flaky (λ k. none) (λ k. none) three_tries ≡ some r)
    × ((((true ≡ false) ⊎ (3 ≤ 1)) × (r ≡ flaky 0))
        ⊎ ((true ≡ true)
            × (1 < 3)
            × ((j : ℕ) × (j < 3)
                × ((i : ℕ) → i < j → Retried flaky (λ k. none) (λ k. none) i)
                × Ended flaky (λ k. none) (λ k. none) 3 j r)))
execute_node_with_retry-first_example =
    execute_node_with_retry-first flaky (λ k. none) (λ k. none) three_tries

abbrev plain_node : String → String → Node
plain_node name node_type = record {
  id = name;
  name = name;
  node_type = node_type;
  disabled = false;
  continue_on_fail = false;
  on_error = "";
  retry_on_fail = true;
  max_tries = pos 3;
  wait_between_tries = pos 5;
  use_exponential_backoff = false;
}

abbrev two_nodes : Workflow
two_nodes = record {
  id = "w";
  name = "two nodes";
  nodes = plain_node "start" "trigger" ∷ plain_node "fetch" "http" ∷ [];
  connections =
      (
        "start",
        ("main", (record { node = "fetch"; connection_type = "main"; index = pos 0 } ∷ []) ∷ [])
            ∷ [],
      )
      ∷ [];
}

abbrev graph_of : Graph
graph_of = record {
  workflow = two_nodes;
  nodes = ("start", 0) ∷ ("fetch", 1) ∷ [];
  inverted = ("fetch", ("main", (record { node = "start"; output_idx = 0 } ∷ []) ∷ []) ∷ []) ∷ [];
}

made : new_graph two_nodes ≡ some graph_of
unfolding new_graph index_nodes Connections.invert_connections Connections.invert_sources
    Connections.invert_types Connections.invert_outputs Connections.invert_edges
    Connections.add_edge Connections.grow Connections.append_at Map.lookup Map.insert
made = refl

abbrev height : String → ℕ
height name = if name == "start" then 1 else 0

start_falls :
    (i : ℕ) → All (λ e. height e.node < height "start") (output_edges graph_of "start" "main" i)
unfolding output_edges Map.lookup
start_falls zero = (omega arith, tt)
start_falls (suc i) = tt

no_edges :
    (source : String) (i : ℕ)
    → ("start" == source) ≡ false
    → output_edges graph_of source "main" i ≡ []
unfolding output_edges Map.lookup
no_edges source i e = ground (arith, e)

falls_lem : Falls height graph_of
falls_lem source i = elim (Bool-cases ("start" == source)) [
  | inl e ↦
      subst (λ s. All (λ e. height e.node < height s) (output_edges graph_of s "main" i))
        ((str_iff "start" source).0 e) (start_falls i)
  | inr e ↦ subst (All (λ e. height e.node < height source)) (sym (no_edges source i e)) tt
]

abbrev steady : World
steady = record {
  executor = λ t. some (λ round input. flaky input.run_index);
  credentials = λ round n. none;
  ended = λ round. none;
  before = λ round name k. none;
  during = λ round name k. none;
  message = λ e. "failed";
  now = 0;
  stamp = "";
  compact = λ output. output;
}

abbrev to_fetch : ExecuteOptions
to_fetch = record {
  destination = some (record { node_name = "fetch"; mode = exclusive });
  trigger_node = "";
  trigger_items = [];
  initial_inputs = [];
  start_names = [];
  run_data = [];
  pin_data = [];
}

run_loop_finishes_example :
    finished (
      run_loop steady graph_of none none to_fetch 3 0
        (initial_progress to_fetch (plain_node "start" "trigger" ∷ [])))
    ≡ true
unfolding initial_progress
run_loop_finishes_example =
    run_loop_finishes steady graph_of none none height made falls_lem to_fetch 2 0
      (initial_progress to_fetch (plain_node "start" "trigger" ∷ [])) (omega arith, tt)

execute_with_options-Untouched_example :
    Untouched "fetch" [] (execute_with_options steady 3 two_nodes to_fetch)
unfolding Evaluator.allowed_nodes Evaluator.can_execute_node Graph.node Map.lookup
    Evaluator.in_allowed ancestors Map.insert Evaluator.passes
execute_with_options-Untouched_example =
    execute_with_options-Untouched steady 3 two_nodes to_fetch graph_of
      (some (record { node_name = "fetch"; mode = exclusive })) (some (ancestors graph_of "fetch"))
      "fetch" made refl refl refl
