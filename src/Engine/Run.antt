-- ===== src/Engine/Run.antt =====
-- internal/engine/evaluator.go: the loop of `ExecuteWithOptions`, with `executeReadyBatch`,
-- `executeReadyNode` and `executeNode`. The nodes of a batch run at once on the same inputs and run
-- data; their results are read in the batch's order, so the model runs them in that order.
use n8n_turbo.Prelude.{
  ℕ, Bool, true, false, ◌||◌, String, Option, none, some, List, [], ◌∷◌, if◌then◌else◌, string_eq,
  int_eq,
}
use n8n_turbo.Prelude.Map.{Map, lookup, get_or}
use n8n_turbo.Dataplane.Types.{
  Node, Item, Output, main_output, stop_workflow, effective_on_error, retry_config,
}
use n8n_turbo.Dataplane.Connections.{bind}
use n8n_turbo.Dataplane.Graph.{Graph, StringSet, node, children}
use n8n_turbo.Engine.Failure.{Failure, not_registered, is_context_error, build_error_output}
use n8n_turbo.Engine.Retry.{Executed, failed, execute_node_with_retry}
use n8n_turbo.Engine.Evaluator.{NodeInputs, RunData, ExecuteOptions, flatten_inputs}

-- `ExecuteInput`, with the fields that the engine computes.
pub record ExecuteInput : Type 0 where
  pub node : Node
  pub next_nodes : List Node
  pub input_data : Output
  pub run_data : RunData
  pub run_index : ℕ

-- What the loop asks of the world, by the number of the round: the executor registered for a type,
-- the error of `options.Credentials`, the context's error ahead of a round, ahead of a try and in
-- the wait after it, the text of an error, the clock, and the compaction of the output that is kept.
pub record World : Type 0 where
  pub executor : String → Option (ℕ → ExecuteInput → Executed)
  pub credentials : ℕ → Node → Option Failure
  pub ended : ℕ → Option Failure
  pub before : ℕ → String → ℕ → Option Failure
  pub during : ℕ → String → ℕ → Option Failure
  pub message : Failure → String
  pub now : ℕ
  pub stamp : String
  pub compact : Output → Output

-- `readyResult`
pub record ReadyResult : Type 0 where
  pub node : Node
  pub output : Output
  pub err : Option Failure

-- The variables of the loop; `stop_err` is the one of the round.
pub record Progress : Type 0 where
  pub run_data : RunData
  pub inputs : Map String NodeInputs
  pub queue : List Node
  pub queued : StringSet
  pub last_node : String
  pub stop_err : Option Failure

-- How a round's loop over the results ends: it returns at a suspension, or goes through them all.
pub data Processed : Type 0 where
  suspended : Progress → Failure → Processed
  going : Progress → Processed

-- What `ExecuteWithOptions` returns. `crashed` is a panic; `unfinished` is the model's fuel.
pub data Outcome : Type 0 where
  succeeded : Progress → Outcome
  waiting : Progress → Failure → Outcome
  stopped : Progress → Failure → Outcome
  canceled : Failure → Outcome
  not_started crashed unfinished : Outcome

-- `downstreamNodes`
unfoldable pub found_nodes : Graph → List String → List Node
found_nodes g [] = []
found_nodes g (name ∷ names) =
    let rest = found_nodes g names in elim (node g name) [ none ↦ rest | some n ↦ n ∷ rest ]

unfoldable pub downstream_nodes : Graph → String → List Node
unfolding found_nodes children
downstream_nodes g source = found_nodes g (children g source "main")

-- `pinnedOutput`
unfoldable pub pinned_output : Map String (List Item) → String → Option Output
pinned_output pin_data name = bind (lookup name pin_data) (λ items. some (main_output items))

-- The test on a node's error that stops the workflow.
unfoldable pub is_fatal : Node → Failure → Bool
is_fatal n e =
    is_context_error e || elim (effective_on_error n) [ stop_workflow ↦ true | _ ↦ false ]

-- The end of `executeNode`.
unfoldable pub recover : World → Node → Output → Executed → Executed
recover w n input_data r = elim r.err [
  | none ↦ r
  | some e ↦
      if is_fatal n e
      then r
      else record r { output = build_error_output w.message w.now w.stamp n input_data e }
]

unfoldable pub execute_node : World → Graph → ℕ → Node → NodeInputs → RunData → Option Executed
execute_node w g round n inputs run_data = elim (w.executor n.node_type) [
  | none ↦ some (failed (not_registered n.node_type))
  | some execute ↦ elim (w.credentials round n) [
    | some e ↦ some (failed e)
    | none ↦ bind (flatten_inputs inputs) λ input_data.
        bind
          (execute_node_with_retry
            (λ index. execute round (record {
              node = n;
              next_nodes = downstream_nodes g n.name;
              input_data = input_data;
              run_data = run_data;
              run_index = index;
            }))
            (w.before round n.name) (w.during round n.name) (retry_config n))
          (λ r. some (recover w n input_data r))
  ]
]

unfoldable pub execute_ready_node :
    World → Graph → ExecuteOptions → ℕ → Node → NodeInputs → RunData → Option Executed
execute_ready_node w g options round n inputs run_data =
    elim (pinned_output options.pin_data n.name) [
      | some output ↦ some (record { output = output; err = none })
      | none ↦ execute_node w g round n inputs run_data
    ]

unfoldable pub execute_ready_batch :
    World → Graph → ExecuteOptions → ℕ → List Node → Progress → Option (List ReadyResult)
execute_ready_batch w g options round [] p = some []
execute_ready_batch w g options round (n ∷ batch) p =
    bind (execute_ready_node w g options round n (get_or n.name [] p.inputs) p.run_data) λ r.
      bind (execute_ready_batch w g options round batch p)
        λ results. some (record { node = n; output = r.output; err = r.err } ∷ results)
