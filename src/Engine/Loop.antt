-- ===== src/Engine/Loop.antt =====
-- internal/engine/evaluator.go: what the loop of `ExecuteWithOptions` does with the results of a
-- batch, and the loop.
use n8n_turbo.Prelude.{
  ℕ, zero, suc, pos, int_eq, Option, none, some, List, [], ◌∷◌, ◌++◌, length, if◌then◌else◌,
  string_eq, ◌==◌,
}
use n8n_turbo.Prelude.Map.{insert, delete, get_or}
use n8n_turbo.Dataplane.Types.{Node, Workflow}
use n8n_turbo.Dataplane.Graph.{Graph, StringSet, marked, mark, new_graph}
use n8n_turbo.Engine.Failure.{Failure, status_from_error, is_suspend}
use n8n_turbo.Engine.Evaluator.{
  DestinationNode, TaskData, ExecuteOptions, refused, allowed, allowed_nodes, start_queue,
}
use n8n_turbo.Engine.Delivery.{deliver_outputs}
use n8n_turbo.Engine.Run.{
  World, ReadyResult, Progress, Processed, suspended, going, Outcome, succeeded, waiting, stopped,
  canceled, not_started, crashed, unfinished, is_fatal, execute_ready_batch,
}

-- `taskData`, compacted, with its index.
unfoldable pub task_data : World → ReadyResult → ℕ → TaskData
task_data w r index = record {
  execution_status = status_from_error r.err;
  execution_index = index;
  output = w.compact r.output;
  error = r.err;
}

-- The result is noted: the node is queued no more and has one task more.
unfoldable pub note : World → ReadyResult → Progress → Progress
note w r p =
    let tasks = get_or r.node.name [] p.run_data in
    record p {
      queued = delete r.node.name p.queued;
      last_node = r.node.name;
      run_data = insert r.node.name (tasks ++ task_data w r (length tasks) ∷ []) p.run_data;
    }

-- The loop over the nodes that `deliverOutputs` gives.
unfoldable pub enqueue_next : List Node → Progress → Progress
enqueue_next [] p = p
enqueue_next (n ∷ next) p = enqueue_next next (
    if marked n.name p.queued
    then p
    else record p { queue = p.queue ++ n ∷ []; queued = mark n.name p.queued })

module _ (w : World) (g : Graph) (may : Option StringSet)
    (destination : Option DestinationNode) where
  unfoldable pub deliver : ReadyResult → Progress → Progress
  deliver r p =
      let (inputs', next) = deliver_outputs g may destination r.node.name r.output p.inputs in
      enqueue_next next (record p { inputs = inputs' })

  -- What follows the suspension test: a fatal error is the round's if none came before, and after
  -- one nothing is delivered.
  unfoldable pub settle : ReadyResult → Progress → Progress
  settle r p = elim p.stop_err [
    | some first ↦ p
    | none ↦ elim r.err [
      | none ↦ deliver r p
      | some e ↦ if is_fatal r.node e then record p { stop_err = some e } else deliver r p
    ]
  ]

  unfoldable pub process_one : ReadyResult → Progress → Processed
  process_one r p =
      let p' = note w r p in
      elim r.err [
        | none ↦ going (settle r p')
        | some e ↦ if is_suspend e then suspended p' e else going (settle r p')
      ]

  unfoldable pub process : List ReadyResult → Progress → Processed
  process [] p = going p
  process (r ∷ results) p = elim (process_one r p) [
    | suspended p' e ↦ suspended p' e
    | going p' ↦ process results p'
  ]

  -- The end of a round: the error that stops the workflow, or the next round.
  unfoldable pub unless_stopped : (Progress → Outcome) → Progress → Option Failure → Outcome
  unless_stopped next p (some e) = stopped p e
  unless_stopped next p none = next p

  unfoldable pub after_results : (Progress → Outcome) → Processed → Outcome
  unfolding unless_stopped
  after_results next (suspended p e) = waiting p e
  after_results next (going p) = unless_stopped next p p.stop_err

  unfoldable pub run_batch : (Progress → Outcome) → Progress → Option (List ReadyResult) → Outcome
  unfolding after_results process
  run_batch next p none = crashed
  run_batch next p (some results) =
      after_results next (process results (record p { queue = []; stop_err = none }))

  module _ (options : ExecuteOptions) where
    -- A round over the nodes of the queue; `next` is the rest of the loop.
    unfoldable pub run_round : (Progress → Outcome) → ℕ → List Node → Progress → Outcome
    unfolding run_batch execute_ready_batch
    run_round next round [] p = succeeded p
    run_round next round (n ∷ batch) p = elim (w.ended round) [
      | some e ↦ canceled e
      | none ↦ run_batch next p (execute_ready_batch w g options round (n ∷ batch) p)
    ]

    unfoldable pub run_loop : ℕ → ℕ → Progress → Outcome
    unfolding run_round
    run_loop zero round p = unfinished
    run_loop (suc fuel) round p = run_round (run_loop fuel (suc round)) round p.queue p

unfoldable pub mark_all : List Node → StringSet → StringSet
mark_all [] queued = queued
mark_all (n ∷ nodes) queued = mark_all nodes (mark n.name queued)

unfoldable pub initial_progress : ExecuteOptions → List Node → Progress
initial_progress options queue = record {
  run_data = options.run_data;
  inputs =
      if options.trigger_node == ""
      then options.initial_inputs
      else insert options.trigger_node (insert (pos 0) options.trigger_items [])
          options.initial_inputs;
  queue = queue;
  queued = mark_all queue [];
  last_node = "";
  stop_err = none;
}

unfoldable pub execute_with_options : World → ℕ → Workflow → ExecuteOptions → Outcome
execute_with_options w fuel workflow options = elim (new_graph workflow) [
  | none ↦ crashed
  | some g ↦ elim (allowed_nodes g options.destination) [
    | refused ↦ not_started
    | allowed destination may ↦ elim (start_queue workflow may destination options) [
      | none ↦ crashed
      | some queue ↦ run_loop w g may destination options fuel 0 (initial_progress options queue)
    ]
  ]
]
