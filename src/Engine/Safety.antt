-- ===== src/Engine/Safety.antt =====
-- Destination runs of `ExecuteWithOptions` (internal/engine/evaluator.go): what runs is on the way to
-- the destination.
use n8n_turbo.Prelude.{
  ℕ, zero, suc, ◌≡◌, ◌≢◌, refl, sym, ◌∙◌, subst, ap, arith, true, false, String, Option, none, some,
  List, [], ◌==◌, string_eq, str_iff, All, All-of, All-map, Option-cases, inl, inr,
}
use n8n_turbo.Prelude.Map.{get_or, insert, lookup-insert}
use n8n_turbo.Dataplane.Types.{Node, Workflow, Connection}
use n8n_turbo.Dataplane.Graph.{Graph, StringSet, new_graph}
use n8n_turbo.Dataplane.Connections.{invert_connections}
use n8n_turbo.Dataplane.Nodes.{named_lem}
use n8n_turbo.Engine.Evaluator.{
  DestinationNode, ExecuteOptions, RunData, TaskData, can_execute_node, allowed, allowed_nodes,
  start_queue,
}
use n8n_turbo.Engine.Run.{
  World, ReadyResult, Progress, Outcome, succeeded, waiting, stopped, crashed,
}
use n8n_turbo.Engine.Loop.{note, deliver, run_loop, initial_progress, execute_with_options}
use n8n_turbo.Engine.Routing.{Leads}
use n8n_turbo.Engine.Rounds.{batch-All, process-Held, deliver-All, deliver-run_data, run_round-lem}
use n8n_turbo.Engine.Start.{start_queue-All}

-- The run data that an outcome returns, if it returns any.
abbrev pub returned : Outcome → Option RunData
returned (succeeded p) = some p.run_data
returned (waiting p e) = some p.run_data
returned (stopped p e) = some p.run_data
returned _ = none

-- If the outcome returns run data, the tasks of `x` in it are `tasks`.
abbrev pub Untouched : String → List TaskData → Outcome → Type 0
Untouched x tasks o = elim (returned o) [
  | none ↦ Unit
  | some tasks_of ↦ get_or x [] tasks_of ≡ tasks
]

get_or-insert :
    (name x : String) (tasks : List TaskData) (m : RunData)
    → name ≢ x
    → get_or x [] (insert name tasks m) ≡ get_or x [] m
get_or-insert name x tasks m ne = ground (arith, lookup-insert name x tasks m, str_iff name x, ne)

new_graph_again :
    (workflow : Workflow) (g : Graph) → new_graph workflow ≡ some g → new_graph g.workflow ≡ some g
unfolding new_graph
new_graph_again workflow g made = elim (Option-cases (invert_connections workflow.connections)) [
  | inl e ↦ absurd (ground (arith, made, e))
  | inr (i, e) ↦
      subst (λ v. new_graph v ≡ some g) {x = workflow} {y = g.workflow} (ground (arith, made, e))
        made
]

note-other :
    (w : World) (r : ReadyResult) (p : Progress) (x : String)
    → r.node.name ≢ x
    → get_or x [] (note w r p).run_data ≡ get_or x [] p.run_data
unfolding note
note-other w r p x ne = get_or-insert r.node.name x _ p.run_data ne

module _ (w : World) (g : Graph) (may : Option StringSet) (destination : Option DestinationNode)
    (made : new_graph g.workflow ≡ some g) where
  abbrev CanRun : Node → Type 0
  CanRun n = can_execute_node n.name may destination ≡ true

  Leads-allowed : (edges : List Connection) → All (Leads g may destination CanRun) edges
  Leads-allowed edges = All-of (Leads g may destination CanRun) edges (λ e n can found on.
      subst (λ y. can_execute_node y may destination ≡ true) (sym (named_lem g e.node n made found))
        can)

  module _ (x : String) (tasks : List TaskData)
      (barred : can_execute_node x may destination ≡ false) where
    -- Only nodes that may run are queued, and `x` has the tasks that it had.
    abbrev Kept : Progress → Type 0
    Kept q = All CanRun q.queue × (get_or x [] q.run_data ≡ tasks)

    other : (n : Node) → CanRun n → n.name ≢ x
    other n can e =
        absurd (ground (arith, can, barred, ap (λ y. can_execute_node y may destination) e))

    Kept-fit :
        (r : ReadyResult)
        → CanRun r.node
        → ((q : Progress) → Kept q → Kept (note w r q))
          × ((q : Progress) → Kept q → Kept (deliver w g may destination r q))
    unfolding note
    Kept-fit r can = (
      λ q k. (k.0, note-other w r q x (other r.node can) ∙ k.1),
      λ q k. (
        deliver-All w g may destination CanRun r q (λ i. Leads-allowed _) k.0,
        ap (get_or x []) (deliver-run_data w g may destination r q) ∙ k.1,
      ),
    )

    pub run_loop-Untouched :
        (options : ExecuteOptions) (fuel round : ℕ) (p : Progress)
        → Kept p
        → Untouched x tasks (run_loop w g may destination options fuel round p)
    unfolding run_loop
    run_loop-Untouched options zero round p k = tt
    run_loop-Untouched options (suc fuel) round p k =
        run_round-lem w g may destination Kept (Untouched x tasks)
          (run_loop w g may destination options fuel (suc round)) options round p.queue p
          (λ results e.
            process-Held w g may destination Kept results _ (λ q o h. h)
              (All-map (λ r. CanRun r.node) _ results Kept-fit
                (batch-All w g options round CanRun p.queue p results e k.0))
              (tt, k.1))
          (λ q h. run_loop-Untouched options fuel (suc round) q h) (λ q e h. (h.1, h.1)) (λ e. k.1)
          (λ e. tt) tt

run_loop_never :
    (w : World) (fuel : ℕ) (workflow : Workflow) (options : ExecuteOptions) (g : Graph)
    (destination : Option DestinationNode) (may : Option StringSet) (x : String)
    → new_graph workflow ≡ some g
    → (options.trigger_node == "") ≡ true
    → can_execute_node x may destination ≡ false
    → (o : Option (List Node)) → start_queue workflow may destination options ≡ o
    → Untouched x (get_or x [] options.run_data) (elim o [
      | none ↦ crashed
      | some queue ↦ run_loop w g may destination options fuel 0 (initial_progress options queue)
    ])
unfolding initial_progress
run_loop_never w fuel workflow options g destination may x made untriggered barred none e = tt
run_loop_never w fuel workflow options g destination may x made untriggered barred (some queue) e =
    run_loop-Untouched w g may destination (new_graph_again workflow g made) x _ barred options fuel
      0 (initial_progress options queue)
      (
        start_queue-All (λ n. n ≡ n) (λ n. can_execute_node n.name may destination ≡ true) may
            destination (λ n t can. can) workflow options queue untriggered
            (All-of (λ n. n ≡ n) workflow.nodes (λ n. refl)) e,
        refl,
      )

execute_with_options-eq :
    (w : World) (fuel : ℕ) (workflow : Workflow) (options : ExecuteOptions) (g : Graph)
    (destination : Option DestinationNode) (may : Option StringSet)
    → new_graph workflow ≡ some g
    → allowed_nodes g options.destination ≡ allowed destination may
    → execute_with_options w fuel workflow options
      ≡ elim (start_queue workflow may destination options) [
        | none ↦ crashed
        | some queue ↦ run_loop w g may destination options fuel 0 (initial_progress options queue)
      ]
unfolding execute_with_options
execute_with_options-eq w fuel workflow options g destination may made may_eq =
    ground (arith, made, may_eq)

-- In a run to a destination and without a trigger node, a node that is neither the destination nor
-- an ancestor of it, and in an exclusive run the destination itself, is never executed: if the run
-- returns run data, that node has the tasks that it had before.
pub execute_with_options-Untouched :
    (w : World) (fuel : ℕ) (workflow : Workflow) (options : ExecuteOptions) (g : Graph)
    (destination : Option DestinationNode) (may : Option StringSet) (x : String)
    → new_graph workflow ≡ some g
    → allowed_nodes g options.destination ≡ allowed destination may
    → (options.trigger_node == "") ≡ true
    → can_execute_node x may destination ≡ false
    → Untouched x (get_or x [] options.run_data) (execute_with_options w fuel workflow options)
execute_with_options-Untouched w fuel workflow options g destination may x made may_eq untriggered
      barred =
    subst (Untouched x (get_or x [] options.run_data))
      (sym (execute_with_options-eq w fuel workflow options g destination may made may_eq))
      (run_loop_never w fuel workflow options g destination may x made untriggered barred
        (start_queue workflow may destination options) refl)
