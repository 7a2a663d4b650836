-- ===== src/Engine/Start.antt =====
-- `startNodes` of internal/engine/evaluator.go: where the queue of the first round comes from.
use n8n_turbo.Prelude.{
  not, ◌||◌, ◌≡◌, refl, subst, arith, true, false, String, Bool, Option, none, some, List, [], ◌∷◌,
  if◌then◌else◌, ◌==◌, string_eq, All, Option-cases, Bool-cases, inl, inr,
}
use n8n_turbo.Prelude.Map.{Map}
use n8n_turbo.Dataplane.Types.{Node, Workflow, InvertedConnections}
use n8n_turbo.Dataplane.Connections.{node_by_name, select_start, start_nodes, invert_connections}
use n8n_turbo.Dataplane.Graph.{StringSet}
use n8n_turbo.Engine.Evaluator.{
  DestinationNode, NodeInputs, ExecuteOptions, can_execute_node, named_start, input_start,
  filter_start, start_queue, is_nil,
}

-- What holds of the entries of a list that is kept, or not.
keep-All {ℓ} :
    (P : Node → Type ℓ) (b : Bool) (n : Node) (rest : List Node)
    → (b ≡ true → P n)
    → All P rest
    → All P (if b then n ∷ rest else rest)
keep-All P true n rest f h = (f refl, h)
keep-All P false n rest f h = h

drop-All {ℓ} :
    (P : Node → Type ℓ) (b : Bool) (xs rest : List Node)
    → (b ≡ false → All P xs)
    → All P rest
    → All P (if b then rest else xs)
drop-All P true xs rest f h = h
drop-All P false xs rest f h = f refl

pub node_by_name-All {ℓ} :
    (P : Node → Type ℓ) (nodes : List Node) (name : String) (n : Node)
    → All P nodes
    → node_by_name nodes name ≡ some n
    → P n
unfolding node_by_name
node_by_name-All P [] name n h e = absurd (ground arith)
node_by_name-All P (m ∷ nodes) name n h e = elim (Bool-cases (m.name == name)) [
  | inl same ↦ subst P {x = m} {y = n} (ground (arith, e, same)) h.0
  | inr other ↦ node_by_name-All P nodes name n h.1 (ground (arith, e, other))
]

select_start-All {ℓ} :
    (P : Node → Type ℓ) (inverted : InvertedConnections) (nodes : List Node)
    → All P nodes
    → All P (select_start inverted nodes)
unfolding select_start
select_start-All P inverted [] h = tt
select_start-All P inverted (n ∷ nodes) h =
    keep-All P _ n (select_start inverted nodes) (λ e. h.0) (select_start-All P inverted nodes h.1)

not_or : (a b : Bool) → (a || not b) ≡ false → b ≡ true
not_or a b h = ground arith

module _ {ℓ κ} (P : Node → Type ℓ) (Q : Node → Type κ) (may : Option StringSet)
    (d : Option DestinationNode)
    (f : (n : Node) → P n → can_execute_node n.name may d ≡ true → Q n) where
  filter_start-All : (nodes : List Node) → All P nodes → All Q (filter_start may d nodes)
  unfolding filter_start
  filter_start-All [] h = tt
  filter_start-All (n ∷ nodes) h =
      keep-All Q _ n (filter_start may d nodes) (f n h.0) (filter_start-All nodes h.1)

  input_start-All :
      (initial : Map String NodeInputs) (nodes : List Node)
      → All P nodes
      → All Q (input_start may d initial nodes)
  unfolding input_start
  input_start-All initial [] h = tt
  input_start-All initial (n ∷ nodes) h =
      let tail = input_start-All initial nodes h.1 in
      drop-All Q _ _ (input_start may d initial nodes)
        (λ e.
          keep-All Q _ n (input_start may d initial nodes) (λ x. f n h.0 (not_or n.disabled _ e))
            tail)
        tail

  named_start-All :
      (nodes : List Node) (names : List String)
      → All P nodes
      → (w : Workflow) → w.nodes ≡ nodes
      → All Q (named_start w may d names)
  unfolding named_start
  named_start-All nodes [] h w e = tt
  named_start-All nodes (name ∷ names) h w e =
      at (node_by_name w.nodes name) refl (named_start-All nodes names h w e)
    where
      at :
          (o : Option Node)
          → node_by_name w.nodes name ≡ o
          → All Q (named_start w may d names)
          → All Q (elim o [
            | none ↦ named_start w may d names
            | some n ↦
                if n.disabled || not (can_execute_node n.name may d)
                then named_start w may d names
                else n ∷ named_start w may d names
          ])
      at none found tail = tail
      at (some n) found tail =
          drop-All Q _ (n ∷ named_start w may d names) (named_start w may d names)
            (λ b. (
              f n
                  (node_by_name-All P nodes name n h
                    (subst (λ l. node_by_name l name ≡ some n) e found))
                  (not_or n.disabled _ b),
              tail,
            ))
            tail

  -- Without a trigger node, the nodes of the first queue are the workflow's and may run.
  pub start_queue-All :
      (w : Workflow) (options : ExecuteOptions) (queue : List Node)
      → (options.trigger_node == "") ≡ true
      → All P w.nodes
      → start_queue w may d options ≡ some queue
      → All Q queue
  unfolding start_queue start_nodes
  start_queue-All w options queue untriggered h e = elim (Bool-cases (is_nil options.start_names)) [
    | inr named ↦
        subst (All Q) {x = named_start w may d options.start_names} {y = queue}
          (ground (arith, e, untriggered, named))
          (named_start-All w.nodes options.start_names h w refl)
    | inl unnamed ↦ elim (Bool-cases (is_nil options.initial_inputs)) [
      | inr given ↦
          subst (All Q) {x = input_start may d options.initial_inputs w.nodes} {y = queue}
            (ground (arith, e, untriggered, unnamed, given))
            (input_start-All options.initial_inputs w.nodes h)
      | inl fresh ↦ elim (Option-cases (invert_connections w.connections)) [
        | inl panics ↦ absurd (ground (arith, e, untriggered, unnamed, fresh, panics))
        | inr (inverted, c) ↦
            subst (All Q) {x = filter_start may d (select_start inverted w.nodes)} {y = queue}
              (ground (arith, e, untriggered, unnamed, fresh, c))
              (filter_start-All (select_start inverted w.nodes)
                (select_start-All P inverted w.nodes h))
      ]
    ]
  ]
