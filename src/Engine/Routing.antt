-- ===== src/Engine/Routing.antt =====
-- What `deliverOutputs` of internal/engine/evaluator.go makes ready: nodes at the ends of the
-- source's edges that may run and are enabled.
use n8n_turbo.Prelude.{
  ◌≡◌, ◌⊎◌, sym, subst, true, false, arith, ℕ, suc, String, Option, some, List, [], ◌∷◌, ◌++◌,
  Bool-cases, inl, inr, All, All-append, Option-cases,
}
use n8n_turbo.Dataplane.Types.{Node, Connection, Item, Output}
use n8n_turbo.Dataplane.Graph.{Graph, StringSet, node, output_edges}
use n8n_turbo.Engine.Evaluator.{DestinationNode, NodeInputs, can_execute_node}
use n8n_turbo.Engine.Delivery.{
  Delivery, announce, deliver_edge, deliver_edges, deliver_from, deliver_outputs, ends_here,
}
use n8n_turbo.Prelude.Map.{Map}

module _ (g : Graph) (may : Option StringSet) (destination : Option DestinationNode) where
  -- At most the node that is found is added, and the edge was tested.
  added :
      (items : List Item) (edge : Connection) (d : Delivery) (n : Node)
      → node g edge.node ≡ some n
      → n.disabled ≡ false
      → ((deliver_edge g may destination items edge d).ready ≡ d.ready)
        ⊎ ((can_execute_node edge.node may destination ≡ true)
            × ((deliver_edge g may destination items edge d).ready ≡ d.ready ++ n ∷ []))
  unfolding deliver_edge announce
  added items edge d n e on = ground (arith, e, on)

  deliver_edge-ready :
      (items : List Item) (edge : Connection) (d : Delivery)
      → ((deliver_edge g may destination items edge d).ready ≡ d.ready)
        ⊎ ((n : Node) × (can_execute_node edge.node may destination ≡ true)
            × (node g edge.node ≡ some n)
            × (n.disabled ≡ false)
            × ((deliver_edge g may destination items edge d).ready ≡ d.ready ++ n ∷ []))
  unfolding deliver_edge announce
  deliver_edge-ready items edge d = elim (Option-cases (node g edge.node)) [
    | inl e ↦ inl (ground (arith, e))
    | inr (n, e) ↦ elim (Bool-cases n.disabled) [
      | inl off ↦ inl (ground (arith, e, off))
      | inr on ↦ elim (added items edge d n e on) [
        | inl same ↦ inl same
        | inr (can, r) ↦ inr (n, can, e, on, r)
      ]
    ]
  ]

module _ {ℓ} (g : Graph) (may : Option StringSet) (destination : Option DestinationNode)
    (P : Node → Type ℓ) where
  -- `P` holds of the node at the end of the edge, if that may run and is enabled.
  abbrev pub Leads : Connection → Type ℓ
  Leads edge =
      (n : Node)
      → can_execute_node edge.node may destination ≡ true
      → node g edge.node ≡ some n
      → n.disabled ≡ false
      → P n

  deliver_edge-All :
      (items : List Item) (edge : Connection) (d : Delivery)
      → Leads edge
      → All P d.ready
      → All P (deliver_edge g may destination items edge d).ready
  deliver_edge-All items edge d f h = elim (deliver_edge-ready g may destination items edge d) [
    | inl e ↦ subst (All P) (sym e) h
    | inr (n, can, e, on, r) ↦
        subst (All P) (sym r) (All-append P d.ready (n ∷ []) h (f n can e on, tt))
  ]

  deliver_edges-All :
      (items : List Item) (edges : List Connection) (d : Delivery)
      → All Leads edges
      → All P d.ready
      → All P (deliver_edges g may destination items edges d).ready
  unfolding deliver_edges
  deliver_edges-All items [] d f h = h
  deliver_edges-All items (edge ∷ edges) d f h =
      deliver_edges-All items edges _ f.1 (deliver_edge-All items edge d f.0 h)

  deliver_from-All :
      (source : String) (index : ℕ) (outputs : Output) (d : Delivery)
      → ((i : ℕ) → All Leads (output_edges g source "main" i))
      → All P d.ready
      → All P (deliver_from g may destination source index outputs d).ready
  unfolding deliver_from
  deliver_from-All source index [] d f h = h
  deliver_from-All source index ([] ∷ outputs) d f h =
      deliver_from-All source (suc index) outputs d f h
  deliver_from-All source index ((x ∷ items) ∷ outputs) d f h =
      deliver_from-All source (suc index) outputs _ f
        (deliver_edges-All (x ∷ items) (output_edges g source "main" index) d (f index) h)

  -- All that is made ready is at the end of an edge of the source.
  pub deliver_outputs-All :
      (source : String) (output : Output) (inputs : Map String NodeInputs)
      → ((i : ℕ) → All Leads (output_edges g source "main" i))
      → All P (deliver_outputs g may destination source output inputs).1
  unfolding deliver_outputs
  deliver_outputs-All source output inputs f =
      elim (Bool-cases (ends_here g may destination source)) [
        | inl over ↦ rw over tt
        | inr on ↦ rw on (deliver_from-All source 0 output _ f tt)
      ]
