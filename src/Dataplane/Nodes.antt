-- ===== src/Dataplane/Nodes.antt =====
-- Nodes by name, and what a node's settings come to (internal/dataplane/types.go, graph.go and
-- connections.go).
use mathlib.Core.List.{append_assoc}
use n8n_turbo.Prelude.{
  length-append, ℕ, suc, ◌≤◌, ◌≡◌, refl, sym, ◌∙◌, true, String, Option, none, some, List, [], ◌∷◌,
  ◌++◌, arith, if◌then◌else◌, pos_part, positive, ◌==◌, string_eq, str_iff, get_elem?, length,
  Bool-cases, Option-cases, inl, inr, subst,
}
use n8n_turbo.Prelude.Map
use n8n_turbo.Prelude.Map.{Map, lookup-insert}
use n8n_turbo.Dataplane.Types.{Node, retry_config}
use n8n_turbo.Dataplane.Connections.{bind, node_by_name}
use n8n_turbo.Dataplane.Graph.{Graph, index_nodes, node, new_graph}

-- Whatever a node's settings are, it is tried between once and ten times, with a positive wait.
pub retry_config_bounds :
    (n : Node)
    → (1 ≤ pos_part (retry_config n).max_tries)
      × (pos_part (retry_config n).max_tries ≤ 10)
      × (positive (retry_config n).wait_between_tries ≡ true)
unfolding retry_config
retry_config_bounds n = ground arith

-- The last node of a name, which `Graph.Node` finds.
unfoldable pub last_by_name : List Node → String → Option Node
last_by_name [] name = none
last_by_name (n ∷ nodes) name = elim (last_by_name nodes name) [
  | some m ↦ some m
  | none ↦ if n.name == name then some n else none
]

get_elem?-append_length {ℓ} :
    {A : Type ℓ} (xs ys : List A) → get_elem? (xs ++ ys) (length xs) ≡ get_elem? ys 0
get_elem?-append_length [] ys = refl
get_elem?-append_length (x ∷ xs) ys = get_elem?-append_length xs ys

-- The map of `NewGraph` after the nodes from `i` on, read at a name.
lookup-index_nodes :
    (before rest : List Node) (name : String) (nodes : Map String ℕ) (i : ℕ)
    → i ≡ length before
    → bind (Map.lookup name (index_nodes i rest nodes)) (get_elem? (before ++ rest))
      ≡ (elim (last_by_name rest name) [
        | some m ↦ some m
        | none ↦ bind (Map.lookup name nodes) (get_elem? (before ++ rest))
      ])
unfolding index_nodes last_by_name
lookup-index_nodes before [] name nodes i e = refl
lookup-index_nodes before (n ∷ rest) name nodes i e =
    let shift : (before ++ n ∷ []) ++ rest ≡ before ++ n ∷ rest =
      append_assoc before (n ∷ []) rest in
    let ih =
      subst
        (λ l.
          bind (Map.lookup name (index_nodes (suc i) rest (Map.insert n.name i nodes)))
            (get_elem? l)
          ≡ (elim (last_by_name rest name) [
            | some m ↦ some m
            | none ↦ bind (Map.lookup name (Map.insert n.name i nodes)) (get_elem? l)
          ]))
        shift
        (lookup-index_nodes (before ++ n ∷ []) rest name (Map.insert n.name i nodes) (suc i)
          (omega (arith, length-append before (n ∷ [])))) in
    let at : get_elem? (before ++ n ∷ rest) i ≡ some n =
      subst (λ k. get_elem? (before ++ n ∷ rest) k ≡ some n) (sym e)
        (get_elem?-append_length before (n ∷ rest)) in
    ground (arith, ih, at, lookup-insert n.name name i nodes)

-- `Graph.Node` finds the last node of the name, and nothing if there is none.
pub node_last :
    (g : Graph) (name : String)
    → g.nodes ≡ index_nodes 0 g.workflow.nodes []
    → node g name ≡ last_by_name g.workflow.nodes name
unfolding node Map.lookup
node_last g name e =
    let h = lookup-index_nodes [] g.workflow.nodes name [] 0 refl in rw e (ground (arith, h))

-- No two nodes of the list have one name.
abbrev pub Distinct : List Node → Type 0
Distinct [] = Unit
Distinct (n ∷ nodes) = (node_by_name nodes n.name ≡ none) × Distinct nodes

last_by_name-none :
    (nodes : List Node) (name : String)
    → node_by_name nodes name ≡ none
    → last_by_name nodes name ≡ none
unfolding node_by_name last_by_name
last_by_name-none [] name h = refl
last_by_name-none (n ∷ nodes) name h = ground (arith, last_by_name-none nodes name)

last-first :
    (nodes : List Node) (name : String)
    → Distinct nodes
    → last_by_name nodes name ≡ node_by_name nodes name
unfolding node_by_name last_by_name
last-first [] name d = refl
last-first (n ∷ nodes) name d = elim (Bool-cases (n.name == name)) [
  | inl same ↦
      let e : n.name ≡ name = (str_iff n.name name).0 same in
      let gone = last_by_name-none nodes name (subst (λ x. node_by_name nodes x ≡ none) e d.0) in
      ground (arith, gone, same)
  | inr other ↦ ground (arith, last-first nodes name d.1, other)
]

-- In a workflow whose nodes have distinct names, the graph and `NodeByName` find the same node under
-- each name, or both find none.
pub node-eq-node_by_name :
    (g : Graph) (name : String)
    → new_graph g.workflow ≡ some g
    → Distinct g.workflow.nodes
    → node g name ≡ node_by_name g.workflow.nodes name
unfolding new_graph
node-eq-node_by_name g name h d =
    node_last g name (ground (arith, h)) ∙ last-first g.workflow.nodes name d

last_by_name-name :
    (nodes : List Node) (name : String) (n : Node)
    → last_by_name nodes name ≡ some n
    → n.name ≡ name
unfolding last_by_name
last_by_name-name [] name n h = absurd (ground arith)
last_by_name-name (m ∷ nodes) name n h = elim (Option-cases (last_by_name nodes name)) [
  | inl e ↦ ground (arith, h, e, str_iff m.name name)
  | inr (k, e) ↦ last_by_name-name nodes name n (ground (arith, h, e))
]

pub named_lem :
    (g : Graph) (name : String) (n : Node)
    → new_graph g.workflow ≡ some g
    → node g name ≡ some n
    → n.name ≡ name
unfolding new_graph
named_lem g name n made h =
    last_by_name-name g.workflow.nodes name n (sym (node_last g name (ground (arith, made))) ∙ h)
