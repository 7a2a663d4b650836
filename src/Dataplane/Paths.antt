-- ===== src/Dataplane/Paths.antt =====
-- `Ancestors` of internal/dataplane/graph.go against the main edges of the workflow.
use mathlib.Core.Bool.{Bool-set}
use mathlib.Core.Logic.{∥∥₁_elim}
use n8n_turbo.Prelude.{◌≡◌, ◌↔◌, true, String, some, string_eq, any}
use n8n_turbo.Dataplane.Types.{Workflow}
use n8n_turbo.Dataplane.Graph.{Graph, marked, new_graph, ancestors}
use n8n_turbo.Dataplane.Wires.{wires}
use n8n_turbo.Dataplane.Ancestry.{Reached, reached_self, reached_parent}
use n8n_turbo.Dataplane.Search.{ancestors-Reached}
use n8n_turbo.Dataplane.Parents.{joins, parents-joins, joins-parents}

-- `Ancestor w n a`: a path of main edges of the workflow leads from `a` to `n`.
pub data Ancestor (w : Workflow) (n : String) : String → Type 0 where
  self : Ancestor w n n
  edge :
      {a b : String}
      → Ancestor w n b
      → any (joins a b) (wires w.connections) ≡ true
      → Ancestor w n a

Reached-Ancestor :
    (w : Workflow) (g : Graph) (n x : String)
    → new_graph w ≡ some g
    → Reached g n x
    → Ancestor w n x
Reached-Ancestor w g n x made reached_self = self
Reached-Ancestor w g n x made (reached_parent {a} {b} h i) =
    edge (Reached-Ancestor w g n b made h) (parents-joins w g b x made i)

Ancestor-Reached :
    (w : Workflow) (g : Graph) (n x : String)
    → new_graph w ≡ some g
    → Ancestor w n x
    → Reached g n x
Ancestor-Reached w g n x made self = reached_self
Ancestor-Reached w g n x made (edge {a} {b} h i) =
    reached_parent (Ancestor-Reached w g n b made h) (joins-parents w g b x made i)

-- For a graph that `NewGraph` makes of a workflow: the set that `Ancestors` returns holds a name
-- exactly when a path of the workflow's main edges, of any length, leads from it to the node.
pub ancestors_exact :
    (w : Workflow) (g : Graph) (n x : String)
    → new_graph w ≡ some g
    → (marked x (ancestors g n) ≡ true) ↔ ∥ Ancestor w n x ∥₁
ancestors_exact w g n x made = (
  λ h. ∣ Reached-Ancestor w g n x made ((ancestors-Reached g n x).0 h) ∣₁,
  λ h.
      ∥∥₁_elim h (Bool-set _ _)
        (λ a. (ancestors-Reached g n x).1 (Ancestor-Reached w g n x made a)),
)
