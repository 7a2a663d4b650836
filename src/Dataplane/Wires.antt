-- ===== src/Dataplane/Wires.antt =====
-- The loops of `InvertConnections` (internal/dataplane/connections.go) as one loop over the edges of
-- the workflow.
use n8n_turbo.Prelude.{
  ℕ, suc, ◌≡◌, refl, sym, ◌∙◌, String, Option, none, some, List, [], ◌∷◌, ◌++◌, string_eq,
  Option-cases, inl, inr,
}
use n8n_turbo.Prelude.Map.{Map}
use n8n_turbo.Dataplane.Types.{Connection, Connections, InvertedConnections}
use n8n_turbo.Dataplane.Connections.{
  add_edge, bind, invert_edges, invert_outputs, invert_types, invert_sources,
}

-- One edge, with where it comes from.
pub record Wire : Type 0 where
  pub source : String
  pub connection_type : String
  pub output : ℕ
  pub edge : Connection

unfoldable pub wires_of_edges : String → String → ℕ → List Connection → List Wire
wires_of_edges source ty output [] = []
wires_of_edges source ty output (e ∷ edges) =
    record { source = source; connection_type = ty; output = output; edge = e }
    ∷ wires_of_edges source ty output edges

unfoldable pub wires_of_outputs : String → String → ℕ → List (List Connection) → List Wire
unfolding wires_of_edges
wires_of_outputs source ty output [] = []
wires_of_outputs source ty output (edges ∷ outputs) =
    wires_of_edges source ty output edges ++ wires_of_outputs source ty (suc output) outputs

unfoldable pub wires_of_types : String → Map String (List (List Connection)) → List Wire
unfolding wires_of_outputs
wires_of_types source [] = []
wires_of_types source ((ty, outputs) ∷ types) =
    wires_of_outputs source ty 0 outputs ++ wires_of_types source types

-- All edges, in the order of the loops.
unfoldable pub wires : Connections → List Wire
unfolding wires_of_types
wires [] = []
wires ((source, types) ∷ sources) = wires_of_types source types ++ wires sources

abbrev pub add_wire : Wire → InvertedConnections → Option InvertedConnections
add_wire w inverted = add_edge w.source w.connection_type w.output w.edge inverted

unfoldable pub add_wires : List Wire → InvertedConnections → Option InvertedConnections
add_wires [] inverted = some inverted
add_wires (w ∷ ws) inverted = bind (add_wire w inverted) (add_wires ws)

add_wires-append :
    (xs ys : List Wire) (inverted : InvertedConnections)
    → add_wires (xs ++ ys) inverted ≡ bind (add_wires xs inverted) (add_wires ys)
unfolding add_wires
add_wires-append [] ys inverted = refl
add_wires-append (x ∷ xs) ys inverted = elim (Option-cases (add_wire x inverted)) [
  | inl e ↦ rw e
  | inr (inv, e) ↦ rw e (add_wires-append xs ys inv)
]

bind-cong {ℓ κ} :
    {A : Type ℓ} {B : Type κ} (o o' : Option A) (f g : A → Option B)
    → o ≡ o'
    → ((a : A) → f a ≡ g a)
    → bind o f ≡ bind o' g
bind-cong none o' f g e h = rw (← e) refl
bind-cong (some a) o' f g e h = rw (← e) (h a)

invert_edges-wires :
    (source ty : String) (output : ℕ) (edges : List Connection) (inverted : InvertedConnections)
    → invert_edges source ty output edges inverted
      ≡ add_wires (wires_of_edges source ty output edges) inverted
unfolding invert_edges add_wires wires_of_edges
invert_edges-wires source ty output [] inverted = refl
invert_edges-wires source ty output (e ∷ edges) inverted =
    bind-cong _ _ _ _ refl (invert_edges-wires source ty output edges)

invert_outputs-wires :
    (source ty : String) (output : ℕ) (outputs : List (List Connection))
    (inverted : InvertedConnections)
    → invert_outputs source ty output outputs inverted
      ≡ add_wires (wires_of_outputs source ty output outputs) inverted
unfolding invert_outputs add_wires wires_of_outputs
invert_outputs-wires source ty output [] inverted = refl
invert_outputs-wires source ty output (edges ∷ outputs) inverted =
    bind-cong _ _ _ _ (invert_edges-wires source ty output edges inverted)
      (invert_outputs-wires source ty (suc output) outputs)
    ∙ sym (add_wires-append (wires_of_edges source ty output edges) _ inverted)

invert_types-wires :
    (source : String) (types : Map String (List (List Connection))) (inverted : InvertedConnections)
    → invert_types source types inverted ≡ add_wires (wires_of_types source types) inverted
unfolding invert_types add_wires wires_of_types
invert_types-wires source [] inverted = refl
invert_types-wires source ((ty, outputs) ∷ types) inverted =
    bind-cong _ _ _ _ (invert_outputs-wires source ty 0 outputs inverted)
      (invert_types-wires source types)
    ∙ sym (add_wires-append (wires_of_outputs source ty 0 outputs) _ inverted)

pub invert_sources-wires :
    (connections : Connections) (inverted : InvertedConnections)
    → invert_sources connections inverted ≡ add_wires (wires connections) inverted
unfolding invert_sources add_wires wires
invert_sources-wires [] inverted = refl
invert_sources-wires ((source, types) ∷ sources) inverted =
    bind-cong _ _ _ _ (invert_types-wires source types inverted) (invert_sources-wires sources)
    ∙ sym (add_wires-append (wires_of_types source types) _ inverted)
