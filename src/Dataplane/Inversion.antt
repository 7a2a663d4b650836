-- ===== src/Dataplane/Inversion.antt =====
-- `InvertConnections` (internal/dataplane/connections.go) against the list of the workflow's edges.
use mathlib.Core.List.{append-nil, append_assoc}
use n8n_turbo.Prelude.{
  ℕ, zero, suc, ◌≡◌, ◌≢◌, ◌⊎◌, ◌↔◌, refl, sym, ◌∙◌, Bool, true, false, ◌&&◌, String, none, some,
  List, [], ◌∷◌, ◌++◌, arith, if◌then◌else◌, ℤ, pos, negsuc, int_eqb, nat_eqb, ◌==◌, string_eq,
  str_iff, any, Option-cases, Bool-cases, inl, inr, subst,
}
use n8n_turbo.Prelude.Map
use n8n_turbo.Prelude.Map.{Map, lookup-insert}
use n8n_turbo.Dataplane.Types.{Connections, InverseConnection, InvertedConnections}
use n8n_turbo.Dataplane.Connections.{grow, append_at, add_edge, invert_connections, inputs_of}
use n8n_turbo.Dataplane.Wires.{Wire, wires, add_wire, add_wires, invert_sources-wires}

-- The edges into input `i` of a node, by connection type; none where the slice is too short.
unfoldable pub nth {ℓ} : {A : Type ℓ} → ℕ → List (List A) → List A
nth i [] = []
nth zero (x ∷ xs) = x
nth (suc i) (x ∷ xs) = nth i xs

abbrev pub edges_into : String → String → ℕ → InvertedConnections → List InverseConnection
edges_into target ty i inverted = nth i (inputs_of target ty inverted)

abbrev pub goes_to : String → String → ℕ → Wire → Bool
goes_to target ty i w =
    w.edge.node == target && (w.connection_type == ty && int_eqb w.edge.index (pos i))

abbrev pub inverse : Wire → InverseConnection
inverse w = record { node = w.source; output_idx = w.output }

-- The wires into one input, as the inversion records them.
unfoldable pub inverses_into : String → String → ℕ → List Wire → List InverseConnection
inverses_into target ty i [] = []
inverses_into target ty i (w ∷ ws) =
    let rest = inverses_into target ty i ws in
    if goes_to target ty i w then inverse w ∷ rest else rest

nth-append_at {ℓ} :
    {A : Type ℓ} (i j : ℕ) (a : A) (xs : List (List A))
    → nth j (append_at i a (grow i xs)) ≡ nth j xs ++ (if nat_eqb i j then a ∷ [] else [])
unfolding nth append_at grow
nth-append_at zero zero a [] = refl
nth-append_at zero (suc j) a [] = ground arith
nth-append_at (suc i) zero a [] = ground arith
nth-append_at (suc i) (suc j) a [] = ground (arith, nth-append_at i j a [])
nth-append_at zero zero a (x ∷ xs) = refl
nth-append_at zero (suc j) a (x ∷ xs) = ground (arith, append-nil (nth j xs))
nth-append_at (suc i) zero a (x ∷ xs) = ground (arith, append-nil x)
nth-append_at (suc i) (suc j) a (x ∷ xs) = ground (arith, nth-append_at i j a xs)

-- What one edge adds to the slices of inputs.
added :
    (w : Wire) (i : ℕ) (target ty : String) (inverted : InvertedConnections) (j : ℕ)
    → w.edge.index ≡ pos i
    → edges_into target ty j (
        Map.insert w.edge.node
          (Map.insert w.connection_type
            (append_at i (inverse w) (grow i (inputs_of w.edge.node w.connection_type inverted)))
            (Map.get_or w.edge.node [] inverted))
          inverted)
      ≡ edges_into target ty j inverted ++ (if goes_to target ty j w then inverse w ∷ [] else [])
added w i target ty inverted j e =
    let slices =
      append_at i (inverse w) (grow i (inputs_of w.edge.node w.connection_type inverted)) in
    let types = Map.get_or w.edge.node [] inverted in
    ground (
      arith,
      lookup-insert w.edge.node target (Map.insert w.connection_type slices types) inverted,
      lookup-insert w.connection_type ty slices types,
      str_iff w.edge.node target,
      str_iff w.connection_type ty,
      nth-append_at i j (inverse w) (inputs_of w.edge.node w.connection_type inverted),
      append-nil (edges_into target ty j inverted),
    )

pub index-cases : (z : ℤ) → ((n : ℕ) × (z ≡ pos n)) ⊎ ((n : ℕ) × (z ≡ negsuc n))
index-cases (pos n) = inl (n, refl)
index-cases (negsuc n) = inr (n, refl)

edges_into-add_wire :
    (w : Wire) (target ty : String) (j : ℕ) (inverted inverted' : InvertedConnections)
    → add_wire w inverted ≡ some inverted'
    → edges_into target ty j inverted'
      ≡ edges_into target ty j inverted ++ (if goes_to target ty j w then inverse w ∷ [] else [])
unfolding add_edge
edges_into-add_wire w target ty j inverted inverted' h = elim (index-cases w.edge.index) [
  | inl (i, e) ↦
      subst
        (λ inv.
          edges_into target ty j inv
          ≡ edges_into target ty j inverted
            ++ (if goes_to target ty j w then inverse w ∷ [] else []))
        (ground (arith, e, h)) (added w i target ty inverted j e)
  | inr (i, e) ↦ absurd (ground (arith, e, h))
]

edges_into-add_wires :
    (ws : List Wire) (target ty : String) (j : ℕ) (inverted inverted' : InvertedConnections)
    → add_wires ws inverted ≡ some inverted'
    → edges_into target ty j inverted'
      ≡ edges_into target ty j inverted ++ inverses_into target ty j ws
unfolding add_wires inverses_into
edges_into-add_wires [] target ty j inverted inverted' h =
    ground (arith, h, append-nil (edges_into target ty j inverted))
edges_into-add_wires (w ∷ ws) target ty j inverted inverted' h =
    elim (Option-cases (add_wire w inverted)) [
      | inl e ↦ absurd (ground (arith, e, h))
      | inr (inv, e) ↦ ground (
        arith,
        edges_into-add_wires ws target ty j inv inverted' (ground (arith, e, h)),
        edges_into-add_wire w target ty j inverted inv e,
        append_assoc (edges_into target ty j inverted) (inverse w ∷ [])
            (inverses_into target ty j ws),
        append-nil (edges_into target ty j inverted),
      )
    ]

abbrev pub is_negative : Wire → Bool
is_negative w = elim w.edge.index [ pos n ↦ false | negsuc n ↦ true ]

add_wires-eq-none :
    (ws : List Wire) (inverted : InvertedConnections)
    → (any is_negative ws ≡ true → add_wires ws inverted ≡ none)
      × (any is_negative ws ≡ false → add_wires ws inverted ≢ none)
unfolding add_wires add_edge
add_wires-eq-none [] inverted = (λ h. cc, λ h e. cc)
add_wires-eq-none (w ∷ ws) inverted = elim (index-cases w.edge.index) [
  | inl (i, e) ↦ rw e (add_wires-eq-none ws _)
  | inr (i, e) ↦ rw e (λ h. refl, λ h. absurd (cc))
]

edges_into-empty : (target ty : String) (j : ℕ) → edges_into target ty j [] ≡ []
unfolding nth Map.lookup
edges_into-empty target ty j = refl

-- If the inversion succeeds, each input of each node has exactly the edges that lead to it, with
-- their source and output, in the order of the loops over the connections.
pub edges_into-invert_connections :
    (connections : Connections) (inverted : InvertedConnections) (target ty : String) (i : ℕ)
    → invert_connections connections ≡ some inverted
    → edges_into target ty i inverted ≡ inverses_into target ty i (wires connections)
unfolding invert_connections nth Map.lookup
edges_into-invert_connections connections inverted target ty i h =
    edges_into-add_wires (wires connections) target ty i [] inverted
      (sym (invert_sources-wires connections []) ∙ h)

-- The inversion panics exactly when some edge has an input index below zero.
pub invert_connections-eq-none :
    (connections : Connections)
    → (invert_connections connections ≡ none) ↔ (any is_negative (wires connections) ≡ true)
unfolding invert_connections
invert_connections-eq-none connections =
    let e = invert_sources-wires connections [] in
    let p = add_wires-eq-none (wires connections) [] in
    (
      λ h. elim (Bool-cases (any is_negative (wires connections))) [
        | inl y ↦ y
        | inr n ↦ absurd (p.1 n (sym e ∙ h))
      ],
      λ y. e ∙ p.0 y,
    )
