-- ===== src/Dataplane/Parents.antt =====
-- `Parents` of internal/dataplane/graph.go against the main edges of the workflow.
use n8n_turbo.Prelude.{
  ℕ, zero, suc, ◌≡◌, ◌⊎◌, refl, sym, Bool, true, false, ◌&&◌, String, some, List, [], ◌∷◌, ◌++◌,
  map, arith, ◌==◌, string_eq, str_iff, any, Option-cases, Bool-cases, inl, inr, subst,
}
use n8n_turbo.Prelude.Map.{lookup}
use n8n_turbo.Dataplane.Types.{Workflow, InverseConnection}
use n8n_turbo.Dataplane.Connections.{invert_connections, inputs_of}
use n8n_turbo.Dataplane.Graph.{Graph, StringSet, marked, mark, collect, concat, parents, new_graph}
use n8n_turbo.Dataplane.Wires.{Wire, wires}
use n8n_turbo.Dataplane.Inversion.{
  nth, goes_to, inverses_into, is_negative, index-cases, edges_into-invert_connections,
  invert_connections-eq-none,
}
use n8n_turbo.Dataplane.Ancestry.{In, In-append_left, In-append_right, In-append, marked-mark}
use n8n_turbo.Dataplane.Search.{In-collect}

-- The edge is a main one and leads from `a` to `b`, whichever output and input it has.
abbrev pub joins : String → String → Wire → Bool
joins a b w = w.source == a && (w.edge.node == b && w.connection_type == "main")

-- No name is lost but those already seen.
collect_all :
    (x : String) (seen : StringSet) (names : List String)
    → In x names
    → (marked x seen ≡ true) ⊎ In x (collect seen names)
unfolding collect
collect_all x seen [] i = absurd i
collect_all x seen (n ∷ names) (inl e) = elim (Bool-cases (marked n seen)) [
  | inl old ↦ inl (ground (arith, e, old))
  | inr new ↦ inr (rw (new, collect) (inl e))
]
collect_all x seen (n ∷ names) (inr i) = elim (Bool-cases (marked n seen)) [
  | inl old ↦ rw (old, collect) (collect_all x seen names i)
  | inr new ↦
      rw (new, collect)
        (elim (collect_all x (mark n seen) names i) [
          | inr there ↦ inr (inr there)
          | inl here ↦ elim (Bool-cases (n == x)) [
            | inl same ↦ inr (inl (sym ((str_iff n x).0 same)))
            | inr other ↦ inl (ground (arith, marked-mark n x seen, here, other))
          ]
        ])
]

In-parents :
    (g : Graph) (name x : String)
    → In x (map (λ e. e.node) (concat (inputs_of name "main" g.inverted)))
    → In x (parents g name "main")
unfolding parents lookup
In-parents g name x i = elim (collect_all x [] _ i) [
  | inl never ↦ absurd (ground (arith, never))
  | inr there ↦ there
]

names : List InverseConnection → List String
names es = map (λ e. e.node) es

names-append : (xs ys : List InverseConnection) → names (xs ++ ys) ≡ names xs ++ names ys
unfolding names
names-append [] ys = refl
names-append (x ∷ xs) ys = cc (names-append xs ys)

-- What is in one of the slices is in all of them together.
In-nth :
    (x : String) (i : ℕ) (slices : List (List InverseConnection))
    → In x (names (nth i slices))
    → In x (names (concat slices))
unfolding nth concat names
In-nth x i [] h = h
In-nth x zero (es ∷ slices) h =
    subst (In x) (sym (names-append es (concat slices))) (In-append_left x (names es) _ h)
In-nth x (suc i) (es ∷ slices) h =
    subst (In x) (sym (names-append es (concat slices)))
      (In-append_right x (names es) _ (In-nth x i slices h))

In-some_slice :
    (x : String) (slices : List (List InverseConnection))
    → In x (names (concat slices))
    → (i : ℕ) × In x (names (nth i slices))
unfolding nth concat names
In-some_slice x [] h = absurd h
In-some_slice x (es ∷ slices) h =
    elim (In-append x (names es) (names (concat slices))
      (subst (In x) (names-append es (concat slices)) h)) [
        | inl here ↦ (0, here)
        | inr there ↦ let (i, deep) = In-some_slice x slices there in (suc i, deep)
      ]

-- The edges into an input are wires that join, and the other way round.
inverses_into-joins :
    (x name : String) (i : ℕ) (ws : List Wire)
    → In x (names (inverses_into name "main" i ws))
    → any (joins x name) ws ≡ true
unfolding inverses_into names
inverses_into-joins x name i [] h = absurd h
inverses_into-joins x name i (w ∷ ws) h = elim (Bool-cases (goes_to name "main" i w)) [
  | inr other ↦
      let rest = inverses_into-joins x name i ws (rw (other, inverses_into) at h) in
      ground (arith, rest)
  | inl into ↦ elim (rw (into, inverses_into) at h) [
    | inl e ↦ ground (arith, into, e, str_iff w.source x)
    | inr there ↦ let rest = inverses_into-joins x name i ws there in ground (arith, rest)
  ]
]

joins-inverses_into :
    (x name : String) (ws : List Wire)
    → any is_negative ws ≡ false
    → any (joins x name) ws ≡ true
    → (i : ℕ) × In x (names (inverses_into name "main" i ws))
unfolding inverses_into names
joins-inverses_into x name [] fine h = absurd (ground (arith, h))
joins-inverses_into x name (w ∷ ws) fine h = elim (Bool-cases (joins x name w)) [
  | inl here ↦ elim (index-cases w.edge.index) [
    | inr (k, below) ↦ absurd (ground (arith, fine, below))
    | inl (i, e) ↦
        let into : goes_to name "main" i w ≡ true = ground (arith, here, e) in
        (i, rw (into, inverses_into) (inl (sym ((str_iff w.source x).0 (ground (arith, here))))))
  ]
  | inr other ↦
      let (i, there) =
        joins-inverses_into x name ws (ground (arith, fine)) (ground (arith, h, other)) in
      elim (Bool-cases (goes_to name "main" i w)) [
        | inl into ↦ (i, rw (into, inverses_into) (inr there))
        | inr away ↦ (i, rw (away, inverses_into) there)
      ]
]

new_graph-inverted :
    (w : Workflow) (g : Graph)
    → new_graph w ≡ some g
    → invert_connections w.connections ≡ some g.inverted
unfolding new_graph
new_graph-inverted w g made = elim (Option-cases (invert_connections w.connections)) [
  | inl stuck ↦ absurd (ground (arith, made, stuck))
  | inr (inverted, e) ↦ ground (arith, made, e)
]

not_negative :
    (w : Workflow) (g : Graph)
    → new_graph w ≡ some g
    → any is_negative (wires w.connections) ≡ false
not_negative w g made = elim (Bool-cases (any is_negative (wires w.connections))) [
  | inr fine ↦ fine
  | inl below ↦
      let stuck = (invert_connections-eq-none w.connections).1 below in
      let made_it = new_graph-inverted w g made in absurd (ground (arith, stuck, made_it))
]

-- The names that `Parents` answers are those that some main edge joins to the node.
pub parents-joins :
    (w : Workflow) (g : Graph) (name x : String)
    → new_graph w ≡ some g
    → In x (parents g name "main")
    → any (joins x name) (wires w.connections) ≡ true
unfolding parents names
parents-joins w g name x made i =
    let slices = inputs_of name "main" g.inverted in
    let (j, there) = In-some_slice x slices (In-collect x [] (names (concat slices)) i) in
    let e =
      edges_into-invert_connections w.connections g.inverted name "main" j
        (new_graph-inverted w g made) in
    inverses_into-joins x name j (wires w.connections) (subst (λ es. In x (names es)) e there)

pub joins-parents :
    (w : Workflow) (g : Graph) (name x : String)
    → new_graph w ≡ some g
    → any (joins x name) (wires w.connections) ≡ true
    → In x (parents g name "main")
unfolding names
joins-parents w g name x made h =
    let (j, there) = joins-inverses_into x name (wires w.connections) (not_negative w g made) h in
    let e =
      edges_into-invert_connections w.connections g.inverted name "main" j
        (new_graph-inverted w g made) in
    In-parents g name x
      (In-nth x j (inputs_of name "main" g.inverted) (subst (λ es. In x (names es)) (sym e) there))
