-- ===== src/Dataplane/Search.antt =====
-- The loop of `Ancestors` (internal/dataplane/graph.go) over its queue.
use n8n_turbo.Prelude.{
  ℕ, zero, suc, ◌+◌, ◌≤◌, ◌<◌, ◌≡◌, refl, sym, true, false, String, List, [], ◌∷◌, ◌++◌, map, arith,
  ◌==◌, string_eq, str_iff, beq_refl, Bool-cases, inl, inr, subst, length, length-append, not,
  count_if,
}
use n8n_turbo.Prelude.Map
use n8n_turbo.Prelude.Map.{Map, lookup-insert, get_or-cons_hit, get_or-cons_miss}
use n8n_turbo.Dataplane.Types.{InverseConnection, InvertedConnections}
use n8n_turbo.Dataplane.Connections.{inputs_of}
use n8n_turbo.Dataplane.Graph.{
  Graph, StringSet, marked, mark, collect, concat, parents, visit, ancestors_loop, sources_of_types,
  sources, ancestors,
}
use n8n_turbo.Dataplane.Ancestry.{
  In, In-append_left, In-append_right, marked-mark, Reached, reached_self, reached_parent,
  visit_lem, Searched, Searched-visit,
}

-- How many of the nodes `us` the search has not marked.
abbrev unseen : StringSet → List String → ℕ
unseen set us = count_if (λ u. not (marked u set)) us

unseen-mark-le :
    (p : String) (set : StringSet) (us : List String) → unseen (mark p set) us ≤ unseen set us
unseen-mark-le p set [] = omega arith
unseen-mark-le p set (u ∷ us) = ground (arith, marked-mark p u set, unseen-mark-le p set us)

unseen-mark-lt :
    (p : String) (set : StringSet) (us : List String)
    → marked p set ≡ false
    → In p us
    → unseen (mark p set) us < unseen set us
unseen-mark-lt p set [] new i = absurd i
unseen-mark-lt p set (u ∷ us) new (inl e) =
    ground (arith, marked-mark p u set, unseen-mark-le p set us, e, str_iff p u)
unseen-mark-lt p set (u ∷ us) new (inr i) =
    ground (arith, marked-mark p u set, unseen-mark-lt p set us new i)

visit-measure :
    (us ps : List String) (set : StringSet) (queue : List String)
    → ((x : String) → In x ps → In x us)
    → unseen (visit ps set queue).0 us + length (visit ps set queue).1
      ≤ unseen set us + length queue
unfolding visit
visit-measure us [] set queue h = omega arith
visit-measure us (p ∷ ps) set queue h = elim (Bool-cases (marked p set)) [
  | inl old ↦ rw (old, visit) (visit-measure us ps set queue (λ x i. h x (inr i)))
  | inr new ↦
      rw (new, visit)
        (omega (
          arith,
          visit-measure us ps (mark p set) (queue ++ p ∷ []) (λ x i. h x (inr i)),
          unseen-mark-lt p set us new (h p (inl refl)),
          length-append queue (p ∷ []),
        ))
]

In-cons : (x n : String) (xs ys : List String) → (In x xs → In x ys) → In x (n ∷ xs) → In x (n ∷ ys)
In-cons x n xs ys f (inl e) = inl e
In-cons x n xs ys f (inr i) = inr (f i)

pub In-collect :
    (x : String) (seen : StringSet) (names : List String) → In x (collect seen names) → In x names
unfolding collect
In-collect x seen [] h = h
In-collect x seen (n ∷ names) h = elim (Bool-cases (marked n seen)) [
  | inl old ↦ inr (In-collect x seen names (rw (old, collect) at h))
  | inr new ↦
      In-cons x n (collect (mark n seen) names) names (In-collect x (mark n seen) names)
        (rw (new, collect) at h)
]

-- The sources of the edges into one node are among those of all edges.
In-sources_of_types :
    (x ty : String) (types : Map String (List (List InverseConnection)))
    → In x (map (λ e. e.node) (concat (Map.get_or ty [] types)))
    → In x (sources_of_types types)
unfolding sources_of_types concat Map.lookup
In-sources_of_types x ty [] h = h
In-sources_of_types x ty ((j, edges) ∷ types) h = elim (Bool-cases (j == ty)) [
  | inl same ↦ In-append_left x (map (λ e. e.node) (concat edges)) (sources_of_types types) (
      subst (λ es. In x (map (λ e. e.node) (concat es))) (get_or-cons_hit ty j edges [] types same)
        h)
  | inr other ↦ In-append_right x (map (λ e. e.node) (concat edges)) (sources_of_types types) (
      In-sources_of_types x ty types (
        subst (λ es. In x (map (λ e. e.node) (concat es)))
          (get_or-cons_miss ty j edges [] types other) h))
]

In-sources :
    (x name ty : String) (inverted : InvertedConnections)
    → In x (map (λ e. e.node) (concat (inputs_of name ty inverted)))
    → In x (sources inverted)
unfolding sources concat Map.lookup
In-sources x name ty [] h = h
In-sources x name ty ((j, types) ∷ inverted) h = elim (Bool-cases (j == name)) [
  | inl same ↦ In-append_left x (sources_of_types types) (sources inverted) (
      In-sources_of_types x ty types (
        subst (λ ts. In x (map (λ e. e.node) (concat (Map.get_or ty [] ts))))
          (get_or-cons_hit name j types [] inverted same) h))
  | inr other ↦ In-append_right x (sources_of_types types) (sources inverted) (
      In-sources x name ty inverted (
        subst (λ ts. In x (map (λ e. e.node) (concat (Map.get_or ty [] ts))))
          (get_or-cons_miss name j types [] inverted other) h))
]

parents-sources :
    (g : Graph) (name x : String) → In x (parents g name "main") → In x (sources g.inverted)
unfolding parents
parents-sources g name x h = In-sources x name "main" g.inverted (In-collect x [] _ h)

ancestors_loop_lem :
    (fuel : ℕ) (g : Graph) (n : String) (set : StringSet) (queue : List String)
    → Searched g n set queue
    → unseen set (sources g.inverted) + length queue < fuel
    → Searched g n (ancestors_loop fuel g set queue) []
unfolding ancestors_loop
ancestors_loop_lem zero g n set queue s h = elim h [ ]
ancestors_loop_lem (suc fuel) g n set [] s h = s
ancestors_loop_lem (suc fuel) g n set (current ∷ queue) s h =
    ancestors_loop_lem fuel g n (visit (parents g current "main") set queue).0
      (visit (parents g current "main") set queue).1
      (Searched-visit g n current set queue _ _ s (visit_lem (parents g current "main") set queue))
      (omega (
        arith,
        visit-measure (sources g.inverted) (parents g current "main") set queue
            (parents-sources g current),
      ))

marked-root : (n : String) → marked n (mark n []) ≡ true
marked-root n = ground (arith, marked-mark n n [], beq_refl n)

root-only : (n x : String) → marked x (mark n []) ≡ true → x ≡ n
unfolding Map.lookup
root-only n x h = ground (arith, marked-mark n x [], str_iff n x, h)

start_search : (g : Graph) (n : String) → Searched g n (mark n []) (n ∷ [])
start_search g n = record {
  root = marked-root n;
  sound = λ x h. subst (Reached g n) (sym (root-only n x h)) reached_self;
  waiting = λ x. only_self x;
  closed = λ x y h i. inl (inl (root-only n x h));
}
  where
    only_self : (x : String) → In x (n ∷ []) → Reached g n x
    only_self x (inl e) = subst (Reached g n) (sym e) reached_self
    only_self x (inr h) = absurd h

unseen-le : (set : StringSet) (us : List String) → unseen set us ≤ length us
unseen-le set [] = omega arith
unseen-le set (u ∷ us) = ground (arith, unseen-le set us)

found : (g : Graph) (n : String) → Searched g n (ancestors g n) []
unfolding ancestors
found g n =
    ancestors_loop_lem (suc (suc (length (sources g.inverted)))) g n (mark n []) (n ∷ [])
      (start_search g n) (omega (arith, unseen-le (mark n []) (sources g.inverted)))

complete : (g : Graph) (n x : String) → Reached g n x → marked x (ancestors g n) ≡ true
complete g n x reached_self = (found g n).root
complete g n x (reached_parent {a} {b} h i) = elim ((found g n).closed b x (complete g n b h) i) [
  | inl q ↦ absurd q
  | inr m ↦ m
]

pub ancestors-Reached :
    (g : Graph) (n x : String)
    → (marked x (ancestors g n) ≡ true → Reached g n x)
      × (Reached g n x → marked x (ancestors g n) ≡ true)
ancestors-Reached g n x = ((found g n).sound x, complete g n x)
