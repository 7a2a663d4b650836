-- ===== src/Engine/Termination.antt =====
-- The loop of `ExecuteWithOptions` (internal/engine/evaluator.go) on a graph without cycles.
use n8n_turbo.Prelude.{
  ℕ, zero, suc, ◌<◌, ◌≡◌, refl, sym, subst, arith, Option, some, List, [], ◌∷◌, String, Bool, true,
  false, All, All-map,
}
use n8n_turbo.Dataplane.Types.{Node}
use n8n_turbo.Dataplane.Graph.{Graph, StringSet, new_graph, output_edges}
use n8n_turbo.Dataplane.Nodes.{named_lem}
use n8n_turbo.Engine.Evaluator.{DestinationNode, ExecuteOptions}
use n8n_turbo.Engine.Run.{World, ReadyResult, Progress, Outcome, unfinished}
use n8n_turbo.Engine.Loop.{note, process, run_round, run_loop}
use n8n_turbo.Engine.Routing.{Leads}
use n8n_turbo.Engine.Rounds.{batch-All, process-Held, deliver-All, Held, run_round-lem}

-- The model's fuel was enough.
abbrev pub finished : Outcome → Bool
finished unfinished = false
finished _ = true

-- A height that falls along every main edge.
abbrev pub Falls : (String → ℕ) → Graph → Type 0
Falls h g =
    (source : String) (i : ℕ) → All (λ e. h e.node < h source) (output_edges g source "main" i)

abbrev pub Below : (String → ℕ) → ℕ → List Node → Type 0
Below h bound = All (λ n. h n.name < bound)

module _ (w : World) (g : Graph) (may : Option StringSet) (destination : Option DestinationNode)
    (h : String → ℕ) (made : new_graph g.workflow ≡ some g) (falls : Falls h g) where
  Leads-lower :
      (bound : ℕ) (source : String)
      → h source < suc bound
      → (i : ℕ)
      → All (Leads g may destination (λ n. h n.name < bound)) (output_edges g source "main" i)
  Leads-lower bound source low i =
      All-map (λ e. h e.node < h source) (Leads g may destination (λ n. h n.name < bound))
        (output_edges g source "main" i)
        (λ e less n can found on.
          let same = named_lem g e.node n made found in
          subst (λ x. h x < bound) (sym same) (omega (arith, less, low)))
        (falls source i)

  processed_lower :
      (bound : ℕ) (results : List ReadyResult) (p : Progress)
      → All (λ r. h r.node.name < suc bound) results
      → Below h bound p.queue
      → Held w g may destination
          (λ q. Below h bound q.queue)
          (process w g may destination results p)
  unfolding note
  processed_lower bound results p low start =
      process-Held w g may destination (λ q. Below h bound q.queue) results p (λ q e k. k)
        (All-map (λ r. h r.node.name < suc bound) _ results
          (λ r l. (
            λ q k. k,
            λ q k. deliver-All w g may destination _ r q (Leads-lower bound r.node.name l) k,
          ))
          low)
        start

  Below-zero : (nodes : List Node) → Below h 0 nodes → nodes ≡ []
  Below-zero [] low = refl
  Below-zero (n ∷ nodes) low = absurd (omega (arith, low.0))

  -- On a graph that `NewGraph` made, whose main edges all fall in some height: if the nodes of the
  -- queue are lower than the fuel, then one round more than the fuel is enough for the loop to end.
  pub run_loop_finishes :
      (options : ExecuteOptions) (fuel round : ℕ) (p : Progress)
      → Below h fuel p.queue
      → finished (run_loop w g may destination options (suc fuel) round p) ≡ true
  unfolding run_loop run_round
  run_loop_finishes options zero round p low =
      subst
        (λ b.
          finished (
            run_round w g may destination options
              (run_loop w g may destination options 0 (suc round)) round b p)
          ≡ true)
        (sym (Below-zero p.queue low)) refl
  run_loop_finishes options (suc fuel) round p low =
      run_round-lem w g may destination (λ q. Below h fuel q.queue) (λ o. finished o ≡ true)
        (run_loop w g may destination options (suc fuel) (suc round)) options round p.queue p
        (λ results e.
          processed_lower fuel results _
            (batch-All w g options round (λ n. h n.name < suc fuel) p.queue p results e low) tt)
        (λ q k. run_loop_finishes options fuel (suc round) q k) (λ q e k. (refl, refl)) (λ e. refl)
        (λ e. refl) refl
