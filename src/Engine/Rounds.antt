-- ===== src/Engine/Rounds.antt =====
-- The rounds of `ExecuteWithOptions` (internal/engine/evaluator.go): what each result keeps, the
-- round keeps.
use n8n_turbo.Prelude.{
  ◌≡◌, refl, string_eq, ◌∙◌, ◌⊎◌, if◌then◌else◌, sym, subst, true, false, arith, ℕ, Option, none,
  some, List, [], ◌∷◌, ◌++◌, Bool-cases, inl, inr, All, All-append, Option-cases,
}
use n8n_turbo.Prelude.Map.{get_or}
use n8n_turbo.Dataplane.Types.{Node}
use n8n_turbo.Dataplane.Graph.{Graph, StringSet, mark, marked, output_edges}
use n8n_turbo.Engine.Failure.{Failure, is_suspend}
use n8n_turbo.Engine.Evaluator.{DestinationNode, ExecuteOptions}
use n8n_turbo.Engine.Run.{
  World, ReadyResult, Progress, Processed, suspended, going, Outcome, succeeded, waiting, stopped,
  canceled, crashed, is_fatal, execute_ready_node, execute_ready_batch,
}
use n8n_turbo.Engine.Loop.{
  note, enqueue_next, deliver, settle, process_one, process, unless_stopped, after_results,
  run_batch, run_round,
}
use n8n_turbo.Engine.Routing.{Leads, deliver_outputs-All}

-- The results of a batch are of its nodes.
pub batch-All {ℓ} :
    (w : World) (g : Graph) (options : ExecuteOptions) (round : ℕ) (F : Node → Type ℓ)
    (batch : List Node) (p : Progress) (results : List ReadyResult)
    → execute_ready_batch w g options round batch p ≡ some results
    → All F batch
    → All (λ r. F r.node) results
unfolding execute_ready_batch
batch-All w g options round F [] p results e h =
    subst (All (λ r. F r.node)) {x = []} {y = results} (ground (arith, e)) tt
batch-All w g options round F (n ∷ batch) p results e h =
    elim (Option-cases
      (execute_ready_node w g options round n (get_or n.name [] p.inputs) p.run_data)) [
        | inl c ↦ absurd (ground (arith, e, c))
        | inr (r, c) ↦ elim (Option-cases (execute_ready_batch w g options round batch p)) [
          | inl d ↦ absurd (ground (arith, e, c, d))
          | inr (rs, d) ↦
              subst (All (λ r. F r.node))
                {x = record { node = n; output = r.output; err = r.err } ∷ rs} {y = results}
                (ground (arith, e, c, d)) (h.0, batch-All w g options round F batch p rs d h.1)
        ]
      ]

enqueue_next-run_data :
    (next : List Node) (p : Progress) → (enqueue_next next p).run_data ≡ p.run_data
unfolding enqueue_next
enqueue_next-run_data [] p = refl
enqueue_next-run_data (n ∷ next) p = enqueue_next-run_data next _ ∙ ground arith

enqueue_next-All {ℓ} :
    (P : Node → Type ℓ) (next : List Node) (p : Progress)
    → All P next
    → All P p.queue
    → All P (enqueue_next next p).queue
unfolding enqueue_next
enqueue_next-All P [] p f h = h
enqueue_next-All P (n ∷ next) p f h =
    enqueue_next-All P next _ f.1 (one (Bool-cases (marked n.name p.queued)))
  where
    p' : Progress
    p' = record p { queue = p.queue ++ n ∷ []; queued = mark n.name p.queued }

    one :
        (marked n.name p.queued ≡ true) ⊎ (marked n.name p.queued ≡ false)
        → All P (if marked n.name p.queued then p else p').queue
    one (inl in_queue) = subst (λ b. All P (if b then p else p').queue) (sym in_queue) h
    one (inr new) =
        subst (λ b. All P (if b then p else p').queue) (sym new)
          (All-append P p.queue (n ∷ []) h (f.0, tt))

module _ (w : World) (g : Graph) (may : Option StringSet)
    (destination : Option DestinationNode) where
  pub deliver-run_data :
      (r : ReadyResult) (p : Progress) → (deliver w g may destination r p).run_data ≡ p.run_data
  unfolding deliver
  deliver-run_data r p = enqueue_next-run_data _ _

  pub deliver-All {ℓ} :
      (P : Node → Type ℓ) (r : ReadyResult) (p : Progress)
      → ((i : ℕ) → All (Leads g may destination P) (output_edges g r.node.name "main" i))
      → All P p.queue
      → All P (deliver w g may destination r p).queue
  unfolding deliver
  deliver-All P r p f h =
      enqueue_next-All P _ _
        (deliver_outputs-All g may destination P r.node.name r.output p.inputs f) h

  settle-cases :
      (r : ReadyResult) (p : Progress)
      → (settle w g may destination r p ≡ p)
        ⊎ (settle w g may destination r p ≡ deliver w g may destination r p)
        ⊎ ((e : Option Failure) × (settle w g may destination r p ≡ record p { stop_err = e }))
  unfolding settle
  settle-cases r p = elim (Option-cases p.stop_err) [
    | inr (e, c) ↦ inl (ground (arith, c))
    | inl c ↦ elim (Option-cases r.err) [
      | inl d ↦ inr (inl (ground (arith, c, d)))
      | inr (e, d) ↦ elim (Bool-cases (is_fatal r.node e)) [
        | inl fatal ↦ inr (inr (some e, ground (arith, c, d, fatal)))
        | inr mild ↦ inr (inl (ground (arith, c, d, mild)))
      ]
    ]
  ]

  process_one-cases :
      (r : ReadyResult) (p : Progress)
      → (process_one w g may destination r p ≡ going (settle w g may destination r (note w r p)))
        ⊎ ((e : Failure) × (process_one w g may destination r p ≡ suspended (note w r p) e))
  unfolding process_one
  process_one-cases r p = elim (Option-cases r.err) [
    | inl d ↦ inl (ground (arith, d))
    | inr (e, d) ↦ elim (Bool-cases (is_suspend e)) [
      | inl waits ↦ inr (e, ground (arith, d, waits))
      | inr on ↦ inl (ground (arith, d, on))
    ]
  ]

  module _ {ℓ} (J : Progress → Type ℓ) where
    abbrev pub Held : Processed → Type ℓ
    Held (suspended p e) = J p
    Held (going p) = J p

    -- Noting the result, and delivering its output, keep `J`.
    abbrev pub Fit : ReadyResult → Type ℓ
    Fit r =
        ((p : Progress) → J p → J (note w r p))
        × ((p : Progress) → J p → J (deliver w g may destination r p))

    settle-Held :
        (r : ReadyResult) (p : Progress)
        → ((q : Progress) (e : Option Failure) → J q → J (record q { stop_err = e }))
        → ((q : Progress) → J q → J (deliver w g may destination r q))
        → J p
        → J (settle w g may destination r p)
    settle-Held r p stop go h = elim (settle-cases r p) [
      | inl e ↦ subst J (sym e) h
      | inr (inl e) ↦ subst J (sym e) (go p h)
      | inr (inr (e, c)) ↦ subst J (sym c) (stop p e h)
    ]

    process_one-Held :
        (r : ReadyResult) (p : Progress)
        → ((q : Progress) (e : Option Failure) → J q → J (record q { stop_err = e }))
        → Fit r
        → J p
        → Held (process_one w g may destination r p)
    process_one-Held r p stop fit h = elim (process_one-cases r p) [
      | inl e ↦ subst Held (sym e) (settle-Held r (note w r p) stop fit.1 (fit.0 p h))
      | inr (e, c) ↦ subst Held (sym c) (fit.0 p h)
    ]

    Held-next :
        (results : List ReadyResult) (a : Processed)
        → ((q : Progress) → J q → Held (process w g may destination results q))
        → Held a
        → Held (elim a [
          | suspended p' e ↦ suspended p' e
          | going p' ↦ process w g may destination results p'
        ])
    Held-next results (suspended p' e) go k = k
    Held-next results (going p') go k = go p' k

    pub process-Held :
        (results : List ReadyResult) (p : Progress)
        → ((q : Progress) (e : Option Failure) → J q → J (record q { stop_err = e }))
        → All Fit results
        → J p
        → Held (process w g may destination results p)
    unfolding process
    process-Held [] p stop fits h = h
    process-Held (r ∷ results) p stop fits h =
        Held-next results (process_one w g may destination r p)
          (λ q k. process-Held results q stop fits.1 k) (process_one-Held r p stop fits.0 h)

    module _ {κ} (Q : Outcome → Type κ) (next : Progress → Outcome) where
      after_results-lem :
          (a : Processed)
          → Held a
          → ((q : Progress) → J q → Q (next q))
          → ((q : Progress) (e : Failure) → J q → Q (waiting q e) × Q (stopped q e))
          → Q (after_results w g may destination next a)
      unfolding after_results unless_stopped
      after_results-lem (suspended q e) k go end = (end q e k).0
      after_results-lem (going q) k go end = at_end q.stop_err
        where
          at_end : (o : Option Failure) → Q (unless_stopped w g may destination next q o)
          at_end none = go q k
          at_end (some e) = (end q e k).1

      -- What holds of every way that a round can end.
      pub run_round-lem :
          (options : ExecuteOptions) (round : ℕ) (batch : List Node) (p : Progress)
          → ((results : List ReadyResult)
              → execute_ready_batch w g options round batch p ≡ some results
              → Held
                  (process w g may destination results (record p { queue = []; stop_err = none })))
          → ((q : Progress) → J q → Q (next q))
          → ((q : Progress) (e : Failure) → J q → Q (waiting q e) × Q (stopped q e))
          → (batch ≡ [] → Q (succeeded p))
          → ((e : Failure) → Q (canceled e))
          → Q crashed
          → Q (run_round w g may destination options next round batch p)
      unfolding run_round run_batch
      run_round-lem options round [] p held go end done out crash = done refl
      run_round-lem options round (n ∷ batch) p held go end done out crash =
          at_context (w.ended round)
        where
          at_results :
              (o : Option (List ReadyResult))
              → execute_ready_batch w g options round (n ∷ batch) p ≡ o
              → Q (run_batch w g may destination next p o)
          at_results none e = crash
          at_results (some results) e = after_results-lem _ (held results e) go end

          at_context :
              (o : Option Failure)
              → Q (elim o [
                | some e ↦ canceled e
                | none ↦
                    run_batch w g may destination next p
                      (execute_ready_batch w g options round (n ∷ batch) p)
              ])
          at_context (some e) = out e
          at_context none = at_results (execute_ready_batch w g options round (n ∷ batch) p) refl
