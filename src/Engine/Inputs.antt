-- ===== src/Engine/Inputs.antt =====
-- `flattenInputs` of internal/engine/evaluator.go.
use n8n_turbo.Prelude.{
  ◌↔◌, ◌≡◌, refl, true, false, Bool, ℤ, pos, negsuc, List, [], ◌∷◌, none, any, arith,
}
use n8n_turbo.Dataplane.Types.{Item, Output}
use n8n_turbo.Engine.Evaluator.{NodeInputs, fill, put_at, flatten_inputs}

abbrev pub below_zero : ℤ × List Item → Bool
below_zero (pos i, items) = false
below_zero (negsuc i, items) = true

fill-eq-none :
    (inputs : NodeInputs) (output : Output)
    → (fill inputs output ≡ none) ↔ (any below_zero inputs ≡ true)
unfolding fill
fill-eq-none [] output = (λ h. absurd (ground (arith, h)), λ h. absurd (ground (arith, h)))
fill-eq-none ((pos i, items) ∷ rest) output = fill-eq-none rest (put_at i items output)
fill-eq-none ((negsuc i, items) ∷ rest) output = (λ h. refl, λ h. refl)

-- `flattenInputs` panics exactly when a node has an input with an index below zero.
pub flatten_inputs-eq-none :
    (inputs : NodeInputs) → (flatten_inputs inputs ≡ none) ↔ (any below_zero inputs ≡ true)
unfolding flatten_inputs
flatten_inputs-eq-none [] = (λ h. absurd (ground (arith, h)), λ h. absurd (ground (arith, h)))
flatten_inputs-eq-none (e ∷ es) = fill-eq-none (e ∷ es) _
