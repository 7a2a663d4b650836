-- ===== src/Flatted/Seen.antt =====
-- What the parser of internal/flatted/flatted.go has seen, and the calls that come to an end of the code.
use n8n_turbo.Prelude.{
  ℕ, zero, suc, ◌≤◌, ◌<◌, none, some, List, [], ◌∷◌, length, get_elem?, ◌≡◌, ap, ◌∙◌, arith,
  nat_eqb, Bool-cases, inl, inr, nat_eqb_iff,
}
use mathlib.Core.Option.{none-ne-some}
use n8n_turbo.Flatted.Value.{Value}
use n8n_turbo.Flatted.Parse.{done, failed, out_of_fuel, and_then, Cache, remember, Made}

-- How many of the first indices are not seen.
unfoldable pub unseen : ℕ → Cache → ℕ
unseen zero cache = 0
unseen (suc n) cache =
    let rest = unseen n cache in elim (cache n) [ none ↦ suc rest | some v ↦ rest ]

-- What is seen stays so.
abbrev pub Grows : Cache → Cache → Type 0
Grows cache cache' = (i : ℕ) → cache' i ≡ none → cache i ≡ none

pub unseen-le :
    (n : ℕ) (cache cache' : Cache) → Grows cache cache' → unseen n cache' ≤ unseen n cache
unfolding unseen
unseen-le zero cache cache' grows = omega arith
unseen-le (suc n) cache cache' grows = ground (arith, unseen-le n cache cache' grows, grows n)

pub remember-Grows : (i : ℕ) (v : Value) (cache : Cache) → Grows cache (remember i v cache)
unfolding remember
remember-Grows i v cache k empty = ground (arith, empty)

pub unseen-remember :
    (n i : ℕ) (v : Value) (cache : Cache)
    → i < n
    → cache i ≡ none
    → unseen n (remember i v cache) < unseen n cache
unfolding unseen remember
unseen-remember zero i v cache small empty = absurd (omega (arith, small))
unseen-remember (suc n) i v cache small empty =
    let less : unseen n (remember i v cache) ≤ unseen n cache =
      unseen-le n cache (remember i v cache) (remember-Grows i v cache) in
    elim (Bool-cases (nat_eqb n i)) [
      | inl same ↦
          let here : cache n ≡ none = ap cache ((nat_eqb_iff n i).0 same) ∙ empty in
          ground (arith, less, here, same)
      | inr other ↦
          let ih : i < n → unseen n (remember i v cache) < unseen n cache =
            λ below. unseen-remember n i v cache below empty in
          ground (arith, ih, small, other)
    ]

-- It has an end of the code, and what was seen is seen.
unfoldable pub Ends : {A : Type 0} → Cache → Made A → Type 0
Ends cache (done r) = Grows cache r.1
Ends cache (failed e) = Unit
Ends cache out_of_fuel = ⊥

pub and_then-Ends :
    {A B : Type 0} (cache : Cache) (m : Made A) (f : A × Cache → Made B)
    → Ends cache m
    → ((r : A × Cache) → Grows cache r.1 → Ends cache (f r))
    → Ends cache (and_then m f)
unfolding Ends
and_then-Ends cache (done r) f grows next = next r grows
and_then-Ends cache (failed e) f ends next = tt
and_then-Ends cache out_of_fuel f ends next = ends

pub Ends-weaken :
    {A : Type 0} (cache cache' : Cache) (m : Made A)
    → Grows cache cache'
    → Ends cache' m
    → Ends cache m
unfolding Ends
Ends-weaken cache cache' (done r) grows ends = λ i empty. grows i (ends i empty)
Ends-weaken cache cache' (failed e) grows ends = tt
Ends-weaken cache cache' out_of_fuel grows ends = ends

pub get_elem?-small :
    {A : Type 0} (xs : List A) (i : ℕ) (x : A) → get_elem? xs i ≡ some x → i < length xs
get_elem?-small [] i x found = absurd (none-ne-some x found)
get_elem?-small (y ∷ xs) zero x found = omega arith
get_elem?-small (y ∷ xs) (suc i) x found = omega (arith, get_elem?-small xs i x found)
