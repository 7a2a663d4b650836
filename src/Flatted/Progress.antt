-- ===== src/Flatted/Progress.antt =====
-- The parser's cache of internal/flatted/flatted.go while containers are under way.
use n8n_turbo.Prelude.{
  ℕ, suc, ◌≤◌, ◌<◌, some, ◌≡◌, ◌≢◌, ◌⊎◌, sym, ap, ◌∙◌, arith, inl, inr, nat_eqb, nat_eqb_iff,
  Bool-cases,
}
use n8n_turbo.Flatted.Value.{Value, arr, cell, nil}
use n8n_turbo.Flatted.Table.{Values}
use n8n_turbo.Flatted.Parse.{done, Cache, remember, Made}

module _ (val : Values) where
  -- What is new in the cache is right.
  abbrev pub Better : Cache → Cache → Type 0
  Better cache cache' = (j : ℕ) (w : Value) → cache' j ≡ some w → (w ≡ val j) ⊎ (cache j ≡ some w)

  -- What is not right belongs to a container that is under way, at an index below `k`.
  abbrev pub Right : ℕ → Cache → Type 0
  Right k cache =
      (j : ℕ) (w : Value) → cache j ≡ some w → (w ≡ val j) ⊎ ((j < k) × (val j ≢ arr nil))

  pub Better-trans : (a b c : Cache) → Better a b → Better b c → Better a c
  Better-trans a b c f g j w found = elim (g j w found) [
    | inl is ↦ inl is
    | inr before ↦ f j w before
  ]

  pub Better-Right : (k : ℕ) (a b : Cache) → Better a b → Right k a → Right k b
  Better-Right k a b f h j w found = elim (f j w found) [
    | inl is ↦ inl is
    | inr before ↦ h j w before
  ]

  pub remember-Better :
      (i : ℕ) (v : Value) (cache : Cache) → val i ≡ v → Better cache (remember i v cache)
  unfolding remember
  remember-Better i v cache is j w found = elim (Bool-cases (nat_eqb j i)) [
    | inl same ↦
        let here : j ≡ i = (nat_eqb_iff j i).0 same in
        let eq : v ≡ w = ground (arith, found, same) in inl (sym eq ∙ (sym is ∙ ap val (sym here)))
    | inr other ↦ inr (ground (arith, found, other))
  ]

  -- A container is under way.
  pub cell-Right :
      (k i : ℕ) (cache : Cache)
      → k ≤ i
      → val i ≢ arr nil
      → Right k cache
      → Right (suc i) (remember i (cell i) cache)
  unfolding remember
  cell-Right k i cache le full h j w found = elim (Bool-cases (nat_eqb j i)) [
    | inl same ↦
        let here : j ≡ i = (nat_eqb_iff j i).0 same in
        inr (omega (arith, here), λ e. full (ap val (sym here) ∙ e))
    | inr other ↦ elim (h j w (ground (arith, found, other))) [
      | inl is ↦ inl is
      | inr (low, busy) ↦ inr (omega (arith, low, le), busy)
    ]
  ]

  -- The container is complete.
  pub complete-Better :
      (i : ℕ) (v : Value) (cache after : Cache)
      → val i ≡ v
      → Better (remember i (cell i) cache) after
      → Better cache (remember i v after)
  unfolding remember
  complete-Better i v cache after is f j w found = elim (Bool-cases (nat_eqb j i)) [
    | inl same ↦
        let here : j ≡ i = (nat_eqb_iff j i).0 same in
        let eq : v ≡ w = ground (arith, found, same) in inl (sym eq ∙ (sym is ∙ ap val (sym here)))
    | inr other ↦ elim (f j w (ground (arith, found, other))) [
      | inl right ↦ inl right
      | inr before ↦ inr (ground (arith, before, other))
    ]
  ]

  abbrev pub Rebuilt : {A : Type 0} → Cache → Made A → A → Type 0
  Rebuilt cache m v = (cache' : Cache) × (m ≡ done (v, cache')) × Better cache cache'
