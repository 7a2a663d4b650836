-- ===== src/Flatted/Reconstruction.antt =====
-- `reconstruct` of internal/flatted/flatted.go at an index of a table.
use n8n_turbo.Prelude.{
  ℕ, zero, suc, ◌+◌, ◌^◌, ◌≤◌, ◌<◌, Option, none, some, List, length, get_elem?, ◌≡◌, ◌⊎◌, refl,
  sym, subst, ap, ◌∙◌, arith, inl, inr, Option-cases,
}
use n8n_turbo.Flatted.Value.{Value, arr, nil}
use n8n_turbo.Flatted.Table.{Values, Encodes}
use n8n_turbo.Flatted.Parse.{done, Cache, build, reconstruct_at, reconstruct}
use n8n_turbo.Flatted.Rebuild.{empty_build, build-Rebuilt}
use n8n_turbo.Flatted.Progress.{Right, Rebuilt}

-- Each entry stands for a value.
abbrev pub IsTable : List Value → Values → Type 0
IsTable values val =
    (i : ℕ)
    → i < length values
    → (t : Value) × (get_elem? values i ≡ some t) × Encodes val (length values) i t (val i)

-- The cache has nothing wrong at an index that may be asked for.
cached_value :
    (val : Values) (k i : ℕ) (cache : Cache) (w : Value)
    → Right val k cache
    → (k ≤ i) ⊎ (val i ≡ arr nil)
    → cache i ≡ some w
    → w ≡ val i
cached_value val k i cache w h (inl le) found = elim (h i w found) [
  | inl is ↦ is
  | inr (low, busy) ↦ absurd (omega (arith, low, le))
]
cached_value val k i cache w h (inr empty) found = elim (h i w found) [
  | inl is ↦ is
  | inr (low, busy) ↦ absurd (busy empty)
]

Right-weaken :
    (val : Values) (k i : ℕ) (cache : Cache) → k ≤ i → Right val k cache → Right val i cache
Right-weaken val k i cache le h j w found = elim (h j w found) [
  | inl is ↦ inl is
  | inr (low, busy) ↦ inr (omega (arith, low, le), busy)
]

-- An index at or after `k` with fuel for those after it, or the empty slice's.
abbrev pub Reachable : Values → ℕ → ℕ → ℕ → ℕ → Type 0
Reachable val n fuel k i = ((k ≤ i) × (n < fuel + i)) ⊎ ((val i ≡ arr nil) × (0 < fuel))

part-Reachable :
    (val : Values) (n fuel i j : ℕ)
    → i < n
    → n < suc fuel + i
    → (i < j) ⊎ (val j ≡ arr nil)
    → Reachable val n fuel (suc i) j
part-Reachable val n fuel i j small enough (inl later) =
    inl (omega (arith, later), omega (arith, later, enough))
part-Reachable val n fuel i j small enough (inr empty) = inr (empty, omega (arith, small, enough))

asked_index :
    (val : Values) (n fuel k i : ℕ) → Reachable val n fuel k i → (k ≤ i) ⊎ (val i ≡ arr nil)
asked_index val n fuel k i (inl (le, enough)) = inl le
asked_index val n fuel k i (inr (empty, enough)) = inr empty

module _ (values : List Value) (val : Values) (fits : length values ≤ 2 ^ 63)
    (table : IsTable values val) where
  opened :
      (fuel i : ℕ) (cache : Cache) (t : Value)
      → get_elem? values i ≡ some t
      → (o : Option Value) → cache i ≡ o
      → reconstruct (suc fuel) values i cache
        ≡ reconstruct_at (reconstruct fuel values) (length values) i cache (some t) o
  unfolding reconstruct
  opened fuel i cache t at o found =
      ap (λ v. reconstruct_at (reconstruct fuel values) (length values) i cache v (cache i)) at
      ∙ ap (reconstruct_at (reconstruct fuel values) (length values) i cache (some t)) found

  new_value :
      (fuel k i : ℕ) (cache : Cache)
      → ((j : ℕ) (after : Cache)
          → j < length values
          → Right val (suc i) after
          → Reachable val (length values) fuel (suc i) j
          → Rebuilt val after (reconstruct fuel values j after) (val j))
      → i < length values
      → Right val k cache
      → Reachable val (length values) (suc fuel) k i
      → (t : Value) → Encodes val (length values) i t (val i)
      → Rebuilt val cache (build (reconstruct fuel values) (length values) i t cache) (val i)
  new_value fuel k i cache parts small h (inl (le, enough)) t encodes =
      build-Rebuilt val (reconstruct fuel values) (length values) i fits
        (λ j after below right later.
          parts j after below right
            (part-Reachable val (length values) fuel i j small enough later))
        (val i) t cache refl encodes (Right-weaken val k i cache le h)
  new_value fuel k i cache parts small h (inr (empty, enough)) t encodes =
      let (cache', built, better) =
        empty_build val (reconstruct fuel values) (length values) i t cache empty
          (subst (Encodes val (length values) i t) empty encodes) in
      (cache', built ∙ ap (λ v. done (v, cache')) (sym empty), better)

  pub reconstruct-Rebuilt :
      (fuel k i : ℕ) (cache : Cache)
      → i < length values
      → Right val k cache
      → Reachable val (length values) fuel k i
      → Rebuilt val cache (reconstruct fuel values i cache) (val i)
  unfolding reconstruct
  reconstruct-Rebuilt zero k i cache small h (inl (le, enough)) =
      absurd (omega (arith, small, enough))
  reconstruct-Rebuilt zero k i cache small h (inr (empty, enough)) = absurd (omega (arith, enough))
  reconstruct-Rebuilt (suc fuel) k i cache small h place =
      let (t, at, encodes) = table i small in
      elim (Option-cases (cache i)) [
        | inr (w, found) ↦ (
          cache,
          opened fuel i cache t at (some w) found
              ∙ ap (λ v. done (v, cache))
                  (cached_value val k i cache w h
                    (asked_index val (length values) (suc fuel) k i place) found),
          λ j v before. inr before,
        )
        | inl new ↦
            let (cache', built, better) =
              new_value fuel k i cache
                (λ j after below right later.
                  reconstruct-Rebuilt fuel (suc i) j after below right later)
                small h place t encodes in
            (cache', opened fuel i cache t at none new ∙ built, better)
      ]
