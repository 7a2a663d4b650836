-- ===== src/Prelude/Map.antt =====
-- Go's maps. The list's order is one that `range` may take; no definition lets two entries share a
-- key that they did not share before.
use mathlib.Core.Path.{◌≡◌, refl}
use mathlib.Core.Bool.{Bool, true, false}
use mathlib.Core.Option.{Option, none, some}
use mathlib.Core.List.{List, [], ◌∷◌}
use native.Mathlib.Omega.{arith}
use n8n_turbo.Prelude.Tests.{if◌then◌else◌}
use n8n_turbo.Prelude.Classes.{Comparable, ◌==◌}

abbrev pub Map {ℓ κ} : Type ℓ → Type κ → Type (ℓ ⊔ κ)
Map K V = List (K × V)

module _ {ℓ κ} {K : Type ℓ} {V : Type κ} ⦃e : Comparable K⦄ where
  -- `v, ok := m[k]`
  unfoldable pub lookup : K → Map K V → Option V
  lookup key [] = none
  lookup key ((k, v) ∷ entries) = if k == key then some v else lookup key entries

  -- `m[k] = v`
  unfoldable pub insert : K → V → Map K V → Map K V
  insert key v [] = (key, v) ∷ []
  insert key v ((k, old) ∷ entries) =
      if k == key then (k, v) ∷ entries else (k, old) ∷ insert key v entries

  -- `delete(m, k)`
  unfoldable pub delete : K → Map K V → Map K V
  delete k [] = []
  delete k ((j, v) ∷ m) = let rest = delete k m in if j == k then rest else (j, v) ∷ rest

  -- `m[k]` where a missing key reads as a default.
  abbrev pub get_or : K → V → Map K V → V
  get_or k d m = elim (lookup k m) [ none ↦ d | some v ↦ v ]

  -- `_, ok := m[k]`
  abbrev pub has : K → Map K V → Bool
  has k m = elim (lookup k m) [ none ↦ false | some v ↦ true ]

  -- What a key reads after a write to any key.
  pub lookup-insert :
      (written key : K) (v : V) (entries : Map K V)
      → lookup key (insert written v entries)
        ≡ (if written == key then some v else lookup key entries)
  unfolding insert lookup
  lookup-insert written key v [] = refl
  lookup-insert written key v ((k, old) ∷ entries) = ground (
    lookup-insert written key v entries,
    e.same_iff k key,
    e.same_iff k written,
    e.same_iff written key,
    arith,
  )

  pub lookup-delete :
      (k j : K) (m : Map K V) → lookup j (delete k m) ≡ (if k == j then none else lookup j m)
  unfolding lookup delete
  lookup-delete k j [] = ground arith
  lookup-delete k j ((i, w) ∷ m) =
      ground (arith, e.same_iff k j, e.same_iff i k, e.same_iff i j, lookup-delete k j m)

module _ {ℓ κ} {K : Type ℓ} {V : Type κ} ⦃e : Comparable K⦄ where
  pub get_or-cons_hit :
      (k j : K) (v d : V) (m : Map K V) → (j == k) ≡ true → get_or k d ((j, v) ∷ m) ≡ v
  unfolding lookup
  get_or-cons_hit k j v d m h = ground arith

  pub get_or-cons_miss :
      (k j : K) (v d : V) (m : Map K V) → (j == k) ≡ false → get_or k d ((j, v) ∷ m) ≡ get_or k d m
  unfolding lookup
  get_or-cons_miss k j v d m h = ground arith

pub ruleset map_laws = (lookup-insert, lookup-delete)
