-- ===== src/Executions/Consistency.antt =====
-- What the registry of running executions (internal/engine/active_executions.go) keeps.
use n8n_turbo.Prelude.{
  add_one, sub_one, zero, suc, ◌≡◌, refl, subst, ap, arith, true, false, String, none, some, [],
  ◌∷◌, length, ℤ, negsuc, pos, ◌==◌, string_eq, str_iff, beq_refl, Bool-cases, inl, inr,
}
use n8n_turbo.Prelude.Map.{Map, lookup, insert, delete, lookup-insert, lookup-delete}
use n8n_turbo.Concurrency.Calls.{Release, call_release}
use n8n_turbo.Executions.Registry.{
  ActiveExecution, ActiveExecutions, register, remove_execution, release_permit,
}

-- No key occurs twice.
abbrev pub Unique {ℓ} : {V : Type ℓ} → Map String V → Type ℓ
Unique [] = Unit
Unique ((k, v) ∷ m) = (lookup k m ≡ none) × Unique m

module _ {ℓ} {V : Type ℓ} where
  pub insert-fresh :
      (k : String) (v : V) (m : Map String V)
      → lookup k m ≡ none
      → Unique m
      → (length (insert k v m) ≡ suc (length m)) × Unique (insert k v m)
  unfolding lookup insert
  insert-fresh k v [] e u = (refl, (refl, tt))
  insert-fresh k v ((j, w) ∷ m) e u =
      let ne : (j == k) ≡ false = ground (arith, e) in
      let ih = insert-fresh k v m (ground (arith, e)) u.1 in
      (
        ground (arith, ne, ih.0),
        rw ne ((ground (arith, lookup-insert k j v m, str_iff k j, str_iff j k, ne, u.0)), ih.1),
      )

  pub insert-present :
      (k : String) (v w : V) (m : Map String V)
      → lookup k m ≡ some w
      → Unique m
      → (length (insert k v m) ≡ length m) × Unique (insert k v m)
  unfolding lookup insert
  insert-present k v w [] e u = absurd (ground arith)
  insert-present k v w ((j, x) ∷ m) e u = elim (Bool-cases (j == k)) [
    | inl same ↦ rw same (refl, u)
    | inr other ↦
        let ih = insert-present k v w m (ground (arith, e, other)) u.1 in
        rw other (
          ap suc ih.0,
          (ground (arith, lookup-insert k j v m, str_iff k j, str_iff j k, other, u.0), ih.1),
        )
  ]

  delete-absent : (k : String) (m : Map String V) → lookup k m ≡ none → delete k m ≡ m
  unfolding lookup delete
  delete-absent k [] e = refl
  delete-absent k ((j, w) ∷ m) e = ground (arith, e, delete-absent k m)

  pub delete-Unique : (k : String) (m : Map String V) → Unique m → Unique (delete k m)
  unfolding delete
  delete-Unique k [] u = tt
  delete-Unique k ((j, w) ∷ m) u = elim (Bool-cases (j == k)) [
    | inl same ↦ rw same (delete-Unique k m u.1)
    | inr other ↦ rw other (ground (arith, lookup-delete k j m, u.0), delete-Unique k m u.1)
  ]

  pub delete-present :
      (k : String) (m : Map String V) (v : V)
      → lookup k m ≡ some v
      → Unique m
      → suc (length (delete k m)) ≡ length m
  unfolding lookup delete
  delete-present k [] v e u = absurd (ground arith)
  delete-present k ((j, w) ∷ m) v e u = elim (Bool-cases (j == k)) [
    | inl same ↦
        let gone : lookup k m ≡ none = subst (λ x. lookup x m ≡ none) ((str_iff j k).0 same) u.0 in
        ground (arith, same, delete-absent k m gone)
    | inr other ↦ ground (arith, other, delete-present k m v (ground (arith, e, other)) u.1)
  ]

  delete-insert :
      (k : String) (v : V) (m : Map String V) → lookup k m ≡ none → delete k (insert k v m) ≡ m
  unfolding lookup insert delete
  delete-insert k v [] e = ground (arith, beq_refl k)
  delete-insert k v ((j, w) ∷ m) e = ground (arith, e, delete-insert k v m)

sub_one-add_one : (z : ℤ) → sub_one (add_one z) ≡ z
sub_one-add_one (pos n) = refl
sub_one-add_one (negsuc zero) = refl
sub_one-add_one (negsuc (suc n)) = refl

-- An execution whose identifier has neither an execution nor a release function in the registry is
-- registered, and removing it then leaves the registry as it was, with its permit given back to the
-- concurrency control service.
pub remove-register :
    (execution : ActiveExecution) (release : Release) (a : ActiveExecutions)
    → lookup execution.id a.executions ≡ none
    → lookup execution.id a.releases ≡ none
    → (register execution release a).1 ≡ true
      × (remove_execution execution.id (register execution release a).0
          ≡ record a { concurrency = (call_release release a.concurrency).1 })
unfolding register remove_execution release_permit
remove-register execution release a e r = (
  ground (arith, e),
  ground (
    arith,
    e,
    r,
    lookup-insert execution.id execution.id execution a.executions,
    lookup-insert execution.id execution.id release a.releases,
    beq_refl execution.id,
    delete-insert execution.id execution a.executions e,
    delete-insert execution.id release a.releases r,
    sub_one-add_one a.counter,
  ),
)
