-- ===== src/Push/Removals.antt =====
-- `remove`, internal/push/hub.go, of the clients whose channel was full.
use mathlib.Core.Option.{some-injective, some-ne-none}
use n8n_turbo.Prelude.{
  ℕ, ◌≡◌, ◌≢◌, refl, sym, ap, ◌∙◌, subst, arith, true, none, some, List, [], ◌∷◌, if◌then◌else◌,
  nat_eqb, nat_eqb_iff, string_eq, str_iff, Bool-cases, Option-cases, inl, inr, ◌⊎◌,
}
use n8n_turbo.Prelude.Map.{lookup, lookup-delete}
use n8n_turbo.Push.Hub.{Client, Hub, set_client, remove, remove_all}
use n8n_turbo.Push.Registered.{IsRegistered, close_out, close_send-out, remove-Fine}
use n8n_turbo.Push.Offers.{listed}

-- The client holds its identifier; nobody does.
abbrev pub Holds : Hub → ℕ → Type 0
Holds hub k = lookup (hub.store k).id hub.clients ≡ some k

abbrev pub Vacant : Hub → ℕ → Type 0
Vacant hub k = lookup (hub.store k).id hub.clients ≡ none

abbrev pub hang_up : Client → Client
hang_up c = record c { closed = true }

-- The client is as before, and its identifier too.
abbrev Kept : Hub → Hub → ℕ → Type 0
Kept hub hub' k =
    (hub'.store k ≡ hub.store k)
    × (lookup (hub.store k).id hub'.clients ≡ lookup (hub.store k).id hub.clients)

abbrev Dropped : Hub → Hub → ℕ → Type 0
Dropped hub hub' k =
    (hub'.store k ≡ hang_up (hub.store k)) × (lookup (hub.store k).id hub'.clients ≡ none)

module _ (hub : Hub) (h : IsRegistered hub) where
  remove_self : (k : ℕ) → Holds hub k → remove k hub ≡ some (close_out hub h (hub.store k).id k)
  unfolding remove
  remove_self k holds = ground (arith, holds, close_send-out hub h (hub.store k).id k holds)

  close_out-Dropped : (k : ℕ) → Dropped hub (close_out hub h (hub.store k).id k) k
  unfolding close_out set_client
  close_out-Dropped k = (
    ground arith,
    ground (
      arith,
      lookup-delete (hub.store k).id (hub.store k).id hub.clients,
      str_iff (hub.store k).id (hub.store k).id,
    ),
  )

  -- Another client of the map, or one that is not in it.
  abbrev Other : ℕ → ℕ → Type 0
  Other at k = ((at ≢ k) × Holds hub k) ⊎ Vacant hub k

  apart : (at k : ℕ) → Holds hub at → Other at k → (at ≢ k) × ((hub.store at).id ≢ (hub.store k).id)
  apart at k holds (inl (other, held)) = (
    other,
    λ same. other (some-injective _ _ (sym holds ∙ ap (λ id. lookup id hub.clients) same ∙ held)),
  )
  apart at k holds (inr vacant) = (
    λ same.
        some-ne-none _ (sym holds ∙ ap (λ k. lookup (hub.store k).id hub.clients) same ∙ vacant),
    λ same. some-ne-none _ (sym holds ∙ ap (λ id. lookup id hub.clients) same ∙ vacant),
  )

  close_out-Kept :
      (at k : ℕ) → Holds hub at → Other at k → Kept hub (close_out hub h (hub.store at).id at) k
  unfolding close_out set_client
  close_out-Kept at k holds other =
      let (differ, ids) = apart at k holds other in
      (
        ground (arith, differ, nat_eqb_iff k at),
        ground (
          arith,
          ids,
          lookup-delete (hub.store at).id (hub.store k).id hub.clients,
          str_iff (hub.store at).id (hub.store k).id,
        ),
      )

  remove-Dropped :
      (k : ℕ) (hub' : Hub) → Holds hub k → remove k hub ≡ some hub' → Dropped hub hub' k
  remove-Dropped k hub' holds eq =
      subst (λ hub'. Dropped hub hub' k) (some-injective _ _ (sym (remove_self k holds) ∙ eq))
        (close_out-Dropped k)

  stays : {k : ℕ} (hub' : Hub) → hub ≡ hub' → Kept hub hub' k
  stays {k} hub' same = subst (λ hub'. Kept hub hub' k) same (refl, refl)

  remove-Kept : (at k : ℕ) (hub' : Hub) → Other at k → remove at hub ≡ some hub' → Kept hub hub' k
  unfolding remove
  remove-Kept at k hub' other eq = elim (Option-cases (lookup (hub.store at).id hub.clients)) [
    | inl absent ↦ stays hub' (ground (arith, absent, eq))
    | inr (current, there) ↦ elim (Bool-cases (nat_eqb current at)) [
      | inl same ↦
          let this : current ≡ at = ground (arith, same) in
          let holds : Holds hub at = there ∙ ap some this in
          subst (λ hub'. Kept hub hub' k) (some-injective _ _ (sym (remove_self at holds) ∙ eq))
            (close_out-Kept at k holds other)
      | inr differ ↦ stays hub' (ground (arith, there, differ, eq))
    ]
  ]

-- The identifier that a client has is looked up the same before and after.
same_id :
    (hub hub1 hub' : Hub) (k : ℕ)
    → (hub1.store k).id ≡ (hub.store k).id
    → lookup (hub1.store k).id hub'.clients ≡ lookup (hub.store k).id hub'.clients
same_id hub hub1 hub' k same = ap (λ id. lookup id hub'.clients) same

join-Kept : (hub hub1 hub' : Hub) (k : ℕ) → Kept hub hub1 k → Kept hub1 hub' k → Kept hub hub' k
join-Kept hub hub1 hub' k (same, id) (same', id') =
    let ids : (hub1.store k).id ≡ (hub.store k).id = ap (λ c. c.id) same in
    (same' ∙ same, sym (same_id hub hub1 hub' k ids) ∙ id' ∙ same_id hub hub1 hub1 k ids ∙ id)

-- What becomes of a client that is not in the map when those of a list are removed.
remove_all-Vacant :
    (stale : List ℕ) (hub hub' : Hub) (k : ℕ)
    → IsRegistered hub
    → remove_all stale hub ≡ some hub'
    → Vacant hub k
    → Kept hub hub' k
unfolding remove_all
remove_all-Vacant [] hub hub' k h eq vacant = stays hub h hub' (some-injective _ _ eq)
remove_all-Vacant (at ∷ stale) hub hub' k h eq vacant =
    let (hub1, eq1, h1) = remove-Fine at hub h in
    let (same, id) = remove-Kept hub h at k hub1 (inr vacant) eq1 in
    let vacant1 : Vacant hub1 k = ap (λ c. lookup c.id hub1.clients) same ∙ id ∙ vacant in
    let (same', id') = remove_all-Vacant stale hub1 hub' k h1 (ground (arith, eq, eq1)) vacant1 in
    join-Kept hub hub1 hub' k (same, id) (same', id')

-- What becomes of a client of the map.
pub remove_all-after :
    (stale : List ℕ) (hub hub' : Hub) (k : ℕ)
    → IsRegistered hub
    → remove_all stale hub ≡ some hub'
    → Holds hub k
    → (hub'.store k ≡ (if listed k stale then hang_up (hub.store k) else hub.store k))
      × (lookup (hub.store k).id hub'.clients ≡ (if listed k stale then none else some k))
unfolding remove_all
remove_all-after [] hub hub' k h eq holds =
    let (same, id) = stays hub h {k = k} hub' (some-injective _ _ eq) in (same, id ∙ holds)
remove_all-after (at ∷ stale) hub hub' k h eq holds =
    let (hub1, eq1, h1) = remove-Fine at hub h in
    let rest : remove_all stale hub1 ≡ some hub' = ground (arith, eq, eq1) in
    elim (Bool-cases (nat_eqb at k)) [
      | inl this ↦
          let here : at ≡ k = ground (arith, this) in
          let (closed, gone) =
            remove-Dropped hub h k hub1 holds (ap (λ k. remove k hub) (sym here) ∙ eq1) in
          let ids : (hub1.store k).id ≡ (hub.store k).id = ap (λ c. c.id) closed in
          let (same, id) =
            remove_all-Vacant stale hub1 hub' k h1 rest (same_id hub hub1 hub1 k ids ∙ gone) in
          rw this (
            same ∙ closed,
            sym (same_id hub hub1 hub' k ids) ∙ id ∙ same_id hub hub1 hub1 k ids ∙ gone,
          )
      | inr other ↦
          let apart : at ≢ k = ground (arith, other) in
          let (same, id) = remove-Kept hub h at k hub1 (inl (apart, holds)) eq1 in
          let ids : (hub1.store k).id ≡ (hub.store k).id = ap (λ c. c.id) same in
          let (end, out) =
            remove_all-after stale hub1 hub' k h1 rest (same_id hub hub1 hub1 k ids ∙ id ∙ holds) in
          rw other (
            end ∙ ap (λ c. if listed k stale then hang_up c else c) same,
            sym (same_id hub hub1 hub' k ids) ∙ out,
          )
    ]
