-- ===== src/Push/Offers.antt =====
-- The loop of `publish`, internal/push/hub.go, over the clients of the map.
use n8n_turbo.Prelude.{
  ℕ, ◌≡◌, refl, sym, ap, ◌∙◌, subst, arith, Bool, true, false, not, ◌&&◌, ◌||◌, String, Option,
  none, some, List, [], ◌∷◌, if◌then◌else◌, ltb, nat_eqb, nat_eqb_iff, length, string_eq, str_iff,
  Bool-cases, inl, inr,
}
use n8n_turbo.Prelude.Map.{Map, lookup}
use n8n_turbo.Push.Hub.{
  Client, Store, BroadcastTarget, set_client, capacity, offer, offer_all, wanted, push_message,
}
use n8n_turbo.Push.Registered.{UniqueKeys}

abbrev pub has_room : Client → Bool
has_room c = ltb (length c.queue) capacity

-- A client after a message: it has it in its channel when it is wanted there and fits.
abbrev pub after_message : BroadcastTarget → String → Client → Client
after_message t payload c = if wanted t c && has_room c then push_message payload c else c

abbrev pub overrun : BroadcastTarget → Client → Bool
overrun t c = wanted t c && not (has_room c)

abbrev pub member : ℕ → Map String ℕ → Bool
member at [] = false
member at ((_, k) ∷ clients) = nat_eqb k at || member at clients

abbrev pub listed : ℕ → List ℕ → Bool
listed at [] = false
listed at (k ∷ ks) = nat_eqb k at || listed at ks

-- The clients of a map are open, under their identifiers.
unfoldable pub Open : Store → Map String ℕ → Type 0
Open store [] = Unit
Open store ((id, at) ∷ clients) =
    ((store at).id ≡ id) × ((store at).closed ≡ false) × Open store clients

member-fresh :
    (store : Store) (at : ℕ) (clients : Map String ℕ)
    → Open store clients
    → lookup (store at).id clients ≡ none
    → member at clients ≡ false
unfolding Open lookup
member-fresh store at [] open_ fresh = refl
member-fresh store at ((id, k) ∷ clients) (named, alive, rest) fresh =
    elim (Bool-cases (nat_eqb k at)) [
      | inl same ↦
          let this : k ≡ at = ground (arith, same) in
          ground (arith, fresh, named, ap (λ k. (store k).id) this, str_iff id (store at).id)
      | inr other ↦ ground (arith, other, fresh, member-fresh store at clients rest)
    ]

Open-same :
    (store store' : Store) (clients : Map String ℕ)
    → ((k : ℕ) → ((store' k).id ≡ (store k).id) × ((store' k).closed ≡ (store k).closed))
    → Open store clients
    → Open store' clients
unfolding Open
Open-same store store' [] same open_ = tt
Open-same store store' ((id, k) ∷ clients) same (named, alive, rest) =
    ((same k).0 ∙ named, (same k).1 ∙ alive, Open-same store store' clients same rest)

module _ (t : BroadcastTarget) (payload : String) where
  -- What the loop returns: the clients after the message, and those that it did not fit.
  abbrev pub Offered : Map String ℕ → Store → Option (Store × List ℕ) → Type 0
  Offered clients store o =
      (store' : Store) × (stale : List ℕ) × (o ≡ some (store', stale))
      × ((k : ℕ)
          → store' k ≡ (if member k clients then after_message t payload (store k) else store k))
      × ((k : ℕ) → listed k stale ≡ (member k clients && overrun t (store k)))

  offer-after :
      (at : ℕ) (store : Store)
      → (store at).closed ≡ false
      → (store' : Store) × (offer t payload at store ≡ some (store', overrun t (store at)))
        × ((k : ℕ)
            → store' k ≡ (if nat_eqb at k then after_message t payload (store k) else store k))
  unfolding offer set_client
  offer-after at store is_open = elim (Bool-cases (wanted t (store at) && has_room (store at))) [
    | inl put ↦ (
      set_client at (push_message payload (store at)) store,
      ground (arith, put, is_open),
      λ k. elim (Bool-cases (nat_eqb at k)) [
        | inl same ↦
            let this : at ≡ k = ground (arith, same) in ground (arith, same, put, ap store this)
        | inr other ↦ ground (arith, other)
      ],
    )
    | inr kept ↦ (
      store,
      ground (arith, kept, is_open),
      λ k. elim (Bool-cases (nat_eqb at k)) [
        | inl same ↦
            let this : at ≡ k = ground (arith, same) in ground (arith, same, kept, ap store this)
        | inr other ↦ ground (arith, other)
      ],
    )
  ]

  after_message-same :
      (c : Client)
      → ((after_message t payload c).id ≡ c.id) × ((after_message t payload c).closed ≡ c.closed)
  unfolding push_message
  after_message-same c = (ground arith, ground arith)

  -- One client of the loop, `c0` before it, `c1` after its own round and `c2` after the loop.
  rounds-after :
      (this later : Bool) (c0 c1 c2 : Client)
      → (this ≡ true → later ≡ false)
      → c1 ≡ (if this then after_message t payload c0 else c0)
      → c2 ≡ (if later then after_message t payload c1 else c1)
      → c2 ≡ (if this || later then after_message t payload c0 else c0)
  rounds-after true true c0 c1 c2 once e1 e2 = ground (arith, once refl)
  rounds-after true false c0 c1 c2 once e1 e2 = e2 ∙ e1
  rounds-after false true c0 c1 c2 once e1 e2 = e2 ∙ ap (after_message t payload) e1
  rounds-after false false c0 c1 c2 once e1 e2 = e2 ∙ e1

  pub offer_all-Offered :
      (clients : Map String ℕ) (store : Store)
      → UniqueKeys clients
      → Open store clients
      → Offered clients store (offer_all t payload clients store)
  unfolding offer_all UniqueKeys Open
  offer_all-Offered [] store u open_ = (store, [], refl, λ k. refl, λ k. ground arith)
  offer_all-Offered ((id, at) ∷ clients) store (fresh, u) (named, alive, rest) =
      let (store1, eq1, after1) = offer-after at store alive in
      let same : (k : ℕ) → ((store1 k).id ≡ (store k).id) × ((store1 k).closed ≡ (store k).closed) =
        λ k. elim (Bool-cases (nat_eqb at k)) [
          | inl this ↦ rw (after1 k, this) (after_message-same (store k))
          | inr other ↦ rw (after1 k, other) (refl, refl)
        ] in
      let (store2, stale, eq2, after2, stale2) =
        offer_all-Offered clients store1 u (Open-same store store1 clients same rest) in
      let once : member at clients ≡ false =
        member-fresh store at clients rest
          (subst (λ id. lookup id clients ≡ none) (sym named) fresh) in
      let only : (k : ℕ) → nat_eqb at k ≡ true → member k clients ≡ false =
        λ k this. subst (λ k. member k clients ≡ false) ((nat_eqb_iff at k).0 this) once in
      (
        store2,
        if overrun t (store at) then at ∷ stale else stale,
        ground (arith, eq1, eq2),
        λ k.
            rounds-after (nat_eqb at k) (member k clients) (store k) (store1 k) (store2 k) (only k)
              (after1 k) (after2 k),
        λ k. elim (Bool-cases (nat_eqb at k)) [
          | inl this ↦
              let here : at ≡ k = ground (arith, this) in
              ground (arith, this, ap store here, stale2 k, only k this)
          | inr other ↦
              let before : store1 k ≡ store k = rw (after1 k, other) refl in
              ground (arith, other, before, stale2 k)
        ],
      )
