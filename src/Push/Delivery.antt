-- ===== src/Push/Delivery.antt =====
-- `publish` of internal/push/hub.go, and any calls of the hub.
use n8n_turbo.Prelude.{
  ℕ, ◌≤◌, ◌≡◌, refl, sym, ◌∙◌, subst, arith, String, some, [], ◌∷◌, length, length-append,
  if◌then◌else◌, string_eq, str_iff, Bool-cases, inl, inr,
}
use n8n_turbo.Prelude.Map.{Map, lookup}
use n8n_turbo.Push.Hub.{
  Client, Hub, Store, BroadcastTarget, capacity, offer_all, publish, remove_all, push_message,
  wanted,
}
use n8n_turbo.Push.Registered.{IsRegistered, Entry, UniqueKeys, Fine, remove_all-Fine}
use n8n_turbo.Push.Offers.{Open, Offered, offer_all-Offered, after_message, has_room, member}
use n8n_turbo.Push.Removals.{hang_up}

Open-of :
    (store : Store) (made : ℕ) (clients : Map String ℕ)
    → UniqueKeys clients
    → ((id : String) (at : ℕ) → lookup id clients ≡ some at → Entry store made id at)
    → Open store clients
unfolding Open UniqueKeys lookup
Open-of store made [] u entry = tt
Open-of store made ((id, at) ∷ clients) (fresh, u) entry =
    let (in_store, named, alive) = entry id at (ground (arith, str_iff id id)) in
    (
      named,
      alive,
      Open-of store made clients u
          (λ j k found. entry j k (ground (arith, found, fresh, str_iff id j))),
    )

-- A store whose clients have the same identifiers, are as open, and have no more than fits.
pub store-IsRegistered :
    (hub : Hub) (store : Store)
    → IsRegistered hub
    → ((k : ℕ)
        → ((store k).id ≡ (hub.store k).id)
          × ((store k).closed ≡ (hub.store k).closed)
          × (length (store k).queue ≤ capacity))
    → IsRegistered (record hub { store = store })
store-IsRegistered hub store h same = record {
  entry = λ id k found.
      let (made, named, alive) = h.entry id k found in
      (made, (same k).0 ∙ named, (same k).1 ∙ alive);
  held = λ k made alive.
      subst (λ id. lookup id hub.clients ≡ some k) (sym (same k).0)
        (h.held k made (sym (same k).1 ∙ alive));
  unique = h.unique;
  room = λ k. (same k).2;
}

after_message-fits :
    (t : BroadcastTarget) (payload : String) (c : Client)
    → length c.queue ≤ capacity
    → ((after_message t payload c).id ≡ c.id)
      × ((after_message t payload c).closed ≡ c.closed)
      × (length (after_message t payload c).queue ≤ capacity)
unfolding push_message
after_message-fits t payload c fits =
    (ground arith, ground arith, ground (arith, fits, length-append c.queue (payload ∷ [])))

-- A client after a message: the message is in its channel, or its channel was full and it is hung up,
-- or it was passed over.
unfoldable pub delivered_to : BroadcastTarget → String → Client → Client
unfolding wanted push_message
delivered_to t payload c =
    if wanted t c then (if has_room c then push_message payload c else hang_up c) else c

module _ (hub : Hub) (h : IsRegistered hub) (t : BroadcastTarget) (payload : String) where
  offered : Offered t payload hub.clients hub.store (offer_all t payload hub.clients hub.store)
  offered =
      offer_all-Offered t payload hub.clients hub.store h.unique
        (Open-of hub.store hub.made hub.clients h.unique h.entry)

  store_after : Store
  store_after = offered.0

  offered-IsRegistered : IsRegistered (record hub { store = store_after })
  unfolding store_after
  offered-IsRegistered = store-IsRegistered hub store_after h (λ k.
      elim (Bool-cases (member k hub.clients)) [
        | inl heard ↦
            rw (offered.3 k, heard) (after_message-fits t payload (hub.store k) (h.room k))
        | inr passed ↦ rw (offered.3 k, passed) (refl, refl, h.room k)
      ])

  removed : Fine (remove_all offered.1 (record hub { store = store_after }))
  removed = remove_all-Fine offered.1 (record hub { store = store_after }) offered-IsRegistered

  publish-removed : publish (some payload) t hub ≡ some removed.0
  unfolding publish store_after
  publish-removed = ground (arith, offered.2, removed.1)

  pub publish-Fine : Fine (publish (some payload) t hub)
  publish-Fine = (removed.0, publish-removed, removed.2)
