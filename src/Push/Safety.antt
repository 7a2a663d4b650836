-- ===== src/Push/Safety.antt =====
-- Any calls of the hub of internal/push/hub.go.
use n8n_turbo.Prelude.{
  ℕ, ◌≤◌, ◌≡◌, refl, subst, arith, String, none, some, List, [], ◌∷◌, length, nat_eqb, string_eq,
  Bool-cases, Option-cases, inl, inr,
}
use n8n_turbo.Prelude.Map.{lookup}
use n8n_turbo.Push.Hub.{
  Client, Hub, new_client, new_hub, set_client, change_client, subscribe_to_execution,
  unsubscribe_from_execution, take_message, capacity, publish, drop_sub,
}
use n8n_turbo.Push.Registered.{IsRegistered, UniqueKeys, Fine, add-Fine, remove-Fine}
use n8n_turbo.Push.Delivery.{store-IsRegistered, publish-Fine}
use n8n_turbo.Push.Calls.{
  Call, connects, hangs_up, publishes, subscribes, unsubscribes, writes, write_pump, call, call_all,
}

-- A client that is changed keeps its identifier and is as open, and what it has fits.
abbrev Steady : (Client → Client) → Type 0
Steady change =
    (c : Client)
    → length c.queue ≤ capacity
    → ((change c).id ≡ c.id) × ((change c).closed ≡ c.closed) × (length (change c).queue ≤ capacity)

set_client-IsRegistered :
    (change : Client → Client) (at : ℕ) (hub : Hub)
    → Steady change
    → IsRegistered hub
    → IsRegistered (record hub { store = set_client at (change (hub.store at)) hub.store })
unfolding set_client
set_client-IsRegistered change at hub steady h =
    store-IsRegistered hub (set_client at (change (hub.store at)) hub.store) h (λ k.
      elim (Bool-cases (nat_eqb k at)) [
        | inl this ↦
            let same : at ≡ k = ground (arith, this) in
            rw this (
              subst
                (λ k.
                  ((change (hub.store at)).id ≡ (hub.store k).id)
                  × ((change (hub.store at)).closed ≡ (hub.store k).closed)
                  × (length (change (hub.store at)).queue ≤ capacity))
                same (steady (hub.store at) (h.room at)))
        | inr other ↦ rw other (refl, refl, h.room k)
      ])

change_client-IsRegistered :
    (id : String) (change : Client → Client) (hub : Hub)
    → Steady change
    → IsRegistered hub
    → IsRegistered (change_client id change hub)
unfolding change_client
change_client-IsRegistered id change hub steady h = elim (Option-cases (lookup id hub.clients)) [
  | inl absent ↦ rw (absent, change_client) h
  | inr (at, there) ↦ rw (there, change_client) (set_client-IsRegistered change at hub steady h)
]

take_message-Steady : Steady take_message
unfolding take_message
take_message-Steady c fits = ground (arith, fits)

call-Fine : (c : Call) (hub : Hub) → IsRegistered hub → Fine (call c hub)
unfolding call new_client subscribe_to_execution unsubscribe_from_execution write_pump publish
call-Fine (connects id user_id session_id) hub h =
    add-Fine (new_client id user_id session_id) hub h refl (omega arith)
call-Fine (hangs_up at) hub h = remove-Fine at hub h
call-Fine (publishes none target) hub h = (hub, refl, h)
call-Fine (publishes (some payload) target) hub h = publish-Fine hub h target payload
call-Fine (subscribes id execution_id) hub h = (
  subscribe_to_execution id execution_id hub,
  refl,
  change_client-IsRegistered id
      (λ c. record c { execution_subs = execution_id ∷ drop_sub execution_id c.execution_subs }) hub
      (λ c fits. (refl, refl, fits)) h,
)
call-Fine (unsubscribes id execution_id) hub h = (
  unsubscribe_from_execution id execution_id hub,
  refl,
  change_client-IsRegistered id
      (λ c. record c { execution_subs = drop_sub execution_id c.execution_subs }) hub
      (λ c fits. (refl, refl, fits)) h,
)
call-Fine (writes at) hub h =
    (write_pump at hub, refl, set_client-IsRegistered take_message at hub take_message-Steady h)

call_all-Fine : (calls : List Call) (hub : Hub) → IsRegistered hub → Fine (call_all calls hub)
unfolding call_all
call_all-Fine [] hub h = (hub, refl, h)
call_all-Fine (c ∷ calls) hub h =
    let (hub', eq, h') = call-Fine c hub h in
    let (hub'', eq', h'') = call_all-Fine calls hub' h' in (hub'', ground (arith, eq, eq'), h'')

-- Whatever the calls of a new hub and their order, none panics, by a send on a closed channel or a
-- second close: the hub's map has just the clients whose channel is open, each under its identifier
-- and no identifier twice, and no channel has more than fits.
pub call_all-IsRegistered :
    (calls : List Call) → (hub : Hub) × (call_all calls new_hub ≡ some hub) × IsRegistered hub
unfolding new_hub new_client UniqueKeys lookup
call_all-IsRegistered calls = call_all-Fine calls new_hub (record {
  entry = λ id at found. ground (arith, found);
  held = λ at made alive. absurd (omega (arith, made));
  unique = tt;
  room = λ at. omega arith;
})
