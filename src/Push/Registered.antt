-- ===== src/Push/Registered.antt =====
-- What stays true of the hub of internal/push/hub.go: its map has just the clients whose channel is
-- open, each under its identifier.
use n8n_turbo.Prelude.{
  ℕ, ◌≤◌, ◌<◌, ◌≡◌, refl, ap, arith, true, false, String, Option, none, some, List, [], ◌∷◌,
  if◌then◌else◌, nat_eqb, nat_eqb_iff, length, ◌==◌, string_eq, str_iff, Bool-cases, Option-cases,
  inl, inr,
}
use n8n_turbo.Prelude.Map.{Map, lookup, insert, delete, lookup-insert, lookup-delete}
use n8n_turbo.Push.Hub.{
  Client, Hub, Store, set_client, capacity, close_send, replace, register, add, remove, remove_all,
}

unfoldable pub UniqueKeys : Map String ℕ → Type 0
UniqueKeys [] = Unit
UniqueKeys ((id, at) ∷ clients) = (lookup id clients ≡ none) × UniqueKeys clients

-- A client in the map was made, has the identifier it is kept under, and is open.
abbrev pub Entry : Store → ℕ → String → ℕ → Type 0
Entry store made id at = (at < made) × ((store at).id ≡ id) × ((store at).closed ≡ false)

pub record IsRegistered (hub : Hub) : Type 0 where
  pub entry :
      (id : String) (at : ℕ) → lookup id hub.clients ≡ some at → Entry hub.store hub.made id at
  pub held :
      (at : ℕ)
      → at < hub.made
      → (hub.store at).closed ≡ false
      → lookup (hub.store at).id hub.clients ≡ some at
  pub unique : UniqueKeys hub.clients
  pub room : (at : ℕ) → length (hub.store at).queue ≤ capacity

delete-UniqueKeys : (id : String) (m : Map String ℕ) → UniqueKeys m → UniqueKeys (delete id m)
unfolding UniqueKeys delete
delete-UniqueKeys id [] u = tt
delete-UniqueKeys id ((k, at) ∷ m) (fresh, u) = elim (Bool-cases (k == id)) [
  | inl same ↦ rw same (delete-UniqueKeys id m u)
  | inr other ↦ rw other (
    ground (arith, lookup-delete id k m, fresh, other, str_iff k id, str_iff id k),
    delete-UniqueKeys id m u,
  )
]

insert-UniqueKeys :
    (id : String) (at : ℕ) (m : Map String ℕ) → UniqueKeys m → UniqueKeys (insert id at m)
unfolding UniqueKeys insert lookup
insert-UniqueKeys id at [] u = (refl, tt)
insert-UniqueKeys id at ((k, old) ∷ m) (fresh, u) = elim (Bool-cases (k == id)) [
  | inl same ↦ rw same (fresh, u)
  | inr other ↦ rw other (
    ground (arith, lookup-insert id k at m, fresh, other, str_iff k id, str_iff id k),
    insert-UniqueKeys id at m u,
  )
]

module _ (hub : Hub) (h : IsRegistered hub) where
  -- A client of the map is closed and taken out.
  unfoldable pub close_out : String → ℕ → Hub
  close_out id at = record hub {
    clients = delete id hub.clients;
    store = set_client at (record (hub.store at) { closed = true }) hub.store;
  }

  pub close_send-out :
      (id : String) (at : ℕ)
      → lookup id hub.clients ≡ some at
      → close_send at (record hub { clients = delete id hub.clients }) ≡ some (close_out id at)
  unfolding close_send close_out
  close_send-out id at there = ground (arith, h.entry id at there)

  pub close_out-IsRegistered :
      (id : String) (at : ℕ) → lookup id hub.clients ≡ some at → IsRegistered (close_out id at)
  unfolding close_out set_client
  close_out-IsRegistered id at there = record {
    entry = λ j k found. ground (
      arith,
      found,
      lookup-delete id j hub.clients,
      h.entry j k,
      h.entry id at there,
      str_iff id j,
      nat_eqb_iff k at,
    );
    held = λ k made is_open. ground (
      arith,
      is_open,
      h.held k made,
      lookup-delete id (hub.store k).id hub.clients,
      h.entry id at there,
      str_iff id (hub.store k).id,
      nat_eqb_iff k at,
    );
    unique = delete-UniqueKeys id hub.clients h.unique;
    room = λ k. ground (arith, h.room k, h.room at);
  }

  close_out-free : (id : String) (at : ℕ) → lookup id (close_out id at).clients ≡ none
  unfolding close_out
  close_out-free id at = ground (arith, lookup-delete id id hub.clients, str_iff id id)

-- The call does not panic, and leaves the hub as it should be.
abbrev pub Fine : Option Hub → Type 0
Fine o = (hub : Hub) × (o ≡ some hub) × IsRegistered hub

register-IsRegistered :
    (c : Client) (hub : Hub)
    → IsRegistered hub
    → c.closed ≡ false
    → length c.queue ≤ capacity
    → lookup c.id hub.clients ≡ none
    → IsRegistered (register c hub)
unfolding register set_client
register-IsRegistered c hub h is_open room free = record {
  entry = λ j k found. ground (
    arith,
    found,
    is_open,
    lookup-insert c.id j hub.made hub.clients,
    h.entry j k,
    str_iff c.id j,
    nat_eqb_iff k hub.made,
  );
  held = λ k made alive. ground (
    arith,
    made,
    alive,
    free,
    lookup-insert c.id (if nat_eqb k hub.made then c else hub.store k).id hub.made hub.clients,
    h.held k,
    str_iff c.id (if nat_eqb k hub.made then c else hub.store k).id,
    nat_eqb_iff k hub.made,
  );
  unique = insert-UniqueKeys c.id hub.made hub.clients h.unique;
  room = λ k. ground (arith, h.room k, room);
}

pub add-Fine :
    (c : Client) (hub : Hub)
    → IsRegistered hub
    → c.closed ≡ false
    → length c.queue ≤ capacity
    → Fine (add c hub)
unfolding add replace
add-Fine c hub h is_open room = elim (Option-cases (lookup c.id hub.clients)) [
  | inl free ↦
      (register c hub, ground (arith, free), register-IsRegistered c hub h is_open room free)
  | inr (at, there) ↦
      let out = close_out hub h c.id at in
      let free : lookup c.id out.clients ≡ none = close_out-free hub h c.id at in
      let (made, same, alive) = h.entry c.id at there in
      let left : delete (hub.store at).id hub.clients ≡ delete c.id hub.clients =
        ap (λ id. delete id hub.clients) same in
      (
        register c out,
        ground (arith, there, left, close_send-out hub h c.id at there),
        register-IsRegistered c out (close_out-IsRegistered hub h c.id at there) is_open room free,
      )
]

pub remove-Fine : (at : ℕ) (hub : Hub) → IsRegistered hub → Fine (remove at hub)
unfolding remove
remove-Fine at hub h = elim (Option-cases (lookup (hub.store at).id hub.clients)) [
  | inl absent ↦ (hub, ground (arith, absent), h)
  | inr (current, there) ↦ elim (Bool-cases (nat_eqb current at)) [
    | inl same ↦
        let this : lookup (hub.store at).id hub.clients ≡ some at = ground (arith, there, same) in
        (
          close_out hub h (hub.store at).id at,
          ground (arith, this, close_send-out hub h (hub.store at).id at this),
          close_out-IsRegistered hub h (hub.store at).id at this,
        )
    | inr other ↦ (hub, ground (arith, there, other), h)
  ]
]

pub remove_all-Fine : (stale : List ℕ) (hub : Hub) → IsRegistered hub → Fine (remove_all stale hub)
unfolding remove_all
remove_all-Fine [] hub h = (hub, refl, h)
remove_all-Fine (at ∷ stale) hub h =
    let (hub', eq, h') = remove-Fine at hub h in
    let (hub'', eq', h'') = remove_all-Fine stale hub' h' in (hub'', ground (arith, eq, eq'), h'')
