-- ===== src/Push/Hub.antt =====
-- `Hub` and `Client` of internal/push/hub.go. A client is a pointer, by which the hub's map holds it:
-- the store has the clients that were made, and `none` is a panic, which a send on a closed channel
-- is, and its second close.
use Prim.Native.String.{◌++◌ as ◌++ˢ◌}
use n8n_turbo.Prelude.{
  ℕ, suc, Bool, true, false, not, ◌&&◌, ◌||◌, String, Option, none, some, List, [], ◌∷◌, ◌++◌,
  if◌then◌else◌, ltb, nat_eqb, length, ◌==◌, string_eq, nat_eq,
}
use n8n_turbo.Prelude.Map.{Map, lookup, insert, delete}

-- What `send` holds is `queue`; `delivered` is what `writePump` has taken out.
pub record Client : Type 0 where
  pub id : String
  pub user_id : String
  pub session_id : String
  pub queue : List String
  pub delivered : List String
  pub closed : Bool
  pub execution_subs : List String

pub record BroadcastTarget : Type 0 where
  pub user_id : String
  pub session_id : String
  pub execution_id : String

abbrev pub Store : Type 0
Store = ℕ → Client

pub record Hub : Type 0 where
  pub clients : Map String ℕ
  pub store : Store
  -- How many clients were made.
  pub made : ℕ

unfoldable pub set_client : ℕ → Client → Store → Store
set_client at c store k = if nat_eqb k at then c else store k

abbrev pub capacity : ℕ
capacity = 256

unfoldable pub new_client : String → String → String → Client
new_client id user_id session_id = record {
  id = id;
  user_id = user_id;
  session_id = session_id;
  queue = [];
  delivered = [];
  closed = false;
  execution_subs = [];
}

unfoldable pub new_hub : Hub
new_hub = record { clients = []; store = λ _. new_client "" "" ""; made = 0 }

abbrev pub or_else : String → String → String
or_else a b = if a == "" then b else a

-- ServeHTTP's identifier of a client: of the query `clientId`, `pushRef` and the user's and session's
-- identifiers, or one that is made up.
unfoldable pub client_id : String → String → String → String → String → String
client_id query push_ref user_id session_id made_up =
    let named = or_else query push_ref in
    let joined =
      if named == "" && (not (user_id == "") || not (session_id == ""))
      then user_id ++ˢ ("-" ++ˢ session_id)
      else named in
    if joined == "" || joined == "-" then made_up else joined

-- `close(client.send)`
unfoldable pub close_send : ℕ → Hub → Option Hub
close_send at hub =
    if (hub.store at).closed
    then none
    else some
        (record hub { store = set_client at (record (hub.store at) { closed = true }) hub.store })

-- The client that has the identifier gives way.
unfoldable pub replace : String → Hub → Option Hub
unfolding close_send
replace id hub = elim (lookup id hub.clients) [
  | none ↦ some hub
  | some previous ↦
      close_send previous (record hub { clients = delete (hub.store previous).id hub.clients })
]

unfoldable pub register : Client → Hub → Hub
register c hub = record hub {
  clients = insert c.id hub.made hub.clients;
  store = set_client hub.made c hub.store;
  made = suc hub.made;
}

unfoldable pub add : Client → Hub → Option Hub
unfolding replace register
add c hub = elim (replace c.id hub) [ none ↦ none | some hub' ↦ some (register c hub') ]

unfoldable pub remove : ℕ → Hub → Option Hub
unfolding close_send
remove at hub =
    let id = (hub.store at).id in
    elim (lookup id hub.clients) [
      | none ↦ some hub
      | some current ↦
          if nat_eqb current at
          then close_send at (record hub { clients = delete id hub.clients })
          else some hub
    ]

unfoldable pub remove_all : List ℕ → Hub → Option Hub
unfolding remove
remove_all [] hub = some hub
remove_all (at ∷ stale) hub = elim (remove at hub) [
  | none ↦ none
  | some hub' ↦ remove_all stale hub'
]

unfoldable pub subscribed : String → List String → Bool
subscribed id [] = false
subscribed id (sub ∷ subs) = sub == id || subscribed id subs

unfoldable pub drop_sub : String → List String → List String
drop_sub id [] = []
drop_sub id (sub ∷ subs) = let rest = drop_sub id subs in if sub == id then rest else sub ∷ rest

-- The client is not passed over.
unfoldable pub wanted : BroadcastTarget → Client → Bool
unfolding subscribed
wanted t c =
    (t.user_id == "" || c.user_id == t.user_id)
    && ((t.session_id == "" || c.session_id == t.session_id)
        && (t.execution_id == "" || subscribed t.execution_id c.execution_subs))

unfoldable pub push_message : String → Client → Client
push_message payload c = record c { queue = c.queue ++ payload ∷ [] }

-- The body of the loop over the clients, and whether the client's channel is full.
unfoldable pub offer : BroadcastTarget → String → ℕ → Store → Option (Store × Bool)
unfolding wanted push_message set_client
offer t payload at store =
    let c = store at in
    if not (wanted t c)
    then some (store, false)
    else if c.closed
    then none
    else if ltb (length c.queue) capacity
    then some (set_client at (push_message payload c) store, false)
    else some (store, true)

unfoldable pub offer_all : BroadcastTarget → String → Map String ℕ → Store → Option (Store × List ℕ)
unfolding offer
offer_all t payload [] store = some (store, [])
offer_all t payload ((_, at) ∷ clients) store = elim (offer t payload at store) [
  | none ↦ none
  | some (store', full) ↦ elim (offer_all t payload clients store') [
    | none ↦ none
    | some (store'', stale) ↦ some (store'', if full then at ∷ stale else stale)
  ]
]

-- A message that does not marshal is `none`.
unfoldable pub publish : Option String → BroadcastTarget → Hub → Option Hub
unfolding offer_all remove_all
publish none t hub = some hub
publish (some payload) t hub = elim (offer_all t payload hub.clients hub.store) [
  | none ↦ none
  | some (store, stale) ↦ remove_all stale (record hub { store = store })
]

unfoldable pub change_client : String → (Client → Client) → Hub → Hub
unfolding set_client
change_client id change hub = elim (lookup id hub.clients) [
  | none ↦ hub
  | some at ↦ record hub { store = set_client at (change (hub.store at)) hub.store }
]

unfoldable pub subscribe_to_execution : String → String → Hub → Hub
unfolding change_client
subscribe_to_execution id execution_id hub =
    change_client id
      (λ c. record c { execution_subs = execution_id ∷ drop_sub execution_id c.execution_subs }) hub

unfoldable pub unsubscribe_from_execution : String → String → Hub → Hub
unfolding change_client
unsubscribe_from_execution id execution_id hub =
    change_client id (λ c. record c { execution_subs = drop_sub execution_id c.execution_subs }) hub

-- `writePump` takes a message out of the channel and writes it.
unfoldable pub take_message : Client → Client
take_message c = elim c.queue [
  | [] ↦ c
  | message ∷ rest ↦ record c { queue = rest; delivered = c.delivered ++ message ∷ [] }
]
