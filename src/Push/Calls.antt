-- ===== src/Push/Calls.antt =====
-- The calls of the hub of internal/push/hub.go, in any order.
use n8n_turbo.Prelude.{String, Option, none, some, List, [], ◌∷◌, ℕ}
use n8n_turbo.Push.Hub.{
  Hub, BroadcastTarget, new_client, set_client, add, remove, publish, subscribe_to_execution,
  unsubscribe_from_execution, take_message,
}

-- A client that connects, with its identifier, user and session; the end of one of its pumps; a
-- `publish`; what a client's `readPump` reads; and a message that its `writePump` takes.
pub data Call : Type 0 where
  connects : String → String → String → Call
  hangs_up : ℕ → Call
  publishes : Option String → BroadcastTarget → Call
  subscribes : String → String → Call
  unsubscribes : String → String → Call
  writes : ℕ → Call

unfoldable pub write_pump : ℕ → Hub → Hub
unfolding take_message set_client
write_pump at hub = record hub { store = set_client at (take_message (hub.store at)) hub.store }

unfoldable pub call : Call → Hub → Option Hub
unfolding add remove publish subscribe_to_execution unsubscribe_from_execution write_pump new_client
call (connects id user_id session_id) hub = add (new_client id user_id session_id) hub
call (hangs_up at) hub = remove at hub
call (publishes payload target) hub = publish payload target hub
call (subscribes id execution_id) hub = some (subscribe_to_execution id execution_id hub)
call (unsubscribes id execution_id) hub = some (unsubscribe_from_execution id execution_id hub)
call (writes at) hub = some (write_pump at hub)

unfoldable pub call_all : List Call → Hub → Option Hub
unfolding call
call_all [] hub = some hub
call_all (c ∷ calls) hub = elim (call c hub) [ none ↦ none | some hub' ↦ call_all calls hub' ]
