-- ===== src/Push/Examples.antt =====
-- The theorems on internal/push/hub.go at one or two clients.
use n8n_turbo.Prelude.{◌≡◌, some, [], ◌∷◌, string_eq}
use n8n_turbo.Push.Hub.{Hub, BroadcastTarget, new_client, new_hub}
use n8n_turbo.Push.Registered.{IsRegistered}
use n8n_turbo.Push.Calls.{connects, hangs_up, publishes, subscribes, writes, call_all}
use n8n_turbo.Push.Safety.{call_all-IsRegistered}

abbrev everybody : BroadcastTarget
everybody = record { user_id = ""; session_id = ""; execution_id = "" }

-- The second client takes the place of the first.
call_all-IsRegistered_example :
    (hub : Hub) × (call_all
        (connects "a" "u" "s"
          ∷ connects "a" "u" "t"
          ∷ subscribes "a" "7"
          ∷ publishes (some "m") everybody
          ∷ hangs_up 0
          ∷ writes 1
          ∷ [])
        new_hub
      ≡ some hub)
    × IsRegistered hub
call_all-IsRegistered_example = call_all-IsRegistered (
    connects "a" "u" "s"
    ∷ connects "a" "u" "t"
    ∷ subscribes "a" "7"
    ∷ publishes (some "m") everybody
    ∷ hangs_up 0
    ∷ writes 1
    ∷ [])

abbrev one_client : Hub
one_client = record { clients = ("a", 0) ∷ []; store = λ _. new_client "a" "u" ""; made = 1 }
