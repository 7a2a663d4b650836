-- ===== src/Engine/Failure.antt =====
-- The errors of a node's execution, as the engine tells them apart (internal/engine/suspend.go and
-- retry.go), and the items that stand for one (internal/engine/error_output.go).
use n8n_turbo.Prelude.{
  ℕ, Bool, true, false, String, Option, none, some, List, [], ◌∷◌, ◌++◌, map, if◌then◌else◌,
  string_eq,
}
use n8n_turbo.Prelude.Map.{insert}
use n8n_turbo.Dataplane.Types.{
  Node, text, obj, field, end, Item, Output, continue_error_output, effective_on_error,
}

-- `exhausted` is a `RetryExhaustedError`, which unwraps to its last error; `plain` is any error that
-- is neither a suspension nor the end of a context; `not_registered` is one of `executeNode`.
pub data Failure : Type 0 where
  suspend : String → Failure
  context_canceled deadline_exceeded : Failure
  plain not_registered : String → Failure
  exhausted : ℕ → Failure → Failure

-- `AsSuspendError`: `errors.As` follows `Unwrap`.
unfoldable pub is_suspend : Failure → Bool
is_suspend (suspend reason) = true
is_suspend (exhausted n e) = is_suspend e
is_suspend _ = false

-- `isContextError`: `errors.Is` follows `Unwrap`.
unfoldable pub is_context_error : Failure → Bool
is_context_error context_canceled = true
is_context_error deadline_exceeded = true
is_context_error (exhausted n e) = is_context_error e
is_context_error _ = false

-- `isRetriableError`, for an error that is there; its test for a network error changes nothing.
unfoldable pub is_retriable_error : Failure → Bool
unfolding is_context_error
is_retriable_error e = if is_context_error e then false else true

pub data Status : Type 0 where
  success waiting canceled error : Status

unfoldable pub status_from_error : Option Failure → Status
unfolding is_suspend is_context_error
status_from_error none = success
status_from_error (some e) =
    if is_suspend e then waiting else if is_context_error e then canceled else error

unfoldable pub flatten_output : Output → List Item
flatten_output [] = []
flatten_output (branch ∷ branches) = branch ++ flatten_output branches

-- `message` is `err.Error()`; `now` and `stamp` are the clock, as a number and as text.
module _ (message : Failure → String) (now : ℕ) (stamp : String) where
  unfoldable pub error_item : Node → Failure → Item → Item
  error_item node err item = record {
    json =
        insert "error"
          (obj (
            field "message" (text (message err)) (
              field "name" (text "NodeOperationError") (
                field "node" (text node.name)
                  (field "nodeType" (text node.node_type) (field "timestamp" (text stamp) end))))))
          item.json;
    binary = item.binary;
    paired_item = item.paired_item;
    error = some (record {
      name = "NodeOperationError";
      message = message err;
      timestamp = now;
      context = ("node", text node.name) ∷ ("nodeType", text node.node_type) ∷ [];
    });
  }

  abbrev pub empty_item : Item
  empty_item = record { json = []; binary = []; paired_item = none; error = none }

  unfoldable pub error_items : Node → List Item → Failure → List Item
  unfolding error_item
  error_items node [] err = error_item node err empty_item ∷ []
  error_items node (item ∷ items) err = map (error_item node err) (item ∷ items)

  unfoldable pub build_error_output : Node → Output → Failure → Output
  unfolding error_items flatten_output
  build_error_output node inputs err =
      let items = error_items node (flatten_output inputs) err in
      elim (effective_on_error node) [ continue_error_output ↦ [] ∷ items ∷ [] | _ ↦ items ∷ [] ]
