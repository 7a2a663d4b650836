-- ===== src/Dataplane/Types.antt =====
-- internal/dataplane/types.go: the data that the engine reads. Fields that only JSON encoding,
-- storage or the editor read (position, parameters, notes, meta, times) are left out.
use n8n_turbo.Prelude.{
  ℕ, Bool, String, Option, List, [], ◌∷◌, if◌then◌else◌, ℤ, pos, positive, ltb_ℤ, ◌==◌, string_eq,
}
use n8n_turbo.Prelude.Map.{Map}

pub record Node : Type 0 where
  pub id : String
  pub name : String
  pub node_type : String
  pub disabled : Bool
  pub continue_on_fail : Bool
  pub on_error : String
  pub retry_on_fail : Bool
  pub max_tries : ℤ
  pub wait_between_tries : ℤ
  pub use_exponential_backoff : Bool

pub record Connection : Type 0 where
  pub node : String
  pub connection_type : String
  pub index : ℤ

-- By source node, then by connection type; the edges of each output in turn.
abbrev pub Connections : Type 0
Connections = Map String (Map String (List (List Connection)))

pub record InverseConnection : Type 0 where
  pub node : String
  pub output_idx : ℕ

abbrev pub InvertedConnections : Type 0
InvertedConnections = Map String (Map String (List (List InverseConnection)))

pub record Workflow : Type 0 where
  pub id : String
  pub name : String
  pub nodes : List Node
  pub connections : Connections

-- Go's `any`, as the program fills it: JSON values, a number by its text, and the `[]string` that
-- nodes build.
mutual
  pub data Json : Type 0 where
    null : Json
    bool : Bool → Json
    number : String → Json
    text : String → Json
    texts : List String → Json
    arr : JsonList → Json
    obj : JsonFields → Json

  pub data JsonList : Type 0 where
    nil : JsonList
    cons : Json → JsonList → JsonList

  pub data JsonFields : Type 0 where
    end : JsonFields
    field : String → Json → JsonFields → JsonFields

pub record NodeError : Type 0 where
  pub name : String
  pub message : String
  pub timestamp : ℕ
  pub context : Map String Json

pub record Binary : Type 0 where
  pub id : String
  pub data_ : String
  pub mime_type : String
  pub file_type : String
  pub file_name : String
  pub file_size : ℕ
  pub file_extension : String

pub record PairedItem : Type 0 where
  pub item : ℤ
  pub input : Option ℤ

pub record Item : Type 0 where
  pub json : Map String Json
  pub binary : Map String Binary
  pub paired_item : Option PairedItem
  pub error : Option NodeError

abbrev pub Output : Type 0
Output = List (List Item)

abbrev pub main_output : List Item → Output
main_output items = items ∷ []

abbrev pub empty_output : Output
empty_output = [] ∷ []

-- `OnErrorBehavior` is a string; a node may hold one that is none of the three constants.
pub data OnErrorBehavior : Type 0 where
  stop_workflow continue_regular_output continue_error_output : OnErrorBehavior
  other_behavior : String → OnErrorBehavior

abbrev pub behavior_of : String → OnErrorBehavior
behavior_of s =
    if s == "stopWorkflow"
    then stop_workflow
    else if s == "continueRegularOutput"
    then continue_regular_output
    else if s == "continueErrorOutput"
    then continue_error_output
    else other_behavior s

unfoldable pub effective_on_error : Node → OnErrorBehavior
effective_on_error n =
    if n.on_error == ""
    then (if n.continue_on_fail then continue_regular_output else stop_workflow)
    else behavior_of n.on_error

pub record RetryConfig : Type 0 where
  pub enabled : Bool
  pub max_tries : ℤ
  pub wait_between_tries : ℤ
  pub use_exponential_backoff : Bool

-- The three tests on `cfg.MaxTries`, in turn.
unfoldable pub clamp_tries : ℤ → ℤ
clamp_tries n =
    let a = if positive n then n else pos 3 in
    let b = if ltb_ℤ (pos 10) a then pos 10 else a in if ltb_ℤ b (pos 1) then pos 1 else b

unfoldable pub retry_config : Node → RetryConfig
unfolding clamp_tries
retry_config n = record {
  enabled = n.retry_on_fail;
  max_tries = clamp_tries n.max_tries;
  wait_between_tries = if positive n.wait_between_tries then n.wait_between_tries else pos 1000;
  use_exponential_backoff = n.use_exponential_backoff;
}
