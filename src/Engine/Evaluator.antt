-- ===== src/Engine/Evaluator.antt =====
-- internal/engine/evaluator.go: what `ExecuteWithOptions` keeps, and its steps. The hooks and event
-- callbacks only observe, and the time stamps are left out.
use n8n_turbo.Prelude.{
  ℕ, zero, suc, Bool, true, false, not, ◌&&◌, ◌||◌, String, Option, none, some, List, [], ◌∷◌,
  if◌then◌else◌, ℤ, pos, negsuc, ltb_ℤ, length, leb, ltb, ◌==◌, string_eq, int_eq,
}
use n8n_turbo.Prelude.Map.{Map, has}
use n8n_turbo.Dataplane.Types.{Node, Workflow, Item, Output, empty_output}
use n8n_turbo.Dataplane.Connections.{bind, node_by_name, start_nodes}
use n8n_turbo.Dataplane.Graph.{Graph, StringSet, marked, node, ancestors}
use n8n_turbo.Engine.Failure.{Failure, Status}

-- `DestinationMode` is a string.
pub data DestinationMode : Type 0 where
  inclusive exclusive unset : DestinationMode
  unsupported : String → DestinationMode

pub record DestinationNode : Type 0 where
  pub node_name : String
  pub mode : DestinationMode

abbrev pub NodeInputs : Type 0
NodeInputs = Map ℤ (List Item)

-- `dataplane.TaskData`, without its times.
pub record TaskData : Type 0 where
  pub execution_status : Status
  pub execution_index : ℕ
  pub output : Output
  pub error : Option Failure

abbrev pub RunData : Type 0
RunData = Map String (List TaskData)

pub record ExecuteOptions : Type 0 where
  pub destination : Option DestinationNode
  pub trigger_node : String
  pub trigger_items : List Item
  pub initial_inputs : Map String NodeInputs
  pub start_names : List String
  pub run_data : RunData
  pub pin_data : Map String (List Item)

-- `allowedNodes`: an error, or the destination with its mode set, and the nodes that may run; `none`
-- stands for the map that is nil.
pub data Allowed : Type 0 where
  refused : Allowed
  allowed : Option DestinationNode → Option StringSet → Allowed

unfoldable pub set_mode : DestinationNode → DestinationNode
set_mode d = record d { mode = elim d.mode [ unset ↦ inclusive | other ↦ other ] }

unfoldable pub allowed_nodes : Graph → Option DestinationNode → Allowed
unfolding set_mode
allowed_nodes g none = allowed none none
allowed_nodes g (some d) =
    let d' = set_mode d in
    let found = node g d'.node_name in
    elim d'.mode [
      | unsupported s ↦ refused
      | _ ↦ elim found [
        | none ↦ refused
        | some n ↦ allowed (some d') (some (ancestors g d'.node_name))
      ]
    ]

abbrev pub is_exclusive : DestinationMode → Bool
is_exclusive exclusive = true
is_exclusive _ = false

abbrev pub is_inclusive : DestinationMode → Bool
is_inclusive inclusive = true
is_inclusive _ = false

unfoldable pub in_allowed : String → Option StringSet → Bool
in_allowed name none = true
in_allowed name (some set) = marked name set

unfoldable pub passes : String → Option DestinationNode → Bool
passes name none = true
passes name (some d) = not (is_exclusive d.mode) || not (name == d.node_name)

unfoldable pub can_execute_node : String → Option StringSet → Option DestinationNode → Bool
can_execute_node name may destination = in_allowed name may && passes name destination

-- The filters of `startNodes`, by the names that are asked for and over the workflow's nodes.
unfoldable pub named_start :
    Workflow → Option StringSet → Option DestinationNode → List String → List Node
named_start w may d [] = []
named_start w may d (name ∷ names) =
    let rest = named_start w may d names in
    elim (node_by_name w.nodes name) [
      | none ↦ rest
      | some n ↦ if n.disabled || not (can_execute_node n.name may d) then rest else n ∷ rest
    ]

unfoldable pub input_start :
    Option StringSet → Option DestinationNode → Map String NodeInputs → List Node → List Node
input_start may d initial [] = []
input_start may d initial (n ∷ nodes) =
    let rest = input_start may d initial nodes in
    if n.disabled || not (can_execute_node n.name may d)
    then rest
    else if has n.name initial
    then n ∷ rest
    else rest

unfoldable pub filter_start : Option StringSet → Option DestinationNode → List Node → List Node
filter_start may d [] = []
filter_start may d (n ∷ nodes) =
    let rest = filter_start may d nodes in if can_execute_node n.name may d then n ∷ rest else rest

abbrev pub is_nil {ℓ} : {A : Type ℓ} → List A → Bool
is_nil [] = true
is_nil (x ∷ xs) = false

unfoldable pub trigger_start : Option Node → List Node
trigger_start none = []
trigger_start (some n) = if n.disabled then [] else n ∷ []

-- `startNodes`; the list of `StartNodes` was made for the graph already, so it does not panic.
unfoldable pub start_queue :
    Workflow → Option StringSet → Option DestinationNode → ExecuteOptions → Option (List Node)
start_queue w may d options =
    if not (options.trigger_node == "")
    then some (trigger_start (node_by_name w.nodes options.trigger_node))
    else if not (is_nil options.start_names)
    then some (named_start w may d options.start_names)
    else if not (is_nil options.initial_inputs)
    then some (input_start may d options.initial_inputs w.nodes)
    else bind (start_nodes w) (λ nodes. some (filter_start may d nodes))

-- The largest key, from -1 up.
unfoldable pub max_index : ℤ → NodeInputs → ℤ
max_index m [] = m
max_index m ((i, items) ∷ rest) = max_index (if ltb_ℤ m i then i else m) rest

unfoldable pub blank : ℕ → Output
blank zero = []
blank (suc n) = [] ∷ blank n

unfoldable pub put_at : ℕ → List Item → Output → Output
put_at i items [] = []
put_at zero items (x ∷ xs) = items ∷ xs
put_at (suc i) items (x ∷ xs) = x ∷ put_at i items xs

-- `output[index] = items` for each entry; `none` is the panic at an index below zero.
unfoldable pub fill : NodeInputs → Output → Option Output
fill [] output = some output
fill ((pos i, items) ∷ rest) output = fill rest (put_at i items output)
fill ((negsuc i, items) ∷ rest) output = none

abbrev pub size_of : ℤ → ℕ
size_of (pos n) = suc n
size_of (negsuc n) = 0

unfoldable pub flatten_inputs : NodeInputs → Option Output
flatten_inputs [] = some empty_output
flatten_inputs (e ∷ es) = fill (e ∷ es) (blank (size_of (max_index (negsuc 0) (e ∷ es))))

unfoldable pub has_range : ℕ → ℕ → NodeInputs → Bool
has_range from zero inputs = true
has_range from (suc n) inputs =
    let rest = has_range (suc from) n inputs in has (pos from) inputs && rest

unfoldable pub has_all_inputs : NodeInputs → ℕ → Bool
has_all_inputs inputs expected =
    if leb expected 1
    then ltb 0 (length inputs)
    else if ltb (length inputs) expected
    then false
    else has_range 0 expected inputs
