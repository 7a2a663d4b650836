-- ===== src/Executions/Registry.antt =====
-- `ActiveExecutions` of internal/engine/active_executions.go. `Add` is `add_begin` up to the wait of
-- the concurrency control service, and `register` once that has given a permit.
use n8n_turbo.Prelude.{
  add_one, sub_one, ℕ, suc, Bool, true, false, String, Option, none, some, List, [], ◌∷◌, map,
  if◌then◌else◌, ℤ, pos, ◌==◌, string_eq,
}
use n8n_turbo.Prelude.Map.{Map, lookup, insert, delete}
use n8n_turbo.Concurrency.Service.{Service, Config}
use n8n_turbo.Concurrency.Service
use n8n_turbo.Concurrency.Calls.{Release, Begin, call_release, wait_with_options}
use n8n_turbo.Executions.Modes.{execution_priority}

-- `canceled` is whether `cancel` has been called.
pub record ActiveExecution : Type 0 where
  pub id : String
  pub workflow_id : String
  pub workflow_name : String
  pub mode : String
  pub started_at : ℕ
  pub canceled : Bool

pub record ActiveExecutions : Type 0 where
  pub executions : Map String ActiveExecution
  pub releases : Map String Release
  pub counter : ℤ
  pub max_concurrent : ℤ
  pub concurrency : Service

unfoldable pub new_active_executions : Config → ActiveExecutions
new_active_executions config = record {
  executions = [];
  releases = [];
  counter = pos 0;
  max_concurrent = config.max_global_concurrent;
  concurrency = Service.new config;
}

unfoldable pub add_begin :
    (String → String) → String → String → String → ℕ → ActiveExecutions → ActiveExecutions × Begin
add_begin clean execution_id workflow_id mode now a =
    let (svc, b) =
      wait_with_options
        (record {
          execution_id = execution_id;
          workflow_id = workflow_id;
          priority = execution_priority clean mode;
        })
        now a.concurrency in
    (record a { concurrency = svc }, b)

-- The rest of `Add`: whether the execution is registered now.
unfoldable pub register : ActiveExecution → Release → ActiveExecutions → ActiveExecutions × Bool
register execution release a = elim (lookup execution.id a.executions) [
  | some other ↦ (record a { concurrency = (call_release release a.concurrency).1 }, false)
  | none ↦ (
    record a {
      executions = insert execution.id execution a.executions;
      releases = insert execution.id release a.releases;
      counter = add_one a.counter;
    },
    true,
  )
]

-- `release()`, where the map had one.
unfoldable pub release_permit : Option Release → Service → Service
release_permit none svc = svc
release_permit (some release) svc = (call_release release svc).1

unfoldable pub remove_execution : String → ActiveExecutions → ActiveExecutions
unfolding release_permit
remove_execution execution_id a = elim (lookup execution_id a.executions) [
  | none ↦ a
  | some execution ↦ record a {
    executions = delete execution_id a.executions;
    releases = delete execution_id a.releases;
    counter = sub_one a.counter;
    concurrency = release_permit (lookup execution_id a.releases) a.concurrency;
  }
]

unfoldable pub stop : String → ActiveExecutions → ActiveExecutions × Bool
stop execution_id a = elim (lookup execution_id a.executions) [
  | none ↦ (a, false)
  | some execution ↦ (
    record a {
      executions = insert execution_id (record execution { canceled = true }) a.executions;
    },
    true,
  )
]

abbrev pub ids : ActiveExecutions → List String
ids a = map (λ e. e.0) a.executions

unfoldable pub stop_each : List String → ActiveExecutions → ℕ → ActiveExecutions × ℕ
stop_each [] a stopped = (a, stopped)
stop_each (id ∷ rest) a stopped =
    let (a', ok) = stop id a in stop_each rest a' (if ok then suc stopped else stopped)

unfoldable pub stop_all : ActiveExecutions → ActiveExecutions × ℕ
unfolding stop_each
stop_all a = stop_each (ids a) a 0

unfoldable pub get : String → ActiveExecutions → Option ActiveExecution
get execution_id a = lookup execution_id a.executions

unfoldable pub in_workflow : String → Map String ActiveExecution → List ActiveExecution
in_workflow workflow_id [] = []
in_workflow workflow_id ((id, e) ∷ rest) =
    let others = in_workflow workflow_id rest in
    if e.workflow_id == workflow_id then e ∷ others else others

unfoldable pub get_by_workflow : String → ActiveExecutions → List ActiveExecution
unfolding in_workflow
get_by_workflow workflow_id a = in_workflow workflow_id a.executions
