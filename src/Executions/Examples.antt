-- ===== src/Executions/Examples.antt =====
-- The theorems on internal/engine/active_executions.go at one execution.
use n8n_turbo.Prelude.{false, List, [], ◌∷◌, pos}
use n8n_turbo.Concurrency.Service.{Config}
use n8n_turbo.Concurrency.Calls.{release_func}
use n8n_turbo.Executions.Registry.{ActiveExecution, new_active_executions}
use n8n_turbo.Executions.Invariant.{
  IsConsistent, Change, registering, removing, stopping, apply_all, always-IsConsistent,
}

abbrev limited : Config
limited = record {
  max_global_concurrent = pos 1;
  max_per_workflow_concurrent = pos 0;
  workflow_overrides = [];
  queue_size = pos 0;
  acquire_timeout = pos 0;
}

abbrev running : ActiveExecution
running = record {
  id = "7";
  workflow_id = "w";
  workflow_name = "daily";
  mode = "manual";
  started_at = 3;
  canceled = false;
}

abbrev calls : List Change
calls =
    registering running (release_func "w")
    ∷ registering running (release_func "w")
    ∷ stopping "7"
    ∷ removing "7"
    ∷ []

always-IsConsistent_example : IsConsistent (apply_all calls (new_active_executions limited))
always-IsConsistent_example = always-IsConsistent limited calls
