-- ===== src/Executions/Modes.antt =====
-- internal/engine/modes.go: execution modes, which are strings, and the priority that
-- internal/engine/active_executions.go gives to them.
use n8n_turbo.Prelude.{Bool, not, ◌||◌, String, if◌then◌else◌, ◌==◌, string_eq}
use n8n_turbo.Concurrency.Queue.{Priority, low, normal, high}

-- `clean` stands for `strings.TrimSpace(strings.ToLower(mode))`.
unfoldable pub normalize_execution_mode : (String → String) → String → String
normalize_execution_mode clean mode = if clean mode == "" then "manual" else clean mode

unfoldable pub is_production_mode : String → Bool
is_production_mode mode =
    mode == "trigger" || mode == "webhook" || mode == "form" || mode == "scheduled" || mode == "cli"

unfoldable pub should_launch_error_workflow : String → Bool
should_launch_error_workflow mode = not (
    mode == "manual"
    || mode == "error"
    || mode == "internal"
    || mode == "integrated"
    || mode == "webhook-test"
    || mode == "form-test")

unfoldable pub execution_priority : (String → String) → String → Priority
unfolding normalize_execution_mode
execution_priority clean mode =
    let m = normalize_execution_mode clean mode in
    if m == "trigger" || m == "webhook" || m == "scheduled" || m == "form"
    then high
    else if m == "retry" || m == "manual" || m == "webhook-test" || m == "form-test"
    then normal
    else low
