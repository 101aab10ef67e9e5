-- ===== src/Compaction/Trigger/Examples.antt =====
-- The trigger of a task bound to luna, and of one without a binding.
use sanare_agent_core.Base.{◌≡◌, refl, contains}
use sanare_agent_core.Json
use sanare_agent_core.Json.{int, text, dict, Fields, field, get, eq}
use sanare_agent_core.Execution.Limits.{
  input_limit, window_input_limit, context_window, window_limit,
}
use sanare_agent_core.Compaction.Trigger.{trigger_tokens, mechanical_target_tokens}

abbrev binding : Fields
binding = field "profile" (text "luna") (field "input_limit" (int 900_000) Json.end)

abbrev state : Fields
state = field "task_budget_binding" (dict binding) Json.end

program : Unit {0}
unfolding trigger_tokens mechanical_target_tokens input_limit window_input_limit context_window
    window_limit get eq contains
program = tt

admitted : input_limit state ≡ 900_000
unfolding program
admitted = refl

luna_trigger : trigger_tokens state ≡ 218_000
unfolding program
luna_trigger = refl

luna_target : mechanical_target_tokens state ≡ 185_300
unfolding program
luna_target = refl
