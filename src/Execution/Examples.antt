-- ===== src/Execution/Examples.antt =====
-- The execution protocol at concrete checkpoints, and runs of its functions.
mod Resuming
use sanare_agent_core.Base.{
  contains, all_in, distinct, ℕ, ◌+◌, ◌≤◌, ◌<◌, String, Bool, true, false, none, some, List, [],
  ◌∷◌, starts_with, ◌≡◌, refl, arith,
}
use sanare_agent_core.Json
use sanare_agent_core.Json.{
  Value, null, int, text, dict, list, Fields, field, Items, get, find, eq, size, keys_within,
  is_null, truthy, elements,
}
use sanare_agent_core.Execution.Limits.{
  Result, ok, raised, other_step, legacy_input_limit, context_window, window_limit,
  window_input_limit, input_limit, task_id, validate_binding, actions_exhausted,
}
use sanare_agent_core.Execution.Limits.Binding.{window_limit_reserve, validate_binding-input_limit}
use sanare_agent_core.Execution.Progress.{
  max_actions, waiting_tools, running, answered, ModelCall, Pending, Execution, Update,
  execution_after, finish_reason, call_ids, proper_ids,
}
use sanare_agent_core.Execution.Progress.Budget.{
  waiting, resumed as resumed_state, generate, Follows, execution_after-Follows, generate_budget,
}
use sanare_agent_core.Execution.Walk.{
  Bound, bound_ids, find_bound, find_call, bind_all, field_of, calls_of, see_all, same_set,
}
use sanare_agent_core.Execution.Checks.{
  Waiting, Resumed, last_user, as_dict, as_entries, role_of, or_empty_list, previous_maximum,
  check_step, check_input, check_output, max_stage_output,
}
use sanare_agent_core.Execution.Resume.{
  paused_content, matched, resumed, assistant_turn, validate_resume, wait_external,
}
use sanare_agent_core.Execution.Catalog.{post_batch_catalog}
use sanare_agent_core.Execution.Resume.Complete.{Continues, validate_resume-Continues}

abbrev task : String
task = "9b2f4c1e-0000-4000-8000-000000000001"

-- A parameter for the check of a UUID, and one for a digest.
abbrev uuid_form : String → Bool
uuid_form t = starts_with t "9b2f"

abbrev digest : Value → String
digest (text t) = t
digest (list Json.nil) = "empty"
digest (dict fs) = "fields"
digest v = "other"

abbrev binding : Fields
binding = field "version" (int 1) (
    field "pricing_version" (text "2026-09-23-brain-model-profiles-v4-luna6") (
      field "profile" (text "luna")
        (field "output_limit" (int 32_000) (field "input_limit" (int 900_000) Json.end))))

abbrev bound_state : Fields
bound_state =
    field "execution_task_id" (text task) (field "task_budget_binding" (dict binding) Json.end)

program : Unit {0}
unfolding paused_content validate_binding validate_resume wait_external generate execution_after
    window_input_limit input_limit context_window check_step check_input check_output as_dict
    as_entries matched post_batch_catalog last_user see_all bind_all task_id find eq size
    keys_within truthy elements get contains all_in distinct same_set find_bound find_call bound_ids
    resumed assistant_turn waiting finish_reason call_ids proper_ids field_of calls_of role_of
    or_empty_list previous_maximum window_limit
program = tt

binding_accepted : validate_binding uuid_form "" bound_state none "luna" 32_000 ≡ ok tt
unfolding program
binding_accepted = refl

deepseek_window : context_window "deepseek" ≡ some 1_000_000
unfolding program
deepseek_window = refl

bound_state-binding : get "task_budget_binding" bound_state ≡ dict binding
unfolding program
bound_state-binding = refl

luna_window : window_input_limit "luna" ≡ some 986_000
unfolding program
luna_window = refl

validate_binding-input_limit_example :
    (get "input_limit" binding ≡ int (input_limit bound_state))
    × (l : ℕ) × (window_input_limit "luna" ≡ some l)
    × (input_limit bound_state ≤ l)
validate_binding-input_limit_example =
    validate_binding-input_limit uuid_form "" bound_state none "luna" 32_000 binding
      bound_state-binding binding_accepted

-- Two reads that a generation called.
abbrev calls : List ModelCall
calls =
    record { id = "call_1"; name = "read_file"; args = dict Json.end }
    ∷ record { id = "call_2"; name = "read_file"; args = dict Json.end }
    ∷ []

abbrev started : Execution
started = record {
  task_id = task;
  status = running;
  step = 3;
  actions_issued = 197;
  pending = none;
}

abbrev called : Update
called = record {
  metadata = dict (field "finish_reason" (text "tool_calls") Json.end);
  calls = calls;
  result_sha256 = "result";
  rejected = false;
}

abbrev spoken : Update
spoken = record {
  metadata = dict (field "status" (text "completed") Json.end);
  calls = [];
  result_sha256 = "result";
  rejected = false;
}

abbrev batch_of_two : Pending
batch_of_two = record { batch_id = "batch"; result_sha256 = "result"; calls = calls }

abbrev paused : Execution
paused = record {
  task_id = task;
  status = waiting_tools;
  step = 4;
  actions_issued = 199;
  pending = some batch_of_two;
}

pauses : execution_after uuid_form "" "batch" (resumed_state started) called ≡ ok paused
unfolding program
pauses = refl

exhausts :
    execution_after uuid_form "" "batch" (resumed_state paused) called ≡ raised actions_exhausted
unfolding program
exhausts = refl

execution_after-Follows_example : Follows 3 197 paused
execution_after-Follows_example =
    execution_after-Follows uuid_form "" "batch" (resumed_state started) called started paused
      (unfold program in refl) pauses

abbrev ended : Execution
ended = record { task_id = task; status = answered; step = 5; actions_issued = 199; pending = none }

runs : generate uuid_form "batch" started (called ∷ spoken ∷ []) ≡ ok (ended, 2)
unfolding program
runs = refl

generate_budget_example :
    (ended.actions_issued ≡ started.actions_issued + 2)
    × (ended.actions_issued ≤ max_actions)
    × (ended.step ≡ started.step + 2)
generate_budget_example =
    generate_budget uuid_form "batch" (called ∷ spoken ∷ []) started ended 2 (omega arith) runs
