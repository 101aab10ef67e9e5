-- ===== src/Task/Final.antt =====
-- The end of a turn (`_outcome_start_gate`, `gate_final`, `after_result` and `final_status` of
-- src/deep_agent/msty_task.py): the gates of an answer in their order, and the status of the turn.
pub mod Held
pub mod Delivery
pub mod Kept
use sanare_agent_core.Base.{
  ℕ, String, Bool, true, false, not, ◌&&◌, ◌||◌, Option, none, some, List, [], ◌∷◌, leb, ◌==◌,
  if◌then◌else◌, str_eq, string_append,
}
use sanare_agent_core.Text.Strings.{tidy, first}
use sanare_agent_core.Json
use sanare_agent_core.Json.{Value, text, dict, Fields, field, get, put}
use sanare_agent_core.Json.Shapes.{is, is_one_of}
use sanare_agent_core.Execution.Progress.{max_actions, finish_reason}
use sanare_agent_core.Task.{Host, Plan, Status, planned, verified, blocked, Contract, named}
use sanare_agent_core.Task.Observe.{verify_suffix}
use sanare_agent_core.Task.Conversation.{State, owner_control, incident}
use sanare_agent_core.Task.OpenPlan.{
  Reply, Tool, no_calls, stopped, terminated, gate_name, selected_name, one_call, open_plan_gate,
  native_todos,
}
use sanare_agent_core.Task.Sites.{
  JobStatus, Jobs, is_clean, site_jobs, tools_named, only_tool, block, call_instead, exempt,
  site_gate,
}

-- One real read in place of a diagnosis that nothing supports.
unfoldable pub first_read : String → String → Option Value → Reply → Option Reply
first_read fresh words none r = none
first_read fresh words (some name) r = some (
    call_instead
      "Сначала проверяю сохранённый контекст этого инцидента, затем продолжаю до результата."
      "incident_first_action_required"
      (one_call (string_append "outcome_" fresh) name
        (field "query" (text (first 300 (tidy words))) Json.end))
      r)

-- The turn may begin with this answer.
unfoldable pub starts_freely : State → Reply → Bool → Bool
starts_freely s r disabled =
    not (no_calls r)
    || disabled
    || stopped r.metadata
    || is_one_of (finish_reason (dict r.metadata)) terminated
    || leb max_actions s.actions_issued

unfoldable pub start_with : String → Option String → State → Reply → List Tool → Bool → Option Reply
unfolding first_read starts_freely
start_with fresh none s r tools disabled = none
start_with fresh (some words) s r tools disabled =
    if starts_freely s r disabled
    then none
    else first_read fresh words
        (only_tool (tools_named "msty_admin_memory_search" tools) (selected_name s.tool_choice)) r

unfoldable pub outcome_start_gate : Host → String → State → Reply → List Tool → Bool → Option Reply
unfolding start_with
outcome_start_gate host fresh s r tools disabled =
    start_with fresh (incident host s) s r tools disabled

unfoldable pub all_clean : Jobs → Bool
all_clean [] = true
all_clean ((job, status) ∷ jobs) = is_clean status && all_clean jobs

-- There are copies, and each is clean.
unfoldable pub sites_verified : Jobs → Bool
unfolding all_clean
sites_verified [] = false
sites_verified ((job, status) ∷ jobs) = all_clean ((job, status) ∷ jobs)

unfoldable pub no_tool_calls : Reply → Bool
no_tool_calls r = elim r.tool_calls [ [] ↦ true | _ ↦ false ]

-- What a failed verification leaves of an answer, whatever the owner said.
unfoldable pub after_failure : Jobs → Reply → Reply
unfolding sites_verified
after_failure jobs r =
    if sites_verified jobs
    then record r { metadata = gate_name "site_executor_verified" r }
    else block
        "Выполнение не подтверждено: проверка артефакта не пройдена. Нужны фактическое исправление и успешная повторная проверка; внутренний список задач не подтверждает результат."
        "failed_verification_preserved" r

-- An answer whose words are replaced, and that is marked as blocked.
unfoldable pub deny : String → Reply → Reply
deny words r = record r {
  content = text words;
  metadata = put "msty_blocked" (Json.bool true) r.metadata;
}

-- The checks of a plan are asked for under the plan's id; a contract without one has no such key.
unfoldable pub request : String → Value → Option Plan → Reply → Option Reply
request fresh name none r = none
request fresh name (some p) r = some (
    call_instead "Проверю критерии плана по локальным наблюдениям." "native_verification_required"
      (one_call (string_append "verify_" fresh) name (field "plan_id" (text p.plan_id) Json.end)) r)

-- names != [selected]
unfoldable pub other_names : List Value → Option Value → Bool
other_names names none = false
other_names (name ∷ []) (some selected) = not (Json.eq selected name)
other_names names (some selected) = true

unfoldable pub ask_names : String → List Value → Option Plan → State → Reply → Option Reply
unfolding request
ask_names fresh (name ∷ []) plan s r =
    if leb max_actions s.actions_issued
    then some (
        deny
          "Проверки плана ещё не подтверждены; инструмент проверки недоступен или лимит действий исчерпан."
          r)
    else request fresh name plan r
ask_names fresh names plan s r = some (
    deny
      "Проверки плана ещё не подтверждены; инструмент проверки недоступен или лимит действий исчерпан."
      r)

unfoldable pub ask_verification : String → Option Plan → State → Reply → List Tool → Option Reply
unfolding other_names ask_names
ask_verification fresh plan s r tools =
    if other_names (tools_named verify_suffix tools) (selected_name s.tool_choice)
    then some (
        deny "Текущий выбор инструмента не разрешает проверку плана; завершение не подтверждено." r)
    else ask_names fresh (tools_named verify_suffix tools) plan s r

unfoldable pub or_same : Reply → Option Reply → Option Reply
or_same r none = some r
or_same r (some gated) = some gated

-- The turn's own plan, where no contract is planned.
unfoldable pub own_plan : Host → String → State → Reply → List Tool → Bool → Option Reply
unfolding or_same
own_plan host fresh s r tools disabled = or_same r (open_plan_gate host fresh s r tools disabled)

unfoldable pub is_planned : Status → Bool
is_planned planned = true
is_planned status = false

unfoldable pub is_blocked : Status → Bool
is_blocked blocked = true
is_blocked status = false

unfoldable pub gate_contract :
    Host → String → Option Contract → State → Reply → List Tool → Bool → Option Reply
unfolding own_plan is_planned is_blocked
gate_contract host fresh none s r tools disabled = own_plan host fresh s r tools disabled
gate_contract host fresh (some c) s r tools disabled =
    if is_blocked c.status && no_tool_calls r
    then some (after_failure (site_jobs host.parse s) r)
    else if not (is_planned c.status) || exempt host s r disabled
    then own_plan host fresh s r tools disabled
    else ask_verification fresh c.plan s r tools

unfoldable pub unless_gated : Option Reply → Option Reply → Option Reply
unless_gated none later = later
unless_gated (some r) later = some r

-- gate_final; `none` is the KeyError of a planned contract that holds no plan.
unfoldable pub gate_final : Host → String → State → Reply → List Tool → Bool → Option Reply
unfolding unless_gated gate_contract
gate_final host fresh s r tools disabled =
    unless_gated (outcome_start_gate host fresh s r tools disabled) (
      unless_gated (site_gate host fresh s r tools disabled)
        (gate_contract host fresh s.contract s r tools disabled))

-- A call that is not of the verification and not of the list of to-dos.
unfoldable pub new_work : List Fields → Bool
new_work [] = false
new_work (c ∷ cs) =
    (not (named (get "name" c) verify_suffix) && not (is (get "name" c) native_todos))
    || new_work cs

unfoldable pub has_plan_id : Option Plan → Bool
has_plan_id none = false
has_plan_id (some p) = not (str_eq p.plan_id "")

-- New work behind a verification is not verified.
unfoldable pub reopened : Contract → List Fields → Contract
unfolding new_work has_plan_id
reopened c calls = elim c.status [
  | verified ↦ if new_work calls && has_plan_id c.plan then record c { status = planned } else c
  | _ ↦ c
]

unfoldable pub after_result : Option Contract → List Fields → Option Contract
unfolding reopened
after_result none calls = none
after_result (some c) calls = some (reopened c calls)

-- state.get('tool_choice') == 'none' or … == {'type': 'none'}
unfoldable pub no_tools_chosen : Value → Bool
no_tools_chosen choice =
    is choice "none" || Json.eq choice (dict (field "type" (text "none") Json.end))

unfoldable pub status_of : Status → Bool → String
status_of blocked free = "blocked"
status_of verified free = "verified_against_observations"
status_of planned free = if free then "answered" else "blocked"

unfoldable pub status_with : Host → State → Option Contract → String
unfolding status_of
status_with host s none = "answered"
status_with host s (some c) =
    status_of c.status (owner_control host s || no_tools_chosen s.tool_choice)

unfoldable pub final_status : Host → State → String → String
unfolding status_with
final_status host s default =
    if str_eq default "answered" then status_with host s s.contract else default
