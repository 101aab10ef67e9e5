-- ===== src/Task/Examples/Gates.antt =====
-- The gates at conversations with a plan of the turn, an edited copy and a repeated call.
use sanare_agent_core.Base.{◌≤◌, String, true, false, none, some, List, [], ◌∷◌, ◌++◌, ◌≡◌, refl}
use sanare_agent_core.Base.Dict
use sanare_agent_core.Json
use sanare_agent_core.Json.{Value, null, int, text, dict, list, Fields}
use sanare_agent_core.Task.{blocked, checks_not_confirmed}
use sanare_agent_core.Task.Conversation.{
  State, Key, current_messages, repeated_observation, next_calls, next_key, times, same_key,
}
use sanare_agent_core.Task.Conversation.Repetition.{Twice, latest_first, repeated_observation-Twice}
use sanare_agent_core.Task.OpenPlan.{Tool, Reply, open_plan_gate, open_plan_gate_limit}
use sanare_agent_core.Task.OpenPlan.Limit.{message_of}
use sanare_agent_core.Task.OpenPlan.Growth.{
  Grows, start, owner, ordinary, gated, fired_in, without_gate, Grows-fired,
}
use sanare_agent_core.Task.Sites.{clean, pending, site_jobs}
use sanare_agent_core.Task.Sites.Checked.{checked_last, site_jobs-checked_last}
use sanare_agent_core.Task.Final.{gate_final, sites_verified}
use sanare_agent_core.Task.Final.Held.{ends_turn}
use sanare_agent_core.Task.Final.Delivery.{settled, gate_final-settled, gate_final-sites_verified}
use sanare_agent_core.Task.Examples.{fields, object, one, gates, host, done}

abbrev owner_turn : Fields
owner_turn = fields (("role", text "user") ∷ ("content", text "do it") ∷ [])

abbrev call : String → String → Value → Value
call id name args = object (("id", text id) ∷ ("name", text name) ∷ ("args", args) ∷ [])

abbrev calling : Value → Fields
calling c = fields (("role", text "assistant") ∷ ("content", text "") ∷ ("tool_calls", one c) ∷ [])

abbrev answered : String → Value → Fields
answered id content =
    fields (("role", text "tool") ∷ ("tool_call_id", text id) ∷ ("content", content) ∷ [])

abbrev state_of : List Fields → State
state_of ms = record { messages = ms; tool_choice = null; actions_issued = 1; contract = none }

-- The same read twice, with the same answer.
abbrev repeated : State
repeated = state_of (
    owner_turn
    ∷ calling (call "c1" "read_file" (object []))
    ∷ answered "c1" (text "same")
    ∷ calling (call "c2" "read_file" (object []))
    ∷ answered "c2" (text "same")
    ∷ [])

abbrev read_twice : Key
read_twice = record {
  tool_name = "read_file";
  arguments_sha256 = host.digest (object []);
  observation_sha256 = host.digest (object (("content", text "same") ∷ ("name", null) ∷ []));
}

reported : repeated_observation host repeated ≡ some (read_twice, 2)
unfolding gates repeated_observation next_calls next_key times same_key Dict.put
reported = refl

repeated_observation-Twice_example :
    Twice host (latest_first [] (current_messages repeated.messages)) read_twice × (2 ≤ 2)
repeated_observation-Twice_example = repeated_observation-Twice host repeated read_twice 2 reported

-- A turn with a to-do that is still open.
abbrev todos : Value
todos =
    object
      (("todos", one (object (("content", text "check") ∷ ("status", text "pending") ∷ []))) ∷ [])

abbrev planning : List Fields
planning =
    owner_turn ∷ calling (call "c1" "native_write_todos" todos) ∷ answered "c1" (text "ok") ∷ []

abbrev todo_tool : Tool
todo_tool = record {
  kind = text "function";
  function = fields (("name", text "native_write_todos") ∷ []);
}

abbrev going_on : Reply
going_on = record {
  content = text "Ход не закончен: в плане открыты пункты — продолжаю работу.";
  tool_calls =
      fields (
        ("id", text "plangate_0a")
        ∷ ("name", text "native_write_todos")
        ∷ ("args", todos)
        ∷ ("type", text "tool_call")
        ∷ [])
      ∷ [];
  invalid_tool_calls = 0;
  metadata = fields (("msty_completion_gate", text "open_plan_continue") ∷ []);
}

goes_on : open_plan_gate host "0a" (state_of planning) done (todo_tool ∷ []) false ≡ some going_on
unfolding gates
goes_on = refl

grown : Grows host planning
unfolding gates without_gate
grown =
    ordinary _ (answered "c1" (text "ok"))
      (ordinary _ (calling (call "c1" "native_write_todos" todos)) (owner [] owner_turn start refl)
        refl refl)
      refl refl

gated_once : Grows host (planning ++ message_of going_on ∷ [])
unfolding gates without_gate
gated_once = gated (state_of planning) "0a" done going_on (todo_tool ∷ []) false grown goes_on refl

Grows-fired_example :
    fired_in host.parse (planning ++ message_of going_on ∷ []) ≤ open_plan_gate_limit
Grows-fired_example = Grows-fired host gated_once

-- A copy of a site that was edited, and then checked.
abbrev written : Value
written =
    object
      (("schema", text "msty.site.file.v1") ∷ ("state", text "written") ∷ ("job_id", text "j") ∷ [])

abbrev checking_view : Value
checking_view = object (
    ("schema", text "msty.site.job.v1")
    ∷ ("state", text "ready")
    ∷ ("job_id", text "j")
    ∷ ("unchecked_writes", Json.bool false)
    ∷ ("checks", object (("typecheck", object (("passed", Json.bool true) ∷ [])) ∷ []))
    ∷ [])

abbrev edited : State
edited = record (state_of (owner_turn ∷ answered "c1" written ∷ answered "c2" checking_view ∷ [])) {
  contract = some (record {
    status = blocked;
    reason = some checks_not_confirmed;
    plan = none;
    verification = none;
    learning_outcome = none;
  });
}

copy_checked : Dict.get "j" (site_jobs host.parse edited) ≡ some clean
unfolding gates
copy_checked = refl

site_jobs-checked_last_example : checked_last host.parse "j" edited.messages ≡ true
site_jobs-checked_last_example = site_jobs-checked_last host.parse "j" edited copy_checked

abbrev overruled : Reply
overruled = record done {
  metadata = fields (("msty_completion_gate", text "site_executor_verified") ∷ []);
}

ends : gate_final host "0a" edited done [] false ≡ some overruled
unfolding gates
ends = refl

gate_final-sites_verified_example : sites_verified (site_jobs host.parse edited) ≡ true
unfolding gates ends_turn
gate_final-sites_verified_example =
    gate_final-sites_verified host "0a" edited done overruled [] false _ refl refl refl ends refl

gate_final-settled_example :
    (pending (site_jobs host.parse edited) ≡ [])
    × (settled (site_jobs host.parse edited) edited.contract ≡ true)
unfolding gates ends_turn
gate_final-settled_example =
    gate_final-settled host "0a" edited done overruled [] false refl ends refl
