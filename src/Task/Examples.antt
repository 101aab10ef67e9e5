-- ===== src/Task/Examples.antt =====
-- The contract and the gates at concrete conversations, and runs of their functions.
mod Gates
use sanare_agent_core.Base.{
  ℕ, String, Bool, true, false, Option, none, some, List, [], ◌∷◌, ◌≡◌, refl, str_eq, contains,
  all_in, if◌then◌else◌,
}
use sanare_agent_core.Text.{is_space}
use sanare_agent_core.Text.Strings
use sanare_agent_core.Base.Dict
use sanare_agent_core.Json
use sanare_agent_core.Json.Shapes
use sanare_agent_core.Task.Planning
use sanare_agent_core.Task.Learning
use sanare_agent_core.Json.{
  Value, null, int, text, dict, list, Fields, field, Items, get, find, has, put, truthy, eq,
  elements,
}
use sanare_agent_core.Execution.Progress.{finish_reason}
use sanare_agent_core.Execution.Walk.{Bound, find_bound, field_of}
use sanare_agent_core.Task.{Host, Contract, Status, verified, planned, blocked, named}
use sanare_agent_core.Task.Receipts.{decode}
use sanare_agent_core.Task.Planning.{plan_contract}
use sanare_agent_core.Task.Planning.Soundness.{SoundContract}
use sanare_agent_core.Task.Verify.{verified_by, verify_receipt_ok, sources_from}
use sanare_agent_core.Task.Observe.{observe}
use sanare_agent_core.Task.Observe.Evidence.{observe-IsSound}
use sanare_agent_core.Task.Conversation
use sanare_agent_core.Task.Conversation.{State, turn, owner_control}
use sanare_agent_core.Task.OpenPlan
use sanare_agent_core.Task.Sites
use sanare_agent_core.Task.OpenPlan.{Reply, Tool}
use sanare_agent_core.Task.Final
use sanare_agent_core.Task.Final.{final_status, after_result, gate_final}
use sanare_agent_core.Task.Final.Kept.{
  Kept, start, observed, answered, Evidence, final_status-Evidence,
}

unfoldable pub fields : List (String × Value) → Fields
fields [] = Json.end
fields ((k, v) ∷ rest) = field k v (fields rest)

unfoldable pub object : List (String × Value) → Value
unfolding fields
object kvs = dict (fields kvs)

abbrev pub one : Value → Value
one v = list (Json.item v Json.nil)

abbrev hash : String
hash = "00112233445566778899aabbccddeeff00112233445566778899aabbccddeeff"

abbrev plan_id : String
plan_id = "taskplan-00112233445566778899aabbccddeeff"

abbrev plan_args : Value
plan_args = object (
    ("project_slug", text "site")
    ∷ ("requirements", one (text "the page is there"))
    ∷ (
      "checks",
      one (
          object
            (("requirement_index", int 0) ∷ ("kind", text "sha256") ∷ ("path", text "a.txt") ∷ [])),
    )
    ∷ [])

abbrev identity : List (String × Value)
identity =
    ("plan_id", text plan_id)
    ∷ ("plan_sha256", text hash)
    ∷ ("project_slug", text "site")
    ∷ ("requirements_count", int 1)
    ∷ ("checks_count", int 1)
    ∷ ("criteria_origin", text "model_proposed")
    ∷ ("whole_task_completion_verified", Json.bool false)
    ∷ []

abbrev plan_receipt : Value
plan_receipt = object (("schema", text "msty.task.plan.v1") ∷ ("state", text "planned") ∷ identity)

abbrev check_receipt : Value
check_receipt = object (
    ("index", int 0)
    ∷ ("requirement_index", int 0)
    ∷ ("kind", text "sha256")
    ∷ ("status", text "passed")
    ∷ ("code", text "match")
    ∷ ("artifact_sha256", text hash)
    ∷ ("size_bytes", int 5)
    ∷ [])

abbrev verify_receipt : Value
verify_receipt = object (
    ("schema", text "msty.task.verification.v1")
    ∷ ("state", text "passed")
    ∷ ("checks", one check_receipt)
    ∷ (
      "source_hashes",
      one (object (("path", text "a.txt") ∷ ("sha256", text hash) ∷ ("size_bytes", int 5) ∷ [])),
    )
    ∷ ("receipt_path", text "project-governance/changes/1.json")
    ∷ ("receipt_sha256", text hash)
    ∷ identity)

parsed : String → Option Value
parsed t =
    if str_eq t "plan"
    then some plan_receipt
    else if str_eq t "verification"
    then some verify_receipt
    else none

abbrev host : Host
host = record {
  digest = λ v. "digest";
  parse = parsed;
  json_bytes = λ v. some 10;
  controls = λ t. str_eq t "stop";
  reports_incident = λ t. false;
}

abbrev plan_call : Bound
plan_call = ("b1_a", record { id = "call_1"; name = "msty_task_plan"; args = plan_args }) ∷ []

abbrev verify_call : Bound
verify_call =
    (
      "b2_a",
      record {
        id = "call_2";
        name = "msty_task_verify";
        args = object (("plan_id", text plan_id) ∷ []);
      },
    )
    ∷ []

abbrev answer : String → String → Value
answer client words =
    object (("role", text "tool") ∷ ("tool_call_id", text client) ∷ ("content", text words) ∷ [])

abbrev plan_results : List Value
plan_results = answer "b1_a" "plan" ∷ []

abbrev verify_results : List Value
verify_results = answer "b2_a" "verification" ∷ []

abbrev after_plan : Option Contract
after_plan = observe host none plan_call plan_results

abbrev after_verification : Option Contract
after_verification = observe host after_plan verify_call verify_results

status : Option Contract → Option Status
status none = none
status (some c) = some c.status

program : Unit {0}
unfolding observe parsed object fields status field_of find_bound decode plan_contract verified_by
    final_status owner_control named Shapes.is Shapes.is_one_of Shapes.keys_are Shapes.is_false
    Shapes.is_true Shapes.is_bool Shapes.is_text Shapes.is_count Shapes.is_count_within
    Shapes.texts_satisfy Shapes.fields_of Shapes.items_of Shapes.is_dict Shapes.is_list
    Shapes.text_of Strings.ends_with Strings.lstrip Strings.rstrip Strings.strip Strings.tidy
    Strings.first Strings.join_with Strings.every Strings.is_hex Strings.is_word Strings.hex_digits
    Strings.hex_after Strings.behind Strings.json_name Json.elements Json.from_elements Json.get
    Json.find Json.size Json.keys_within Json.truthy Json.put Json.has Json.eq contains all_in
    Planning.plan_receipt_ok Planning.receipt_keys Learning.is_hash Planning.summaries
    Planning.covers_all Planning.text_or_empty verify_receipt_ok sources_from Dict.get
program = tt

plan_accepted : status after_plan ≡ some planned
unfolding program
plan_accepted = refl

verification_accepted : status after_verification ≡ some verified
unfolding program
verification_accepted = refl

observe-IsSound_example : SoundContract after_plan
observe-IsSound_example = observe-IsSound host plan_call plan_results none tt

abbrev verified_state : State
verified_state = record {
  messages = [];
  tool_choice = null;
  actions_issued = 2;
  contract = after_verification;
}

abbrev batches : List (Bound × List Value)
batches = (verify_call, verify_results) ∷ (plan_call, plan_results) ∷ []

verified_state-Kept : Kept host batches after_verification
verified_state-Kept =
    observed verify_call verify_results ((plan_call, plan_results) ∷ []) after_plan
      (observed plan_call plan_results [] none start)

final_status-Evidence_example :
    (c : Contract) × (after_verification ≡ some c) × Evidence host batches c
final_status-Evidence_example =
    final_status-Evidence host batches verified_state verified_state-Kept (unfold program in refl)

-- A turn that would end with its plan unverified, where the verification tool is there.
abbrev planned_state : State
planned_state = record {
  messages = fields (("role", text "user") ∷ ("content", text "do it") ∷ []) ∷ [];
  tool_choice = null;
  actions_issued = 1;
  contract = after_plan;
}

abbrev done : Reply
done = record {
  content = text "done";
  tool_calls = [];
  invalid_tool_calls = 0;
  metadata = Json.end;
}

abbrev verify_tool : Tool
verify_tool = record {
  kind = text "function";
  function = fields (("name", text "msty_task_verify") ∷ []);
}

gates : Unit {0}
unfolding program gate_final Final.outcome_start_gate Final.ask_verification Final.sites_verified
    Final.no_tool_calls Conversation.incident Conversation.turn Conversation.current_messages
    Sites.site_gate Sites.site_jobs Sites.pending Sites.tools_named Sites.call_instead finish_reason
    OpenPlan.selected_name OpenPlan.tool_name OpenPlan.one_call OpenPlan.gate_name
    OpenPlan.open_plan_gate OpenPlan.open_plan OpenPlan.gate_history OpenPlan.history_from
    OpenPlan.released Conversation.call_args is_space Dict.set Final.after_failure
gates = tt

asked : Reply
asked = record {
  content = text "Проверю критерии плана по локальным наблюдениям.";
  tool_calls =
      fields (
        ("id", text "verify_0a")
        ∷ ("name", text "msty_task_verify")
        ∷ ("args", object (("plan_id", text plan_id) ∷ []))
        ∷ ("type", text "tool_call")
        ∷ [])
      ∷ [];
  invalid_tool_calls = 0;
  metadata = fields (("msty_completion_gate", text "native_verification_required") ∷ []);
}

asks_for_verification :
    gate_final host "0a" planned_state done (verify_tool ∷ []) false ≡ some asked
unfolding gates asked
asks_for_verification = refl
