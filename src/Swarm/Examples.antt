-- ===== src/Swarm/Examples.antt =====
-- A swarm of two parts: its plan, its admission, a worker and its report.
use sanare_agent_core.Base.{
  contains, distinct, String, true, none, some, [], ◌∷◌, length, ◌≡◌, ◌↔◌, refl,
}
use mathlib.Core.List.{Perm}
use sanare_agent_core.Base.Dict
use sanare_agent_core.Text.{is_space}
use sanare_agent_core.Text.Strings
use sanare_agent_core.Json
use sanare_agent_core.Json.{Value, int, text, dict, list, Fields, field, get}
use sanare_agent_core.Json.Shapes
use sanare_agent_core.Json.Shapes.{items_of}
use sanare_agent_core.Execution.Limits.{
  pricing_version, window_input_limit, context_window, admitted_input,
}
use sanare_agent_core.Execution.Progress.{ModelCall, Pending, finish_reason}
use sanare_agent_core.Breaker.{Breaker, admit, record_success, release_probe}
use sanare_agent_core.Swarm.{Subtask, SwarmPlan}
use sanare_agent_core.Swarm.Parsing
use sanare_agent_core.Swarm.Parsing.{parse_plan}
use sanare_agent_core.Swarm.Parsing.Limits.{IsPlan, parse_plan-IsPlan}
use sanare_agent_core.Swarm.Admission
use sanare_agent_core.Swarm.Admission.{
  Descriptor, Part, descriptor, check_admission, admission_record, verify_execution, swarm_calls,
}
use sanare_agent_core.Swarm.Admission.Granted.{Granted, verify_execution-Granted}
use sanare_agent_core.Swarm.Admission.Described.{verify_execution-descriptor}
use sanare_agent_core.Swarm.Worker
use sanare_agent_core.Swarm.Worker.{
  Answer, Call, answered, WorkerResult, done, worker_call, connection_of, failed, not_made,
  timed_out, incomplete,
}
use sanare_agent_core.Swarm.Worker.Outcome.{Delivered, worker_call-Delivered}
use sanare_agent_core.Swarm.Report.{run_report, complete, place_of, count_done}
use sanare_agent_core.Swarm.Report.Coverage.{in_order, all_done, run_report-in_order}

abbrev part_args : String → String → Value
part_args title prompt = dict (
    field "title" (text title)
      (field "prompt" (text prompt) (field "max_tokens" (int 512) Json.end)))

abbrev args : Value
args = dict (
    field "goal" (text "compare") (
      field "subtasks"
        (list (
          Json.item (part_args "one" "read one") (Json.item (part_args "two" "read two") Json.nil)))
        Json.end))

abbrev part : String → String → String → Subtask
part id title prompt = record {
  id = id;
  title = title;
  role = "исполнитель";
  prompt = prompt;
  output_format = "";
  profile = "deepseek";
  max_tokens = 512;
}

abbrev plan : SwarmPlan
plan = record {
  goal = "compare";
  subtasks = part "s1" "one" "read one" ∷ part "s2" "two" "read two" ∷ [];
}

swarm : Unit {0}
unfolding parse_plan Parsing.text_field Parsing.subtask_id Parsing.parse_subtasks Parsing.prompts
    Json.keys_within Json.get Json.find Json.elements Json.eq Json.size Shapes.items_of
    Shapes.fields_of Shapes.is_list Shapes.is Shapes.is_count Shapes.keys_are Shapes.texts_satisfy
    Shapes.text_of Shapes.is_one_of Strings.strip Strings.lstrip Strings.rstrip is_space contains
    distinct Strings.first Strings.join_with descriptor Admission.swarm_calls Admission.parts_of
    check_admission Admission.items_admit Admission.same_ids verify_execution admit record_success
    release_probe Worker.content_text Worker.recorded Worker.reading Worker.answer_reading
    Worker.result_of Worker.shortened Worker.verdict Worker.read_result window_input_limit
    context_window admitted_input finish_reason worker_call connection_of Dict.get Dict.put
    Dict.remove
swarm = tt

parsed : parse_plan 5 args ≡ some plan
unfolding swarm
parsed = refl

parse_plan-IsPlan_example : IsPlan 5 plan
parse_plan-IsPlan_example = parse_plan-IsPlan 5 args plan parsed

abbrev call : ModelCall
call = record { id = "call_1"; name = "native_swarm"; args = args }

abbrev pending : Pending
pending = record { batch_id = "b"; result_sha256 = ""; calls = call ∷ [] }

abbrev digest : SwarmPlan → String
digest p = p.goal

abbrev described_part : String → String → Part
described_part id title = record {
  id = id;
  title = title;
  role = "исполнитель";
  profile = "deepseek";
  max_tokens = 512;
}

abbrev described : Descriptor
described = record {
  swarm_id = "b:call_1";
  tool_call_id = "call_1";
  plan_sha256 = "compare";
  subtasks = described_part "s1" "one" ∷ described_part "s2" "two" ∷ [];
}

describes : descriptor digest (λ t. t) 5 (some pending) ≡ some described
unfolding swarm
describes = refl

abbrev grant : String → Value
grant id = dict (
    field "id" (text id) (
      field "request_id" (text "r") (
        field "binding"
          (dict (
            field "version" (int 1) (
              field "pricing_version" (text pricing_version) (
                field "profile" (text "deepseek")
                  (field "output_limit" (int 512) (field "input_limit" (int 900_000) Json.end))))))
          Json.end)))

abbrev answer : Fields
answer = field "version" (int 1) (
    field "swarm_id" (text "b:call_1") (
      field "status" (text "admitted") (
        field "subtasks" (list (Json.item (grant "s1") (Json.item (grant "s2") Json.nil)))
          Json.end)))

accepted : check_admission described (dict answer) ≡ some answer
unfolding swarm
accepted = refl

verify_execution-descriptor_example :
    (c : ModelCall) × (p : SwarmPlan) × (swarm_calls pending.calls ≡ c ∷ [])
    × (parse_plan 5 c.args ≡ some p)
    × (verify_execution digest c p (admission_record described answer) ≡ true)
verify_execution-descriptor_example =
    verify_execution-descriptor digest (λ t. t) 5 pending described (dict answer) answer describes
      accepted

runs : verify_execution digest call plan (admission_record described answer) ≡ true
unfolding swarm
runs = refl

is_admitted : Shapes.is (get "status" answer) "admitted" ≡ true
unfolding swarm
is_admitted = refl

verify_execution-Granted_example :
    (described.tool_call_id ≡ call.id)
    × (described.plan_sha256 ≡ digest plan)
    × Granted (items_of (get "subtasks" answer)) plan.subtasks
verify_execution-Granted_example =
    verify_execution-Granted digest call plan described (dict answer) answer accepted is_admitted
      runs

abbrev one : Subtask
one = part "s1" "one" "read one"

abbrev answering : Call
answering = answered (record { content = text " found "; usage = none; metadata = Json.end })

abbrev closed : Breaker
closed = record { token_seq = 0; connections = [] }

abbrev result : WorkerResult
result = record {
  id = "s1";
  title = "one";
  role = "исполнитель";
  profile = "deepseek";
  status = done;
  error = none;
  reason = none;
  usage = none;
  text = "found";
}

works : (worker_call 0 5 one answering closed).result ≡ some result
unfolding swarm
works = refl

worker_call-Delivered_example :
    ((admit 0 (connection_of one) closed).0.0 ≡ none) × Delivered answering result
worker_call-Delivered_example = worker_call-Delivered one result 0 5 answering closed works refl

-- A half-open circuit, whose probe is cancelled.
abbrev half_open : Breaker
half_open = record {
  token_seq = 7;
  connections =
      ("model:deepseek", record { failures = 3; open_until = 1; probe_until = 0; probe_token = 0 })
      ∷ [];
}

abbrev second : WorkerResult
second = record result { id = "s2"; status = failed }

run_report-in_order_example :
    Perm (run_report "w" plan (second ∷ result ∷ []) 0).results (second ∷ result ∷ [])
    × (in_order (place_of plan.subtasks) (run_report "w" plan (second ∷ result ∷ []) 0).results
        ≡ true)
    × ((run_report "w" plan (second ∷ result ∷ []) 0).completed ≡ count_done (second ∷ result ∷ []))
    × ((run_report "w" plan (second ∷ result ∷ []) 0).total ≡ length (second ∷ result ∷ []))
    × (((run_report "w" plan (second ∷ result ∷ []) 0).status ≡ complete)
        ↔ (all_done (second ∷ result ∷ []) ≡ true))
run_report-in_order_example = run_report-in_order "w" plan (second ∷ result ∷ []) 0
