-- ===== src/Execution/Examples/Resuming.antt =====
-- A paused batch of two reads and its resume.
use sanare_agent_core.Base.{String, true, none, some, [], ◌∷◌, ◌≡◌, refl}
use sanare_agent_core.Json
use sanare_agent_core.Json.{
  Value, null, int, text, dict, list, Fields, field, Items, get, find, eq, size, keys_within,
  is_null, truthy, elements,
}
use sanare_agent_core.Execution.Limits.{Result, ok, raised, other_step}
use sanare_agent_core.Execution.Progress.{running}
use sanare_agent_core.Execution.Walk.{Bound}
use sanare_agent_core.Execution.Checks.{Waiting, Resumed}
use sanare_agent_core.Execution.Resume.{assistant_turn, validate_resume}
use sanare_agent_core.Execution.Resume.Complete.{Continues, validate_resume-Continues}
use sanare_agent_core.Execution.Examples.{task, digest, paused, batch_of_two, program}

abbrev pair : Value → Value → Value
pair a b = list (Json.item a (Json.item b Json.nil))

-- A checkpoint that waits for both reads, and a resume that brings their results.
abbrev turn : Value
turn = dict (field "role" (text "user") (field "content" (text "go") Json.end))

abbrev w : Waiting
w = record {
  fields = field "max_tokens" (int 8_192) (
      field "result"
        (dict (
          field "content"
            (pair (text "so")
              (dict (field "type" (text "text") (field "text" (text "then") Json.end))))
            Json.end))
        Json.end);
  messages = turn ∷ [];
  execution = paused;
  pending = batch_of_two;
}

abbrev entry : String → String → Value
entry client model = dict (field "client_id" (text client) (field "model_id" (text model) Json.end))

abbrev resent : String → Value
resent client = dict (
    field "id" (text client) (
      field "function"
        (dict (field "name" (text "read_file") (field "arguments" (dict Json.end) Json.end)))
        Json.end))

abbrev found : String → Value
found client = dict (
    field "role" (text "tool")
      (field "tool_call_id" (text client) (field "content" (text "ok") Json.end)))

abbrev input : Fields
input =
    field "messages"
      (list (
        Json.item turn (
          Json.item
            (dict (
              field "role" (text "assistant")
                (field "tool_calls" (pair (resent "b1_x") (resent "b1_y")) Json.end)))
            (Json.item (found "b1_y") (Json.item (found "b1_x") Json.nil)))))
      (field "max_tokens" (int 4_096) (
        field "result" (dict Json.end)
          (field "execution_protocol" (text "msty-local-tools-v1") Json.end)))

abbrev resume_for : String → Fields
resume_for batch_id = field "version" (int 1) (
    field "task_id" (text task) (
      field "batch_id" (text batch_id) (
        field "tool_id_map" (pair (entry "b1_x" "call_2") (entry "b1_y" "call_1"))
          (field "input" (dict input) Json.end))))

abbrev bound : Bound
bound =
    ("b1_x", record { id = "call_2"; name = "read_file"; args = dict Json.end })
    ∷ ("b1_y", record { id = "call_1"; name = "read_file"; args = dict Json.end })
    ∷ []

abbrev validate : Fields → Result Resumed
validate resume =
    validate_resume digest some (λ t. some (text t)) (λ v. "{}") (λ ts. true)
      (λ b new. list (Json.from_elements new)) w (dict resume)

abbrev after : Resumed
after = record {
  input = input;
  messages =
      turn ∷ assistant_turn (λ v. "{}") (text "so\nthen") bound ∷ found "b1_y" ∷ found "b1_x" ∷ [];
  tools = list Json.nil;
  execution = record paused { status = running; pending = none };
  contract = pair (found "b1_y") (found "b1_x");
}

accepts : validate (resume_for "batch") ≡ ok after
unfolding program Json.from_elements
accepts = refl

refuses_other_batch : validate (resume_for "older") ≡ raised other_step
unfolding program
refuses_other_batch = refl

abbrev Kept : Waiting → Resumed → Type 0
Kept =
    Continues digest some (λ t. some (text t)) (λ v. "{}") (λ ts. true)
      (λ b new. list (Json.from_elements new))

validate_resume-Continues_example : Kept w after
validate_resume-Continues_example =
    validate_resume-Continues digest some (λ t. some (text t)) (λ v. "{}") (λ ts. true)
      (λ b new. list (Json.from_elements new)) w (dict (resume_for "batch")) after accepts
