-- ===== src/Execution/Checks.antt =====
-- What a resume may not change (the guards of `validate_resume` in
-- src/deep_agent/msty_execution.py, and `enabled` and `reasoning_enabled` of msty_stream.py).
use sanare_agent_core.Base.{
  ℕ, String, Bool, true, false, not, ◌&&◌, ◌||◌, Option, none, some, List, [], ◌∷◌, ltb, leb, ◌==◌,
  if◌then◌else◌, str_eq, length, min,
}
use sanare_agent_core.Json
use sanare_agent_core.Json.{
  Value, null, int, text, dict, list, Fields, field, Items, get, find, eq, is_null, keys_within,
  truthy, elements,
}
use sanare_agent_core.Execution.Limits.{
  Result, ok, raised, ◌>>=◌, ◌>>◌, refuse, Refusal, other_step, bad_fields, result_replaced,
  stale_check, bad_stream, role_changed, task_terms_changed, tools_changed, output_raised,
  bound_output_changed, incomplete_mapping, bad_history, no_turn,
}
use sanare_agent_core.Execution.Walk.{field_of}
use sanare_agent_core.Execution.Progress.{Pending, Execution}

abbrev pub max_stage_output : ℕ
max_stage_output = 128_000

-- messages[start + 1:] behind the last message of the owner, with that message.
last_turn : Option (Value × List Value) → List Value → Option (Value × List Value)
unfolding field_of
last_turn best [] = best
last_turn best (m ∷ ms) =
    last_turn (if eq (field_of "role" m) (text "user") then some (m, ms) else best) ms

all_dicts : List Value → Bool
all_dicts [] = true
all_dicts (dict fs ∷ ms) = all_dicts ms
all_dicts (_ ∷ ms) = false

found_turn : Option (Value × List Value) → Result (Value × List Value)
found_turn none = raised no_turn
found_turn (some t) = ok t

unfoldable pub last_user : Value → Result (Value × List Value)
unfolding last_turn all_dicts found_turn
last_user (list ms) =
    if all_dicts (elements ms)
    then found_turn (last_turn none (elements ms))
    else raised bad_history
last_user v = raised bad_history

-- What the checkpoint holds while the step waits: its dictionary, with the parts that the code
-- wrote itself.
pub record Waiting : Type 0 where
  pub fields : Fields
  pub messages : List Value
  pub execution : Execution
  pub pending : Pending

pub record Resumed : Type 0 where
  pub input : Fields
  pub messages : List Value
  pub tools : Value
  pub execution : Execution
  pub contract : Value

unfoldable pub as_dict : Value → Refusal → Result Fields
as_dict (dict fs) e = ok fs
as_dict v e = raised e

unfoldable pub as_entries : Value → ℕ → Result (List Value)
as_entries (list xs) n =
    if length (elements xs) == n then ok (elements xs) else raised incomplete_mapping
as_entries v n = raised incomplete_mapping

is_empty_dict : Value → Bool
is_empty_dict (dict Json.end) = true
is_empty_dict v = false

protocol_or_none : String → Value → Bool
protocol_or_none p v = is_null v || eq v (text p)

unfoldable pub role_of : Fields → Value
role_of fs = elim (find "brain_task_role" fs) [ none ↦ text "lead" | some v ↦ v ]

same_terms : List String → Fields → Fields → Bool
same_terms [] a b = true
same_terms (k ∷ ks) a b = eq (get k a) (get k b) && same_terms ks a b

unfoldable pub or_empty_list : Value → Value
or_empty_list v = if truthy v then v else list Json.nil

-- No output limit lies below a negative number, and none is compared with a text.
whole_number : Value → ℕ
whole_number (int n) = n
whole_number (Json.bool true) = 1
whole_number v = 0

-- state.get('max_tokens') or 4096
unfoldable pub previous_maximum : Fields → ℕ
unfolding whole_number
previous_maximum state =
    let value = get "max_tokens" state in if truthy value then whole_number value else 4096

-- The output limit of the resume: an int between 1 and `most`.
output_limit : Value → ℕ → Result ℕ
output_limit (int n) most = if ltb 0 n && leb n most then ok n else raised output_raised
output_limit v most = raised output_raised

abbrev permitted : List String
permitted =
    "messages" ∷ "tools" ∷ "tool_choice" ∷ "max_tokens" ∷ "result" ∷ "context_budget"
    ∷ "context_budget_check" ∷ "execution_protocol" ∷ "brain_task_role" ∷ "execution_task_id"
    ∷ "task_budget_binding" ∷ "compaction_protocol" ∷ "text_stream_protocol"
    ∷ "reasoning_stream_protocol" ∷ "consult_profile" ∷ "lead_profile" ∷ "swarm_protocol" ∷ []

abbrev terms : List String
terms =
    "execution_task_id" ∷ "task_budget_binding" ∷ "compaction_protocol" ∷ "consult_profile"
    ∷ "lead_profile" ∷ []

-- The resume names this step and this batch.
unfoldable pub check_step : Waiting → Fields → Result (Unit {0})
check_step w resume =
    refuse
      (not (eq (get "version" resume) (int 1))
        || not (eq (get "task_id" resume) (text w.execution.task_id))
        || not (eq (get "batch_id" resume) (text w.pending.batch_id)))
      other_step

-- Nothing that the checkpoint owns is replaced through the input.
unfoldable pub check_input : (Value → String) → Waiting → Fields → Result (Unit {0})
unfolding is_empty_dict protocol_or_none role_of same_terms or_empty_list
check_input digest w incoming = do
  refuse (not (keys_within permitted incoming)) bad_fields
  refuse
      (not (eq (get "execution_protocol" incoming) (text "msty-local-tools-v1"))
        || not (is_empty_dict (get "result" incoming)))
      result_replaced
  refuse (not (is_null (get "context_budget_check" incoming))) stale_check
  refuse
      (not (protocol_or_none "msty-text-delta-v1" (get "text_stream_protocol" incoming))
        || not
            (protocol_or_none "msty-reasoning-delta-v1" (get "reasoning_stream_protocol" incoming)))
      bad_stream
  refuse (not (eq (role_of incoming) (role_of w.fields))) role_changed
  refuse (not (same_terms terms incoming w.fields)) task_terms_changed
  refuse
      (not (
        str_eq (digest (or_empty_list (get "tools" incoming)))
          (digest (or_empty_list (get "tools" w.fields)))))
      tools_changed

-- The output limit may fall, and not even that under a budget binding.
unfoldable pub check_output : Waiting → Fields → Result ℕ
unfolding previous_maximum output_limit
check_output w incoming = do
  let previous = previous_maximum w.fields
  maximum ← output_limit (get "max_tokens" incoming) (min previous max_stage_output)
  refuse (not (is_null (get "task_budget_binding" w.fields)) && not (maximum == previous))
      bound_output_changed
  ok maximum
