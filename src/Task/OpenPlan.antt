-- ===== src/Task/OpenPlan.antt =====
-- A turn does not end while its own plan has open items (`open_plan`, `_gate_history`,
-- `open_plan_intervention` and `open_plan_gate` of src/deep_agent/msty_task.py).
pub mod Limit
pub mod Growth
use sanare_agent_core.Base.{
  ℕ, zero, suc, ◌+◌, String, Bool, true, false, not, ◌&&◌, ◌||◌, Option, none, some, List, [], ◌∷◌,
  ltb, leb, ◌==◌, if◌then◌else◌, length, str_eq, string_append, take, starts_with,
}
use sanare_agent_core.Text.Strings.{strip, tidy, first, join_with, rstrip}
use sanare_agent_core.Json
use sanare_agent_core.Json.{
  Value, null, int, text, dict, list, Fields, field, get, find, has, put, truthy, from_elements,
}
use sanare_agent_core.Json.Shapes.{is, is_one_of, items_of, fields_of, is_list, is_dict, text_of}
use sanare_agent_core.Execution.Progress.{max_actions}
use sanare_agent_core.Task.{Host, Contract, named}
use sanare_agent_core.Task.Conversation.{
  State, has_role, calls_in, call_args, current_messages, owner_control,
}

abbrev pub native_todos : String
native_todos = "native_write_todos"

abbrev task_plan_suffix : String
task_plan_suffix = "brain_task_plan"

abbrev pub task_check_suffix : String
task_check_suffix = "brain_task_check"

abbrev pub open_plan_gate_limit : ℕ
open_plan_gate_limit = 3

abbrev pub plan_gate_prefix : String
plan_gate_prefix = "plangate_"

pub data Kind : Type 0 where
  native task : Kind

pub record Open : Type 0 where
  pub kind : Kind
  pub name : Value
  pub args : Fields
  pub items : List String

-- The title of an item that is pending or in progress.
open_title : Value → Value → Option String
open_title (text title) status =
    if is_one_of status ("pending" ∷ "in_progress" ∷ []) && not (str_eq (strip title) "")
    then some (first 120 (tidy title))
    else none
open_title title status = none

open_titles : String → List Value → List String
unfolding open_title
open_titles key [] = []
open_titles key (dict item ∷ rest) = elim (open_title (get key item) (get "status" item)) [
  | none ↦ open_titles key rest
  | some t ↦ t ∷ open_titles key rest
]
open_titles key (item ∷ rest) = open_titles key rest

-- _plan_items, with the open ones.
plan_in : Value → Fields → Option Open
unfolding open_titles
plan_in name args =
    if is name native_todos && is_list (get "todos" args)
    then some (record {
      kind = native;
      name = name;
      args = args;
      items = open_titles "content" (items_of (get "todos" args));
    })
    else if named name task_plan_suffix && is_list (get "items" args)
    then some (record {
      kind = task;
      name = name;
      args = args;
      items = open_titles "title" (items_of (get "items" args));
    })
    else none

plan_of : Value × Option Fields → Option Open
unfolding plan_in
plan_of (name, none) = none
plan_of (name, some args) = plan_in name args

-- _plan_bookkeeping
unfoldable pub bookkeeping : Value → Bool
bookkeeping name =
    is name native_todos || named name task_plan_suffix || named name task_check_suffix

or_earlier : Option Open → Option Open → Option Open
or_earlier none earlier = earlier
or_earlier (some p) earlier = some p

-- str(call.get('id', '')).startswith(PLAN_GATE_PREFIX), of an id that is a text
unfoldable pub is_gate_id : Value → Bool
is_gate_id (text id) = starts_with id plan_gate_prefix
is_gate_id id = false

has_name : Value → Bool
has_name (text name) = true
has_name name = false

-- Gates fired, and real actions behind the last of them.
abbrev pub History : Type 0
History = ℕ × ℕ

module _ (parse : String → Option Value) where
  latest_in : Option Open → List Value → Option Open
  unfolding plan_of or_earlier
  latest_in latest [] = latest
  latest_in latest (c ∷ cs) = latest_in (or_earlier (plan_of (call_args parse c)) latest) cs

  latest_plan : Option Open → List Fields → Option Open
  unfolding latest_in
  latest_plan latest [] = latest
  latest_plan latest (m ∷ ms) =
      latest_plan (if has_role "assistant" m then latest_in latest (calls_in m) else latest) ms

  unfoldable pub open_plan : State → Option Open
  unfolding latest_plan
  open_plan s = latest_plan none (current_messages s.messages)

  unfoldable pub history_call : Value → History → History
  unfolding has_name is_gate_id bookkeeping
  history_call call (fired, since) =
      let name = (call_args parse call).0 in
      if is_gate_id (get "id" (fields_of call))
      then (fired + 1, 0)
      else if has_name name && not (bookkeeping name)
      then (fired, since + 1)
      else (fired, since)

  unfoldable pub history_calls : List Value → History → History
  unfolding history_call
  history_calls [] h = h
  history_calls (c ∷ cs) h = history_calls cs (history_call c h)

  unfoldable pub history_from : List Fields → History → History
  unfolding history_calls
  history_from [] h = h
  history_from (m ∷ ms) h =
      history_from ms (if has_role "assistant" m then history_calls (calls_in m) h else h)

  unfoldable pub gate_history : State → History
  unfolding history_from
  gate_history s = history_from (current_messages s.messages) (0, 0)

-- The last answer of the model: its content, its calls, those that could not be read, its metadata.
pub record Reply : Type 0 where
  pub content : Value
  pub tool_calls : List Fields
  pub invalid_tool_calls : ℕ
  pub metadata : Fields

unfoldable pub no_calls : Reply → Bool
no_calls r = elim r.tool_calls [ [] ↦ true | _ ↦ false ] && r.invalid_tool_calls == 0

-- What a turn that may not go on looks like for every gate.
unfoldable pub stopped : Fields → Bool
stopped meta = truthy (get "msty_blocked" meta) || is (get "msty_generation" meta) "not_started"

abbrev pub terminated : List String
terminated =
    "max_tokens" ∷ "length" ∷ "model_context_window_exceeded" ∷ "refusal" ∷ "content_filter" ∷ []

stop_reason : Fields → Value
stop_reason meta = elim (find "stop_reason" meta) [ none ↦ get "finish_reason" meta | some v ↦ v ]

unfoldable pub gate_name : String → Reply → Fields
gate_name gate r = put "msty_completion_gate" (text gate) r.metadata

-- The marks of an answer that goes out with its plan unfinished.
with_open_items : List String → Value → Value
with_open_items items (text t) = text (
    string_append (rstrip t) (
      string_append "\n\n_Не закрыто в плане: "
        (string_append (join_with "; " (take 8 items)) "._")))
with_open_items items v = v

unfoldable pub released : List String → Reply → Reply
unfolding with_open_items
released items r = record r {
  content = with_open_items items r.content;
  metadata = gate_name "open_plan_released" r;
}

-- A tool that the client offers: a dictionary, with its type and the dictionary of its function,
-- empty where the tool has none.
pub record Tool : Type 0 where
  pub kind : Value
  pub function : Fields

unfoldable pub tool_name : Tool → Value
tool_name tool = if is tool.kind "function" then get "name" tool.function else null

-- choice.get('function', {}).get('name') if isinstance(choice, dict) else None
unfoldable pub selected_name : Value → Option Value
selected_name choice =
    let name = get "name" (fields_of (get "function" (fields_of choice))) in
    if Json.is_null name then none else some name

-- The first tool with such a name.
first_named : String → List Tool → Option Value
first_named suffix [] = none
first_named suffix (t ∷ ts) =
    let rest = first_named suffix ts in
    if named (tool_name t) suffix then some (tool_name t) else rest

has_tool : String → List Tool → Bool
has_tool name [] = false
has_tool name (t ∷ ts) = is (tool_name t) name || has_tool name ts

string_values : List String → List Value
string_values [] = []
string_values (s ∷ ss) = text s ∷ string_values ss

unfoldable pub one_call : String → Value → Fields → List Fields
one_call id name args =
    field "id" (text id)
      (field "name" name (field "args" (dict args) (field "type" (text "tool_call") Json.end)))
    ∷ []

draft_of : Value → String
draft_of (text t) = first 1_500 t
draft_of v = ""

continued : String → Value → Fields → Reply → Reply
continued id name args r = record {
  content = text "Ход не закончен: в плане открыты пункты — продолжаю работу.";
  tool_calls = one_call id name args;
  invalid_tool_calls = 0;
  metadata = gate_name "open_plan_continue" r;
}

check_args : List String → Reply → Fields
unfolding draft_of string_values
check_args items r = field "stop_attempt" (Json.bool true) (
    field "open_items" (list (from_elements (string_values (take 12 items))))
      (field "draft" (text (draft_of r.content)) Json.end))

allows : Option Value → Value → Bool
allows none name = true
allows (some v) name = Json.eq v name

continue_task : String → Open → Reply → Option Value → Option Value → Option Reply
unfolding continued check_args allows
continue_task id p r selected none = none
continue_task id p r selected (some check) =
    if allows selected check then some (continued id check (check_args p.items r) r) else none

is_unset : Option Value → Bool
is_unset none = true
is_unset (some v) = false

-- The next step of a turn whose plan is open: a call of the plan's own tool under a gate's id.
continue_plan : String → Open → State → Reply → List Tool → Option Reply
unfolding continue_task is_unset continued first_named has_tool
continue_plan id p s r tools = elim p.kind [
  | task ↦ continue_task id p r (selected_name s.tool_choice) (first_named task_check_suffix tools)
  | native ↦
      if has_tool native_todos tools && is_unset (selected_name s.tool_choice)
      then some (continued id (text native_todos) p.args r)
      else none
]

gate_with : String → Open → History → State → Reply → List Tool → Option Reply
unfolding continue_plan released
gate_with id p (fired, progress) s r tools =
    if leb open_plan_gate_limit fired || (ltb 0 fired && progress == 0)
    then some (released p.items r)
    else continue_plan id p s r tools

gate_open :
    (String → Option Value) → String → Option Open → State → Reply → List Tool → Option Reply
unfolding gate_with
gate_open parse id none s r tools = none
gate_open parse id (some p) s r tools = elim p.items [
  | [] ↦ none
  | _ ↦ gate_with id p (gate_history parse s) s r tools
]

-- The turn may end as it is.
refused : Host → State → Reply → Bool → Bool
unfolding stop_reason stopped no_calls
refused host s r disabled =
    not (no_calls r)
    || disabled
    || owner_control host s
    || stopped r.metadata
    || is_one_of (stop_reason r.metadata) terminated
    || leb max_actions s.actions_issued

-- `fresh` is the hexadecimal text of a new UUID.
unfoldable pub open_plan_gate : Host → String → State → Reply → List Tool → Bool → Option Reply
unfolding refused gate_open open_plan gate_history
open_plan_gate host fresh s r tools disabled =
    if refused host s r disabled
    then none
    else gate_open host.parse (string_append plan_gate_prefix fresh) (open_plan host.parse s) s r
        tools

last_assistant : Option Fields → List Fields → Option Fields
last_assistant best [] = best
last_assistant best (m ∷ ms) = last_assistant (if has_role "assistant" m then some m else best) ms

any_gate : List Value → Bool
any_gate [] = false
any_gate (c ∷ cs) = is_gate_id (get "id" (fields_of c)) || any_gate cs

gated_message : Option Fields → Bool
unfolding any_gate is_gate_id
gated_message none = false
gated_message (some m) = any_gate (calls_in m)

open_items : Option Open → Option (List String)
open_items none = none
open_items (some p) = elim p.items [ [] ↦ none | _ ↦ some (take 8 p.items) ]

-- The open items that the note behind a gate names, where the last answer came from a gate.
unfoldable pub open_plan_intervention : (String → Option Value) → State → Option (List String)
unfolding last_assistant gated_message open_items open_plan
open_plan_intervention parse s =
    if gated_message (last_assistant none (current_messages s.messages))
    then open_items (open_plan parse s)
    else none
