-- ===== src/Task/Conversation.antt =====
-- What the gates read of a conversation (`owner_control`, `_incident_needs_first_action`, `_call_args`,
-- `_current_messages` and `repeated_observation` of src/deep_agent/msty_task.py). The messages of a
-- checkpoint are dictionaries.
pub mod Issued
pub mod Repetition
pub mod Turns
use sanare_agent_core.Base.{
  ℕ, zero, suc, ◌+◌, String, Bool, true, false, not, ◌&&◌, ◌||◌, Option, none, some, List, [], ◌∷◌,
  ltb, leb, ◌==◌, if◌then◌else◌, length, str_eq,
}
use sanare_agent_core.Base.Dict
use sanare_agent_core.Base.Dict.{Dict}
use sanare_agent_core.Json
use sanare_agent_core.Json.{
  Value, null, int, text, dict, list, Fields, field, get, find, has, truthy,
}
use sanare_agent_core.Json.Shapes.{is, items_of, fields_of, is_text}
use sanare_agent_core.Task.{Host, Contract}

pub record State : Type 0 where
  pub messages : List Fields
  pub tool_choice : Value
  pub actions_issued : ℕ
  pub contract : Option Contract

abbrev pub has_role : String → Fields → Bool
has_role role m = is (get "role" m) role

-- The last message of the owner, with what comes behind it.
unfoldable pub turn_from :
    Option (Fields × List Fields) → List Fields → Option (Fields × List Fields)
turn_from best [] = best
turn_from best (m ∷ ms) = turn_from (if has_role "user" m then some (m, ms) else best) ms

unfoldable pub turn : List Fields → Option (Fields × List Fields)
unfolding turn_from
turn ms = turn_from none ms

behind : List Fields → Option (Fields × List Fields) → List Fields
behind ms none = ms
behind ms (some (m, rest)) = rest

-- _current_messages
unfoldable pub current_messages : List Fields → List Fields
unfolding turn behind
current_messages ms = behind ms (turn ms)

control_text : Host → Value → Bool
control_text host (text t) = host.controls t
control_text host v = true

controlled : Host → Option (Fields × List Fields) → Bool
unfolding control_text
controlled host none = true
controlled host (some (m, rest)) = control_text host (get "content" m)

unfoldable pub owner_control : Host → State → Bool
unfolding turn controlled
owner_control host s = controlled host (turn s.messages)

-- Something was already done behind the owner's message.
unfoldable pub has_action : List Fields → Bool
has_action [] = false
has_action (m ∷ ms) =
    has_role "tool" m || (has_role "assistant" m && truthy (get "tool_calls" m)) || has_action ms

incident_text : Host → Value → List Fields → Option String
incident_text host (text t) rest =
    if host.controls t || not (host.reports_incident t) || has_action rest then none else some t
incident_text host v rest = none

incident_in : Host → Option (Fields × List Fields) → Option String
unfolding incident_text has_action
incident_in host none = none
incident_in host (some (m, rest)) = incident_text host (get "content" m) rest

-- _incident_needs_first_action: the owner's words, where a first action is needed.
unfoldable pub incident : Host → State → Option String
unfolding turn incident_in
incident host s = incident_in host (turn s.messages)

parsed_args : Option Value → Option Fields
parsed_args (some (dict args)) = some args
parsed_args v = none

args_of : (String → Option Value) → Value → Option Fields
unfolding parsed_args
args_of parse (text t) = parsed_args (parse t)
args_of parse v = parsed_args (some v)

named_args : (String → Option Value) → Fields → Value × Option Fields
unfolding args_of parsed_args
named_args parse call = elim (get "function" call) [
  | dict function ↦ (get "name" function, args_of parse (get "arguments" function))
  | v ↦ (get "name" call, parsed_args (some (get "args" call)))
]

-- _call_args: the name and the arguments of a call in either form.
unfoldable pub call_args : (String → Option Value) → Value → Value × Option Fields
unfolding named_args
call_args parse (dict call) = named_args parse call
call_args parse v = (null, none)

abbrev pub calls_in : Fields → List Value
calls_in m = items_of (get "tool_calls" m)

-- A tool with its arguments and what it answered, by their digests.
pub record Key : Type 0 where
  pub tool_name : String
  pub arguments_sha256 : String
  pub observation_sha256 : String

unfoldable pub same_key : Key → Key → Bool
same_key a b =
    str_eq a.tool_name b.tool_name
    && str_eq a.arguments_sha256 b.arguments_sha256
    && str_eq a.observation_sha256 b.observation_sha256

unfoldable pub times : Key → List Key → ℕ
unfolding same_key
times k [] = 0
times k (j ∷ js) = if same_key k j then suc (times k js) else times k js

-- name and digest of the arguments, of each call id
abbrev pub Calls : Type 0
Calls = Dict (String × String)

-- message.get('content', '')
unfoldable pub content_or_empty : Option Value → Value
content_or_empty none = text ""
content_or_empty (some v) = v

module _ (host : Host) where
  note_parts : Value → Value × Option Fields → Calls → Calls
  note_parts (text id) (text name, some args) calls =
      Dict.put id (name, host.digest (dict args)) calls
  note_parts id parts calls = calls

  note_call : Value → Calls → Calls
  unfolding note_parts
  note_call call calls = note_parts (get "id" (fields_of call)) (call_args host.parse call) calls

  note_calls : List Value → Calls → Calls
  unfolding note_call
  note_calls [] calls = calls
  note_calls (c ∷ cs) calls = note_calls cs (note_call c calls)

  found_call : Value → Calls → Option (String × String)
  found_call (text id) calls = Dict.get id calls
  found_call id calls = none

  key_of : String × String → Fields → Key
  unfolding content_or_empty
  key_of (name, args) m = record {
    tool_name = name;
    arguments_sha256 = args;
    observation_sha256 = host.digest (
        dict (
          field "content" (content_or_empty (find "content" m))
            (field "name" (get "name" m) Json.end)));
  }

  -- The observation that a message adds, if it is the answer to a call of this turn.
  unfoldable pub observation : Fields → Calls → Option Key
  unfolding found_call key_of
  observation m calls = elim (found_call (get "tool_call_id" m) calls) [
    | none ↦ none
    | some call ↦ some (key_of call m)
  ]

  unfoldable pub next_calls : Fields → Calls → Calls
  unfolding note_calls
  next_calls m calls = if has_role "assistant" m then note_calls (calls_in m) calls else calls

  unfoldable pub next_key : Fields → Calls → Option Key
  unfolding observation
  next_key m calls =
      if has_role "assistant" m
      then none
      else if has_role "tool" m
      then observation m calls
      else none

  -- The loop, with the calls and the observations so far; the first repetition is returned.
  repeated_from : Calls → List Key → List Fields → Option (Key × ℕ)
  unfolding times
  repeated_from calls seen [] = none
  repeated_from calls seen (m ∷ ms) = elim (next_key m calls) [
    | none ↦ repeated_from (next_calls m calls) seen ms
    | some k ↦
        let rest = repeated_from (next_calls m calls) (k ∷ seen) ms in
        if leb 2 (suc (times k seen)) then some (k, suc (times k seen)) else rest
  ]

  unfoldable pub repeated_observation : State → Option (Key × ℕ)
  unfolding repeated_from next_calls next_key
  repeated_observation s = repeated_from [] [] (current_messages s.messages)
