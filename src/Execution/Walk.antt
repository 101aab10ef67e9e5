-- ===== src/Execution/Walk.antt =====
-- Matching a resume with the waiting batch: the map of client ids to the pending calls, and the walk
-- over the client's messages (the loops of `validate_resume` in src/deep_agent/msty_execution.py).
pub mod Mapping
pub mod Observation
use sanare_agent_core.Base.{
  all_in, contains, ℕ, zero, suc, ◌+◌, ◌-◌, String, Bool, true, false, not, ◌&&◌, ◌||◌, Option,
  none, some, List, [], ◌∷◌, ◌++◌, ltb, leb, ◌==◌, if◌then◌else◌, str_eq, length, min, starts_with,
}
use sanare_agent_core.Json
use sanare_agent_core.Json.{
  Value, null, int, text, dict, list, Fields, field, Items, get, find, eq, is_null, keys_within,
  truthy, elements,
}
use sanare_agent_core.Execution.Limits.{
  Result, ok, raised, ◌>>=◌, ◌>>◌, refuse, Refusal, other_step, bad_fields, result_replaced,
  stale_check, bad_stream, role_changed, task_terms_changed, tools_changed, output_raised,
  bound_output_changed, incomplete_mapping, bad_mapping, foreign_mapping, bad_history, no_turn,
  new_turn, repeated_pending, bad_arguments, pending_changed, stray_result, missing_results,
  type_error, bad_catalog,
}
use sanare_agent_core.Execution.Progress.{ModelCall, Pending, Execution, running}

-- The pending calls by the ids that the client was given.
abbrev pub Bound : Type 0
Bound = List (String × ModelCall)

unfoldable pub bound_ids : Bound → List String
bound_ids [] = []
bound_ids ((client, call) ∷ bs) = client ∷ bound_ids bs

unfoldable pub find_bound : String → Bound → Option ModelCall
find_bound x [] = none
find_bound x ((client, call) ∷ bs) = if str_eq x client then some call else find_bound x bs

-- model_calls[x]: of calls with one id the last stays.
unfoldable pub find_call : String → List ModelCall → Option ModelCall
find_call x [] = none
find_call x (c ∷ cs) = elim (find_call x cs) [
  | some later ↦ some later
  | none ↦ if str_eq c.id x then some c else none
]

-- One entry of `tool_id_map`.
bind_pair : List ModelCall → List String → Bound → Value → Value → Result (String × ModelCall)
bind_pair calls used bound (text client) (text model) =
    if not (starts_with client "b1_") || contains client (bound_ids bound) || contains model used
    then raised foreign_mapping
    else elim (find_call model calls) [ none ↦ raised foreign_mapping | some c ↦ ok (client, c) ]
bind_pair calls used bound client model = raised foreign_mapping

bind_entry : List ModelCall → List String → Bound → Value → Result (String × ModelCall)
unfolding bind_pair
bind_entry calls used bound (dict entry) =
    if Json.size entry == 2 && keys_within ("client_id" ∷ "model_id" ∷ []) entry
    then bind_pair calls used bound (get "client_id" entry) (get "model_id" entry)
    else raised bad_mapping
bind_entry calls used bound entry = raised bad_mapping

-- The loop over the mapping, with the model ids used so far.
unfoldable pub bind_all : List ModelCall → List String → Bound → List Value → Result Bound
unfolding bind_entry
bind_all calls used bound [] = ok bound
bind_all calls used bound (entry ∷ entries) = bind_entry calls used bound entry >>= λ b.
    bind_all calls (b.1.id ∷ used) (bound ++ b ∷ []) entries

-- What the walk over the client's messages has seen of the batch.
pub record Seen : Type 0 where
  pub calls : List String
  pub results : List String
  pub new : List Value

unfoldable pub field_of : String → Value → Value
field_of k (dict fs) = get k fs
field_of k v = null

-- message.get('tool_calls') or []
unfoldable pub calls_of : Value → Result (List Value)
calls_of (list xs) = ok (elements xs)
calls_of v = if truthy v then raised type_error else ok []

-- call.get('function') or {}
function_of : Value → Result Fields
function_of (dict fs) = ok fs
function_of v = if truthy v then raised type_error else ok Json.end

module _ (digest : Value → String) (parse : String → Option Value) where
  -- The arguments of a resent call: JSON text, or a value as it stands.
  resent_args : Value → Result Value
  resent_args (text t) = elim (parse t) [ none ↦ raised bad_arguments | some v ↦ ok v ]
  resent_args v = ok v

  same_call : ModelCall → Value → Value → Bool
  same_call original name args =
      eq name (text original.name) && str_eq (digest args) (digest original.args)

  see_pending : String → ModelCall → Fields → Seen → Result Seen
  unfolding function_of resent_args same_call
  see_pending id original call seen = do
    refuse (contains id seen.calls) repeated_pending
    function ← function_of (get "function" call)
    args ← resent_args (get "arguments" function)
    refuse (not (same_call original (get "name" function) args)) pending_changed
    ok (record seen { calls = id ∷ seen.calls })

  -- A list or a dictionary cannot be looked up in the map.
  see_id : Bound → Value → Fields → Seen → Result Seen
  unfolding see_pending
  see_id bound (text id) call seen = elim (find_bound id bound) [
    | none ↦ ok seen
    | some original ↦ see_pending id original call seen
  ]
  see_id bound (list xs) call seen = raised type_error
  see_id bound (dict fs) call seen = raised type_error
  see_id bound id call seen = ok seen

  see_call : Bound → Value → Seen → Result Seen
  unfolding see_id
  see_call bound (dict call) seen = see_id bound (get "id" call) call seen
  see_call bound call seen = raised type_error

  see_calls : Bound → List Value → Seen → Result Seen
  unfolding see_call
  see_calls bound [] seen = ok seen
  see_calls bound (call ∷ calls) seen =
      see_call bound call seen >>= λ next. see_calls bound calls next

  see_result : Bound → Value → Value → Seen → Result Seen
  see_result bound (text id) message seen =
      if not (contains id (bound_ids bound))
      then ok seen
      else if not (contains id seen.calls) || contains id seen.results
      then raised stray_result
      else ok (record seen { results = id ∷ seen.results; new = seen.new ++ message ∷ [] })
  see_result bound (list xs) message seen = raised type_error
  see_result bound (dict fs) message seen = raised type_error
  see_result bound id message seen = ok seen

  see_message : Bound → Value → Seen → Result Seen
  unfolding see_calls see_result calls_of field_of
  see_message bound message seen =
      if eq (field_of "role" message) (text "assistant")
      then (calls_of (field_of "tool_calls" message) >>= (λ calls. see_calls bound calls seen))
      else if eq (field_of "role" message) (text "tool")
      then see_result bound (field_of "tool_call_id" message) message seen
      else ok seen

  -- The walk over the messages behind the owner's last turn.
  unfoldable pub see_all : Bound → List Value → Seen → Result Seen
  unfolding see_message
  see_all bound [] seen = ok seen
  see_all bound (message ∷ messages) seen =
      see_message bound message seen >>= λ next. see_all bound messages next

unfoldable pub same_set : List String → List String → Bool
unfolding all_in
same_set xs ys = all_in xs ys && all_in ys xs
