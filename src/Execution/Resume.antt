-- ===== src/Execution/Resume.antt =====
-- Resuming a paused step with the client's tool results (`validate_resume` and `wait_external` of
-- src/deep_agent/msty_execution.py). The client's resume is an arbitrary document; what the
-- checkpoint holds is typed. Parameters: the digest, LangChain's canonical form of a turn, the JSON
-- text of a value and its parser, the adapter's check of tool schemas, and the update of the task
-- contract.
pub mod Complete
use sanare_agent_core.Base.{
  contains, ℕ, zero, suc, ◌+◌, ◌-◌, String, Bool, true, false, not, ◌&&◌, ◌||◌, Option, none, some,
  List, [], ◌∷◌, ◌++◌, ltb, leb, ◌==◌, string_append, if◌then◌else◌, str_eq, length, min,
  starts_with,
}
use sanare_agent_core.Json
use sanare_agent_core.Json.{
  Value, null, int, text, dict, list, Fields, field, Items, get, find, eq, is_null, keys_within,
  truthy, elements,
}
use sanare_agent_core.Execution.Limits.{
  Result, ok, raised, ◌>>=◌, ◌>>◌, refuse, Refusal, other_step, bad_fields, result_replaced,
  stale_check, bad_stream, role_changed, task_terms_changed, tools_changed, output_raised,
  bound_output_changed, incomplete_mapping, bad_mapping, foreign_mapping, bad_history, no_turn,
  new_turn, repeated_pending, bad_arguments, pending_changed, stray_result, missing_results,
  bad_catalog, type_error,
}
use sanare_agent_core.Execution.Walk.{
  Bound, bound_ids, bind_all, Seen, field_of, calls_of, see_all, same_set,
}
use sanare_agent_core.Execution.Checks.{
  Waiting, Resumed, as_dict, as_entries, check_step, check_input, check_output, or_empty_list,
  role_of, last_user,
}
use sanare_agent_core.Execution.Progress.{ModelCall, Pending, Execution, running}
use sanare_agent_core.Execution.Catalog.{post_batch_catalog}

-- One part of the content of an answer; other parts than texts are left out, and a text part
-- whose text is no text is a TypeError of the join.
part_text : Value → Result (Option String)
part_text (text t) = ok (some t)
part_text (dict part) =
    if eq (get "type" part) (text "text")
    then elim (find "text" part) [
      | none ↦ ok (some "")
      | some (text t) ↦ ok (some t)
      | some v ↦ raised type_error
    ]
    else ok none
part_text v = ok none

part_texts : List Value → Result (List String)
unfolding part_text
part_texts [] = ok []
part_texts (v ∷ vs) = do
  t ← part_text v
  ts ← part_texts vs
  ok (elim t [ none ↦ ts | some t ↦ t ∷ ts ])

-- '\n'.join(parts)
join_lines : List String → String
join_lines [] = ""
join_lines (t ∷ []) = t
join_lines (t ∷ (u ∷ us)) = string_append t (string_append "\n" (join_lines (u ∷ us)))

content_of : Value → Result Value
unfolding part_texts join_lines
content_of (list xs) = part_texts (elements xs) >>= λ ts. ok (text (join_lines ts))
content_of v = ok v

-- The text of the answer that paused the step.
unfoldable pub paused_content : Waiting → Result Value
unfolding content_of
paused_content w =
    let content = field_of "content" (get "result" w.fields) in
    if truthy content then content_of content else ok (text "")

-- The pending calls under the ids of the client, as the history keeps them.
canonical_calls : (Value → String) → Bound → Items
canonical_calls dump [] = Json.nil
canonical_calls dump ((client, call) ∷ bs) =
    Json.item
      (dict (
        field "id" (text client) (
          field "type" (text "function") (
            field "function"
              (dict (
                field "name" (text call.name) (field "arguments" (text (dump call.args)) Json.end)))
              Json.end))))
      (canonical_calls dump bs)

-- The answer that paused the step, as the history keeps it.
unfoldable pub assistant_turn : (Value → String) → Value → Bound → Value
unfolding canonical_calls
assistant_turn dump content bound = dict (
    field "role" (text "assistant")
      (field "content" content (field "tool_calls" (list (canonical_calls dump bound)) Json.end)))

module _ (digest : Value → String) (turn_form : Value → Option Value)
    (parse : String → Option Value) (dump : Value → String) (check_tools : List Value → Bool)
    (observe : Bound → List Value → Value) where
  turn_digest : Value → Result String
  turn_digest m = elim (turn_form m) [ none ↦ raised no_turn | some v ↦ ok (digest v) ]

  -- The client's last owner turn is the checkpoint's, in canonical form; the messages behind it.
  same_turn : Waiting → Value → Result (List Value)
  unfolding turn_digest
  same_turn w messages = do
    incoming ← last_user messages
    original ← last_user (list (Json.from_elements w.messages))
    a ← turn_digest incoming.0
    b ← turn_digest original.0
    refuse (not (str_eq a b)) new_turn
    ok incoming.1

  -- Every pending call is seen once, with its result.
  observed : Bound → List Value → Result Seen
  observed bound messages = do
    seen ← see_all digest parse bound messages (record { calls = []; results = []; new = [] })
    refuse
        (not (same_set seen.calls (bound_ids bound))
          || not (same_set seen.results (bound_ids bound)))
        missing_results
    ok seen

  -- The batch of the resume: the bound calls and what the client's messages show of them.
  unfoldable pub matched : Waiting → Fields → Fields → Result (Bound × Seen)
  unfolding same_turn observed
  matched w resume incoming = do
    entries ← as_entries (get "tool_id_map" resume) (length w.pending.calls)
    bound ← bind_all w.pending.calls [] [] entries
    messages ← same_turn w (get "messages" incoming)
    seen ← observed bound messages
    ok (bound, seen)

  unfoldable pub resumed : Waiting → Fields → Bound → Seen → Value → Value → Resumed
  resumed w incoming bound seen content tools = record {
    input = incoming;
    messages = w.messages ++ assistant_turn dump content bound ∷ seen.new;
    tools = tools;
    execution = record w.execution { status = running; pending = none };
    contract = observe bound seen.new;
  }

  unfoldable pub validate_resume : Waiting → Value → Result Resumed
  unfolding matched resumed
  validate_resume w resume = do
    r ← as_dict resume other_step
    check_step w r
    incoming ← as_dict (get "input" r) bad_fields
    check_input digest w incoming
    maximum ← check_output w incoming
    m ← matched w r incoming
    content ← paused_content w
    tools ← post_batch_catalog digest check_tools w r
    ok (resumed w incoming m.0 m.1 content tools)

  -- What the pause tells the client.
  unfoldable pub notice : Waiting → Value
  notice w = dict (
      field "type" (text "msty_local_tools") (
        field "version" (int 1) (
          field "task_id" (text w.execution.task_id) (
            field "batch_id" (text w.pending.batch_id)
              (field "result_sha256" (text w.pending.result_sha256) Json.end)))))

  -- The node that pauses: LangGraph's `interrupt` hands the notice out and the resume in.
  unfoldable pub wait_external : (Value → Value) → Waiting → Result Resumed
  unfolding notice
  wait_external interrupt w = validate_resume w (interrupt (notice w))
