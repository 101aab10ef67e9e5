-- ===== src/Execution/Progress.antt =====
-- The execution record after a generation (`execution_after`, `next_node` of
-- src/deep_agent/msty_execution.py, `finish_reason` of src/deep_agent/msty_models.py). The digest
-- and the fresh ids of a task and of a batch are parameters.
pub mod Budget
use sanare_agent_core.Base.{
  contains, ℕ, zero, suc, ◌+◌, ◌-◌, String, Bool, true, false, not, ◌&&◌, ◌||◌, Option, none, some,
  List, [], ◌∷◌, ltb, leb, ◌==◌, if◌then◌else◌, str_eq, length,
}
use sanare_agent_core.Json
use sanare_agent_core.Json.{Value, null, int, text, dict, Fields, get, find, eq, truthy}
use sanare_agent_core.Execution.Limits.{
  Result, ok, raised, ◌>>=◌, ◌>>◌, refuse, bad_counter, actions_exhausted, repeated_call, task_id,
}

abbrev pub max_actions : ℕ
max_actions = 200

pub data Status : Type 0 where
  answered incomplete blocked waiting_tools waiting_compaction running : Status

-- `id` is empty where the call has none.
pub record ModelCall : Type 0 where
  pub id : String
  pub name : String
  pub args : Value

pub record Pending : Type 0 where
  pub batch_id : String
  pub result_sha256 : String
  pub calls : List ModelCall

pub record Execution : Type 0 where
  pub task_id : String
  pub status : Status
  pub step : ℕ
  pub actions_issued : ℕ
  pub pending : Option Pending

-- The generation's result, as the update of the step carries it: its metadata, its calls, its
-- digest, and whether the context budget check rejected the step.
pub record Update : Type 0 where
  pub metadata : Value
  pub calls : List ModelCall
  pub result_sha256 : String
  pub rejected : Bool

-- RESPONSES_INCOMPLETE_REASON.get(code, 'length')
incomplete_reason : Value → Value
incomplete_reason (dict details) =
    if eq (get "reason" details) (text "content_filter")
    then text "content_filter"
    else text "length"
incomplete_reason details = text "length"

status_reason : Fields → Value
unfolding incomplete_reason
status_reason meta =
    if eq (get "status" meta) (text "completed")
    then text "stop"
    else if eq (get "status" meta) (text "incomplete")
    then incomplete_reason (get "incomplete_details" meta)
    else null

or_status : Value → Fields → Value
or_status null meta = status_reason meta
or_status reason meta = reason

-- `stop_reason` if the key is there, else `finish_reason`.
written_reason : Option Value → Fields → Value
written_reason (some reason) meta = reason
written_reason none meta = get "finish_reason" meta

unfoldable pub finish_reason : Value → Value
unfolding status_reason or_status written_reason
finish_reason (dict meta) = or_status (written_reason (find "stop_reason" meta) meta) meta
finish_reason meta = null

text_in : List String → Value → Bool
text_in xs (text s) = contains s xs
text_in xs v = false

-- The reasons that leave an answer incomplete.
is_cut : Value → Bool
unfolding text_in
is_cut =
    text_in (
      "max_tokens" ∷ "length" ∷ "model_context_window_exceeded" ∷ "refusal" ∷ "content_filter" ∷ [])

is_true : Value → Bool
is_true (Json.bool true) = true
is_true v = false

is_blocked : Value → Bool
unfolding is_true
is_blocked (dict meta) = is_true (get "msty_blocked" meta)
is_blocked meta = false

unfoldable pub call_ids : List ModelCall → List String
call_ids [] = []
call_ids (c ∷ cs) = c.id ∷ call_ids cs

-- The ids are not empty, and all different.
unfoldable pub proper_ids : List String → Bool
proper_ids [] = true
proper_ids (x ∷ xs) = not (str_eq x "") && not (contains x xs) && proper_ids xs

is_none_left : List ModelCall → Bool
is_none_left [] = true
is_none_left (c ∷ cs) = false

-- What a step of the execution adds: its status, its batch, and the number of actions issued.
record Outcome : Type 0 where
  status : Status
  pending : Option Pending
  issued : ℕ

abbrev settled : Status → ℕ → Result Outcome
settled s issued = ok (record { status = s; pending = none; issued = issued })

-- The batch of a generation that calls tools.
batch : Update → String → ℕ → Result Outcome
unfolding call_ids
batch u batch_id issued = do
  refuse (ltb (max_actions - issued) (length u.calls)) actions_exhausted
  refuse (not (proper_ids (call_ids u.calls))) repeated_call
  ok (record {
    status = waiting_tools;
    pending =
        some (record { batch_id = batch_id; result_sha256 = u.result_sha256; calls = u.calls });
    issued = issued + length u.calls;
  })

outcome : Update → String → ℕ → Result Outcome
unfolding is_cut is_blocked is_none_left
outcome u batch_id issued =
    if is_cut (finish_reason u.metadata)
    then settled incomplete issued
    else if is_blocked u.metadata || u.rejected
    then settled blocked issued
    else if is_none_left u.calls
    then settled answered issued
    else batch u batch_id issued

-- A saved counter: an int that is not negative, 0 where the key is absent.
counter : Option Value → Option ℕ
counter none = some 0
counter (some (int n)) = some n
counter (some v) = none

saved_task : Value → Option String
saved_task (text t) = some t
saved_task v = none

module _ (is_uuid : String → Bool) (fresh batch_id : String) where
  next_execution : Fields → Fields → Update → Option ℕ → Option ℕ → Result Execution
  unfolding outcome
  next_execution state previous u (some step) (some issued) = do
    refuse (ltb max_actions issued) bad_counter
    o ← outcome u batch_id issued
    t ← task_id is_uuid fresh state (saved_task (get "task_id" previous))
    ok (record {
      task_id = t;
      status = o.status;
      step = step + 1;
      actions_issued = o.issued;
      pending = o.pending;
    })
  next_execution state previous u step issued = raised bad_counter

  execution_from : Fields → Value → Update → Result Execution
  unfolding next_execution counter saved_task truthy
  execution_from state (dict previous) u =
      next_execution state previous u (counter (find "step" previous))
        (counter (find "actions_issued" previous))
  execution_from state other u =
      if truthy other then raised bad_counter else next_execution state Json.end u (some 0) (some 0)

  -- `state.get('execution') or {}` is the execution so far.
  unfoldable pub execution_after : Fields → Update → Result Execution
  unfolding execution_from batch
  execution_after state u = execution_from state (get "execution" state) u

pub data Node : Type 0 where
  wait_compaction wait_external end : Node

-- `enabled` is whether the state has the execution protocol.
pub next_node : Bool → Option Execution → Node
next_node true (some e) = elim e.status [
  | waiting_compaction ↦ wait_compaction
  | waiting_tools ↦ wait_external
  | _ ↦ end
]
next_node enabled e = end
