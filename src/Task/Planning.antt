-- ===== src/Task/Planning.antt =====
-- Accepting a plan receipt (`_plan` of src/deep_agent/msty_task.py): the receipt must be of the call
-- that was issued, and the checks of the call must cover its requirements.
pub mod Soundness
use sanare_agent_core.Base.{
  ℕ, zero, suc, ◌+◌, String, Bool, true, false, not, ◌&&◌, ◌||◌, Option, none, some, List, [], ◌∷◌,
  ltb, leb, ◌==◌, if◌then◌else◌, length, str_eq, contains,
}
use sanare_agent_core.Text.Strings.{hex_after}
use sanare_agent_core.Json
use sanare_agent_core.Json.{Value, null, int, text, dict, list, Fields, field, get, has, eq, truthy}
use sanare_agent_core.Json.Shapes.{
  is, is_one_of, keys_are, is_false, is_count, texts_satisfy, items_of, fields_of, is_list, is_text,
}
use sanare_agent_core.Task.{
  Host, LearningContext, Check, Plan, Status, planned, blocked, Reason,
  unconfirmed_plan_observation, Contract,
}
use sanare_agent_core.Task.Learning.{is_hash, learning_context}

abbrev pub plan_keys : List String
plan_keys =
    "schema" ∷ "state" ∷ "plan_id" ∷ "plan_sha256" ∷ "project_slug" ∷ "requirements_count"
    ∷ "checks_count" ∷ "criteria_origin" ∷ "whole_task_completion_verified" ∷ []

-- _receipt_keys: exactly the required keys, or those and `learning`.
unfoldable pub receipt_keys : List String → Fields → Bool
receipt_keys required receipt =
    keys_are required receipt || keys_are ("learning" ∷ required) receipt

-- The plan and its identity in the receipt, against the arguments of the call.
unfoldable pub plan_receipt_ok : Fields → Fields → Bool
unfolding receipt_keys
plan_receipt_ok args receipt =
    let requirements = items_of (get "requirements" args) in
    let checks = items_of (get "checks" args) in
    receipt_keys plan_keys receipt
    && is (get "schema" receipt) "msty.task.plan.v1"
    && is (get "state" receipt) "planned"
    && is (get "criteria_origin" receipt) "model_proposed"
    && is_false (get "whole_task_completion_verified" receipt)
    && texts_satisfy (hex_after "taskplan-" 32) (get "plan_id" receipt)
    && is_hash (get "plan_sha256" receipt)
    && is_list (get "requirements" args)
    && leb 1 (length requirements)
    && leb (length requirements) 12
    && is_list (get "checks" args)
    && leb 1 (length checks)
    && leb (length checks) 24
    && is_count (get "requirements_count" receipt) (length requirements)
    && is_count (get "checks_count" receipt) (length checks)
    && eq (get "project_slug" receipt) (get "project_slug" args)

abbrev kinds : List String
kinds = "sha256" ∷ "text_contains" ∷ "json_pointer_equals" ∷ []

summary_of : ℕ → ℕ → Value → Value → Value → Option Check
summary_of index n (int requirement) (text kind) (text path) =
    if ltb requirement n && contains kind kinds
    then some (record { index = index; requirement_index = requirement; kind = kind; path = path })
    else none
summary_of index n requirement kind path = none

-- One check of the call, as the contract keeps it.
check_of : ℕ → ℕ → Value → Option Check
unfolding summary_of
check_of index n (dict check) =
    summary_of index n (get "requirement_index" check) (get "kind" check) (get "path" check)
check_of index n check = none

-- The loop over the checks, from `index`; `n` is the number of requirements.
unfoldable pub summaries : ℕ → ℕ → List Value → Option (List Check)
unfolding check_of
summaries index n [] = some []
summaries index n (c ∷ cs) = elim (check_of index n c) [
  | none ↦ none
  | some check ↦ elim (summaries (index + 1) n cs) [ none ↦ none | some rest ↦ some (check ∷ rest) ]
]

unfoldable pub covers : ℕ → List Check → Bool
covers r [] = false
covers r (c ∷ cs) = c.requirement_index == r || covers r cs

-- {c['requirement_index'] ...} == set(range(n)), of indices below n.
unfoldable pub covers_all : ℕ → List Check → Bool
unfolding covers
covers_all zero cs = true
covers_all (suc n) cs = covers n cs && covers_all n cs

-- A lesson without its text.
lesson_ref : Fields → Fields
lesson_ref lesson = field "id" (get "id" lesson) (
    field "source" (get "source" lesson) (
      field "source_sha256" (get "source_sha256" lesson)
        (field "lesson_sha256" (get "lesson_sha256" lesson) Json.end)))

lesson_refs : List Value → List Fields
unfolding lesson_ref
lesson_refs [] = []
lesson_refs (v ∷ vs) = lesson_ref (fields_of v) ∷ lesson_refs vs

-- The context without its lessons.
without_lessons : Fields → Fields
without_lessons Json.end = Json.end
without_lessons (field k v fs) =
    let rest = without_lessons fs in if str_eq k "lessons" then rest else field k v rest

kept_context : Fields → LearningContext
unfolding lesson_refs without_lessons
kept_context value = record {
  retrieved = length (items_of (get "lessons" value));
  fields = without_lessons value;
  lesson_refs = lesson_refs (items_of (get "lessons" value));
}

learning_of : Fields → Option LearningContext
unfolding kept_context
learning_of receipt =
    if has "learning" receipt
    then some (kept_context (fields_of (get "learning" receipt)))
    else none

-- A text of the receipt that was checked to be one.
unfoldable pub text_or_empty : Value → String
text_or_empty (text s) = s
text_or_empty v = ""

plan_from : Host → Value → Fields → Fields → List Check → Plan
unfolding learning_of
plan_from host call args receipt checks = record {
  plan_id = text_or_empty (get "plan_id" receipt);
  plan_sha256 = text_or_empty (get "plan_sha256" receipt);
  project_slug = get "project_slug" receipt;
  requirements_count = length (items_of (get "requirements" args));
  checks = checks;
  checks_count = length (items_of (get "checks" args));
  call_sha256 = host.digest call;
  learning = learning_of receipt;
}

contract_of : Plan → Contract
contract_of p = record {
  status = planned;
  reason = none;
  plan = some p;
  verification = none;
  learning_outcome = none;
}

covered : Host → Value → Fields → Fields → Option (List Check) → Option Contract
unfolding plan_from contract_of
covered host call args receipt none = none
covered host call args receipt (some checks) =
    if covers_all (length (items_of (get "requirements" args))) checks
      && (not (has "learning" receipt)
          || learning_context host (text_or_empty (get "plan_id" receipt)) (get "learning" receipt))
    then some (contract_of (plan_from host call args receipt checks))
    else none

-- `call` is the call's dictionary, whose digest the contract keeps; `args` its arguments.
unfoldable pub plan_contract : Host → Value → Fields → Option Value → Option Contract
unfolding covered
plan_contract host call args (some (dict receipt)) =
    if plan_receipt_ok args receipt
    then covered host call args receipt
        (summaries 0 (length (items_of (get "requirements" args))) (items_of (get "checks" args)))
    else none
plan_contract host call args receipt = none
