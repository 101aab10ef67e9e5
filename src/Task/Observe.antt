-- ===== src/Task/Observe.antt =====
-- What the results of a batch make of the contract (`observe` of src/deep_agent/msty_task.py). Only
-- calls that were issued count, under the ids that the client was given.
pub mod Evidence
use sanare_agent_core.Base.{
  ℕ, zero, suc, ◌+◌, String, Bool, true, false, not, ◌&&◌, ◌||◌, Option, none, some, List, [], ◌∷◌,
  ltb, leb, ◌==◌, if◌then◌else◌, length, str_eq,
}
use sanare_agent_core.Json
use sanare_agent_core.Json.{
  Value, null, int, text, dict, list, Fields, field, get, has, truthy, find,
}
use sanare_agent_core.Json.Shapes.{fields_of}
use sanare_agent_core.Execution.Progress.{ModelCall}
use sanare_agent_core.Execution.Walk.{Bound, find_bound, field_of}
use sanare_agent_core.Task.{
  Host, Plan, Status, verified, blocked, Reason, ambiguous_plan_batch, unconfirmed_plan_observation,
  checks_not_confirmed, Contract, Verification, named,
}
use sanare_agent_core.Task.Receipts.{decode}
use sanare_agent_core.Task.Planning.{plan_contract}
use sanare_agent_core.Task.Verify.{verified_by}

abbrev pub plan_suffix : String
plan_suffix = "msty_task_plan"

abbrev pub verify_suffix : String
verify_suffix = "msty_task_verify"

unfoldable pub calls_named : String → Bound → ℕ
calls_named suffix [] = 0
calls_named suffix ((client, call) ∷ bs) =
    if named (text call.name) suffix then suc (calls_named suffix bs) else calls_named suffix bs

-- Two plans, or a plan and a verification in one batch, have no clear order.
unfoldable pub ambiguous : Bound → Bool
unfolding calls_named
ambiguous issued =
    ltb 1 (calls_named plan_suffix issued)
    || (ltb 0 (calls_named plan_suffix issued) && ltb 0 (calls_named verify_suffix issued))
    || (ltb 0 (calls_named verify_suffix issued)
        && (not (calls_named verify_suffix issued == 1) || not (length issued == 1)))

unfoldable pub blocked_for : Reason → Contract
blocked_for reason = record {
  status = blocked;
  reason = some reason;
  plan = none;
  verification = none;
  learning_outcome = none;
}

-- The call as the checkpoint has it.
unfoldable pub call_value : ModelCall → Value
call_value c =
    dict (field "id" (text c.id) (field "name" (text c.name) (field "args" c.args Json.end)))

or_blocked : Option Contract → Contract
or_blocked none = blocked_for unconfirmed_plan_observation
or_blocked (some c) = c

-- A receipt's learning part.
learning_part : Option Value → Option Value
learning_part (some (dict receipt)) = find "learning" receipt
learning_part receipt = none

passes : Host → Option Plan → Value → Option Value → Bool
passes host none args receipt = false
passes host (some p) args receipt = verified_by host p args receipt

unfoldable pub receipt_value : Option Value → Value
receipt_value none = null
receipt_value (some v) = v

verification_of : Host → ModelCall → Option Value → Verification
verification_of host call receipt = record {
  call_sha256 = host.digest (call_value call);
  observation_sha256 = host.digest (receipt_value receipt);
}

-- The contract after a verification of it.
unfoldable pub after_verify : Host → ModelCall → Option Value → Contract → Contract
unfolding passes verification_of learning_part
after_verify host call receipt c =
    if passes host c.plan call.args receipt
    then record c {
      status = verified;
      reason = none;
      verification = some (verification_of host call receipt);
      learning_outcome = learning_part receipt;
    }
    else record c {
      status = blocked;
      reason = some checks_not_confirmed;
      verification = some (verification_of host call receipt);
      learning_outcome = none;
    }

verify_step : Host → ModelCall → Option Value → Option Contract → Option Contract
unfolding after_verify
verify_step host call receipt none = none
verify_step host call receipt (some c) = some (after_verify host call receipt c)

-- What one result of an issued call makes of the contract.
unfoldable pub observe_call : Host → ModelCall → Option Value → Option Contract → Option Contract
unfolding or_blocked verify_step
observe_call host call receipt contract =
    if named (text call.name) plan_suffix
    then some (or_blocked (plan_contract host (call_value call) (fields_of call.args) receipt))
    else if named (text call.name) verify_suffix
    then verify_step host call receipt contract
    else contract

unfoldable pub issued_call : Bound → Value → Option ModelCall
issued_call issued (text id) = find_bound id issued
issued_call issued id = none

unfoldable pub observe_result : Host → Bound → Value → Option Contract → Option Contract
unfolding issued_call observe_call
observe_result host issued result contract =
    elim (issued_call issued (field_of "tool_call_id" result)) [
      | none ↦ contract
      | some call ↦ observe_call host call (decode host.parse (field_of "content" result)) contract
    ]

unfoldable pub observe_all : Host → Bound → List Value → Option Contract → Option Contract
unfolding observe_result
observe_all host issued [] contract = contract
observe_all host issued (r ∷ rs) contract =
    observe_all host issued rs (observe_result host issued r contract)

unfoldable pub observe : Host → Option Contract → Bound → List Value → Option Contract
unfolding ambiguous observe_all
observe host contract issued results =
    if ambiguous issued
    then some (blocked_for ambiguous_plan_batch)
    else observe_all host issued results contract
