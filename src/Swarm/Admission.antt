-- ===== src/Swarm/Admission.antt =====
-- The admission of a swarm (`enabled`, `descriptor`, `check_admission`, `_binding_matches`, `admission_record`
-- and `verify_execution` of src/deep_agent/msty_swarm.py): the bridge answers a descriptor of the
-- plan, and only the plan that it answered is run.
pub mod Granted
pub mod Described
use sanare_agent_core.Base.{
  ℕ, String, Bool, true, false, not, ◌&&◌, ◌||◌, Option, none, some, List, [], ◌∷◌, ltb, leb,
  if◌then◌else◌, length, str_eq, string_append, ◌==◌,
}
use sanare_agent_core.Text.Strings.{chars}
use sanare_agent_core.Json
use sanare_agent_core.Json.{Value, null, int, text, dict, list, Fields, get, has, elements}
use sanare_agent_core.Json.Shapes.{
  is, is_count, keys_are, items_of, fields_of, is_list, texts_satisfy,
}
use sanare_agent_core.Execution.Limits.{pricing_version, window_input_limit, admitted_input}
use sanare_agent_core.Execution.Progress.{ModelCall, Pending}
use sanare_agent_core.Swarm.{Subtask, SwarmPlan}
use sanare_agent_core.Swarm.Parsing.{parse_plan}

abbrev pub tool : String
tool = "native_swarm"

-- The swarm is for the lead alone, and only under the protocol's name.
unfoldable pub enabled : Fields → Bool
enabled state =
    is (get "swarm_protocol" state) "msty-swarm-v1"
    && (if has "brain_task_role" state then is (get "brain_task_role" state) "lead" else true)

-- What the bridge is told of a part: not its prompt.
pub record Part : Type 0 where
  pub id : String
  pub title : String
  pub role : String
  pub profile : String
  pub max_tokens : ℕ

pub record Descriptor : Type 0 where
  pub swarm_id : String
  pub tool_call_id : String
  pub plan_sha256 : String
  pub subtasks : List Part

unfoldable pub part_of : Subtask → Part
part_of s = record {
  id = s.id;
  title = s.title;
  role = s.role;
  profile = s.profile;
  max_tokens = s.max_tokens;
}

unfoldable pub parts_of : List Subtask → List Part
unfolding part_of
parts_of [] = []
parts_of (s ∷ ss) = part_of s ∷ parts_of ss

unfoldable pub swarm_calls : List ModelCall → List ModelCall
swarm_calls [] = []
swarm_calls (c ∷ cs) = let rest = swarm_calls cs in if str_eq c.name tool then c ∷ rest else rest

module _ (digest : SwarmPlan → String) (uuid5 : String → String) (most : ℕ) where
  unfoldable pub described : String → ModelCall → Option SwarmPlan → Option Descriptor
  unfolding parts_of
  described batch_id call none = none
  described batch_id call (some plan) = some (record {
    swarm_id = uuid5 (string_append batch_id (string_append ":" call.id));
    tool_call_id = call.id;
    plan_sha256 = digest plan;
    subtasks = parts_of plan.subtasks;
  })

  unfoldable pub described_call : String → List ModelCall → Option Descriptor
  unfolding described
  described_call batch_id (call ∷ []) = described batch_id call (parse_plan most call.args)
  described_call batch_id calls = none

  -- The batch is the checkpoint's, `none` where it has none.
  unfoldable pub descriptor : Option Pending → Option Descriptor
  unfolding described_call swarm_calls
  descriptor none = none
  descriptor (some p) = described_call p.batch_id (swarm_calls p.calls)

-- _binding_matches
unfoldable pub binding_matches : Value → Part → Bool
binding_matches (dict binding) planned =
    keys_are ("version" ∷ "pricing_version" ∷ "profile" ∷ "output_limit" ∷ "input_limit" ∷ [])
      binding
    && is_count (get "version" binding) 1
    && is (get "pricing_version" binding) pricing_version
    && is (get "profile" binding) planned.profile
    && is_count (get "output_limit" binding) planned.max_tokens
    && admitted_input (get "input_limit" binding) (window_input_limit planned.profile)
binding_matches v planned = false

-- One admitted item against its part.
unfoldable pub item_admits : Value → Part → Bool
unfolding binding_matches
item_admits (dict item) planned =
    keys_are ("id" ∷ "request_id" ∷ "binding" ∷ []) item
    && texts_satisfy (λ t. ltb 0 (chars t) && leb (chars t) 128) (get "request_id" item)
    && binding_matches (get "binding" item) planned
item_admits v planned = false

unfoldable pub items_admit : List Value → List Part → Bool
unfolding item_admits
items_admit [] parts = true
items_admit (v ∷ vs) [] = true
items_admit (v ∷ vs) (p ∷ ps) = item_admits v p && items_admit vs ps

-- The ids of the items are those of the parts, in their order.
unfoldable pub same_ids : List Value → List Part → Bool
same_ids [] [] = true
same_ids (v ∷ vs) (p ∷ ps) = is (get "id" (fields_of v)) p.id && same_ids vs ps
same_ids vs ps = false

unfoldable pub rejection_ok : Fields → Bool
rejection_ok admission =
    keys_are ("version" ∷ "swarm_id" ∷ "status" ∷ "reason" ∷ []) admission
    && texts_satisfy (λ t. ltb 0 (chars t) && leb (chars t) 300) (get "reason" admission)

unfoldable pub admitted_ok : Descriptor → Fields → Bool
unfolding items_admit same_ids
admitted_ok swarm admission =
    is (get "status" admission) "admitted"
    && keys_are ("version" ∷ "swarm_id" ∷ "status" ∷ "subtasks" ∷ []) admission
    && is_list (get "subtasks" admission)
    && same_ids (items_of (get "subtasks" admission)) swarm.subtasks
    && items_admit (items_of (get "subtasks" admission)) swarm.subtasks

-- The answer of the bridge, checked against the descriptor; `none` is a SwarmPlanError.
unfoldable pub check_admission : Descriptor → Value → Option Fields
unfolding rejection_ok admitted_ok
check_admission swarm (dict admission) =
    if is_count (get "version" admission) 1
      && is (get "swarm_id" admission) swarm.swarm_id
      && (if is (get "status" admission) "rejected"
          then rejection_ok admission
          else admitted_ok swarm admission)
    then some admission
    else none
check_admission swarm v = none

-- The answer with the descriptor that it answers, as the checkpoint keeps it.
pub record Record : Type 0 where
  pub admission : Fields
  pub descriptor : Descriptor

abbrev pub admission_record : Descriptor → Fields → Record
admission_record swarm admission = record { admission = admission; descriptor = swarm }

unfoldable pub same_part : Part → Part → Bool
same_part a b =
    str_eq a.id b.id
    && str_eq a.title b.title
    && str_eq a.role b.role
    && str_eq a.profile b.profile
    && a.max_tokens == b.max_tokens

unfoldable pub same_parts : List Part → List Part → Bool
unfolding same_part
same_parts [] [] = true
same_parts (a ∷ rest) (b ∷ bs) = same_part a b && same_parts rest bs
same_parts rest bs = false

-- The plan that is about to run is the one that was admitted; false is a SwarmPlanError.
unfoldable pub verify_execution : (SwarmPlan → String) → ModelCall → SwarmPlan → Record → Bool
unfolding parts_of same_ids same_parts
verify_execution digest call plan r =
    is (get "swarm_id" r.admission) r.descriptor.swarm_id
    && str_eq r.descriptor.tool_call_id call.id
    && str_eq r.descriptor.plan_sha256 (digest plan)
    && same_parts r.descriptor.subtasks (parts_of plan.subtasks)
    && (not (is (get "status" r.admission) "admitted")
        || same_ids (items_of (get "subtasks" r.admission)) (parts_of plan.subtasks))
