-- ===== src/Task.antt =====
-- The task contract of src/deep_agent/msty_task.py: what a checkpoint holds of a plan and of its
-- verification, and what the module takes from outside.
pub mod Receipts
pub mod Learning
pub mod Planning
pub mod Verify
pub mod Observe
pub mod Conversation
pub mod OpenPlan
pub mod Sites
pub mod Final
mod Examples
use sanare_agent_core.Base.{ℕ, String, Bool, false, Option, none, List, ◌||◌, str_eq, string_append}
use sanare_agent_core.Text.Strings.{ends_with}
use sanare_agent_core.Json.{Value, text, Fields}

-- What the module calls: canonical SHA-256, the JSON parser, the length of a value as JSON (`none`
-- where it cannot be written), and the regular expressions CONTROL and INCIDENT on an owner's text.
pub record Host : Type 0 where
  pub digest : Value → String
  pub parse : String → Option Value
  pub json_bytes : Value → Option ℕ
  pub controls : String → Bool
  pub reports_incident : String → Bool

pub record Check : Type 0 where
  pub index : ℕ
  pub requirement_index : ℕ
  pub kind : String
  pub path : String

-- What a contract keeps of the learning context: the references of the lessons, not their text.
pub record LearningContext : Type 0 where
  pub retrieved : ℕ
  pub fields : Fields
  pub lesson_refs : List Fields

pub record Plan : Type 0 where
  pub plan_id : String
  pub plan_sha256 : String
  pub project_slug : Value
  pub requirements_count : ℕ
  pub checks : List Check
  pub checks_count : ℕ
  pub call_sha256 : String
  pub learning : Option LearningContext

pub data Status : Type 0 where
  planned verified blocked : Status

pub data Reason : Type 0 where
  ambiguous_plan_batch unconfirmed_plan_observation checks_not_confirmed : Reason

pub record Verification : Type 0 where
  pub call_sha256 : String
  pub observation_sha256 : String

pub record Contract : Type 0 where
  pub status : Status
  pub reason : Option Reason
  pub plan : Option Plan
  pub verification : Option Verification
  pub learning_outcome : Option Value

-- The name is the suffix, or ends in it behind an underscore.
unfoldable pub named : Value → String → Bool
named (text name) suffix = str_eq name suffix || ends_with name (string_append "_" suffix)
named v suffix = false
