-- ===== src/Swarm.antt =====
-- The swarm of workers (src/deep_agent/msty_swarm.py): the lead splits a task, the bridge admits the
-- split, and each part is one model call.
pub mod Parsing
pub mod Admission
pub mod Worker
pub mod Report
mod Examples
use sanare_agent_core.Base.{ℕ, String, List}

pub record Subtask : Type 0 where
  pub id : String
  pub title : String
  pub role : String
  pub prompt : String
  pub output_format : String
  pub profile : String
  pub max_tokens : ℕ

pub record SwarmPlan : Type 0 where
  pub goal : String
  pub subtasks : List Subtask
