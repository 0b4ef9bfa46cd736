-- ===== src/Agents.antt =====
-- protoneo/agents/types.py and the identity of an agent in protoneo/agents/base.py.
-- Of a metadata dictionary the entries that the kernel reads are fields. Where the code tests an
-- entry by its truth (`if metadata.get("round")`), 0 and "" stand for an absent one.
pub mod Messages
mod Tests
use protoneo.Prelude.{ℕ, String, Option, List}
use protoneo.Json.{Json}

pub record Message : Type 0 where
  pub role : String
  pub content : String
  pub agent_id : Option String
  pub round : ℕ

pub record AgentOutput : Type 0 where
  pub agent_id : String
  pub agent_role : String
  pub content : String
  pub structured : Option Json
  pub phase : String
  pub attempts : ℕ
  pub round : ℕ
  pub deliberation_turn : ℕ

pub record Document : Type 0 where
  pub document_id : String
  pub filename : String
  pub text : String
  pub markdown : String
  pub chunks : List String

-- The fields of BaseAgent that deliberation reads.
pub record Agent : Type 0 where
  pub agent_id : String
  pub role : String
  pub model : String
  pub system_prompt : String
