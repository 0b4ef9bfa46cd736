-- ===== src/Deliberation/Types.antt =====
-- protoneo/deliberation/types.py, the contract of protoneo/deliberation/policy.py, and what the
-- environment of a phase decides: the model's answers and when a turn is cancelled.
use protoneo.Prelude.{ℕ, String, Bool, Option, List}
use protoneo.Json.{Json}
use protoneo.Agents.{Agent, Message, AgentOutput}
use protoneo.Session.Context.{Context}

pub data Mode : Type 0 where
  parallel sequential round_robin : Mode

pub data Visibility : Type 0 where
  opened blind : Visibility

-- `timeout` is how `f"{timeout_seconds:g}"` prints the limit; the limit itself acts in the World.
pub record Rules : Type 0 where
  pub max_rounds : ℕ
  pub timeout : String
  pub visibility : Visibility
  pub max_concurrency : ℕ
  pub max_attempts : ℕ

-- The dictionary that a failed agent leaves in `failed_agents`.
pub record FailedAgent : Type 0 where
  pub agent_id : String
  pub role : String
  pub model : String
  pub round : ℕ
  pub error : String

pub record PhaseResult : Type 0 where
  pub phase_name : String
  pub mode : Mode
  pub outputs : List AgentOutput
  pub messages : List Message
  pub failed_agents : List FailedAgent

-- What `validate_output` does: return the structured answer, or raise ValueError with a text.
pub data Verdict : Type 0 where
  valid : Option Json → Verdict
  invalid : String → Verdict

-- DeliberationPolicy, the interface that applications implement.
pub record Policy : Type 0 where
  pub instructions : (phase_name : String) (mode : Mode) → String
  pub validate_output :
      (content phase_name : String) (mode : Mode) (agent : Agent) (context : Context) → Verdict
  pub discussion_prompt :
      (agent : Agent) (context : Context) (source phase_name : String) (round_number : ℕ)
      (blind : Bool)
      → String
  pub synthesis_prompt :
      (source : String) (outputs : List AgentOutput) (failures : List FailedAgent) → String

-- How `agent.process` ends within the time limit.
pub data Reply : Type 0 where
  answer : String → Reply
  timed_out : Reply
  raised : String → Reply
  cancelled : Reply

-- The model service, by agent, prompt and the number of calls made before; and whether the hook
-- `before_turn` raises CancelledError before that call. `sanitize` is `sanitize_error_message`.
pub record World : Type 0 where
  pub reply : Agent → String → ℕ → Reply
  pub interrupts : ℕ → Bool
  pub sanitize : String → String
