-- ===== src/Models.antt =====
-- protoneo/llm/types.py: what is known of a language model. Its prices, its display name and its
-- place are not modelled: routing reads none of them.
pub mod Policies
pub mod Registry
mod Tests
use protoneo.Prelude.{ℕ, String, Bool, true, false, Option, List, [], ◌∷◌, ◌=ℕ◌}

-- `ModelCapability`, `ModelQuirk` and the other enumerations
pub data Capability : Type 0 where
  vision structured_output function_calling streaming extended_thinking reasoning_control :
      Capability

pub data Quirk : Type 0 where
  think_tags thinking_tags reasoning_content_field hidden_reasoning_field reasoning_effort_none :
      Quirk

pub data Reliability : Type 0 where
  undetermined basic strong : Reliability

pub data Latency : Type 0 where
  unrated fast balanced slow : Latency

pub data Tier : Type 0 where
  local cloud_free cloud_api subscription : Tier

abbrev pub is_local : Tier → Bool
is_local local = true
is_local _ = false

abbrev pub tier_rank : Tier → ℕ
tier_rank local = 0
tier_rank cloud_free = 1
tier_rank cloud_api = 2
tier_rank subscription = 3

abbrev pub same_tier : Tier → Tier → Bool
same_tier a b = tier_rank a =ℕ tier_rank b

-- A set of capabilities or of quirks, by its membership test.
abbrev pub Capabilities : Type 0
Capabilities = Capability → Bool

abbrev pub Quirks : Type 0
Quirks = Quirk → Bool

abbrev pub capability_rank : Capability → ℕ
capability_rank extended_thinking = 0
capability_rank function_calling = 1
capability_rank reasoning_control = 2
capability_rank streaming = 3
capability_rank structured_output = 4
capability_rank vision = 5

abbrev pub quirk_rank : Quirk → ℕ
quirk_rank think_tags = 0
quirk_rank thinking_tags = 1
quirk_rank reasoning_content_field = 2
quirk_rank hidden_reasoning_field = 3
quirk_rank reasoning_effort_none = 4

abbrev pub same_capability : Capability → Capability → Bool
same_capability a b = capability_rank a =ℕ capability_rank b

abbrev pub same_quirk : Quirk → Quirk → Bool
same_quirk a b = quirk_rank a =ℕ quirk_rank b

-- In the order of their texts, as `sorted` gives them.
abbrev pub every_capability : List Capability
every_capability =
    extended_thinking ∷ function_calling ∷ reasoning_control ∷ streaming ∷ structured_output
    ∷ vision ∷ []

abbrev pub capability_value : Capability → String
capability_value vision = "vision"
capability_value structured_output = "structured_output"
capability_value function_calling = "function_calling"
capability_value streaming = "streaming"
capability_value extended_thinking = "extended_thinking"
capability_value reasoning_control = "reasoning_control"

pub record ModelInfo : Type 0 where
  pub model_id : String
  pub provider : String
  pub litellm_model : Option String
  pub api_base : Option String
  pub capabilities : Capabilities
  pub quirks : Quirks
  pub max_context : ℕ
  pub speed_tps : ℕ
  pub latency_class : Latency
  pub structured_reliability : Reliability
  pub tier : Tier
