-- ===== src/Deliberation/Config.antt =====
-- The configuration of a deliberation, from protoneo/config/schema.py, and `validate_config` of
-- protoneo/deliberation/engine.py.
pub mod Participants
use protoneo.Prelude.{
  ℕ, String, Bool, true, false, not, ◌&&◌, ◌||◌, Option, none, some, List, [], ◌∷◌, map, ltb,
  if◌then◌else◌, length, any, find, get_last?, ◌==◌, one_of,
}
use protoneo.Agents.{Agent}
use protoneo.Deliberation.Types.{Mode, parallel, sequential, Visibility}

pub record PhaseConfig : Type 0 where
  pub name : String
  pub mode : Mode
  pub agents : List String
  pub max_rounds : ℕ
  pub visibility : Visibility
  pub input : Option String
  pub min_successful_agents : ℕ
  pub timeout : String

pub record DeliberationConfig : Type 0 where
  pub pattern : String
  pub phases : List PhaseConfig
  pub max_concurrency : ℕ
  pub max_attempts : ℕ

-- What `validate_config` raises ValueError for; a phase is given by its name.
pub data ConfigFault : Type 0 where
  no_phases duplicate_phases not_independent : ConfigFault
  unknown_agents unassigned duplicate_agents too_demanding bad_input : String → ConfigFault

-- `agent_configs[id]`, as the agent that `_create_agent` makes of it
unfoldable pub agent_of : List Agent → String → Option Agent
agent_of agents id = find (λ a. a.agent_id == id) agents

abbrev pub is_given : Option Agent → Bool
is_given none = false
is_given (some a) = true

abbrev pub model_of : Option Agent → String
model_of none = ""
model_of (some a) = a.model

-- `len(xs) != len(set(xs))`
unfoldable pub has_duplicates : List String → Bool
has_duplicates [] = false
has_duplicates (x ∷ xs) = one_of xs x || has_duplicates xs

abbrev pub is_selector : Option String → Bool
is_selector none = true
is_selector (some s) = one_of ("original" ∷ "previous_output" ∷ "all_prior_outputs" ∷ []) s

abbrev pub is_parallel : Option PhaseConfig → Bool
is_parallel none = false
is_parallel (some p) = elim p.mode [ parallel ↦ true | _ ↦ false ]

abbrev pub is_sequential : Option PhaseConfig → Bool
is_sequential none = false
is_sequential (some p) = elim p.mode [ sequential ↦ true | _ ↦ false ]

abbrev pub first? : List PhaseConfig → Option PhaseConfig
first? [] = none
first? (p ∷ ps) = some p

abbrev pub fault_or : Option ConfigFault → Option ConfigFault → Option ConfigFault
fault_or none next = next
fault_or (some f) next = some f

-- `is_blank s` is `not s.strip()`.
module _ (is_blank : String → Bool) (agents : List Agent) where
  -- The first condition that a phase breaks.
  unfoldable pub phase_fault : PhaseConfig → Option ConfigFault
  unfolding agent_of has_duplicates
  phase_fault p =
      if any (λ id. not (is_given (agent_of agents id))) p.agents
      then some (unknown_agents p.name)
      else if any (λ id. is_blank (model_of (agent_of agents id))) p.agents
      then some (unassigned p.name)
      else if has_duplicates p.agents
      then some (duplicate_agents p.name)
      else if ltb (length p.agents) p.min_successful_agents
      then some (too_demanding p.name)
      else if not (is_selector p.input)
      then some (bad_input p.name)
      else none

  unfoldable pub phases_fault : List PhaseConfig → Option ConfigFault
  unfolding phase_fault
  phases_fault [] = none
  phases_fault (p ∷ ps) = fault_or (phase_fault p) (phases_fault ps)

  unfoldable pub pattern_fault : DeliberationConfig → Option ConfigFault
  pattern_fault c =
      if c.pattern == "independent_synthesis"
        && not (is_parallel (first? c.phases) && is_sequential (get_last? c.phases))
      then some not_independent
      else none

  -- DeliberationEngine.validate_config: the fault that it raises, if any
  unfoldable pub validate_config : DeliberationConfig → Option ConfigFault
  unfolding phases_fault pattern_fault has_duplicates
  validate_config c = elim c.phases [
    | [] ↦ some no_phases
    | p ∷ ps ↦
        if has_duplicates (map (λ q. q.name) (p ∷ ps))
        then some duplicate_phases
        else fault_or (phases_fault (p ∷ ps)) (pattern_fault c)
  ]

abbrev pub add_found : Option Agent → List Agent → List Agent
add_found none agents = agents
add_found (some a) agents = a ∷ agents

-- `[agents[aid] for aid in phase_config.agents]`
unfoldable pub participants : List Agent → List String → List Agent
unfolding agent_of
participants agents [] = []
participants agents (id ∷ ids) = add_found (agent_of agents id) (participants agents ids)
