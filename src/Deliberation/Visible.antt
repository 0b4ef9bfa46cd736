-- ===== src/Deliberation/Visible.antt =====
-- Which outputs `discussion_prompt` of protoneo/deliberation/policy.py shows to an agent; how it
-- prints them is not modelled.
pub mod Limits
mod Tests
use protoneo.Prelude.{
  ◌-◌, String, Bool, not, ◌||◌, List, [], ◌∷◌, ◌++◌, ◌=ℕ◌, length, drop, keep, ◌==◌,
}
use protoneo.Agents.{AgentOutput}
use protoneo.Session.Context.{Outputs}

abbrev pub is_turn : AgentOutput → Bool
is_turn o = not (o.round =ℕ 0)

-- `xs[-2:]`
unfoldable pub last_two {ℓ} : {A : Type ℓ} → List A → List A
last_two xs = drop (length xs - 2) xs

-- Of one agent: the initial assessments and the two most recent turns.
unfoldable pub shown_of : (blind : Bool) (id : String) → List AgentOutput → List AgentOutput
unfolding last_two
shown_of blind id outputs =
    let visible = keep (λ o. not blind || o.agent_id == id) outputs in
    keep (λ o. not (is_turn o)) visible ++ last_two (keep is_turn visible)

-- Of all agents, in the order of the context's dictionary.
unfoldable pub shown_outputs : (blind : Bool) (id : String) → Outputs → List AgentOutput
unfolding shown_of
shown_outputs blind id [] = []
shown_outputs blind id ((k, os) ∷ rest) = shown_of blind id os ++ shown_outputs blind id rest
