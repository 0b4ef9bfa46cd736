-- ===== src/Deliberation/Visible/Tests.antt =====
-- What a discussion in protoneo/deliberation/policy.py shows, and the theorems at it.
use protoneo.Prelude.{ℕ, String, ◌≡◌, refl, true, false, none, List, [], ◌∷◌, map, All}
use protoneo.Agents.{AgentOutput}
use protoneo.Session.Context.{Outputs}
use protoneo.Deliberation.Visible.{shown_of, shown_outputs}
use protoneo.Deliberation.Visible.Limits.{shown_outputs-blind}

abbrev said : (id : String) (number : ℕ) → AgentOutput
said id number = record {
  agent_id = id;
  agent_role = "Reviewer";
  content = "fine";
  structured = none;
  phase = "p";
  attempts = 1;
  round = number;
  deliberation_turn = number;
}

abbrev history : List AgentOutput
history = said "ada" 0 ∷ said "ada" 1 ∷ said "ada" 2 ∷ said "ada" 3 ∷ []

abbrev all_outputs : Outputs
all_outputs = ("ada", history) ∷ ("ben", said "ben" 1 ∷ []) ∷ []

-- The first of Ada's three turns is left out.
shows_recent : map (λ (o : AgentOutput). o.round) (shown_of false "ben" history) ≡ 0 ∷ 2 ∷ 3 ∷ []
unfolding shown_of
shows_recent = refl

shown_outputs-blind_example : All (λ o. o.agent_id ≡ "ben") (shown_outputs true "ben" all_outputs)
shown_outputs-blind_example = shown_outputs-blind "ben" all_outputs
