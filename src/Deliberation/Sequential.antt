-- ===== src/Deliberation/Sequential.antt =====
-- SequentialPattern of protoneo/deliberation/patterns.py: a pipeline of agents, each reading the
-- output of the one before it, that stops at the first agent without a valid answer.
pub mod Pipeline
use protoneo.Prelude.{String, Option, none, some, List, [], ◌∷◌, if◌then◌else◌, ◌==◌}
use protoneo.Agents.{AgentOutput, Agent}
use protoneo.Deliberation.Types.{opened, blind, Rules, Policy, World}
use protoneo.Deliberation.Exec.{Exec, pure, ◌>>=◌, ◌>>◌, get, modify}
use protoneo.Deliberation.Attempts.{Item, accepted, failure, run_agent}
use protoneo.Deliberation.Commit.{commit, add_failed}

-- `{o.agent_id: o for o in outputs}.get(id)`: the last output of an agent counts.
unfoldable pub last_by : String → List AgentOutput → Option AgentOutput
last_by id [] = none
last_by id (o ∷ os) = elim (last_by id os) [
  | some later ↦ some later
  | none ↦ if o.agent_id == id then some o else none
]

module _ (world : World) (policy : Policy) (rules : Rules) where
  -- `if rules.visibility == "open": user_message = Message(..., content=output.content)`
  unfoldable pub handed_on : String → AgentOutput → String
  handed_on prompt o = elim rules.visibility [ opened ↦ o.content | blind ↦ prompt ]

  -- What follows a turn: the failure ends the loop, and an answer is committed.
  unfoldable pub proceed : (rest : String → Exec Unit) (prompt : String) → Item → Exec Unit
  unfolding handed_on commit add_failed
  proceed rest prompt (failure f) = modify (add_failed f)
  proceed rest prompt (accepted m o) = do commit m o; rest (handed_on prompt o)

  unfoldable pub visit :
      (done : List AgentOutput) (rest : String → Exec Unit) (agent : Agent) (prompt : String)
      → Exec Unit
  unfolding last_by run_agent proceed
  visit done rest agent prompt s = elim (last_by agent.agent_id done) [
    | some output ↦ rest (handed_on prompt output) s
    | none ↦
        (run_agent world policy rules agent prompt 0 s.result.phase_name s.result.mode s.context
            >>= proceed rest prompt)
          s
  ]

  -- The loop over the agents; `done` are the outputs that the phase had at its start.
  unfoldable pub sequential_from : (done : List AgentOutput) → List Agent → String → Exec Unit
  sequential_from done [] prompt = pure tt
  sequential_from done (agent ∷ agents) prompt =
      visit done (sequential_from done agents) agent prompt

  -- SequentialPattern.execute
  unfoldable pub sequential_execute : List Agent → String → Exec Unit
  sequential_execute agents prompt = do
    s ← get
    modify (λ t. record t { result = record t.result { failed_agents = [] } })
    sequential_from s.result.outputs agents prompt
