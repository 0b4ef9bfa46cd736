-- ===== src/Deliberation/Commit.antt =====
-- `_commit` of protoneo/deliberation/patterns.py, and how a turn's item enters the phase result.
use protoneo.Prelude.{◌+◌, [], ◌∷◌, ◌++◌, ◌=ℕ◌, if◌then◌else◌, length}
use protoneo.Agents.{Message, AgentOutput}
use protoneo.Session.Context.{add_message, add_output}
use protoneo.Deliberation.Types.{FailedAgent, PhaseResult}
use protoneo.Deliberation.Exec.{agent_done, Run, Exec, ◌>>=◌, ◌>>◌, get, modify, emit}

-- `output.metadata["deliberation_turn"] = len(result.outputs) + 1`, in a round only
unfoldable pub numbered : PhaseResult → AgentOutput → AgentOutput
numbered p o = if o.round =ℕ 0 then o else record o { deliberation_turn = length p.outputs + 1 }

-- The writes to the context and to the phase result.
unfoldable pub recorded : Message → AgentOutput → Run → Run
recorded m o s = record s {
  context = add_output o (add_message m s.context);
  result = record s.result {
    messages = s.result.messages ++ m ∷ [];
    outputs = s.result.outputs ++ o ∷ [];
  };
}

-- `on_progress` is given the result that already holds the output.
unfoldable pub commit : Message → AgentOutput → Exec Unit
unfolding numbered recorded
commit m output = do
  s ← get
  let o = numbered s.result output
  modify (recorded m o)
  modify (λ t. record t { saved = t.saved ++ t.result ∷ [] })
  emit (agent_done o.agent_id o.round)

-- `result.failed_agents.append(item)`
unfoldable pub add_failed : FailedAgent → Run → Run
add_failed f s = record s {
  result = record s.result { failed_agents = s.result.failed_agents ++ f ∷ [] };
}
