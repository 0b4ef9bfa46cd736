-- ===== src/Deliberation/Attempts.antt =====
-- `_run_agent` of protoneo/deliberation/patterns.py: one agent's turn, with retries.
pub mod Contract
use protoneo.Prelude.{
  ℕ, zero, suc, ◌+◌, String, Bool, true, false, not, ◌&&◌, Option, some, [], ◌∷◌, ◌++◌, ltb,
  if◌then◌else◌, ◌+s◌, ◌==◌,
}
use protoneo.Json.{Json}
use protoneo.Agents.{Message, AgentOutput, Agent}
use protoneo.Session.Context.{Context}
use protoneo.Deliberation.Types.{
  Mode, round_robin, Rules, FailedAgent, valid, invalid, Policy, Reply, answer, timed_out, raised,
  cancelled, World,
}
use protoneo.Deliberation.Exec.{
  agent_start, prompt_rendered, agent_retry, agent_error, Run, cancelled_error, ok, err, Exec, pure,
  throw, ◌>>=◌, ◌>>◌, modify, emit,
}

-- A turn ends in an accepted answer, or in the dictionary that describes the failure.
pub data Item : Type 0 where
  accepted : Message → AgentOutput → Item
  failure : FailedAgent → Item

abbrev pub is_round_robin : Mode → Bool
is_round_robin round_robin = true
is_round_robin _ = false

-- What one attempt comes to: the body of the `try`, with its `except Exception`.
pub data Outcome : Type 0 where
  good : String → Option Json → Outcome
  bad : String → Outcome
  stopped : Outcome

module _ (world : World) (policy : Policy) (rules : Rules) (agent : Agent) where
  unfoldable pub judge : String → Mode → Context → Reply → Outcome
  judge phase mode context (answer content) =
      elim (policy.validate_output content phase mode agent context) [
        | valid structured ↦ good content structured
        | invalid e ↦ bad (world.sanitize e)
      ]
  judge phase mode context timed_out = bad ("No valid response within " +s rules.timeout +s "s")
  judge phase mode context (raised e) = bad (world.sanitize e)
  judge phase mode context cancelled = stopped

  -- `await before_turn()`
  unfoldable pub before_turn : Exec Unit
  before_turn s = if world.interrupts s.calls then (err cancelled_error, s) else (ok tt, s)

  -- `await agent.process(...)`
  unfoldable pub ask : String → Exec Reply
  ask prompt s = (ok (world.reply agent prompt s.calls), record s { calls = s.calls + 1 })

  abbrev pub extra_for : String → Mode → String
  extra_for phase mode = policy.instructions phase mode

  -- `if extra and result.mode != "round_robin": prompt += "\n\n" + extra`
  unfoldable pub first_prompt : String → String → Mode → String
  first_prompt content phase mode =
      let extra = extra_for phase mode in
      if not (extra == "") && not (is_round_robin mode) then content +s "\n\n" +s extra else content

  unfoldable pub retry_prompt : String → String → Mode → String → String
  retry_prompt content phase mode error =
      let extra = extra_for phase mode in
      content
      +s (if extra == "" then "" else "\n\n" +s extra)
      +s "\n\nYour previous response could not be accepted: "
      +s error
      +s ". Return a complete answer satisfying the output contract."

  -- `if attempt < rules.max_attempts: on_event("agent_retry", ...)`
  unfoldable pub noted : ℕ → String → Run → Run
  noted attempt e s =
      if ltb attempt rules.max_attempts
      then record s { events = s.events ++ agent_retry agent.agent_id (attempt + 1) e ∷ [] }
      else s

  unfoldable pub failed_agent : ℕ → String → FailedAgent
  failed_agent round error = record {
    agent_id = agent.agent_id;
    role = agent.role;
    model = agent.model;
    round = round;
    error = error;
  }

  -- The response and the output of an accepted answer.
  unfoldable pub publish : String → ℕ → ℕ → String → Option Json → Item
  publish phase attempt round content structured =
      accepted
        (record {
          role = "assistant";
          content = content;
          agent_id = some agent.agent_id;
          round = round;
        })
        (record {
          agent_id = agent.agent_id;
          agent_role = agent.role;
          content = content;
          structured = structured;
          phase = phase;
          attempts = attempt;
          round = round;
          deliberation_turn = 0;
        })

  module _ (content : String) (round : ℕ) (phase : String) (mode : Mode) (context : Context) where
    -- One attempt: its call of the model, and what that comes to.
    unfoldable pub attempt_once : (attempt : ℕ) (prompt : String) → Exec Outcome
    unfolding before_turn ask
    attempt_once attempt prompt = do
      before_turn
      emit (agent_start agent.agent_id attempt)
      emit (prompt_rendered agent.agent_id prompt)
      reply ← ask prompt
      pure (judge phase mode context reply)

    -- How an attempt ends the loop, or goes on by `retry`.
    unfoldable pub conclude : (retry : String → Exec Item) (attempt : ℕ) → Outcome → Exec Item
    unfolding noted publish
    conclude retry attempt (good text structured) =
        pure (publish phase attempt round text structured)
    conclude retry attempt stopped = throw cancelled_error
    conclude retry attempt (bad e) = do modify (noted attempt e); retry e

    -- The loop over attempts: `left` are still to be made, the next has number `attempt`.
    unfoldable pub attempts_from : (left attempt : ℕ) (prompt error : String) → Exec Item
    unfolding failed_agent
    attempts_from zero attempt prompt error = do
      let failed = failed_agent round error
      emit (agent_error failed)
      pure (failure failed)
    attempts_from (suc left) attempt prompt error = do
      outcome ← attempt_once attempt prompt
      conclude
          (λ e.
            attempts_from left (attempt + 1)
              (if ltb attempt rules.max_attempts then retry_prompt content phase mode e else prompt)
              e)
          attempt outcome

    unfoldable pub run_agent : Exec Item
    unfolding attempts_from first_prompt
    run_agent = attempts_from rules.max_attempts 1 (first_prompt content phase mode) ""
