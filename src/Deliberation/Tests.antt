-- ===== src/Deliberation/Tests.antt =====
-- Small phases of protoneo/deliberation, and the theorems at them.
use protoneo.Prelude.{
  ℕ, String, ◌≡◌, refl, false, ◌&&◌, none, List, [], ◌∷◌, map, arith, ◌=ℕ◌, if◌then◌else◌, ◌==◌,
}
use protoneo.Agents.{AgentOutput, Agent}
use protoneo.Session.Context.{new, append_under, add_message, add_output}
use protoneo.Deliberation.Types.{
  Mode, sequential, round_robin, opened, Rules, valid, invalid, Policy, answer, World,
}
use protoneo.Deliberation.Exec.{Run}
use protoneo.Deliberation.Attempts.{judge, attempt_once, conclude, run_agent}
use protoneo.Deliberation.Attempts.Contract.{Good, run_agent-Good}
use protoneo.Deliberation.Sequential.{last_by, visit, sequential_from, sequential_execute}
use protoneo.Deliberation.Sequential.Pipeline.{Piped, sequential_execute-Piped}
use protoneo.Deliberation.RoundRobin.{prefix_rounds, turn, round_robin_execute}
use protoneo.Deliberation.RoundRobin.Schedule.{schedule, leading}
use protoneo.Deliberation.RoundRobin.Rotation.{DistinctIds}
use protoneo.Deliberation.RoundRobin.Talked.{Leaves}
use protoneo.Deliberation.RoundRobin.Discussion.{opening, round_robin_execute-Leaves}

abbrev pub ada : Agent
ada = record { agent_id = "ada"; role = "Reviewer"; model = "m1"; system_prompt = "Review." }

abbrev pub ben : Agent
ben = record { agent_id = "ben"; role = "Critic"; model = "m2"; system_prompt = "Criticise." }

-- Answers are accepted unless they are empty.
abbrev pub policy : Policy
policy = record {
  instructions = λ phase mode. "";
  validate_output =
      λ content phase mode agent context. if content == "" then invalid "empty" else valid none;
  discussion_prompt = λ agent context source phase number blind. source;
  synthesis_prompt = λ source outputs failures. source;
}

-- Ben's first answer is empty.
abbrev pub world : World
world = record {
  reply = λ agent prompt n. if agent.agent_id == "ben" && n =ℕ 1 then answer "" else answer "fine";
  interrupts = λ n. false;
  sanitize = λ e. e;
}

abbrev pub rules : ℕ → Rules
rules n = record {
  max_rounds = n;
  timeout = "600";
  visibility = opened;
  max_concurrency = 4;
  max_attempts = 2;
}

abbrev pub start : Mode → List AgentOutput → Run
start mode outputs = record {
  calls = 0;
  events = [];
  context = new "s1";
  result = record {
    phase_name = "p";
    mode = mode;
    outputs = outputs;
    messages = [];
    failed_agents = [];
  };
  saved = [];
}

abbrev pub said : Agent → ℕ → ℕ → AgentOutput
said agent number turn = record {
  agent_id = agent.agent_id;
  agent_role = agent.role;
  content = "fine";
  structured = none;
  phase = "p";
  attempts = 1;
  round = number;
  deliberation_turn = turn;
}

abbrev authors : Run → List String
authors s = map (λ o. o.agent_id) s.result.outputs

program : Unit {0}
unfolding run_agent attempt_once conclude judge sequential_execute sequential_from visit
    round_robin_execute append_under add_output add_message
program = tt

retries_once :
    ((run_agent world policy
        (rules 0)
        ben
        "go"
        0
        "p"
        sequential
        (new "s1")
        (record (start sequential []) { calls = 1 })).1.calls
      ≡ 3)
unfolding program
retries_once = refl

pipeline_runs :
    authors
      (sequential_execute world policy (rules 0) (ada ∷ ben ∷ []) "go" (start sequential [])).1
    ≡ "ada" ∷ "ben" ∷ []
unfolding program
pipeline_runs = refl

-- The second round begins with Ben.
discussion_runs :
    authors
      (round_robin_execute world policy (rules 2) "text" (ada ∷ ben ∷ []) (start round_robin [])).1
    ≡ "ada" ∷ "ben" ∷ "ben" ∷ "ada" ∷ []
unfolding program
discussion_runs = refl

-- Ben's saved turn of round 1 is dropped, since Ada's is missing.
gap_ends_prefix : prefix_rounds (said ben 1 2 ∷ []) (ada ∷ ben ∷ []) 2 1 ≡ []
unfolding program
gap_ends_prefix = refl

abbrev pub both : List Agent
both = ada ∷ ben ∷ []

both-DistinctIds : DistinctIds both
both-DistinctIds = ((refl, tt), (tt, tt))

run_agent-Good_example :
    Good world policy
      (rules 0)
      ben
      "go"
      0
      "p"
      sequential
      (new "s1")
      1
      (start sequential [])
      (run_agent world policy (rules 0) ben "go" 0 "p" sequential (new "s1") (start sequential []))
run_agent-Good_example =
    run_agent-Good world policy (rules 0) ben "go" 0 "p" sequential (new "s1") (start sequential [])

sequential_execute-Piped_example :
    Piped world policy
      (rules 0)
      (ben ∷ [])
      (start sequential (said ada 0 0 ∷ []))
      (sequential_execute world policy (rules 0) both "go" (start sequential (said ada 0 0 ∷ []))).0
      (sequential_execute world policy (rules 0) both "go" (start sequential (said ada 0 0 ∷ []))).1
unfolding last_by
sequential_execute-Piped_example =
    sequential_execute-Piped world policy (rules 0) both "go" (start sequential (said ada 0 0 ∷ []))

round_robin_execute-Leaves_example :
    Leaves world policy
      (rules 2)
      "text"
      (leading (said ada 1 1 ∷ []) (schedule both 2 1))
      (schedule both 2 1)
      (opening world policy (rules 2) "text" both (start round_robin (said ada 1 1 ∷ [])))
      (round_robin_execute world policy
        (rules 2)
        "text"
        both
        (start round_robin (said ada 1 1 ∷ []))).0
      (round_robin_execute world policy
        (rules 2)
        "text"
        both
        (start round_robin (said ada 1 1 ∷ []))).1
round_robin_execute-Leaves_example =
    round_robin_execute-Leaves world policy (rules 2) "text" both
      (start round_robin (said ada 1 1 ∷ [])) both-DistinctIds (omega arith)
