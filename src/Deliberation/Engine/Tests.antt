-- ===== src/Deliberation/Engine/Tests.antt =====
-- Small runs of the engine in protoneo/deliberation/engine.py and of the parallel pattern, and the
-- theorems at them.
use protoneo.Prelude.{
  String, ◌≡◌, refl, Bool, true, false, Option, none, some, List, [], ◌∷◌, ◌++◌, map, All, ◌==◌,
}
use protoneo.Agents.{AgentOutput, Agent}
use protoneo.Session.Context.{new, append_under, add_message, add_output, clear_deliberation}
use protoneo.Deliberation.Types.{Mode, parallel, sequential, opened, PhaseResult}
use protoneo.Deliberation.Attempts.{judge, attempt_once, conclude, run_agent}
use protoneo.Deliberation.Sequential.{visit, sequential_from, sequential_execute}
use protoneo.Deliberation.Config.{PhaseConfig, DeliberationConfig, validate_config}
use protoneo.Deliberation.Config.Participants.{Ready, validate_config-Ready}
use protoneo.Deliberation.Parallel.{insert_by, to_run, parallel_execute}
use protoneo.Deliberation.Parallel.Gathered.{Leaves, parallel_execute-Leaves}
use protoneo.Deliberation.Job.{Report, empty_report, created, Session, Job, Try}
use protoneo.Deliberation.Engine.Phases.{run_session, run}
use protoneo.Deliberation.Engine.Closing.{Closed, run-Closed}
use protoneo.Deliberation.Engine.Resume.{run_session-resumes}
use protoneo.Deliberation.Tests.{ada, ben, policy, world, rules, start, said, both}

-- The tasks complete in the opposite order.
abbrev backwards : List Agent → List Agent
backwards [] = []
backwards (a ∷ agents) = backwards agents ++ a ∷ []

abbrev independent_phase : PhaseConfig
independent_phase = record {
  name = "independent";
  mode = parallel;
  agents = "ada" ∷ "ben" ∷ [];
  max_rounds = 1;
  visibility = opened;
  input = none;
  min_successful_agents = 1;
  timeout = "600";
}

abbrev synthesis_phase : PhaseConfig
synthesis_phase = record independent_phase {
  name = "synthesis";
  mode = sequential;
  agents = "ada" ∷ [];
}

abbrev config : DeliberationConfig
config = record {
  pattern = "independent_synthesis";
  phases = independent_phase ∷ synthesis_phase ∷ [];
  max_concurrency = 4;
  max_attempts = 2;
}

abbrev is_empty : String → Bool
is_empty s = s == ""

abbrev session : Session
session = record { status = created; fault = none; report = none }

abbrev idle : Option Session → Job
idle s = record {
  active = [];
  stored = s;
  context = new "s1";
  report = empty_report;
  independent = none;
  calls = 0;
  events = [];
}

abbrev engine : Bool → Job → Try × Job
engine resume j = run world policy backwards both config "text" is_empty "s1" "f" resume true j

abbrev saved_result : Mode → String → Agent → PhaseResult
saved_result mode name agent = record {
  phase_name = name;
  mode = mode;
  outputs = said agent 0 0 ∷ [];
  messages = [];
  failed_agents = [];
}

abbrev saved_report : Report
saved_report = record empty_report {
  execution_fingerprint = "f";
  completed_phases = "independent" ∷ "synthesis" ∷ [];
  phases = saved_result parallel "independent" ada ∷ saved_result sequential "synthesis" ben ∷ [];
}

abbrev saved_session : Session
saved_session = record session { report = some saved_report }

program : Unit {0}
unfolding run append_under add_output add_message clear_deliberation run_agent sequential_execute
program = tt

abbrev outputs_of : Try × Job → List (List String)
outputs_of (t, j) =
    map (λ (p : PhaseResult). map (λ (o : AgentOutput). o.agent_id) p.outputs) j.report.phases

-- Ben completes first, and stands second all the same.
engine_runs :
    outputs_of (engine false (idle (some session))) ≡ ("ada" ∷ "ben" ∷ []) ∷ ("ada" ∷ []) ∷ []
unfolding program attempt_once conclude judge insert_by sequential_from visit
engine_runs = refl

parallel_execute-Leaves_example :
    Leaves world policy
      (rules 0)
      both
      (backwards (to_run world policy (rules 0) both (start parallel []).result))
      (start parallel [])
      (parallel_execute world policy (rules 0) backwards both "go" (start parallel [])).0
      (parallel_execute world policy (rules 0) backwards both "go" (start parallel [])).1
parallel_execute-Leaves_example =
    parallel_execute-Leaves world policy (rules 0) backwards both "go" (start parallel [])

accepted_config : validate_config is_empty both config ≡ none
unfolding validate_config
accepted_config = refl

validate_config-Ready_example : All (Ready both) config.phases
validate_config-Ready_example = validate_config-Ready is_empty both config accepted_config

run-Closed_example : Closed true [] (engine false (idle (some session)))
run-Closed_example =
    run-Closed world policy backwards both config "text" is_empty "s1" "f" false true
      (idle (some session)) accepted_config refl refl

run_session-resumes_example :
    let l =
      (run_session world policy backwards both config "text" true true "f" saved_session
        (idle (some saved_session))).1 in
    (l.calls ≡ 0) × (l.report.phases ≡ saved_report.phases)
run_session-resumes_example =
    run_session-resumes world policy backwards both config "text" true "f" saved_session
      saved_report (idle (some saved_session)) refl refl refl refl ((refl, tt), (tt, tt))
