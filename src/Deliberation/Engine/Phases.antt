-- ===== src/Deliberation/Engine/Phases.antt =====
-- The loop of `DeliberationEngine.run` in protoneo/deliberation/engine.py over the phases, and the
-- whole method.
use protoneo.Prelude.{
  String, Bool, ◌&&◌, Option, none, some, List, [], ◌∷◌, ◌=ℕ◌, if◌then◌else◌, length, ◌==◌, one_of,
}
use protoneo.Agents.{Agent}
use protoneo.Deliberation.Types.{
  Mode, parallel, sequential, round_robin, Rules, PhaseResult, Policy, World,
}
use protoneo.Deliberation.Exec.{Run, Result, ok, err, Exec}
use protoneo.Deliberation.Sequential.{sequential_execute}
use protoneo.Deliberation.RoundRobin.{round_robin_execute}
use protoneo.Deliberation.Parallel.{parallel_execute}
use protoneo.Deliberation.Config.{
  PhaseConfig, DeliberationConfig, ConfigFault, validate_config, participants,
}
use protoneo.Deliberation.Job.{
  invalid_config, already_executing, session_missing, no_participants, no_previous_output,
  raised_by_pattern, Session, Job, Try, fine, fault, next,
}
use protoneo.Deliberation.Engine.{
  saved_phase, phase_or_new, is_discussion, in_discussion, Prompted, prompted, unprompted,
  select_prompt, absorbed, settle_phase, open_phase, close_phase, conclude_run, close_failed,
  guarded, restored_report, started, released,
}

module _ (world : World) (policy : Policy) (schedule : List Agent → List Agent)
    (agents : List Agent) (config : DeliberationConfig) (message : String) where
  abbrev pub rules_of : PhaseConfig → Rules
  rules_of c = record {
    max_rounds = c.max_rounds;
    timeout = c.timeout;
    visibility = c.visibility;
    max_concurrency = config.max_concurrency;
    max_attempts = config.max_attempts;
  }

  unfoldable pub run_pattern : PhaseConfig → Mode → List Agent → String → Exec Unit
  unfolding round_robin_execute parallel_execute sequential_execute
  run_pattern c round_robin ordered prompt =
      round_robin_execute world policy (rules_of c) prompt ordered
  run_pattern c parallel ordered prompt =
      parallel_execute world policy (rules_of c) schedule ordered prompt
  run_pattern c sequential ordered prompt =
      sequential_execute world policy (rules_of c) ordered prompt

  abbrev pub after_pattern :
      PhaseConfig → List PhaseResult → Result (Unit {0}) × Run → Job → Try × Job
  after_pattern c prior (ok _, u) j = settle_phase c u.result (absorbed prior u j)
  after_pattern c prior (err e, u) j = (fault (raised_by_pattern e), absorbed prior u j)

  abbrev pub with_prompt :
      PhaseConfig → List PhaseResult → PhaseResult → List Agent → Prompted → Job → Try × Job
  with_prompt c prior p ordered unprompted j = (fault (no_previous_output p.phase_name), j)
  with_prompt c prior p ordered (prompted prompt) j =
      after_pattern c prior
        (run_pattern c p.mode ordered prompt (record {
          calls = j.calls;
          events = j.events;
          context = j.context;
          result = p;
          saved = [];
        }))
        j

  -- A phase that is not completed.
  unfoldable pub execute_phase : PhaseConfig → List PhaseResult → PhaseResult → Job → Try × Job
  unfolding participants in_discussion select_prompt run_pattern absorbed settle_phase
  execute_phase c prior p j =
      let ordered =
        in_discussion (config.pattern == "independent_synthesis" && is_discussion p.mode)
          j.independent (participants agents c.agents) in
      if length ordered =ℕ 0
      then (fault (no_participants p.phase_name), j)
      else with_prompt c prior p ordered
          (select_prompt policy config.pattern c p.mode prior message) j

  unfoldable pub visit_phase : (restored : List PhaseResult) → PhaseConfig → Job → Try × Job
  unfolding saved_phase open_phase execute_phase close_phase
  visit_phase restored c j =
      let p = phase_or_new c (saved_phase c.name restored) in
      let is_done = one_of j.report.completed_phases p.phase_name in
      let h = open_phase p is_done j in
      next (if is_done then (fine, h) else execute_phase c j.report.phases p h)
        (λ k. (fine, close_phase p k))

  unfoldable pub visit_phases : (restored : List PhaseResult) → List PhaseConfig → Job → Try × Job
  unfolding visit_phase
  visit_phases restored [] j = (fine, j)
  visit_phases restored (c ∷ cs) j = next (visit_phase restored c j) (visit_phases restored cs)

  unfoldable pub run_session :
      (resume finalize : Bool) (fingerprint : String) → Session → Job → Try × Job
  unfolding restored_report visit_phases conclude_run close_failed
  run_session resume finalize fingerprint s j =
      let r = restored_report resume fingerprint s in
      guarded (
        next (visit_phases r.phases config.phases (started fingerprint r j))
          (conclude_run finalize))

  abbrev pub run_stored :
      (resume finalize : Bool) (fingerprint : String) → Option Session → Job → Try × Job
  run_stored resume finalize fingerprint none j = (fault session_missing, j)
  run_stored resume finalize fingerprint (some s) j = run_session resume finalize fingerprint s j

  abbrev pub run_valid :
      Option ConfigFault → (id fingerprint : String) (resume finalize : Bool) → Job → Try × Job
  run_valid (some f) id fingerprint resume finalize j = (fault (invalid_config f), j)
  run_valid none id fingerprint resume finalize j =
      if one_of j.active id
      then (fault already_executing, j)
      else released id
          (run_stored resume finalize fingerprint j.stored (record j { active = id ∷ j.active }))

  -- DeliberationEngine.run
  unfoldable pub run :
      (is_blank : String → Bool) (id fingerprint : String) (resume finalize : Bool)
      → Job
      → Try × Job
  unfolding validate_config run_session
  run is_blank id fingerprint resume finalize j =
      run_valid (validate_config is_blank agents config) id fingerprint resume finalize j
