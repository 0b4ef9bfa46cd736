-- ===== src/Deliberation/Engine.antt =====
-- `DeliberationEngine.run` of protoneo/deliberation/engine.py: the phases of a session, from the
-- checkpoint that an earlier run with the same fingerprint left, or from the start. Other writers of
-- the session's record, times and costs are left out; an error is kept as a value, not as its text.
pub mod Phases
pub mod Steady
pub mod Closing
pub mod Saved
pub mod Resume
mod Tests
use protoneo.Prelude.{
  String, Bool, true, false, not, ◌&&◌, ◌||◌, Option, none, some, List, [], ◌∷◌, ◌++◌, foldl, ltb,
  ◌=ℕ◌, if◌then◌else◌, length, keep, any, concat_map, get_last?, ◌==◌, one_of,
}
use protoneo.Agents.{AgentOutput, Agent}
use protoneo.Session.Context.{Context, add_message, add_output, clear_deliberation}
use protoneo.Deliberation.Types.{Mode, parallel, sequential, round_robin, PhaseResult, Policy}
use protoneo.Deliberation.Exec.{phase_start, phase_complete, Run, cancelled_error}
use protoneo.Deliberation.Config.{PhaseConfig}
use protoneo.Deliberation.Job.{
  Fault, no_final_output, chain_failed, too_few, raised_by_pattern, in_progress, finished,
  stopped_early, broken, Report, empty_report, running, completed, failed, stopped, Session, Job,
  Try, fine, fault, change_stored, persist,
}

-- `{p.phase_name: p for p in phases}.get(name)`
unfoldable pub saved_phase : String → List PhaseResult → Option PhaseResult
saved_phase name ps = get_last? (keep (λ p. p.phase_name == name) ps)

abbrev pub phase_or_new : PhaseConfig → Option PhaseResult → PhaseResult
phase_or_new c (some p) = p
phase_or_new c none = record {
  phase_name = c.name;
  mode = c.mode;
  outputs = [];
  messages = [];
  failed_agents = [];
}

abbrev pub is_discussion : Mode → Bool
is_discussion round_robin = true
is_discussion _ = false

abbrev pub is_pipeline : Mode → Bool
is_pipeline sequential = true
is_pipeline _ = false

abbrev pub is_independent : Mode → Bool
is_independent parallel = true
is_independent _ = false

-- What a phase that was saved says is put into the context.
unfoldable pub hydrate : PhaseResult → Context → Context
hydrate p c = foldl (λ d o. add_output o d) (foldl (λ d m. add_message m d) c p.messages) p.outputs

-- `{o.agent_id for o in outputs}`
unfoldable pub author_ids : List AgentOutput → List String
author_ids [] = []
author_ids (o ∷ os) =
    let rest = author_ids os in if one_of rest o.agent_id then rest else o.agent_id ∷ rest

-- Of a synthesis, the discussion is among those who gave an independent answer.
unfoldable pub in_discussion : Bool → Option (List String) → List Agent → List Agent
in_discussion true (some ids) agents = keep (λ a. one_of ids a.agent_id) agents
in_discussion true none agents = agents
in_discussion false ids agents = agents

pub data Prompted : Type 0 where
  prompted : String → Prompted
  unprompted : Prompted

abbrev pub content_of : Option AgentOutput → Prompted
content_of none = unprompted
content_of (some o) = prompted o.content

abbrev pub selector_of : Option String → String
selector_of none = ""
selector_of (some s) = s

abbrev pub is_unset : Option String → Bool
is_unset none = true
is_unset (some s) = false

-- `selector == "all_prior_outputs" or (selector is None and ...)`
unfoldable pub takes_all : (pattern : String) → PhaseConfig → Mode → (any_output : Bool) → Bool
takes_all pattern c mode any_output =
    selector_of c.input == "all_prior_outputs"
    || is_unset c.input && is_pipeline mode && any_output && pattern == "independent_synthesis"

-- `selector == "previous_output" or (selector is None and ...)`
unfoldable pub takes_last : (pattern : String) → PhaseConfig → (any_output : Bool) → Bool
takes_last pattern c any_output =
    selector_of c.input == "previous_output"
    || is_unset c.input && pattern == "sequential" && any_output

-- What the selector makes of the outputs of the earlier phases.
unfoldable pub select_prompt :
    Policy
    → (pattern : String) → PhaseConfig
    → Mode
    → (prior : List PhaseResult) → String
    → Prompted
unfolding takes_all takes_last
select_prompt policy pattern c mode prior message =
    let outputs = concat_map (λ (p : PhaseResult). p.outputs) prior in
    let any_output = not (length outputs =ℕ 0) in
    if takes_all pattern c mode any_output
    then prompted (
        policy.synthesis_prompt message outputs
          (concat_map (λ (p : PhaseResult). p.failed_agents) prior))
    else if takes_last pattern c any_output
    then content_of (get_last? outputs)
    else prompted message

-- The last of the checkpoints that a phase made stands.
abbrev pub checkpoint : List PhaseResult → Option PhaseResult → Job → Job
checkpoint prior none j = j
checkpoint prior (some p) j =
    change_stored (λ s. record s { report = some (record j.report { phases = prior ++ p ∷ [] }) }) j

-- What a pattern left, with `on_progress=persist`.
unfoldable pub absorbed : List PhaseResult → Run → Job → Job
absorbed prior u j = checkpoint prior (get_last? u.saved) (record j {
  context = u.context;
  calls = u.calls;
  events = u.events;
  report = record j.report { phases = prior ++ u.result ∷ [] };
})

-- What follows a pattern that has returned.
unfoldable pub settle_phase : PhaseConfig → PhaseResult → Job → Try × Job
unfolding persist author_ids
settle_phase c p j =
    let disabled = is_discussion p.mode && c.max_rounds =ℕ 0 in
    let successful = length (author_ids p.outputs) in
    if not disabled && ltb successful c.min_successful_agents
    then (fault (too_few p.phase_name successful c.min_successful_agents), persist j)
    else if is_pipeline p.mode && not (length p.failed_agents =ℕ 0)
    then (fault (chain_failed p.phase_name), j)
    else (
      fine,
      persist (record j {
        report = record j.report {
          completed_phases = j.report.completed_phases ++ p.phase_name ∷ [];
        };
      }),
    )

-- The phase as the loop finds it: restored or new, shown to the context, announced.
unfoldable pub open_phase : PhaseResult → Bool → Job → Job
unfolding hydrate
open_phase p is_done j = record j {
  report = record j.report { phases = j.report.phases ++ p ∷ [] };
  context = if not (is_discussion p.mode) || is_done then hydrate p j.context else j.context;
  events = j.events ++ phase_start p.phase_name is_done ∷ [];
}

abbrev pub last_outputs : List PhaseResult → List AgentOutput
last_outputs ps = elim (get_last? ps) [ none ↦ [] | some p ↦ p.outputs ]

-- The end of a phase's turn of the loop.
unfoldable pub close_phase : PhaseResult → Job → Job
unfolding author_ids
close_phase p j =
    let outputs = last_outputs j.report.phases in
    record j {
      independent = elim j.independent [
        | some ids ↦ some ids
        | none ↦ if is_independent p.mode then some (author_ids outputs) else none
      ];
      events = j.events ++ phase_complete p.phase_name (length outputs) ∷ [];
    }

-- `next((p.outputs[-1] for p in reversed(phases) if p.outputs), None)`
unfoldable pub final_of : List PhaseResult → Option AgentOutput
final_of [] = none
final_of (p ∷ ps) = elim (final_of ps) [ some o ↦ some o | none ↦ get_last? p.outputs ]

abbrev pub completes : (finalize : Bool) → Session → Session
completes finalize s = record s { status = if finalize then completed else running }

unfoldable pub final_report : AgentOutput → Report → Report
final_report o r = record r {
  final_output = some o;
  progress = finished;
  partial = any (λ (p : PhaseResult). not (length p.failed_agents =ℕ 0)) r.phases;
}

unfoldable pub conclude_with : (finalize : Bool) → Option AgentOutput → Job → Try × Job
unfolding persist final_report
conclude_with finalize none j = (fault no_final_output, j)
conclude_with finalize (some o) j = (
  fine,
  change_stored (completes finalize) (persist (record j { report = final_report o j.report })),
)

unfoldable pub conclude_run : (finalize : Bool) → Job → Try × Job
unfolding final_of conclude_with
conclude_run finalize j = conclude_with finalize (final_of j.report.phases) j

abbrev pub is_cancelled : Fault → Bool
is_cancelled (raised_by_pattern cancelled_error) = true
is_cancelled _ = false

abbrev pub fails_with : Fault → Session → Session
fails_with f s = record s {
  status = if is_cancelled f then stopped else failed;
  fault = if is_cancelled f then none else some f;
}

unfoldable pub failed_report : Fault → Report → Report
failed_report f r = record r {
  progress = if is_cancelled f then stopped_early else broken;
  fault = some f;
}

-- `except BaseException`
unfoldable pub close_failed : Fault → Job → Job
unfolding persist failed_report
close_failed f j =
    change_stored (fails_with f) (persist (record j { report = failed_report f j.report }))

abbrev pub guarded : Try × Job → Try × Job
guarded (fine, j) = (fine, j)
guarded (fault f, j) = (fault f, close_failed f j)

-- The report that the run starts from.
unfoldable pub restored_report : (resume : Bool) (fingerprint : String) → Session → Report
restored_report resume fingerprint s = elim s.report [
  | none ↦ empty_report
  | some r ↦
      if resume && r.execution_fingerprint == fingerprint
      then record r { final_output = none }
      else empty_report
]

abbrev pub started : String → Report → Job → Job
started fingerprint r j =
    change_stored (λ s. record s { status = running; fault = none })
      (record j {
        context = clear_deliberation j.context;
        independent = none;
        report = record r {
          phases = [];
          execution_fingerprint = fingerprint;
          progress = in_progress;
          fault = none;
        };
      })

-- `self._active.discard(session_id)`
abbrev pub released : String → Try × Job → Try × Job
released id (t, j) = (t, record j { active = keep (λ x. not (x == id)) j.active })
