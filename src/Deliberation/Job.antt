-- ===== src/Deliberation/Job.antt =====
-- The state of `DeliberationEngine.run` in protoneo/deliberation/engine.py: the session's record, the
-- result that is built, and what the run shares with its phases. Of the record in
-- protoneo/deliberation/session.py it has the fields that the engine writes.
use protoneo.Prelude.{ℕ, String, Bool, false, Option, none, some, List, []}
use protoneo.Agents.{AgentOutput}
use protoneo.Session.Context.{Context}
use protoneo.Deliberation.Types.{PhaseResult}
use protoneo.Deliberation.Exec.{Event, Exception}
use protoneo.Deliberation.Config.{ConfigFault}

pub data Fault : Type 0 where
  invalid_config : ConfigFault → Fault
  already_executing session_missing no_final_output : Fault
  no_participants no_previous_output chain_failed : String → Fault
  too_few : (phase : String) (successful required : ℕ) → Fault
  raised_by_pattern : Exception → Fault

pub data Progress : Type 0 where
  fresh_result in_progress finished stopped_early broken : Progress

-- DeliberationResult, with the entries of its metadata.
pub record Report : Type 0 where
  pub phases : List PhaseResult
  pub completed_phases : List String
  pub execution_fingerprint : String
  pub progress : Progress
  pub fault : Option Fault
  pub final_output : Option AgentOutput
  pub partial : Bool

abbrev pub empty_report : Report
empty_report = record {
  phases = [];
  completed_phases = [];
  execution_fingerprint = "";
  progress = fresh_result;
  fault = none;
  final_output = none;
  partial = false;
}

pub data Status : Type 0 where
  created running completed failed stopped : Status

-- The session's record in the SessionManager.
pub record Session : Type 0 where
  pub status : Status
  pub fault : Option Fault
  pub report : Option Report

-- `active` are the sessions that execute; `independent` is `independent_ids`.
pub record Job : Type 0 where
  pub active : List String
  pub stored : Option Session
  pub context : Context
  pub report : Report
  pub independent : Option (List String)
  pub calls : ℕ
  pub events : List Event

pub data Try : Type 0 where
  fine : Try
  fault : Fault → Try

abbrev pub next : Try × Job → (Job → Try × Job) → Try × Job
next (fine, j) f = f j
next (fault x, j) f = (fault x, j)

abbrev pub map_stored : (Session → Session) → Option Session → Option Session
map_stored f none = none
map_stored f (some s) = some (f s)

abbrev pub change_stored : (Session → Session) → Job → Job
change_stored f j = record j { stored = map_stored f j.stored }

-- `current.result = result`
abbrev pub saves : Report → Session → Session
saves r s = record s { report = some r }

-- The inner function `persist`.
unfoldable pub persist : Job → Job
persist j = change_stored (saves j.report) j
