-- ===== src/Api/Tasks.antt =====
-- start_session_task of protoneo/api/tasks.py: how the task of a session ends. The sessions' storage
-- never suspends, so that what follows the pipeline's own coroutine is one step. A control is known by
-- a number, its identity.
pub mod Controls
pub mod Endings
pub mod Writes
pub mod Owners
mod Tests
use protoneo.Prelude.{
  ℕ, String, Bool, true, false, Option, none, some, List, [], ◌∷◌, ◌++◌, ◌=ℕ◌, if◌then◌else◌, ◌==◌,
  get_at, put_at,
}
use protoneo.Deliberation.Job.{Status, failed, stopped}

-- An entry of `session.pipeline_steps`, which counts where it is a dictionary.
pub data StepEntry : Type 0 where
  details : (status : String) (error : Option String) → StepEntry
  other_value : StepEntry

pub record TaskSession : Type 0 where
  pub status : Status
  pub error : Option String
  pub pipeline_steps : List (String × StepEntry)

pub data Event : Type 0 where
  pipeline_cancelled : Event
  error_event : (detail : String) → Event

-- The stored sessions, the controls by session, and the events that tasks emitted, each with the
-- session whose bus got it.
pub record Office : Type 0 where
  pub sessions : List (String × TaskSession)
  pub controls : List (String × ℕ)
  pub events : List (String × Event)

pub record Task : Type 0 where
  pub session_id : String
  pub control : ℕ

-- How the coroutine ends; the error is sanitized.
pub data Outcome : Type 0 where
  returned cancelled : Outcome
  raised : (error : String) → Outcome

-- Whether the storage raises when a session is read, or when it is written.
pub data Storage : Type 0 where
  works unreadable unwritable : Storage

-- `d.pop(key, None)`
unfoldable pub removed_at {ℓ} : {A : Type ℓ} → String → List (String × A) → List (String × A)
removed_at key [] = []
removed_at key ((k, x) ∷ d) =
    let rest = removed_at key d in if k == key then rest else (k, x) ∷ rest

unfoldable pub stopped_session : TaskSession → TaskSession
stopped_session r = record r { status = stopped; error = none }

abbrev pub failed_entry :
    String → Option StepEntry → String → List (String × StepEntry) → List (String × StepEntry)
failed_entry step (some (details status error)) message d =
    put_at step (details "failed" (some message)) d
failed_entry step _ message d = d

unfoldable pub failed_session : (step message : String) → TaskSession → TaskSession
failed_session step message r = record r {
  status = failed;
  error = some message;
  pipeline_steps = failed_entry step (get_at step r.pipeline_steps) message r.pipeline_steps;
}

-- Whether the storage raised, and the state.
abbrev pub written :
    Storage → String → Option TaskSession → (TaskSession → TaskSession) → Office → Bool × Office
written unreadable id found change s = (true, s)
written storage id none change s = (false, s)
written works id (some r) change s =
    (false, record s { sessions = put_at id (change r) s.sessions })
written unwritable id (some r) change s = (true, s)

-- `session = await sessions.get(id)`, its change, and `await sessions.update(session)`
unfoldable pub update_session :
    Storage → String → (TaskSession → TaskSession) → Office → Bool × Office
update_session storage id change s = written storage id (get_at id s.sessions) change s

unfoldable pub emit_event : String → Event → Office → Office
emit_event id e s = record s { events = s.events ++ (id, e) ∷ [] }

abbrev pub is_control : ℕ → Option ℕ → Bool
is_control c (some d) = d =ℕ c
is_control c none = false

-- `if controls.get(session_id) is control: controls.pop(session_id, None)`
unfoldable pub drop_control : Task → Office → Office
drop_control t s =
    if is_control t.control (get_at t.session_id s.controls)
    then record s { controls = removed_at t.session_id s.controls }
    else s

abbrev pub unless_raised : Bool × Office → (Office → Office) → Office
unless_raised (true, s) go = s
unless_raised (false, s) go = go s

module _ (storage : Storage) (t : Task) where
  -- The handlers of `run`; `step` is the control's current step.
  unfoldable pub handle : (step : String) → Outcome → Office → Office
  handle step returned s = s
  handle step cancelled s =
      unless_raised (update_session storage t.session_id stopped_session s)
        (emit_event t.session_id pipeline_cancelled)
  handle step (raised error) s =
      unless_raised (update_session storage t.session_id (failed_session step error) s)
        (emit_event t.session_id (error_event error))

  -- The end of `run`, with its `finally`
  unfoldable pub finish_run : (step : String) → Outcome → Office → Office
  finish_run step outcome s = drop_control t (handle step outcome s)

  -- `finalize`, of a task that was cancelled before it started
  unfoldable pub finalize : Office → Office
  finalize s =
      unless_raised (update_session storage t.session_id stopped_session s)
        (λ s'. emit_event t.session_id pipeline_cancelled (drop_control t s'))

-- `controls[session_id] = control`
unfoldable pub start_session_task : Task → Office → Office
start_session_task t s = record s { controls = put_at t.session_id t.control s.controls }
