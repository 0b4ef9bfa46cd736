-- ===== src/Api/Tasks/Tests.antt =====
-- Two sessions, one of them restarted while its first task still ends, by protoneo/api/tasks.py.
use protoneo.Prelude.{
  String, ◌≡◌, refl, true, not, none, some, List, [], ◌∷◌, keep, any, get_at, put_at,
}
use protoneo.Deliberation.Job.{running, failed}
use protoneo.Api.Tasks.{
  details, TaskSession, Office, Task, cancelled, raised, works, unreadable, removed_at,
  stopped_session, failed_session, update_session, emit_event, drop_control, handle, finish_run,
  finalize, start_session_task,
}
use protoneo.Api.Tasks.Owners.{same_task, idle, starts, ends, is_owner, control_owner}
use protoneo.Api.Tasks.Endings.{Settled, finish_run-Settled}

abbrev first : Task
first = record { session_id = "s1"; control = 1 }

abbrev again : Task
again = record { session_id = "s1"; control = 2 }

abbrev other : Task
other = record { session_id = "s2"; control = 3 }

abbrev before : TaskSession
before = record {
  status = running;
  error = none;
  pipeline_steps = ("review", details "running" none) ∷ [];
}

abbrev sessions : List (String × TaskSession)
sessions = ("s1", before) ∷ ("s2", before) ∷ []

abbrev opened : Office
opened = record { sessions = sessions; controls = []; events = [] }

abbrev both : Office
both = start_session_task other (start_session_task first opened)

-- The session and its current step fail.
failed_step :
    get_at "s1" (finish_run works first "review" (raised "timeout") both).sessions
    ≡ some (record {
      status = failed;
      error = some "timeout";
      pipeline_steps = ("review", details "failed" (some "timeout")) ∷ [];
    })
unfolding finish_run handle update_session failed_session emit_event drop_control start_session_task
    removed_at get_at put_at
failed_step = refl

-- The control of the restarted session stays.
restarted :
    (finish_run works first "review" cancelled (start_session_task again both)).controls
    ≡ ("s1", 2) ∷ ("s2", 3) ∷ []
unfolding finish_run handle update_session stopped_session emit_event drop_control
    start_session_task removed_at get_at put_at
restarted = refl

-- Where the session cannot be read, `finalize` keeps the control.
unreadable_finalize : finalize unreadable first both ≡ both
unfolding finalize update_session
unreadable_finalize = refl

finish_run-Settled_example :
    Settled first "review"
      (raised "timeout")
      both
      (finish_run works first "review" (raised "timeout") both)
finish_run-Settled_example = finish_run-Settled first "review" (raised "timeout") both

control_owner_example :
    any (is_owner "s2" 3) (keep (λ u. not (same_task first u)) (other ∷ first ∷ [])) ≡ true
unfolding finish_run handle update_session stopped_session emit_event drop_control
    start_session_task removed_at get_at put_at
control_owner_example =
    control_owner
      (ends works first "review" cancelled (starts other (starts first (idle sessions)))) "s2" 3
      refl
