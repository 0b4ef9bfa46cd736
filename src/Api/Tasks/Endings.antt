-- ===== src/Api/Tasks/Endings.antt =====
-- What the end of a task of protoneo/api/tasks.py leaves.
use protoneo.Prelude.{
  ℕ, String, ◌≡◌, refl, sym, ap, ◌∙◌, inl, inr, Bool, true, false, ◌&&◌, Option, none, some, List,
  ◌++◌, arith, ◌=ℕ◌, if◌then◌else◌, Bool-cases, ◌==◌, eq_iff, get_at, get_at-put_at,
}
use protoneo.Deliberation.Job.{Status, failed, stopped}
use protoneo.Api.Tasks.{
  StepEntry, details, other_value, TaskSession, Event, pipeline_cancelled, Office, Task, Outcome,
  returned, cancelled, raised, works, stopped_session, failed_entry, failed_session, written,
  update_session, emit_event, is_control, drop_control, handle, finish_run, finalize,
}
use protoneo.Api.Tasks.Controls.{handle-controls, get_at-drop_control, works_always}
use protoneo.Api.Tasks.Writes.{
  marked, told, changed_by, drop_control-rest, handle-sessions, handle-events,
}

-- What a session shows of an outcome: its status and its error, where the outcome sets them, and of
-- its steps the current one, where it is a dictionary.
abbrev pub status_of : Option TaskSession → Option Status
status_of none = none
status_of (some r) = some r.status

abbrev pub error_of : Option TaskSession → Option (Option String)
error_of none = none
error_of (some r) = some r.error

abbrev pub entry_of : (step : String) → Option TaskSession → Option StepEntry
entry_of step none = none
entry_of step (some r) = get_at step r.pipeline_steps

abbrev pub status_after : Outcome → Option Status → Option Status
status_after cancelled (some status) = some stopped
status_after (raised error) (some status) = some failed
status_after _ status = status

abbrev pub error_after : Outcome → Option (Option String) → Option (Option String)
error_after cancelled (some old) = some none
error_after (raised error) (some old) = some (some error)
error_after _ old = old

abbrev pub entry_after : Outcome → Option StepEntry → Option StepEntry
entry_after (raised error) (some (details status old)) = some (details "failed" (some error))
entry_after _ entry = entry

abbrev pub is_own : ℕ → Option ℕ → Bool
is_own control none = false
is_own control (some held) = held =ℕ control

module _ (t : Task) (step : String) (outcome : Outcome) (s after : Office) where
  pub record Settled : Type 0 where
    pub statuses :
        (id : String)
        → status_of (get_at id after.sessions) ≡ (
            if t.session_id == id
            then status_after outcome (status_of (get_at id s.sessions))
            else status_of (get_at id s.sessions))
    pub errors :
        (id : String)
        → error_of (get_at id after.sessions) ≡ (
            if t.session_id == id
            then error_after outcome (error_of (get_at id s.sessions))
            else error_of (get_at id s.sessions))
    pub steps :
        (id other : String)
        → entry_of other (get_at id after.sessions) ≡ (
            if t.session_id == id
            then (if step == other
                then entry_after outcome (entry_of other (get_at id s.sessions))
                else entry_of other (get_at id s.sessions))
            else entry_of other (get_at id s.sessions))
    pub released :
        (id : String)
        → get_at id after.controls ≡ (
            if t.session_id == id && is_own t.control (get_at id s.controls)
            then none
            else get_at id s.controls)
    pub announced : after.events ≡ s.events ++ told t.session_id outcome

is_own-is_control : (control : ℕ) (held : Option ℕ) → is_control control held ≡ is_own control held
is_own-is_control control none = refl
is_own-is_control control (some held) = refl

if_shown :
    {B : Type 0} (show : Option TaskSession → B) (b : Bool) (x y : Option TaskSession) (z : B)
    → show x ≡ z
    → show (if b then x else y) ≡ (if b then z else show y)
if_shown show true x y z e = e
if_shown show false x y z e = refl

module _ (step : String) where
  marked-status :
      (outcome : Outcome) (o : Option TaskSession)
      → status_of (changed_by (marked step outcome) o) ≡ status_after outcome (status_of o)
  unfolding stopped_session failed_session
  marked-status returned none = refl
  marked-status returned (some r) = refl
  marked-status cancelled none = refl
  marked-status cancelled (some r) = refl
  marked-status (raised error) none = refl
  marked-status (raised error) (some r) = refl

  marked-error :
      (outcome : Outcome) (o : Option TaskSession)
      → error_of (changed_by (marked step outcome) o) ≡ error_after outcome (error_of o)
  unfolding stopped_session failed_session
  marked-error returned none = refl
  marked-error returned (some r) = refl
  marked-error cancelled none = refl
  marked-error cancelled (some r) = refl
  marked-error (raised error) none = refl
  marked-error (raised error) (some r) = refl

  -- The entry of the current step, seen from a step of the same name or of another.
  if_current :
      (other error : String) (found : Option StepEntry) (d : List (String × StepEntry))
      → get_at step d ≡ found
      → (if step == other then entry_after (raised error) found else get_at other d)
        ≡ (if step == other then entry_after (raised error) (get_at other d) else get_at other d)
  if_current other error found d e = elim (Bool-cases (step == other)) [
    | inl same ↦
        let k : step ≡ other = ground (arith, same, eq_iff step other) in
        rw same (ap (entry_after (raised error)) (sym e ∙ ap (λ n. get_at n d) k))
    | inr apart ↦ rw apart refl
  ]

  kept_entry :
      (other : String) (found : Option StepEntry) (d : List (String × StepEntry))
      → get_at step d ≡ found
      → get_at other d ≡ (if step == other then found else get_at other d)
  kept_entry other found d e = elim (Bool-cases (step == other)) [
    | inl same ↦
        let k : step ≡ other = ground (arith, same, eq_iff step other) in
        rw same (ap (λ n. get_at n d) (sym k) ∙ e)
    | inr apart ↦ rw apart refl
  ]

  failed_entry-steps :
      (other error : String) (found : Option StepEntry) (d : List (String × StepEntry))
      → get_at step d ≡ found
      → get_at other (failed_entry step found error d)
        ≡ (if step == other then entry_after (raised error) (get_at other d) else get_at other d)
  failed_entry-steps other error none d e =
      kept_entry other none d e ∙ if_current other error none d e
  failed_entry-steps other error (some other_value) d e =
      kept_entry other (some other_value) d e ∙ if_current other error (some other_value) d e
  failed_entry-steps other error (some (details status old)) d e =
      get_at-put_at step other (details "failed" (some error)) d
      ∙ if_current other error (some (details status old)) d e

  marked-steps :
      (other : String) (outcome : Outcome) (o : Option TaskSession)
      → entry_of other (changed_by (marked step outcome) o)
        ≡ (if step == other then entry_after outcome (entry_of other o) else entry_of other o)
  unfolding stopped_session failed_session
  marked-steps other returned none = ground arith
  marked-steps other returned (some r) = ground arith
  marked-steps other cancelled none = ground arith
  marked-steps other cancelled (some r) = ground arith
  marked-steps other (raised error) none = ground arith
  marked-steps other (raised error) (some r) =
      failed_entry-steps other error (get_at step r.pipeline_steps) r.pipeline_steps refl

module _ (t : Task) (step : String) where
  -- With a working storage the end of a running task writes its outcome into its session, where that
  -- exists, and into no other: nothing for a return; the status `stopped` and no error for a
  -- cancellation; the status `failed` and the error for an exception, also in the current step where
  -- that is a dictionary, and in no other step.
  -- It removes the task's control from the record and no other, not even one that replaced it, and
  -- appends one event for a cancellation or an exception and none for a return.
  pub finish_run-Settled :
      (outcome : Outcome) (s : Office)
      → Settled t step outcome s (finish_run works t step outcome s)
  unfolding finish_run
  finish_run-Settled outcome s =
      let handled = handle works t step outcome s in
      let recorded = λ (id : String).
        ap (get_at id) (drop_control-rest t handled).0 ∙ handle-sessions t step outcome s id in
      record {
        statuses = λ id.
            ap status_of (recorded id)
            ∙ if_shown status_of (t.session_id == id) _ _ _
                (marked-status step outcome (get_at id s.sessions));
        errors = λ id.
            ap error_of (recorded id)
            ∙ if_shown error_of (t.session_id == id) _ _ _
                (marked-error step outcome (get_at id s.sessions));
        steps = λ id other.
            ap (entry_of other) (recorded id)
            ∙ if_shown (entry_of other) (t.session_id == id) _ _ _
                (marked-steps step other outcome (get_at id s.sessions));
        released = λ id.
            get_at-drop_control t handled id
            ∙ ap
                (λ d.
                  if t.session_id == id && is_control t.control (get_at id d)
                  then none
                  else get_at id d)
                (handle-controls works t step outcome s)
            ∙ ap (λ own. if t.session_id == id && own then none else get_at id s.controls)
                (is_own-is_control t.control (get_at id s.controls));
        announced = (drop_control-rest t handled).1 ∙ handle-events t step outcome s;
      }

  -- Announcing and releasing go in either order.
  pub drop_control-emit_event :
      (e : Event) (s : Office)
      → emit_event t.session_id e (drop_control t s) ≡ drop_control t (emit_event t.session_id e s)
  unfolding emit_event drop_control
  drop_control-emit_event e s =
      elim (Bool-cases (is_control t.control (get_at t.session_id s.controls))) [
        | inl held ↦ rw held refl
        | inr free ↦ rw free refl
      ]

  -- With a working storage a task that was cancelled before it started leaves the same state as one that
  -- was cancelled while it ran.
  pub finalize-eq-finish_run :
      (s : Office) → finalize works t s ≡ finish_run works t step cancelled s
  unfolding finalize finish_run handle update_session
  finalize-eq-finish_run s =
      let found = get_at t.session_id s.sessions in
      works_always t.session_id found stopped_session s
        (λ s'. emit_event t.session_id pipeline_cancelled (drop_control t s'))
      ∙ drop_control-emit_event pipeline_cancelled
          (written works t.session_id found stopped_session s).1
      ∙ sym (
          ap (drop_control t) (
            works_always t.session_id found stopped_session s
              (emit_event t.session_id pipeline_cancelled)))
