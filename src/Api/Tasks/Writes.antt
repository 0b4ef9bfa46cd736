-- ===== src/Api/Tasks/Writes.antt =====
-- What the end of a task of protoneo/api/tasks.py writes to the sessions and emits.
use protoneo.Prelude.{
  String, ◌≡◌, refl, sym, ap, ◌∙◌, inl, inr, Bool, true, false, Option, none, some, List, [], ◌∷◌,
  ◌++◌, append-nil, arith, if◌then◌else◌, Bool-cases, ◌==◌, eq_iff, get_at, get_at-put_at,
}
use protoneo.Api.Tasks.{
  TaskSession, Event, pipeline_cancelled, error_event, Office, Task, Outcome, returned, cancelled,
  raised, works, stopped_session, failed_session, written, update_session, emit_event, is_control,
  drop_control, unless_raised, handle,
}
use protoneo.Api.Tasks.Controls.{works_always}

-- What an outcome writes into the session, and tells its listeners.
abbrev pub marked : (step : String) → Outcome → TaskSession → TaskSession
marked step returned r = r
marked step cancelled r = stopped_session r
marked step (raised error) r = failed_session step error r

abbrev pub told : String → Outcome → List (String × Event)
told id returned = []
told id cancelled = (id, pipeline_cancelled) ∷ []
told id (raised error) = (id, error_event error) ∷ []

abbrev pub changed_by : (TaskSession → TaskSession) → Option TaskSession → Option TaskSession
changed_by f none = none
changed_by f (some r) = some (f r)

pub change_under :
    (id j : String) (f : TaskSession → TaskSession) (d : List (String × TaskSession))
    → (if id == j then changed_by f (get_at id d) else get_at j d)
      ≡ (if id == j then changed_by f (get_at j d) else get_at j d)
change_under id j f d = elim (Bool-cases (id == j)) [
  | inl e ↦
      let same : id ≡ j = ground (arith, e, eq_iff id j) in
      ap (λ k. if id == j then changed_by f (get_at k d) else get_at j d) same
  | inr e ↦ rw e refl
]

pub written-sessions :
    (id j : String) (f : TaskSession → TaskSession) (found : Option TaskSession) (s : Office)
    → get_at id s.sessions ≡ found
    → get_at j (written works id found f s).1.sessions
      ≡ (if id == j then changed_by f found else get_at j s.sessions)
written-sessions id j f none s e = elim (Bool-cases (id == j)) [
  | inl same ↦
      let k : id ≡ j = ground (arith, same, eq_iff id j) in
      rw same (ap (λ i. get_at i s.sessions) (sym k) ∙ e)
  | inr apart ↦ rw apart refl
]
written-sessions id j f (some r) s e = get_at-put_at id j (f r) s.sessions

pub update_session-sessions :
    (id j : String) (f : TaskSession → TaskSession) (s : Office)
    → get_at j (update_session works id f s).1.sessions
      ≡ (if id == j then changed_by f (get_at j s.sessions) else get_at j s.sessions)
unfolding update_session
update_session-sessions id j f s =
    written-sessions id j f (get_at id s.sessions) s refl ∙ change_under id j f s.sessions

pub update_session-events :
    (id : String) (found : Option TaskSession) (f : TaskSession → TaskSession) (s : Office)
    → (written works id found f s).1.events ≡ s.events
update_session-events id none f s = refl
update_session-events id (some r) f s = refl

-- `drop_control` changes the controls alone.
pub drop_control-rest :
    (t : Task) (s : Office)
    → ((drop_control t s).sessions ≡ s.sessions) × ((drop_control t s).events ≡ s.events)
unfolding drop_control
drop_control-rest t s = elim (Bool-cases (is_control t.control (get_at t.session_id s.controls))) [
  | inl e ↦ rw e (refl, refl)
  | inr e ↦ rw e (refl, refl)
]

-- The session's change by an outcome that was not a return.
pub change_and_emit :
    (t : Task) (f : TaskSession → TaskSession) (e : Event) (s : Office)
    → unless_raised (update_session works t.session_id f s) (emit_event t.session_id e)
      ≡ emit_event t.session_id e (update_session works t.session_id f s).1
unfolding update_session
change_and_emit t f e s =
    works_always t.session_id (get_at t.session_id s.sessions) f s (emit_event t.session_id e)

pub unchanged : (b : Bool) (x : Option TaskSession) → x ≡ (if b then changed_by (λ r. r) x else x)
unchanged true none = refl
unchanged true (some r) = refl
unchanged false x = refl

module _ (t : Task) (step : String) where
  pub handle-sessions :
      (outcome : Outcome) (s : Office) (id : String)
      → get_at id (handle works t step outcome s).sessions ≡ (
          if t.session_id == id
          then changed_by (marked step outcome) (get_at id s.sessions)
          else get_at id s.sessions)
  unfolding handle emit_event
  handle-sessions returned s id = unchanged (t.session_id == id) (get_at id s.sessions)
  handle-sessions cancelled s id =
      ap (λ (x : Office). get_at id x.sessions)
        (change_and_emit t stopped_session pipeline_cancelled s)
      ∙ update_session-sessions t.session_id id stopped_session s
  handle-sessions (raised error) s id =
      ap (λ (x : Office). get_at id x.sessions)
        (change_and_emit t (failed_session step error) (error_event error) s)
      ∙ update_session-sessions t.session_id id (failed_session step error) s

  pub handle-events :
      (outcome : Outcome) (s : Office)
      → (handle works t step outcome s).events ≡ s.events ++ told t.session_id outcome
  unfolding handle emit_event update_session
  handle-events returned s = sym (append-nil s.events)
  handle-events cancelled s =
      ap Office.events (change_and_emit t stopped_session pipeline_cancelled s)
      ∙ ap (λ l. l ++ told t.session_id cancelled)
          (update_session-events t.session_id (get_at t.session_id s.sessions) stopped_session s)
  handle-events (raised error) s =
      ap Office.events (change_and_emit t (failed_session step error) (error_event error) s)
      ∙ ap (λ l. l ++ told t.session_id (raised error))
          (update_session-events t.session_id (get_at t.session_id s.sessions)
            (failed_session step error) s)
