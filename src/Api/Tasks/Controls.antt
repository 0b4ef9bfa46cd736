-- ===== src/Api/Tasks/Controls.antt =====
-- The record of controls under the steps of protoneo/api/tasks.py.
use protoneo.Prelude.{
  String, ◌≡◌, refl, ap, ◌∙◌, subst, inl, inr, Bool, true, false, ◌&&◌, Option, none, some, List,
  [], ◌∷◌, arith, if◌then◌else◌, Bool-cases, if-false, ◌==◌, eq_iff, get_at,
}
use protoneo.Api.Tasks.{
  TaskSession, pipeline_cancelled, error_event, Office, Task, Outcome, returned, cancelled, raised,
  Storage, works, unreadable, unwritable, removed_at, stopped_session, failed_session, written,
  update_session, emit_event, is_control, drop_control, unless_raised, handle, finalize,
}

pub get_at-removed_at {ℓ} :
    {A : Type ℓ} (key j : String) (d : List (String × A))
    → get_at j (removed_at key d) ≡ (if key == j then none else get_at j d)
unfolding get_at removed_at
get_at-removed_at key j [] = ground arith
get_at-removed_at key j ((k, x) ∷ d) =
    ground (arith, get_at-removed_at key j d, eq_iff k key, eq_iff k j, eq_iff key j)

pub written-controls :
    (storage : Storage) (id : String) (found : Option TaskSession)
    (change : TaskSession → TaskSession) (s : Office)
    → (written storage id found change s).1.controls ≡ s.controls
written-controls unreadable id found change s = refl
written-controls works id none change s = refl
written-controls works id (some r) change s = refl
written-controls unwritable id none change s = refl
written-controls unwritable id (some r) change s = refl

pub unless_raised-controls :
    (r : Bool × Office) (go : Office → Office)
    → ((s : Office) → (go s).controls ≡ s.controls)
    → (unless_raised r go).controls ≡ r.1.controls
unless_raised-controls (true, s) go same = refl
unless_raised-controls (false, s) go same = same s

pub handle-controls :
    (storage : Storage) (t : Task) (step : String) (outcome : Outcome) (s : Office)
    → (handle storage t step outcome s).controls ≡ s.controls
unfolding handle update_session emit_event
handle-controls storage t step returned s = refl
handle-controls storage t step cancelled s =
    unless_raised-controls (update_session storage t.session_id stopped_session s)
      (emit_event t.session_id pipeline_cancelled) (λ x. refl)
    ∙ written-controls storage t.session_id (get_at t.session_id s.sessions) stopped_session s
handle-controls storage t step (raised error) s =
    unless_raised-controls (update_session storage t.session_id (failed_session step error) s)
      (emit_event t.session_id (error_event error)) (λ x. refl)
    ∙ written-controls storage t.session_id (get_at t.session_id s.sessions)
        (failed_session step error) s

pub get_at-drop_control :
    (t : Task) (s : Office) (j : String)
    → get_at j (drop_control t s).controls ≡ (
        if t.session_id == j && is_control t.control (get_at j s.controls)
        then none
        else get_at j s.controls)
unfolding drop_control
get_at-drop_control t s j = elim (Bool-cases (t.session_id == j)) [
  | inl e ↦
      let same : t.session_id ≡ j = ground (arith, e, eq_iff t.session_id j) in
      subst
        (λ k. get_at k (drop_control t s).controls ≡ (
          if t.session_id == k && is_control t.control (get_at k s.controls)
          then none
          else get_at k s.controls))
        same
        (elim (Bool-cases (is_control t.control (get_at t.session_id s.controls))) [
          | inl held ↦ rw held ground (
            arith,
            get_at-removed_at t.session_id t.session_id s.controls,
            eq_iff t.session_id t.session_id,
          )
          | inr free ↦ rw free ground (arith, eq_iff t.session_id t.session_id)
        ])
  | inr e ↦ elim (Bool-cases (is_control t.control (get_at t.session_id s.controls))) [
    | inl held ↦
        rw held rw e
          (get_at-removed_at t.session_id j s.controls ∙ if-false (t.session_id == j) none _ e)
    | inr free ↦ rw free rw e refl
  ]
]

pub works_always :
    (id : String) (found : Option TaskSession) (change : TaskSession → TaskSession) (s : Office)
    (go : Office → Office)
    → unless_raised (written works id found change s) go ≡ go (written works id found change s).1
works_always id none change s go = refl
works_always id (some r) change s go = refl

pub finalize-controls :
    (t : Task) (s : Office)
    → (finalize works t s).controls
      ≡ (drop_control t (update_session works t.session_id stopped_session s).1).controls
unfolding finalize update_session emit_event
finalize-controls t s = ap Office.controls (
    works_always t.session_id (get_at t.session_id s.sessions) stopped_session s
      (λ s'. emit_event t.session_id pipeline_cancelled (drop_control t s')))
