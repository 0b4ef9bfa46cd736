-- ===== src/Api/Tasks/Owners.antt =====
-- Which tasks of protoneo/api/tasks.py the controls belong to.
use protoneo.Prelude.{
  ℕ, String, ◌≡◌, refl, sym, ap, ◌∙◌, inl, inr, Bool, true, false, not, ◌&&◌, none, some,
  some-injective, List, [], ◌∷◌, arith, ◌=ℕ◌, Bool-cases, if-true, if-false, keep, any, ◌==◌,
  eq_iff, get_at, get_at-put_at,
}
use protoneo.Api.Tasks.{
  TaskSession, Event, Office, Task, Outcome, Storage, works, stopped_session, update_session,
  is_control, drop_control, handle, finish_run, finalize, start_session_task,
}
use protoneo.Api.Tasks.Controls.{
  written-controls, handle-controls, get_at-drop_control, finalize-controls,
}

abbrev pub same_task : Task → Task → Bool
same_task t u = t.control =ℕ u.control && t.session_id == u.session_id

-- The tasks that did not end, through their starts and ends in any order.
pub data Reaches : Office → List Task → Type 0 where
  idle :
      (sessions : List (String × TaskSession))
      → Reaches (record { sessions = sessions; controls = []; events = [] }) []
  starts :
      {s : Office} {open_tasks : List Task} (t : Task)
      → Reaches s open_tasks
      → Reaches (start_session_task t s) (t ∷ open_tasks)
  ends :
      {s : Office} {open_tasks : List Task} (storage : Storage) (t : Task) (step : String)
      (outcome : Outcome)
      → Reaches s open_tasks
      → Reaches (finish_run storage t step outcome s) (keep (λ u. not (same_task t u)) open_tasks)
  finalizes :
      {s : Office} {open_tasks : List Task} (t : Task)
      → Reaches s open_tasks
      → Reaches (finalize works t s) (keep (λ u. not (same_task t u)) open_tasks)
  -- A pipeline writes sessions and emits events.
  writes :
      {s : Office} {open_tasks : List Task} (sessions : List (String × TaskSession))
      (events : List (String × Event))
      → Reaches s open_tasks
      → Reaches (record s { sessions = sessions; events = events }) open_tasks

abbrev pub is_owner : String → ℕ → Task → Bool
is_owner id c u = u.control =ℕ c && u.session_id == id

abbrev pub Owned : Office → List Task → Type 0
Owned s open_tasks =
    (id : String) (c : ℕ) → get_at id s.controls ≡ some c → any (is_owner id c) open_tasks ≡ true

pub any-keep {ℓ} :
    {A : Type ℓ} (p q : A → Bool) (xs : List A)
    → ((x : A) → p x ≡ true → q x ≡ true)
    → any p xs ≡ true
    → any p (keep q xs) ≡ true
any-keep p q [] implies h = h
any-keep p q (x ∷ xs) implies h = elim (Bool-cases (p x)) [
  | inl e ↦ rw (implies x e) rw e refl
  | inr e ↦ elim (Bool-cases (q x)) [
    | inl kept ↦ rw kept rw e (any-keep p q xs implies (rw e at h))
    | inr left ↦ rw left (any-keep p q xs implies (rw e at h))
  ]
]

pub Owned-start :
    (t : Task) (s : Office) (open_tasks : List Task)
    → Owned s open_tasks
    → Owned (start_session_task t s) (t ∷ open_tasks)
unfolding start_session_task
Owned-start t s open_tasks owned id c h =
    let was = sym (get_at-put_at t.session_id id t.control s.controls) ∙ h in
    elim (Bool-cases (t.session_id == id)) [
      | inl e ↦
          let same : t.control ≡ c = some-injective t.control c (sym (if-true _ _ _ e) ∙ was) in
          ground (arith, e, same)
      | inr e ↦ let known = owned id c (sym (if-false _ _ _ e) ∙ was) in ground (arith, known)
    ]

pub owned_by_another :
    (t : Task) (id : String) (c : ℕ)
    → (t.session_id == id && c =ℕ t.control) ≡ false
    → (u : Task) → is_owner id c u ≡ true
    → not (same_task t u) ≡ true
owned_by_another t id c apart u is = ground (
  arith,
  is,
  apart,
  eq_iff u.session_id id,
  eq_iff t.session_id u.session_id,
  eq_iff t.session_id id,
)

pub Owned-end :
    (t : Task) (s : Office) (open_tasks : List Task)
    → Owned s open_tasks
    → Owned (drop_control t s) (keep (λ u. not (same_task t u)) open_tasks)
Owned-end t s open_tasks owned id c h =
    let was = sym (get_at-drop_control t s id) ∙ h in
    elim (Bool-cases (t.session_id == id && is_control t.control (get_at id s.controls))) [
      | inl dropped ↦ let bad = rw dropped at was in ground (arith, bad)
      | inr stays ↦
          let held : get_at id s.controls ≡ some c = sym (if-false _ none _ stays) ∙ was in
          let apart = rw held at stays in
          any-keep (is_owner id c) (λ u. not (same_task t u)) open_tasks
            (owned_by_another t id c apart) (owned id c held)
    ]

pub Owned-same :
    (s s' : Office) (open_tasks : List Task)
    → s'.controls ≡ s.controls
    → Owned s open_tasks
    → Owned s' open_tasks
Owned-same s s' open_tasks e owned id c h = owned id c (ap (get_at id) (sym e) ∙ h)

pub Owned-idle :
    (sessions : List (String × TaskSession))
    → Owned (record { sessions = sessions; controls = []; events = [] }) []
unfolding get_at
Owned-idle sessions id c h = ground (arith, h)

pub reaches-Owned :
    {s : Office} {open_tasks : List Task} → Reaches s open_tasks → Owned s open_tasks
unfolding finish_run update_session
reaches-Owned (idle sessions) = Owned-idle sessions
reaches-Owned (starts t r) = Owned-start t _ _ (reaches-Owned r)
reaches-Owned (ends {s} storage t step outcome r) = Owned-end t _ _ (
    Owned-same s (handle storage t step outcome s) _ (handle-controls storage t step outcome s)
      (reaches-Owned r))
reaches-Owned (finalizes {s} t r) =
    let written_state = (update_session works t.session_id stopped_session s).1 in
    Owned-same (drop_control t written_state) (finalize works t s) _ (finalize-controls t s) (
      Owned-end t written_state _ (
        Owned-same s written_state _
          (written-controls works t.session_id (get_at t.session_id s.sessions) stopped_session s)
          (reaches-Owned r)))
reaches-Owned (writes {s} sessions events r) =
    Owned-same s (record s { sessions = sessions; events = events }) _ refl (reaches-Owned r)

-- In every interleaving of starts and ends of tasks and of what their pipelines write, a control that
-- is on record belongs to a task of its session that did not end. The storage may fail at the end of a
-- running task; it works when a task ends that was cancelled before it started.
pub control_owner :
    {s : Office} {open_tasks : List Task} (r : Reaches s open_tasks) (id : String) (c : ℕ)
    → get_at id s.controls ≡ some c
    → any (is_owner id c) open_tasks ≡ true
control_owner r id c h = reaches-Owned r id c h
