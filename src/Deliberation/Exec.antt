-- ===== src/Deliberation/Exec.antt =====
-- The state that a pattern of protoneo/deliberation/patterns.py mutates, and its effects. What was
-- written before an exception stays written, so the state comes back beside the exception too.
use protoneo.Prelude.{ℕ, String, Bool, List, [], ◌∷◌, ◌++◌}
use protoneo.Session.Context.{Context}
use protoneo.Deliberation.Types.{PhaseResult, FailedAgent}

-- The events given to `on_event`, without tokens and times.
pub data Event : Type 0 where
  phase_start : String → Bool → Event
  phase_complete : String → ℕ → Event
  round_start round_complete : ℕ → Event
  agent_start : String → ℕ → Event
  prompt_rendered : String → String → Event
  agent_retry : String → ℕ → String → Event
  agent_error : FailedAgent → Event
  agent_done : String → ℕ → Event

-- `calls` counts the calls of the model; `saved` holds what `on_progress` was given, oldest first.
pub record Run : Type 0 where
  pub calls : ℕ
  pub events : List Event
  pub context : Context
  pub result : PhaseResult
  pub saved : List PhaseResult

pub data Exception : Type 0 where
  cancelled_error zero_division : Exception
  key_error value_error runtime_error : String → Exception

pub data Result {ℓ} (A : Type ℓ) : Type ℓ where
  ok : A → Result A
  err : Exception → Result A

abbrev pub Exec : Type 0 → Type 0
Exec A = Run → Result A × Run

module _ {A : Type 0} where
  abbrev pub pure : A → Exec A
  pure a s = (ok a, s)

  abbrev pub throw : Exception → Exec A
  throw e s = (err e, s)

module _ {A B : Type 0} where
  abbrev pub and_then : Result A → (A → Exec B) → Exec B
  and_then (ok a) f = f a
  and_then (err e) f = throw e

  infixl 5 ◌>>=◌ ◌>>◌
  abbrev pub ◌>>=◌ : Exec A → (A → Exec B) → Exec B
  m >>= f = λ s. let (r, s') = m s in and_then r f s'

  abbrev pub ◌>>◌ : Exec A → Exec B → Exec B
  m >> n = m >>= λ _. n

abbrev pub get : Exec Run
get s = (ok s, s)

abbrev pub modify : (Run → Run) → Exec Unit
modify f s = (ok tt, f s)

abbrev pub emit : Event → Exec Unit
emit e s = (ok tt, record s { events = s.events ++ e ∷ [] })

-- `m` keeps `P`, whether it returns or raises.
pub record Keeps {A : Type 0} (P : Run → Type 0) (m : Exec A) : Type 0 where
  pub at : (s : Run) → P s → P (m s).1

module _ {A B : Type 0} {P : Run → Type 0} where
  pub Keeps-bind :
      (m : Exec A) (f : A → Exec B) → Keeps P m → ((a : A) → Keeps P (f a)) → Keeps P (m >>= f)
  Keeps-bind m f km kf = record { at = λ s h. after (m s).0 (m s).1 (km.at s h) }
    where
      after : (r : Result A) (s : Run) → P s → P (and_then r f s).1
      after (ok a) s h = (kf a).at s h
      after (err e) s h = h
