-- ===== src/Deliberation/Engine/Closing.antt =====
-- How a run of the engine in protoneo/deliberation/engine.py ends: what the session's record says,
-- and that the session is free again.
use protoneo.Prelude.{
  String, ◌≡◌, refl, ap, ◌∙◌, Bool, true, false, not, Option, none, some, List, [], ◌∷◌, arith,
  if◌then◌else◌, keep, ◌==◌, eq_iff, eq_refl, one_of,
}
use protoneo.Agents.{AgentOutput, Agent}
use protoneo.Deliberation.Types.{Policy, World}
use protoneo.Deliberation.Config.{DeliberationConfig, validate_config}
use protoneo.Deliberation.Job.{
  Fault, no_final_output, finished, stopped_early, broken, Report, running, completed, failed,
  stopped, Session, Job, Try, fine, fault, next, map_stored, saves, persist,
}
use protoneo.Deliberation.Engine.{
  final_of, completes, final_report, conclude_with, conclude_run, is_cancelled, fails_with,
  failed_report, close_failed, guarded, restored_report, started, released,
}
use protoneo.Deliberation.Engine.Phases.{visit_phases, run_session, run_stored, run}
use protoneo.Deliberation.Engine.Steady.{has_record, has_record-map_stored, visit_phases-Steady}

-- What the record says after a run that ended in this way.
abbrev pub Ends : (finalize : Bool) → Try → Session → Type 0
Ends finalize fine s =
    (s.status ≡ (if finalize then completed else running))
    × (r : Report) × (s.report ≡ some r)
    × (r.progress ≡ finished)
    × (o : AgentOutput) × (r.final_output ≡ some o)
Ends finalize (fault f) s =
    (s.status ≡ (if is_cancelled f then stopped else failed))
    × (s.fault ≡ (if is_cancelled f then none else some f))
    × (r : Report) × (s.report ≡ some r)
    × (r.progress ≡ (if is_cancelled f then stopped_early else broken))
    × (r.fault ≡ some f)

abbrev pub Closed : (finalize : Bool) → (active : List String) → Try × Job → Type 0
Closed finalize active (t, k) =
    (k.active ≡ active) × (z : Session) × (k.stored ≡ some z) × Ends finalize t z

two_writes :
    (f g : Session → Session) (o : Option Session)
    → has_record o ≡ true
    → (z : Session) × (map_stored f (map_stored g o) ≡ some (f (g z)))
two_writes f g none h = ground arith
two_writes f g (some z) h = (z, refl)

close_failed-Closed :
    (finalize : Bool) (f : Fault) (active : List String) (k : Job)
    → k.active ≡ active
    → has_record k.stored ≡ true
    → Closed finalize active (fault f, close_failed f k)
unfolding close_failed persist failed_report
close_failed-Closed finalize f active k e h =
    let r = failed_report f k.report in
    let (z, q) = two_writes (fails_with f) (saves r) k.stored h in
    (e, fails_with f (saves r z), q, (refl, refl, r, refl, refl, refl))

conclude_with-Closed :
    (finalize : Bool) (o : Option AgentOutput) (active : List String) (k : Job)
    → k.active ≡ active
    → has_record k.stored ≡ true
    → Closed finalize active (guarded (conclude_with finalize o k))
unfolding conclude_with persist final_report
conclude_with-Closed finalize none active k e h =
    close_failed-Closed finalize no_final_output active k e h
conclude_with-Closed finalize (some o) active k e h =
    let r = final_report o k.report in
    let (z, q) = two_writes (completes finalize) (saves r) k.stored h in
    (e, completes finalize (saves r z), q, (refl, r, refl, refl, o, refl))

guarded-Closed :
    (finalize : Bool) (t : Try) (active : List String) (k : Job)
    → k.active ≡ active
    → has_record k.stored ≡ true
    → Closed finalize active (guarded (next (t, k) (conclude_run finalize)))
unfolding conclude_run
guarded-Closed finalize fine active k e h =
    conclude_with-Closed finalize (final_of k.report.phases) active k e h
guarded-Closed finalize (fault f) active k e h = close_failed-Closed finalize f active k e h

add_drop :
    (id : String) (xs : List String) → one_of xs id ≡ false → keep (λ x. not (x == id)) xs ≡ xs
add_drop id [] h = refl
add_drop id (x ∷ xs) h = ground (arith, add_drop id xs, eq_iff x id, eq_iff id x)

discards :
    (id : String) (xs : List String)
    → one_of xs id ≡ false
    → keep (λ x. not (x == id)) (id ∷ xs) ≡ xs
discards id xs h = rw (eq_refl id) (add_drop id xs h)

module _ (world : World) (policy : Policy) (schedule : List Agent → List Agent)
    (agents : List Agent) (config : DeliberationConfig) (message : String) where
  run_session-Closed :
      (resume finalize : Bool) (fingerprint : String) (s : Session) (j : Job)
      → has_record j.stored ≡ true
      → Closed finalize j.active
          (run_session world policy schedule agents config message resume finalize fingerprint s j)
  unfolding run_session
  run_session-Closed resume finalize fingerprint s j h =
      let r = restored_report resume fingerprint s in
      let k = started fingerprint r j in
      let m = visit_phases world policy schedule agents config message r.phases config.phases k in
      let steady =
        visit_phases-Steady world policy schedule agents config message r.phases config.phases k in
      guarded-Closed finalize m.0 j.active m.1 steady.active
        (steady.recorded ∙ has_record-map_stored _ j.stored ∙ h)

  released-Closed :
      (finalize : Bool) (id : String) (active : List String) (t : Try) (k : Job)
      → one_of active id ≡ false
      → Closed finalize (id ∷ active) (t, k)
      → Closed finalize active (released id (t, k))
  released-Closed finalize id active t k h (e, z, q, r) =
      (ap (λ xs. keep (λ x. not (x == id)) xs) e ∙ discards id active h, z, q, r)

  run_stored-Closed :
      (resume finalize : Bool) (fingerprint : String) (o : Option Session) (j : Job)
      → has_record o ≡ true
      → has_record j.stored ≡ true
      → Closed finalize j.active
          (run_stored world policy schedule agents config message resume finalize fingerprint o j)
  run_stored-Closed resume finalize fingerprint none j h k = ground arith
  run_stored-Closed resume finalize fingerprint (some s) j h k =
      run_session-Closed resume finalize fingerprint s j k

  -- A run that is let in, with an accepted configuration, for a session that has a record and does
  -- not execute already, leaves the set of executing sessions as it was. If it returns, the session
  -- is completed (or running, if it is not to be finalized) and its saved result is finished and has
  -- a final output; if it was cancelled, the session is stopped, without an error; and after any
  -- other error it is failed, with that error. In the last two cases the saved result holds the
  -- error.
  pub run-Closed :
      (is_blank : String → Bool) (id fingerprint : String) (resume finalize : Bool) (j : Job)
      → validate_config is_blank agents config ≡ none
      → one_of j.active id ≡ false
      → has_record j.stored ≡ true
      → Closed finalize j.active (
          run world policy schedule agents config message is_blank id fingerprint resume finalize j)
  unfolding run
  run-Closed is_blank id fingerprint resume finalize j v a h =
      let j' = record j { active = id ∷ j.active } in
      let m =
        run_stored world policy schedule agents config message resume finalize fingerprint j.stored
          j' in
      rw (v, a)
        (released-Closed finalize id j.active m.0 m.1 a
          (run_stored-Closed resume finalize fingerprint j.stored j' h h))
