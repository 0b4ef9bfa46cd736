-- ===== src/Deliberation/Engine/Resume.antt =====
-- A run of the engine in protoneo/deliberation/engine.py that resumes does not repeat what is done.
use protoneo.Prelude.{
  String, ◌≡◌, refl, sym, ap, ◌∙◌, subst, Bool, true, Option, none, some, List, [], ◌∷◌, ◌++◌, map,
  append-nil, append_assoc, arith, all, ◌==◌, one_of, Distinct,
}
use protoneo.Agents.{AgentOutput, Agent}
use protoneo.Deliberation.Types.{PhaseResult, Policy, World}
use protoneo.Deliberation.Config.{PhaseConfig, DeliberationConfig}
use protoneo.Deliberation.Job.{Report, Session, Job, Try, fine, fault, next, persist}
use protoneo.Deliberation.Engine.{
  open_phase, close_phase, final_of, final_report, conclude_with, conclude_run, failed_report,
  close_failed, guarded, restored_report, started,
}
use protoneo.Deliberation.Engine.Phases.{visit_phase, visit_phases, run_session}
use protoneo.Deliberation.Engine.Saved.{
  found_phase, found_phase-name, same_name, saved_phase-Distinct, found_phase-saved,
}

module _ (world : World) (policy : Policy) (schedule : List Agent → List Agent)
    (agents : List Agent) (config : DeliberationConfig) (message : String) where
  -- The phases of `cs` are shown again, and nothing else happens.
  record Skips (restored : List PhaseResult) (cs : List PhaseConfig) (j : Job) (m : Try × Job)
      : Type 0 where
    returns : m.0 ≡ fine
    calls : m.1.calls ≡ j.calls
    phases : m.1.report.phases ≡ j.report.phases ++ map (found_phase restored) cs
    completed : m.1.report.completed_phases ≡ j.report.completed_phases

  visit_phase-Skips :
      (restored : List PhaseResult) (c : PhaseConfig) (j : Job)
      → one_of j.report.completed_phases c.name ≡ true
      → Skips restored
          (c ∷ [])
          j
          (visit_phase world policy schedule agents config message restored c j)
  unfolding visit_phase open_phase close_phase
  visit_phase-Skips restored c j h =
      rw (found_phase-name restored c, h)
        (record { returns = refl; calls = refl; phases = refl; completed = refl })

  Skips-cons :
      (restored : List PhaseResult) (c : PhaseConfig) (cs : List PhaseConfig) (j : Job) (t : Try)
      (k : Job) (f : Job → Try × Job)
      → Skips restored (c ∷ []) j (t, k)
      → (k.report.completed_phases ≡ j.report.completed_phases → Skips restored cs k (f k))
      → Skips restored (c ∷ cs) j (next (t, k) f)
  Skips-cons restored c cs j fine k f s g =
      let r = g s.completed in
      record {
        returns = r.returns;
        calls = r.calls ∙ s.calls;
        phases =
            r.phases
            ∙ ap (λ ps. ps ++ map (found_phase restored) cs) s.phases
            ∙ append_assoc j.report.phases (found_phase restored c ∷ [])
                (map (found_phase restored) cs);
        completed = r.completed ∙ s.completed;
      }
  Skips-cons restored c cs j (fault x) k f s g = ground (arith, s.returns)

  visit_phases-Skips :
      (restored : List PhaseResult) (cs : List PhaseConfig) (j : Job)
      → all (λ c. one_of j.report.completed_phases c.name) cs ≡ true
      → Skips restored cs j (visit_phases world policy schedule agents config message restored cs j)
  unfolding visit_phases
  visit_phases-Skips restored [] j h = record {
    returns = refl;
    calls = refl;
    phases = sym (append-nil j.report.phases);
    completed = refl;
  }
  visit_phases-Skips restored (c ∷ cs) j h =
      let m = visit_phase world policy schedule agents config message restored c j in
      Skips-cons restored c cs j m.0 m.1 _ (visit_phase-Skips restored c j (ground arith)) (λ e.
        visit_phases-Skips restored cs m.1 (
          subst (λ names. all (λ (d : PhaseConfig). one_of names d.name) cs ≡ true) (sym e)
            (ground arith)))

  -- The end of a run writes neither calls nor phases.
  record Same (k l : Job) : Type 0 where
    calls : l.calls ≡ k.calls
    phases : l.report.phases ≡ k.report.phases

  concludes-Same :
      (finalize : Bool) (o : Option AgentOutput) (k : Job)
      → Same k (guarded (conclude_with finalize o k)).1
  unfolding conclude_with final_report close_failed failed_report persist
  concludes-Same finalize none k = record { calls = refl; phases = refl }
  concludes-Same finalize (some o) k = record { calls = refl; phases = refl }

  after-Skips :
      (restored : List PhaseResult) (finalize : Bool) (j : Job) (t : Try) (k : Job)
      → j.report.phases ≡ []
      → Skips restored config.phases j (t, k)
      → let l = (guarded (next (t, k) (conclude_run finalize))).1 in
        (l.calls ≡ j.calls) × (l.report.phases ≡ map (found_phase restored) config.phases)
  unfolding conclude_run
  after-Skips restored finalize j fine k e s =
      let m = concludes-Same finalize (final_of k.report.phases) k in
      (m.calls ∙ s.calls, m.phases ∙ (rw e at s.phases))
  after-Skips restored finalize j (fault x) k e s = ground (arith, s.returns)

  pub run_session-found :
      (finalize : Bool) (fingerprint : String) (s : Session) (r : Report) (j : Job)
      → s.report ≡ some r
      → (r.execution_fingerprint == fingerprint) ≡ true
      → all (λ c. one_of r.completed_phases c.name) config.phases ≡ true
      → let l =
          (run_session world policy schedule agents config message true finalize fingerprint s
            j).1 in
        (l.calls ≡ j.calls) × (l.report.phases ≡ map (found_phase r.phases) config.phases)
  unfolding run_session restored_report
  run_session-found finalize fingerprint s r j e same h =
      let k = started fingerprint (record r { final_output = none }) j in
      let m = visit_phases world policy schedule agents config message r.phases config.phases k in
      rw (e, same)
        (after-Skips r.phases finalize k m.0 m.1 refl
          (visit_phases-Skips r.phases config.phases k h))

  -- A run that resumes a session whose saved result has the same fingerprint, has completed all
  -- configured phases and holds one result for each, in the order of the configuration and under
  -- distinct names, makes no call of a model, and its phases are exactly the saved results.
  pub run_session-resumes :
      (finalize : Bool) (fingerprint : String) (s : Session) (r : Report) (j : Job)
      → s.report ≡ some r
      → (r.execution_fingerprint == fingerprint) ≡ true
      → all (λ c. one_of r.completed_phases c.name) config.phases ≡ true
      → map PhaseResult.phase_name r.phases ≡ map PhaseConfig.name config.phases
      → Distinct same_name r.phases
      → let l =
          (run_session world policy schedule agents config message true finalize fingerprint s
            j).1 in
        (l.calls ≡ j.calls) × (l.report.phases ≡ r.phases)
  run_session-resumes finalize fingerprint s r j e same h named distinct =
      let found = run_session-found finalize fingerprint s r j e same h in
      (
        found.0,
        found.1
            ∙ found_phase-saved r.phases config.phases r.phases named
                (saved_phase-Distinct r.phases distinct),
      )
