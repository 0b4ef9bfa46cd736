-- ===== src/Deliberation/Engine/Steady.antt =====
-- The phases of a run of the engine in protoneo/deliberation/engine.py neither release the session
-- nor lose its record.
use protoneo.Prelude.{
  String, ◌≡◌, refl, ◌∙◌, inl, inr, Bool, true, false, not, ◌&&◌, Option, none, some, List, [], ◌∷◌,
  ◌++◌, ltb, ◌=ℕ◌, if◌then◌else◌, Bool-cases, length, get_last?, ◌==◌, one_of,
}
use protoneo.Agents.{Agent}
use protoneo.Deliberation.Types.{PhaseResult, Policy, World}
use protoneo.Deliberation.Exec.{Run, Result, ok, err}
use protoneo.Deliberation.Config.{PhaseConfig, DeliberationConfig, participants}
use protoneo.Deliberation.Job.{Session, Job, Try, fine, fault, next, map_stored, persist}
use protoneo.Deliberation.Engine.{
  saved_phase, phase_or_new, is_discussion, is_pipeline, author_ids, in_discussion, Prompted,
  prompted, unprompted, select_prompt, checkpoint, absorbed, settle_phase, open_phase, close_phase,
}
use protoneo.Deliberation.Engine.Phases.{
  run_pattern, after_pattern, with_prompt, execute_phase, visit_phase, visit_phases,
}

abbrev pub has_record : Option Session → Bool
has_record none = false
has_record (some s) = true

pub has_record-map_stored :
    (f : Session → Session) (o : Option Session) → has_record (map_stored f o) ≡ has_record o
has_record-map_stored f none = refl
has_record-map_stored f (some s) = refl

-- The set of executing sessions, and whether there is a record, stay as they are.
pub record Steady (j k : Job) : Type 0 where
  pub active : k.active ≡ j.active
  pub recorded : has_record k.stored ≡ has_record j.stored

Steady-trans : (j k l : Job) → Steady j k → Steady k l → Steady j l
Steady-trans j k l h i = record { active = i.active ∙ h.active; recorded = i.recorded ∙ h.recorded }

persist-Steady : (j : Job) → Steady j (persist j)
unfolding persist
persist-Steady j = record { active = refl; recorded = has_record-map_stored _ j.stored }

module _ (world : World) (policy : Policy) (schedule : List Agent → List Agent)
    (agents : List Agent) (config : DeliberationConfig) (message : String) where
  checkpoint-Steady :
      (prior : List PhaseResult) (o : Option PhaseResult) (j : Job)
      → Steady j (checkpoint prior o j)
  checkpoint-Steady prior none j = record { active = refl; recorded = refl }
  checkpoint-Steady prior (some p) j = record {
    active = refl;
    recorded = has_record-map_stored _ j.stored;
  }

  absorbed-Steady : (prior : List PhaseResult) (u : Run) (j : Job) → Steady j (absorbed prior u j)
  unfolding absorbed
  absorbed-Steady prior u j =
      let h = checkpoint-Steady prior (get_last? u.saved) (record j {
        context = u.context;
        calls = u.calls;
        events = u.events;
        report = record j.report { phases = prior ++ u.result ∷ [] };
      }) in
      record { active = h.active; recorded = h.recorded }

  settle_phase-Steady :
      (c : PhaseConfig) (p : PhaseResult) (j : Job) → Steady j (settle_phase c p j).1
  unfolding settle_phase
  settle_phase-Steady c p j =
      let few =
        not (is_discussion p.mode && c.max_rounds =ℕ 0)
        && ltb (length (author_ids p.outputs)) c.min_successful_agents in
      let broke = is_pipeline p.mode && not (length p.failed_agents =ℕ 0) in
      elim (Bool-cases few) [
        | inl e ↦ rw e (persist-Steady j)
        | inr e ↦ elim (Bool-cases broke) [
          | inl f ↦ rw (e, f) (record { active = refl; recorded = refl })
          | inr f ↦
              rw (e, f)
                (let h = persist-Steady (record j {
                  report = record j.report {
                    completed_phases = j.report.completed_phases ++ p.phase_name ∷ [];
                  };
                }) in
                  record { active = h.active; recorded = h.recorded })
        ]
      ]

  after_pattern-Steady :
      (c : PhaseConfig) (prior : List PhaseResult) (r : Result (Unit {0})) (u : Run) (j : Job)
      → Steady j (after_pattern world policy schedule agents config message c prior (r, u) j).1
  after_pattern-Steady c prior (ok x) u j =
      Steady-trans j _ _ (absorbed-Steady prior u j) (settle_phase-Steady c u.result _)
  after_pattern-Steady c prior (err e) u j = absorbed-Steady prior u j

  with_prompt-Steady :
      (c : PhaseConfig) (prior : List PhaseResult) (p : PhaseResult) (ordered : List Agent)
      (q : Prompted) (j : Job)
      → Steady j (with_prompt world policy schedule agents config message c prior p ordered q j).1
  with_prompt-Steady c prior p ordered unprompted j = record { active = refl; recorded = refl }
  with_prompt-Steady c prior p ordered (prompted t) j =
      let m = run_pattern world policy schedule agents config message c p.mode ordered t (record {
        calls = j.calls;
        events = j.events;
        context = j.context;
        result = p;
        saved = [];
      }) in
      after_pattern-Steady c prior m.0 m.1 j

  execute_phase-Steady :
      (c : PhaseConfig) (prior : List PhaseResult) (p : PhaseResult) (j : Job)
      → Steady j (execute_phase world policy schedule agents config message c prior p j).1
  unfolding execute_phase
  execute_phase-Steady c prior p j =
      let ordered =
        in_discussion (config.pattern == "independent_synthesis" && is_discussion p.mode)
          j.independent (participants agents c.agents) in
      elim (Bool-cases (length ordered =ℕ 0)) [
        | inl e ↦ rw e (record { active = refl; recorded = refl })
        | inr e ↦ rw e (
            with_prompt-Steady c prior p ordered
              (select_prompt policy config.pattern c p.mode prior message) j)
      ]

  next-Steady :
      (j : Job) (t : Try) (k : Job) (f : Job → Try × Job)
      → Steady j k
      → ((l : Job) → Steady l (f l).1)
      → Steady j (next (t, k) f).1
  next-Steady j fine k f h g = Steady-trans j k (f k).1 h (g k)
  next-Steady j (fault x) k f h g = h

  if_done-Steady :
      (b : Bool) (c : PhaseConfig) (prior : List PhaseResult) (p : PhaseResult) (j : Job)
      → Steady j
          (if b
            then (fine, j)
            else execute_phase world policy schedule agents config message c prior p j).1
  if_done-Steady true c prior p j = record { active = refl; recorded = refl }
  if_done-Steady false c prior p j = execute_phase-Steady c prior p j

  visit_phase-Steady :
      (restored : List PhaseResult) (c : PhaseConfig) (j : Job)
      → Steady j (visit_phase world policy schedule agents config message restored c j).1
  unfolding visit_phase open_phase close_phase
  visit_phase-Steady restored c j =
      let p = phase_or_new c (saved_phase c.name restored) in
      let b = one_of j.report.completed_phases p.phase_name in
      let h = open_phase p b j in
      next-Steady j _ _ _
        (Steady-trans j h _ (record { active = refl; recorded = refl })
          (if_done-Steady b c j.report.phases p h))
        (λ k. record { active = refl; recorded = refl })

  pub visit_phases-Steady :
      (restored : List PhaseResult) (cs : List PhaseConfig) (j : Job)
      → Steady j (visit_phases world policy schedule agents config message restored cs j).1
  unfolding visit_phases
  visit_phases-Steady restored [] j = record { active = refl; recorded = refl }
  visit_phases-Steady restored (c ∷ cs) j =
      let m = visit_phase world policy schedule agents config message restored c j in
      next-Steady j m.0 m.1 _ (visit_phase-Steady restored c j) (visit_phases-Steady restored cs)
