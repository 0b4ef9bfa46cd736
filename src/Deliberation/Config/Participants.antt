-- ===== src/Deliberation/Config/Participants.antt =====
-- What `validate_config` of protoneo/deliberation/engine.py guarantees to the phases.
use protoneo.Prelude.{
  ◌≤◌, String, ◌≡◌, refl, sym, ap, ◌∙◌, inl, inr, Bool, false, not, none, some, some-injective,
  List, [], ◌∷◌, map, arith, Bool-cases, Option-cases, length, any, All, ◌==◌, eq_iff, one_of,
}
use protoneo.Agents.{Agent}
use protoneo.Deliberation.Config.{
  PhaseConfig, DeliberationConfig, agent_of, is_given, has_duplicates, phase_fault, phases_fault,
  validate_config, participants,
}
use protoneo.Deliberation.RoundRobin.Rotation.{FreshId, DistinctIds}

agent_of-id :
    (agents : List Agent) (id : String) (a : Agent) → agent_of agents id ≡ some a → a.agent_id ≡ id
unfolding agent_of
agent_of-id [] id a h = ground arith
agent_of-id (b ∷ agents) id a h = elim (Bool-cases (b.agent_id == id)) [
  | inl e ↦ ap (λ (c : Agent). c.agent_id) (sym (some-injective _ _ (rw e at h))) ∙ (eq_iff _ _).0 e
  | inr e ↦ agent_of-id agents id a (rw e at h)
]

-- An agent of another id than the participants'.
FreshId-participants :
    (agents : List Agent) (a : Agent) (ids : List String)
    → one_of ids a.agent_id ≡ false
    → FreshId a (participants agents ids)
unfolding participants
FreshId-participants agents a [] h = tt
FreshId-participants agents a (id ∷ ids) h = elim (Option-cases (agent_of agents id)) [
  | inl e ↦ rw e (FreshId-participants agents a ids (ground arith))
  | inr (b, e) ↦ rw e (
    rw (agent_of-id agents id b e) (ground arith),
    FreshId-participants agents a ids (ground arith),
  )
]

participants-Distinct :
    (agents : List Agent) (ids : List String)
    → has_duplicates ids ≡ false
    → DistinctIds (participants agents ids)
unfolding participants has_duplicates
participants-Distinct agents [] h = tt
participants-Distinct agents (id ∷ ids) h = elim (Option-cases (agent_of agents id)) [
  | inl e ↦ rw e (participants-Distinct agents ids (ground arith))
  | inr (a, e) ↦ rw e (
    FreshId-participants agents a ids (rw (agent_of-id agents id a e) (ground arith)),
    participants-Distinct agents ids (ground arith),
  )
]

participants-length :
    (agents : List Agent) (ids : List String)
    → any (λ id. not (is_given (agent_of agents id))) ids ≡ false
    → length (participants agents ids) ≡ length ids
unfolding participants
participants-length agents [] h = refl
participants-length agents (id ∷ ids) h = elim (Option-cases (agent_of agents id)) [
  | inl e ↦ ground (arith, rw e at h)
  | inr (a, e) ↦ rw e (omega (arith, participants-length agents ids (ground arith)))
]

-- What a phase can rely on: its agents exist and are distinct, and enough of them may succeed.
pub record Ready (agents : List Agent) (p : PhaseConfig) : Type 0 where
  pub found : length (participants agents p.agents) ≡ length p.agents
  pub distinct : DistinctIds (participants agents p.agents)
  pub enough : p.min_successful_agents ≤ length p.agents

module _ (is_blank : String → Bool) (agents : List Agent) where
  phase_fault-Ready : (p : PhaseConfig) → phase_fault is_blank agents p ≡ none → Ready agents p
  unfolding phase_fault
  phase_fault-Ready p h = record {
    found = participants-length agents p.agents (ground arith);
    distinct = participants-Distinct agents p.agents (ground arith);
    enough = ground arith;
  }

  phases_fault-Ready :
      (ps : List PhaseConfig) → phases_fault is_blank agents ps ≡ none → All (Ready agents) ps
  unfolding phases_fault
  phases_fault-Ready [] h = tt
  phases_fault-Ready (p ∷ ps) h = elim (Option-cases (phase_fault is_blank agents p)) [
    | inl e ↦ (phase_fault-Ready p e, phases_fault-Ready ps (rw e at h))
    | inr (f, e) ↦ ground (arith, rw e at h)
  ]

  -- If the configuration is accepted, then in each phase every named agent exists, no two
  -- participants have the same id, and no more successes are asked for than there are agents.
  pub validate_config-Ready :
      (c : DeliberationConfig)
      → validate_config is_blank agents c ≡ none
      → All (Ready agents) c.phases
  unfolding validate_config
  validate_config-Ready c h = by_phases c.phases refl
    where
      by_phases : (ps : List PhaseConfig) → c.phases ≡ ps → All (Ready agents) ps
      by_phases [] e = tt
      by_phases (p ∷ ps) e =
          elim (Bool-cases (has_duplicates (map (λ (q : PhaseConfig). q.name) (p ∷ ps)))) [
            | inl d ↦ ground (arith, rw (e, d) at h)
            | inr d ↦ elim (Option-cases (phases_fault is_blank agents (p ∷ ps))) [
              | inl f ↦ phases_fault-Ready (p ∷ ps) f
              | inr (x, f) ↦ ground (arith, rw (e, d, f) at h)
            ]
          ]
