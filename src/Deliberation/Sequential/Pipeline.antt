-- ===== src/Deliberation/Sequential/Pipeline.antt =====
-- The sequential pattern of protoneo/deliberation/patterns.py is a pipeline: its new outputs follow
-- the order of the agents, each validated, up to the first agent that fails.
use protoneo.Prelude.{
  ℕ, ◌+◌, ◌≤◌, String, ◌≡◌, refl, sym, ap, ◌∙◌, inl, inr, Bool, true, false, Option, none, some,
  List, [], ◌∷◌, ◌++◌, append-nil, append_assoc, arith, ◌=ℕ◌, Bool-cases, Option-cases, length,
  keep,
}
use protoneo.Agents.{Message, AgentOutput, Agent}
use protoneo.Session.Context.{Context, new}
use protoneo.Deliberation.Types.{Mode, Rules, FailedAgent, PhaseResult, valid, Policy, World}
use protoneo.Deliberation.Exec.{Run, cancelled_error, Result, ok, err, Exec, and_then}
use protoneo.Deliberation.Attempts.{Item, accepted, failure, run_agent}
use protoneo.Deliberation.Attempts.Contract.{Untouched, Ends, run_agent-Good}
use protoneo.Deliberation.Commit.{numbered, commit}
use protoneo.Deliberation.Sequential.{
  last_by, handed_on, proceed, visit, sequential_from, sequential_execute,
}

abbrev pub is_none {ℓ} : {A : Type ℓ} → Option A → Bool
is_none none = true
is_none (some _) = false

-- The agents whose output was not saved.
abbrev pub pending : List AgentOutput → List Agent → List Agent
pending done agents = keep (λ a. is_none (last_by a.agent_id done)) agents

module _ (world : World) (policy : Policy) (rules : Rules) where
  -- An output of the agent that the policy accepted, in some context.
  pub record IsFrom (agent : Agent) (phase : String) (mode : Mode) (o : AgentOutput) : Type 0 where
    pub by : o.agent_id ≡ agent.agent_id
    pub context : Context
    pub validated : policy.validate_output o.content phase mode agent context ≡ valid o.structured
    pub bounded : o.attempts ≤ rules.max_attempts

  -- `Pipes agents outputs failures`: the outputs come from the agents in order, and either all have
  -- answered, or the next one is the only failure.
  pub data Pipes (phase : String) (mode : Mode)
      : List Agent → List AgentOutput → List FailedAgent → Type 0 where
    finished : Pipes phase mode [] [] []
    fails :
        {a : Agent} {agents : List Agent} {f : FailedAgent}
        → f.agent_id ≡ a.agent_id
        → Pipes phase mode (a ∷ agents) [] (f ∷ [])
    answers :
        {a : Agent} {agents : List Agent} {o : AgentOutput} {os : List AgentOutput}
        {fs : List FailedAgent}
        → IsFrom a phase mode o
        → Pipes phase mode agents os fs
        → Pipes phase mode (a ∷ agents) (o ∷ os) fs

  -- What the loop leaves, from a state without failures.
  abbrev pub Piped : List Agent → Run → Result (Unit {0}) → Run → Type 0
  Piped agents s (ok _) t =
      (new : List AgentOutput) × (t.result.outputs ≡ s.result.outputs ++ new)
      × Pipes s.result.phase_name s.result.mode agents new t.result.failed_agents
  Piped agents s (err e) t =
      (new : List AgentOutput) × (t.result.outputs ≡ s.result.outputs ++ new)
      × (e ≡ cancelled_error)
      × (t.result.failed_agents ≡ [])

  -- The state after a turn with an answer: one more output of the agent.
  record Extends (agent : Agent) (s t : Run) : Type 0 where
    output : AgentOutput
    outputs : t.result.outputs ≡ s.result.outputs ++ output ∷ []
    from : IsFrom agent s.result.phase_name s.result.mode output
    phase : t.result.phase_name ≡ s.result.phase_name
    mode : t.result.mode ≡ s.result.mode
    failed : t.result.failed_agents ≡ s.result.failed_agents

  regroup :
      (s t u : Run) (new : List AgentOutput) (o : AgentOutput)
      → u.result.outputs ≡ t.result.outputs ++ new
      → t.result.outputs ≡ s.result.outputs ++ o ∷ []
      → u.result.outputs ≡ s.result.outputs ++ o ∷ new
  regroup s t u new o h k = rw (h, k) (append_assoc s.result.outputs (o ∷ []) new)

  Piped-cons :
      (agent : Agent) (agents : List Agent) (s t : Run) (r : Result (Unit {0})) (u : Run)
      → Extends agent s t
      → Piped agents t r u
      → Piped (agent ∷ agents) s r u
  Piped-cons agent agents s t (ok x) u e (new, outs, p) = (
    e.output ∷ new,
    regroup s t u new e.output outs e.outputs,
    answers e.from (rw (← e.phase, ← e.mode) p),
  )
  Piped-cons agent agents s t (err x) u e (new, outs, q, f) =
      (e.output ∷ new, regroup s t u new e.output outs e.outputs, q, f)

  -- A run of the rest of the pipeline, from any state without failures.
  abbrev Runs : List Agent → (String → Exec Unit) → Type 0
  Runs agents rest =
      (prompt : String) (s : Run)
      → s.result.failed_agents ≡ []
      → Piped agents s (rest prompt s).0 (rest prompt s).1

  -- Numbering an output changes its number alone.
  numbered_keeps :
      (P : AgentOutput → Type 0) (p : PhaseResult) (o : AgentOutput)
      → ((n : ℕ) → P (record o { deliberation_turn = n }))
      → P o
      → P (numbered p o)
  unfolding numbered
  numbered_keeps P p o h h' = elim (Bool-cases (o.round =ℕ 0)) [
    | inl e ↦ rw e h'
    | inr e ↦ rw e (h (length p.outputs + 1))
  ]

  commit-Extends :
      (prompt : String) (agent : Agent) (m : Message) (o : AgentOutput) (s t : Run)
      → Ends world policy rules agent prompt 0 s.result.phase_name s.result.mode s.context 1 s
          (ok (accepted m o))
          t
      → Untouched s t
      → Extends agent s (commit m o t).1
  unfolding commit
  commit-Extends prompt agent m o s t h u = record {
    output = numbered t.result o;
    outputs = ap (λ (p : PhaseResult). p.outputs ++ numbered t.result o ∷ []) u.result;
    from = record {
      by = ground arith;
      context = s.context;
      validated =
          numbered_keeps
            (λ x.
              policy.validate_output x.content s.result.phase_name s.result.mode agent s.context
              ≡ valid x.structured)
            t.result o (λ n. h.0) h.0;
      bounded = ground arith;
    };
    phase = ap (λ (p : PhaseResult). p.phase_name) u.result;
    mode = ap (λ (p : PhaseResult). p.mode) u.result;
    failed = ap (λ (p : PhaseResult). p.failed_agents) u.result;
  }

  proceed-Piped :
      (rest : String → Exec Unit) (prompt : String) (agent : Agent) (agents : List Agent)
      (s t : Run) (r : Result Item)
      → s.result.failed_agents ≡ []
      → Ends world policy rules agent prompt 0 s.result.phase_name s.result.mode s.context 1 s r t
      → Untouched s t
      → Runs agents rest
      → let end = and_then r (proceed world policy rules rest prompt) t in
        Piped (agent ∷ agents) s end.0 end.1
  unfolding proceed
  proceed-Piped rest prompt agent agents s t (ok (accepted m o)) none_failed h u k =
      let e = commit-Extends prompt agent m o s t h u in
      Piped-cons agent agents s (commit m o t).1 _ _ e
        (k (handed_on world policy rules prompt o) (commit m o t).1 (e.failed ∙ none_failed))
  proceed-Piped rest prompt agent agents s t (ok (failure f)) none_failed h u k = (
    [],
    ap (λ (p : PhaseResult). p.outputs) u.result ∙ sym (append-nil s.result.outputs),
    rw (u.result, none_failed) (fails h.0),
  )
  proceed-Piped rest prompt agent agents s t (err e) none_failed h u k = (
    [],
    ap (λ (p : PhaseResult). p.outputs) u.result ∙ sym (append-nil s.result.outputs),
    h.0,
    ap (λ (p : PhaseResult). p.failed_agents) u.result ∙ none_failed,
  )

  visit-Piped :
      (done : List AgentOutput) (rest : String → Exec Unit) (agent : Agent) (agents : List Agent)
      → Runs (pending done agents) rest
      → Runs (pending done (agent ∷ agents)) (visit world policy rules done rest agent)
  unfolding visit
  visit-Piped saved rest agent agents k prompt s h =
      elim (Option-cases (last_by agent.agent_id saved)) [
        | inl e ↦
            rw (e, visit)
              (let good =
                  run_agent-Good world policy rules agent prompt 0 s.result.phase_name s.result.mode
                    s.context s in
                let (r, t) =
                  run_agent world policy rules agent prompt 0 s.result.phase_name s.result.mode
                    s.context s in
                proceed-Piped rest prompt agent (pending saved agents) s t r h good.0 good.1 k)
        | inr (o, e) ↦ rw (e, visit) (k (handed_on world policy rules prompt o) s h)
      ]

  sequential_from-Piped :
      (done : List AgentOutput) (agents : List Agent)
      → Runs (pending done agents) (sequential_from world policy rules done agents)
  unfolding sequential_from
  sequential_from-Piped saved [] prompt s h = ([], sym (append-nil s.result.outputs), rw h finished)
  sequential_from-Piped saved (agent ∷ agents) prompt s h =
      visit-Piped saved (sequential_from world policy rules saved agents) agent agents
        (sequential_from-Piped saved agents) prompt s h

  -- The outputs that a sequential phase adds to those it had come from the agents that had none, in
  -- their order, each accepted by the policy within the allowed attempts. If the phase returns,
  -- either each of those agents has answered, or the first that has not is the only failed agent
  -- and no later one has an output. If it raises, it was cancelled, and no failure is recorded.
  pub sequential_execute-Piped :
      (agents : List Agent) (prompt : String) (s : Run)
      → let end = sequential_execute world policy rules agents prompt s in
        Piped (pending s.result.outputs agents) s end.0 end.1
  unfolding sequential_execute
  sequential_execute-Piped agents prompt s =
      sequential_from-Piped s.result.outputs agents prompt _ refl
