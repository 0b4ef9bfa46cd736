-- ===== src/Deliberation/Parallel/Gathered.antt =====
-- What a phase of ParallelPattern in protoneo/deliberation/patterns.py leaves.
use protoneo.Prelude.{
  ◌≤◌, String, ◌≡◌, refl, sym, ap, ◌∙◌, ◌⊎◌, inl, inr, Bool, true, false, List, [], ◌∷◌, ◌++◌,
  append-nil, append_assoc, arith, ◌=ℕ◌, Bool-cases, all,
}
use protoneo.Agents.{Message, AgentOutput, Agent}
use protoneo.Session.Context.{Context}
use protoneo.Deliberation.Types.{Mode, Rules, FailedAgent, PhaseResult, valid, Policy, World}
use protoneo.Deliberation.Exec.{
  Run, Exception, cancelled_error, key_error, Result, ok, err, Exec, and_then,
}
use protoneo.Deliberation.Attempts.{Item, accepted, failure, run_agent}
use protoneo.Deliberation.Attempts.Contract.{Untouched, Ends, run_agent-Good}
use protoneo.Deliberation.Commit.{numbered, commit, add_failed}
use protoneo.Deliberation.Parallel.{
  known, index_or_zero, sort_by, output_index, message_index, rank, arrange, with_finally, gather,
  complete_all, to_run, parallel_execute,
}
use protoneo.Deliberation.Parallel.Sorted.{Ascending, sort_by-Ascending}

module _ (world : World) (policy : Policy) (rules : Rules) (snapshot : Context) where
  -- An output of the agent that the policy accepted in the snapshot.
  pub record Answered (agent : Agent) (phase : String) (mode : Mode) (o : AgentOutput)
      : Type 0 where
    pub by : o.agent_id ≡ agent.agent_id
    pub validated : policy.validate_output o.content phase mode agent snapshot ≡ valid o.structured
    pub attempts : o.attempts ≤ rules.max_attempts

  -- `Fed agents outputs failures`: each agent has an output or a failure, in this order.
  pub data Fed (phase : String) (mode : Mode)
      : List Agent → List AgentOutput → List FailedAgent → Type 0 where
    none_left : Fed phase mode [] [] []
    answered :
        {a : Agent} {agents : List Agent} {o : AgentOutput} {os : List AgentOutput}
        {fs : List FailedAgent}
        → Answered a phase mode o
        → Fed phase mode agents os fs
        → Fed phase mode (a ∷ agents) (o ∷ os) fs
    failed :
        {a : Agent} {agents : List Agent} {f : FailedAgent} {os : List AgentOutput}
        {fs : List FailedAgent}
        → f.agent_id ≡ a.agent_id
        → Fed phase mode agents os fs
        → Fed phase mode (a ∷ agents) os (f ∷ fs)

  -- What the tasks of these agents add to a state.
  pub record Added (agents : List Agent) (s t : Run) : Type 0 where
    pub new : List AgentOutput
    pub failures : List FailedAgent
    pub outputs : t.result.outputs ≡ s.result.outputs ++ new
    pub failed_agents : t.result.failed_agents ≡ s.result.failed_agents ++ failures
    pub fed : Fed s.result.phase_name s.result.mode agents new failures

  abbrev Completes : List Agent → Run → Result (Unit {0}) → Run → Type 0
  Completes agents s (ok _) t = Added agents s t
  Completes agents s (err e) t = e ≡ cancelled_error

  numbered-Answered :
      (agent : Agent) (phase : String) (mode : Mode) (p : PhaseResult) (o : AgentOutput)
      → Answered agent phase mode o
      → Answered agent phase mode (numbered p o)
  unfolding numbered
  numbered-Answered agent phase mode p o h = elim (Bool-cases (o.round =ℕ 0)) [
    | inl e ↦ rw e h
    | inr e ↦ rw e (record { by = h.by; validated = h.validated; attempts = h.attempts })
  ]

  -- One more output, and what the other tasks add.
  Added-answer :
      (a : Agent) (agents : List Agent) (o : AgentOutput) (s t u : Run)
      → t.result.outputs ≡ s.result.outputs ++ o ∷ []
      → t.result.failed_agents ≡ s.result.failed_agents
      → t.result.phase_name ≡ s.result.phase_name
      → t.result.mode ≡ s.result.mode
      → Answered a s.result.phase_name s.result.mode o
      → Added agents t u
      → Added (a ∷ agents) s u
  Added-answer a agents o s t u e f p m h k = record {
    new = o ∷ k.new;
    failures = k.failures;
    outputs = k.outputs ∙ ap (λ os. os ++ k.new) e ∙ append_assoc s.result.outputs (o ∷ []) k.new;
    failed_agents = k.failed_agents ∙ ap (λ fs. fs ++ k.failures) f;
    fed = answered h (rw (← p, ← m) k.fed);
  }

  Added-failure :
      (a : Agent) (agents : List Agent) (f : FailedAgent) (s t u : Run)
      → t.result ≡ s.result
      → f.agent_id ≡ a.agent_id
      → Added agents (add_failed f t) u
      → Added (a ∷ agents) s u
  unfolding add_failed
  Added-failure a agents f s t u e h k = record {
    new = k.new;
    failures = f ∷ k.failures;
    outputs = k.outputs ∙ ap (λ (p : PhaseResult). p.outputs ++ k.new) e;
    failed_agents =
        k.failed_agents
        ∙ ap (λ (p : PhaseResult). (p.failed_agents ++ f ∷ []) ++ k.failures) e
        ∙ append_assoc s.result.failed_agents (f ∷ []) k.failures;
    fed = failed h (rw (← e) k.fed);
  }

  Completes-answer :
      (a : Agent) (agents : List Agent) (m : Message) (o : AgentOutput) (s t : Run)
      (r : Result (Unit {0})) (u : Run)
      → t.result ≡ s.result
      → Answered a s.result.phase_name s.result.mode o
      → Completes agents (commit m o t).1 r u
      → Completes (a ∷ agents) s r u
  unfolding commit
  Completes-answer a agents m o s t (ok x) u e h k =
      Added-answer a agents (numbered t.result o) s (commit m o t).1 u
        (ap (λ (p : PhaseResult). p.outputs ++ numbered t.result o ∷ []) e)
        (ap (λ (p : PhaseResult). p.failed_agents) e) (ap (λ (p : PhaseResult). p.phase_name) e)
        (ap (λ (p : PhaseResult). p.mode) e) (numbered-Answered a _ _ t.result o h) k
  Completes-answer a agents m o s t (err x) u e h k = k

  Completes-failure :
      (a : Agent) (agents : List Agent) (f : FailedAgent) (s t : Run) (r : Result (Unit {0}))
      (u : Run)
      → t.result ≡ s.result
      → f.agent_id ≡ a.agent_id
      → Completes agents (add_failed f t) r u
      → Completes (a ∷ agents) s r u
  Completes-failure a agents f s t (ok x) u e h k = Added-failure a agents f s t u e h k
  Completes-failure a agents f s t (err x) u e h k = k

  abbrev all_done : String → List Agent → Exec Unit
  all_done prompt agents = complete_all world policy rules snapshot prompt agents

  after_task :
      (prompt : String) (a : Agent) (agents : List Agent) (s t : Run) (r : Result Item)
      → Ends world policy rules a prompt 0 s.result.phase_name s.result.mode snapshot 1 s r t
      → Untouched s t
      → ((u : Run) → Completes agents u (all_done prompt agents u).0 (all_done prompt agents u).1)
      → let (q, v) = and_then r (gather world policy rules) t in
        let end = and_then q (λ _. all_done prompt agents) v in Completes (a ∷ agents) s end.0 end.1
  unfolding gather commit
  after_task prompt a agents s t (ok (accepted m o)) h u k =
      Completes-answer a agents m o s t _ _ u.result
        (record { by = h.2; validated = h.0; attempts = ground arith }) (k (commit m o t).1)
  after_task prompt a agents s t (ok (failure f)) h u k =
      Completes-failure a agents f s t _ _ u.result h.0 (k (add_failed f t))
  after_task prompt a agents s t (err e) h u k = h.0

  pub complete_all-Completes :
      (prompt : String) (agents : List Agent) (s : Run)
      → Completes agents s (all_done prompt agents s).0 (all_done prompt agents s).1
  unfolding complete_all
  complete_all-Completes prompt [] s = record {
    new = [];
    failures = [];
    outputs = sym (append-nil s.result.outputs);
    failed_agents = sym (append-nil s.result.failed_agents);
    fed = none_left;
  }
  complete_all-Completes prompt (a ∷ agents) s =
      let run =
        run_agent world policy rules a prompt 0 s.result.phase_name s.result.mode snapshot s in
      let good =
        run_agent-Good world policy rules a prompt 0 s.result.phase_name s.result.mode snapshot s in
      after_task prompt a agents s run.1 run.0 good.0 good.1 (complete_all-Completes prompt agents)

module _ (world : World) (policy : Policy) (rules : Rules) where
  -- The tasks of `agents`, in their order of completion, took the phase from `s` to `t`.
  pub record Arranged (participants agents : List Agent) (s t : Run) : Type 0 where
    pub new : List AgentOutput
    pub outputs : t.result.outputs ≡ sort_by (rank participants) (s.result.outputs ++ new)
    pub ascending : Ascending (rank participants) t.result.outputs
    pub fed :
        Fed world policy rules s.context s.result.phase_name s.result.mode agents new
          t.result.failed_agents

  abbrev pub is_key_error : Exception → Bool
  is_key_error (key_error k) = true
  is_key_error _ = false

  abbrev pub Leaves : List Agent → List Agent → Run → Result (Unit {0}) → Run → Type 0
  Leaves participants agents s (ok _) t = Arranged participants agents s t
  Leaves participants agents s (err e) t = (e ≡ cancelled_error) ⊎ (is_key_error e ≡ true)

  arrange-Leaves :
      (participants agents : List Agent) (s t : Run) (r : Result (Unit {0}))
      → s.result.failed_agents ≡ []
      → Completes world policy rules s.context agents s r t
      → let end = with_finally r (arrange participants t) in
        Leaves participants agents s end.0 end.1
  unfolding arrange
  arrange-Leaves participants agents s t r none_failed h =
      elim (Bool-cases (all (λ o. known (output_index participants o)) t.result.outputs)) [
        | inr e ↦ rw e (inr refl)
        | inl e ↦
            elim (Bool-cases (all (λ m. known (message_index participants m)) t.result.messages)) [
              | inr f ↦ rw (e, f) (inr refl)
              | inl f ↦ rw (e, f) (sorted r h)
            ]
      ]
    where
      sorted :
          (q : Result (Unit {0}))
          → Completes world policy rules s.context agents s q t
          → Leaves participants agents s q (record t {
            result = record t.result {
              outputs = sort_by (rank participants) t.result.outputs;
              messages =
                  sort_by (λ m. index_or_zero (message_index participants m)) t.result.messages;
            };
          })
      sorted (ok x) k = record {
        new = k.new;
        outputs = ap (sort_by (rank participants)) k.outputs;
        ascending = sort_by-Ascending (rank participants) t.result.outputs;
        fed = rw (k.failed_agents, none_failed) k.fed;
      }
      sorted (err x) k = inl k

  abbrev cleared : Run → Run
  cleared s = record s { result = record s.result { failed_agents = [] } }

  from_cleared :
      (participants agents : List Agent) (s t : Run) (r : Result (Unit {0}))
      → Leaves participants agents (cleared s) r t
      → Leaves participants agents s r t
  from_cleared participants agents s t (ok x) h = record {
    new = h.new;
    outputs = h.outputs;
    ascending = h.ascending;
    fed = h.fed;
  }
  from_cleared participants agents s t (err x) h = h

  -- However the tasks of the agents without an output are ordered by their completion, if the phase
  -- returns, each of them has either one new output, which the policy accepted in the context that
  -- all of them were given and within the allowed attempts, or an entry in `failed_agents`; and the
  -- outputs are those of before and the new ones, stably sorted by the participants' order. If it
  -- raises, it was cancelled, or it is a KeyError.
  pub parallel_execute-Leaves :
      (schedule : List Agent → List Agent) (agents : List Agent) (prompt : String) (s : Run)
      → let end = parallel_execute world policy rules schedule agents prompt s in
        Leaves agents (schedule (to_run world policy rules agents s.result)) s end.0 end.1
  unfolding parallel_execute
  parallel_execute-Leaves schedule agents prompt s =
      let tasks = schedule (to_run world policy rules agents s.result) in
      let h = complete_all-Completes world policy rules s.context prompt tasks (cleared s) in
      let (r, t) = complete_all world policy rules s.context prompt tasks (cleared s) in
      from_cleared agents tasks s _ _ (arrange-Leaves agents tasks (cleared s) t r refl h)
