-- ===== src/Deliberation/RoundRobin/Talked.antt =====
-- What the turns of RoundRobinPattern in protoneo/deliberation/patterns.py leave: who spoke, how the
-- turns are numbered, and which outputs the context shows.
use protoneo.Prelude.{
  ℕ, ◌+◌, ◌≤◌, ◌<◌, String, ◌≡◌, refl, sym, ap, ◌∙◌, subst, ◌&&◌, List, [], ◌∷◌, ◌++◌, foldl,
  append-nil, append_assoc, arith, ◌=ℕ◌, length, drop, keep, length-append,
}
use protoneo.Agents.{Message, AgentOutput, Agent}
use protoneo.Session.Context.{Outputs, Context, append_under, add_message, add_output}
use protoneo.Deliberation.Types.{Rules, FailedAgent, PhaseResult, Policy, World}
use protoneo.Deliberation.Exec.{Run, cancelled_error, Result, ok, err, Exec, and_then, ◌>>◌}
use protoneo.Deliberation.Attempts.{Item, accepted, failure}
use protoneo.Deliberation.Attempts.Contract.{Untouched, Good}
use protoneo.Deliberation.Commit.{numbered, commit, add_failed}
use protoneo.Deliberation.RoundRobin.{has_agent, hydrated, settle}
use protoneo.Deliberation.RoundRobin.Schedule.{Key}

-- The outputs, put into a context's dictionary one after another.
abbrev pub shown : Outputs → List AgentOutput → Outputs
shown d [] = d
shown d (o ∷ os) = shown (append_under o.agent_id o d) os

-- The numbers of the outputs go on from `n` of them.
abbrev pub NumberedFrom : ℕ → List AgentOutput → Type 0
NumberedFrom n [] = Unit
NumberedFrom n (o ∷ os) = (o.deliberation_turn ≡ n + 1) × NumberedFrom (n + 1) os

pub foldl-add_message :
    (ms : List Message) (c : Context)
    → (foldl (λ d m. add_message m d) c ms).agent_outputs ≡ c.agent_outputs
unfolding add_message
foldl-add_message [] c = refl
foldl-add_message (m ∷ ms) c = foldl-add_message ms (add_message m c)

pub hydrated-outputs :
    (o : AgentOutput) (id : String) (number : ℕ) (s : Run)
    → (hydrated o id number s).context.agent_outputs
      ≡ append_under o.agent_id o s.context.agent_outputs
unfolding hydrated add_output
hydrated-outputs o id number s =
    foldl-add_message (keep (λ m. has_agent m.agent_id id && m.round =ℕ number) s.result.messages)
      (add_output o s.context)

module _ (world : World) (policy : Policy) (rules : Rules) (source : String) where
  -- An output that the policy accepted for this turn.
  pub record Answers (key : Key) (o : AgentOutput) : Type 0 where
    pub by : o.agent_id ≡ key.0
    pub in_round : o.round ≡ key.1
    pub attempts : o.attempts ≤ rules.max_attempts

  -- `Spoke keys outputs failures`: each turn has an output or a failure, in the order of the turns.
  pub data Spoke : List Key → List AgentOutput → List FailedAgent → Type 0 where
    silent : Spoke [] [] []
    spoke :
        {k : Key} {ks : List Key} {o : AgentOutput} {os : List AgentOutput} {fs : List FailedAgent}
        → Answers k o
        → Spoke ks os fs
        → Spoke (k ∷ ks) (o ∷ os) fs
    failed :
        {k : Key} {ks : List Key} {f : FailedAgent} {os : List AgentOutput} {fs : List FailedAgent}
        → f.agent_id ≡ k.0
        → f.round ≡ k.1
        → Spoke ks os fs
        → Spoke (k ∷ ks) os (f ∷ fs)

  -- From state `s`, with `rest` still to be replayed, over the turns `keys`, to state `t`.
  pub record Talked (rest : List AgentOutput) (keys : List Key) (s t : Run) : Type 0 where
    pub new : List AgentOutput
    pub failures : List FailedAgent
    pub outputs : t.result.outputs ≡ s.result.outputs ++ new
    pub failed_agents : t.result.failed_agents ≡ s.result.failed_agents ++ failures
    pub turns_taken : Spoke (drop (length rest) keys) new failures
    pub numbers : NumberedFrom (length s.result.outputs) new
    pub context : t.context.agent_outputs ≡ shown (shown s.context.agent_outputs rest) new

  abbrev pub Leaves : List AgentOutput → List Key → Run → Result (Unit {0}) → Run → Type 0
  Leaves rest keys s (ok _) t = Talked rest keys s t
  Leaves rest keys s (err e) t =
      (e ≡ cancelled_error)
      × (new : List AgentOutput) × (t.result.outputs ≡ s.result.outputs ++ new)

  -- An action over the coming turns, from any state.
  abbrev pub Talks : List AgentOutput → List Key → Exec Unit → Type 0
  Talks rest keys m = (s : Run) → Leaves rest keys s (m s).0 (m s).1

  -- A replayed turn, and what follows it.
  pub replayed :
      (o : AgentOutput) (rest : List AgentOutput) (k : Key) (keys : List Key) (s t : Run)
      (r : Result (Unit {0})) (u : Run)
      → t.result ≡ s.result
      → t.context.agent_outputs ≡ append_under o.agent_id o s.context.agent_outputs
      → Leaves rest keys t r u
      → Leaves (o ∷ rest) (k ∷ keys) s r u
  replayed o rest k keys s t (ok _) u same shows h = record {
    new = h.new;
    failures = h.failures;
    outputs = h.outputs ∙ ap (λ (p : PhaseResult). p.outputs ++ h.new) same;
    failed_agents = h.failed_agents ∙ ap (λ (p : PhaseResult). p.failed_agents ++ h.failures) same;
    turns_taken = h.turns_taken;
    numbers = subst (λ (p : PhaseResult). NumberedFrom (length p.outputs) h.new) same h.numbers;
    context = h.context ∙ ap (λ d. shown (shown d rest) h.new) shows;
  }
  replayed o rest k keys s t (err e) u same shows (h, new, outs) =
      (h, new, outs ∙ ap (λ (p : PhaseResult). p.outputs ++ new) same)

  -- A turn that failed, and what follows it.
  after_failure :
      (f : FailedAgent) (k : Key) (keys : List Key) (s t : Run) (r : Result (Unit {0})) (u : Run)
      → (f.agent_id ≡ k.0) × (f.round ≡ k.1)
      → Untouched s t
      → Leaves [] keys (add_failed f t) r u
      → Leaves [] (k ∷ keys) s r u
  unfolding add_failed
  after_failure f k keys s t (ok _) u named v h = record {
    new = h.new;
    failures = f ∷ h.failures;
    outputs = h.outputs ∙ ap (λ (p : PhaseResult). p.outputs ++ h.new) v.result;
    failed_agents =
        h.failed_agents
        ∙ append_assoc t.result.failed_agents (f ∷ []) h.failures
        ∙ ap (λ (p : PhaseResult). p.failed_agents ++ f ∷ h.failures) v.result;
    turns_taken = failed named.0 named.1 h.turns_taken;
    numbers = subst (λ (p : PhaseResult). NumberedFrom (length p.outputs) h.new) v.result h.numbers;
    context = h.context ∙ ap (λ (c : Context). shown c.agent_outputs h.new) v.context;
  }
  after_failure f k keys s t (err e) u named v (h, new, outs) =
      (h, new, outs ∙ ap (λ (p : PhaseResult). p.outputs ++ new) v.result)

  numbered-Answers :
      (k : Key) (p : PhaseResult) (o : AgentOutput) → Answers k o → Answers k (numbered p o)
  unfolding numbered
  numbered-Answers k p o by = record {
    by = ground arith;
    in_round = ground arith;
    attempts = ground arith;
  }

  numbered-turn :
      (p : PhaseResult) (o : AgentOutput)
      → 0 < o.round
      → (numbered p o).deliberation_turn ≡ length p.outputs + 1
  unfolding numbered
  numbered-turn p o h = ground arith

  -- A turn with an answer, and what follows it.
  after_answer :
      (m : Message) (o : AgentOutput) (k : Key) (keys : List Key) (s t : Run)
      (r : Result (Unit {0})) (u : Run)
      → 0 < k.1
      → Answers k o
      → Untouched s t
      → Leaves [] keys (commit m o t).1 r u
      → Leaves [] (k ∷ keys) s r u
  unfolding commit add_output add_message
  after_answer m o k keys s t (ok _) u pos by v h = record {
    new = numbered t.result o ∷ h.new;
    failures = h.failures;
    outputs =
        h.outputs
        ∙ append_assoc t.result.outputs (numbered t.result o ∷ []) h.new
        ∙ ap (λ (p : PhaseResult). p.outputs ++ numbered t.result o ∷ h.new) v.result;
    failed_agents =
        h.failed_agents ∙ ap (λ (p : PhaseResult). p.failed_agents ++ h.failures) v.result;
    turns_taken = spoke (numbered-Answers k t.result o by) h.turns_taken;
    numbers = (
      numbered-turn t.result o (omega (arith, by.in_round))
          ∙ ap (λ (p : PhaseResult). length p.outputs + 1) v.result,
      subst (λ n. NumberedFrom n h.new)
          (omega (
            arith,
            length-append t.result.outputs (numbered t.result o ∷ []),
            ap (λ (p : PhaseResult). length p.outputs) v.result,
          ))
          h.numbers,
    );
    context =
        h.context
        ∙ ap
            (λ (c : Context).
              shown
                (append_under (numbered t.result o).agent_id (numbered t.result o) c.agent_outputs)
                h.new)
            v.context;
  }
  after_answer m o k keys s t (err e) u pos by v (h, new, outs) = (
    h,
    numbered t.result o ∷ new,
    outs
        ∙ append_assoc t.result.outputs (numbered t.result o ∷ []) new
        ∙ ap (λ (p : PhaseResult). p.outputs ++ numbered t.result o ∷ new) v.result,
  )

  abbrev Before : Agent → ℕ → String → Run → Result Item → Run → Type 0
  Before agent number prompt s r t =
      Good world policy rules agent prompt number s.result.phase_name s.result.mode s.context 1 s
        (r, t)

  pub after_turn :
      (agent : Agent) (number : ℕ) (prompt : String) (keys : List Key) (next : Exec Unit)
      (s t : Run) (r : Result Item)
      → 0 < number
      → Before agent number prompt s r t
      → Talks [] keys next
      → let end = and_then r (λ i. settle world policy rules source i >> next) t in
        Leaves [] ((agent.agent_id, number) ∷ keys) s end.0 end.1
  unfolding settle
  after_turn agent number prompt keys next s t (ok (accepted m o)) pos (h, v) k =
      after_answer m o (agent.agent_id, number) keys s t _ _ pos
        (record { by = h.2; in_round = h.3; attempts = h.5 }) v (k (commit m o t).1)
  after_turn agent number prompt keys next s t (ok (failure f)) pos (h, v) k =
      after_failure f (agent.agent_id, number) keys s t _ _ (h.0, h.1) v (k (add_failed f t))
  after_turn agent number prompt keys next s t (err e) pos (h, v) k =
      (h.0, [], ap (λ (p : PhaseResult). p.outputs) v.result ∙ sym (append-nil s.result.outputs))
