-- ===== src/Deliberation/RoundRobin/Discussion.antt =====
-- What a discussion of RoundRobinPattern in protoneo/deliberation/patterns.py leaves: who spoke in
-- which turn, how the turns are numbered, and which outputs the context shows.
use protoneo.Prelude.{
  ℕ, zero, suc, ◌+◌, ◌<◌, String, ◌≡◌, refl, sym, false, not, ◌&&◌, List, [], ◌∷◌, ◌++◌, append-nil,
  arith, ◌=ℕ◌, length,
}
use protoneo.Agents.{AgentOutput, Agent}
use protoneo.Deliberation.Types.{Rules, Policy, World}
use protoneo.Deliberation.Exec.{
  Event, round_start, round_complete, Run, Result, ok, err, Exec, and_then, ◌>>◌, emit,
}
use protoneo.Deliberation.Attempts.{Item, run_agent}
use protoneo.Deliberation.Attempts.Contract.{run_agent-Good}
use protoneo.Deliberation.RoundRobin.{
  rotated, prefix_rounds, resumed, is_blind, hydrated, settle, speak, turn, turns, rounds,
  round_robin_execute,
}
use protoneo.Deliberation.RoundRobin.Schedule.{
  Key, round_keys, schedule, leading, prefix_rounds-eq-leading,
}
use protoneo.Deliberation.RoundRobin.Ahead.{Ahead, Ahead-leading}
use protoneo.Deliberation.RoundRobin.Rotation.{DistinctIds, schedule-Distinct}
use protoneo.Deliberation.RoundRobin.Talked.{
  hydrated-outputs, silent, Leaves, Talks, replayed, after_turn,
}

module _ (world : World) (policy : Policy) (rules : Rules) (source : String) where
  speak-Leaves :
      (agent : Agent) (number : ℕ) (keys : List Key) (next : Exec Unit) (s : Run)
      → 0 < number
      → Talks world policy rules source [] keys next
      → let end = (speak world policy rules source number agent >> next) s in
        Leaves world policy rules source [] ((agent.agent_id, number) ∷ keys) s end.0 end.1
  unfolding speak
  speak-Leaves agent number keys next s pos k =
      let prompt =
        policy.discussion_prompt agent s.context source s.result.phase_name number
          (is_blind rules.visibility) in
      let good =
        run_agent-Good world policy rules agent prompt number s.result.phase_name s.result.mode
          s.context s in
      let (r, t) =
        run_agent world policy rules agent prompt number s.result.phase_name s.result.mode s.context
          s in
      regrouped r t
        (after_turn world policy rules source agent number prompt keys next s t r pos good k)
    where
      regrouped :
          (r : Result Item) (t : Run)
          → (let end = and_then r (λ i. settle world policy rules source i >> next) t in
              Leaves world policy rules source [] ((agent.agent_id, number) ∷ keys) s end.0 end.1)
          → (let mid = and_then r (settle world policy rules source) t in
              let end = and_then mid.0 (λ _. next) mid.1 in
              Leaves world policy rules source [] ((agent.agent_id, number) ∷ keys) s end.0 end.1)
      regrouped (ok i) t h = h
      regrouped (err e) t h = h

  turn-Talks :
      (saved rest : List AgentOutput) (agent : Agent) (number : ℕ) (keys : List Key)
      (next : Exec Unit)
      → 0 < number
      → Ahead saved rest ((agent.agent_id, number) ∷ keys)
      → ((later : List AgentOutput)
          → Ahead saved later keys
          → Talks world policy rules source later keys next)
      → Talks world policy rules source rest
          ((agent.agent_id, number) ∷ keys)
          (turn world policy rules source saved number agent >> next)
  unfolding turn
  turn-Talks saved [] agent number keys next pos ahead k s =
      rw (ahead.0, turn) (speak-Leaves agent number keys next s pos (k [] ahead.1))
  turn-Talks saved (o ∷ rest) agent number keys next pos ahead k s =
      rw (ahead.0, turn)
        (replayed world policy rules source o rest (agent.agent_id, number) keys s
          (hydrated o agent.agent_id number s) _ _ refl (hydrated-outputs o agent.agent_id number s)
          (k rest ahead.1 (hydrated o agent.agent_id number s)))

  -- Events do not count.
  emitted :
      (rest : List AgentOutput) (keys : List Key) (e : Event) (next : Exec Unit)
      → Talks world policy rules source rest keys next
      → Talks world policy rules source rest keys (emit e >> next)
  emitted rest keys e next k s = moved (next s').0 (next s').1 (k s')
    where
      s' : Run
      s' = record s { events = s.events ++ e ∷ [] }

      moved :
          (r : Result (Unit {0})) (t : Run)
          → Leaves world policy rules source rest keys s' r t
          → Leaves world policy rules source rest keys s r t
      moved (ok _) t h = record {
        new = h.new;
        failures = h.failures;
        outputs = h.outputs;
        failed_agents = h.failed_agents;
        turns_taken = h.turns_taken;
        numbers = h.numbers;
        context = h.context;
      }
      moved (err _) t h = h

  then_assoc :
      (m n next : Exec Unit) (rest : List AgentOutput) (keys : List Key)
      → Talks world policy rules source rest keys (m >> (n >> next))
      → Talks world policy rules source rest keys ((m >> n) >> next)
  then_assoc m n next rest keys k s = grouped (m s).0 (m s).1 (k s)
    where
      grouped :
          (r : Result (Unit {0})) (t : Run)
          → (let end = and_then r (λ _. n >> next) t in
              Leaves world policy rules source rest keys s end.0 end.1)
          → (let mid = and_then r (λ _. n) t in
              let end = and_then mid.0 (λ _. next) mid.1 in
              Leaves world policy rules source rest keys s end.0 end.1)
      grouped (ok _) t h = h
      grouped (err e) t h = h

  turns-Talks :
      (saved : List AgentOutput) (number : ℕ) (agents : List Agent) (keys : List Key)
      (next : Exec Unit)
      → 0 < number
      → ((later : List AgentOutput)
          → Ahead saved later keys
          → Talks world policy rules source later keys next)
      → (rest : List AgentOutput) → Ahead saved rest (round_keys number agents ++ keys)
      → Talks world policy rules source rest
          (round_keys number agents ++ keys)
          (turns world policy rules source saved number agents >> next)
  unfolding turns
  turns-Talks saved number [] keys next pos k rest ahead s = k rest ahead s
  turns-Talks saved number (a ∷ agents) keys next pos k rest ahead s =
      then_assoc (turn world policy rules source saved number a)
        (turns world policy rules source saved number agents) next rest
        ((a.agent_id, number) ∷ (round_keys number agents ++ keys))
        (turn-Talks saved rest a number (round_keys number agents ++ keys)
          (turns world policy rules source saved number agents >> next) pos ahead
          (turns-Talks saved number agents keys next pos k))
        s

  rounds-Talks :
      (saved : List AgentOutput) (agents : List Agent) (left number : ℕ)
      → 0 < number
      → (rest : List AgentOutput) → Ahead saved rest (schedule agents left number)
      → Talks world policy rules source rest
          (schedule agents left number)
          (rounds world policy rules source saved agents left number)
  unfolding rounds
  rounds-Talks saved agents zero number pos [] ahead s = record {
    new = [];
    failures = [];
    outputs = sym (append-nil s.result.outputs);
    failed_agents = sym (append-nil s.result.failed_agents);
    turns_taken = silent;
    numbers = tt;
    context = refl;
  }
  rounds-Talks saved agents zero number pos (_ ∷ _) ahead s = elim ahead [ ]
  rounds-Talks saved agents (suc left) number pos rest ahead s =
      emitted rest (schedule agents (suc left) number) (round_start number)
        (turns world policy rules source saved number (rotated agents number)
          >> (emit (round_complete number)
              >> rounds world policy rules source saved agents left (number + 1)))
        (turns-Talks saved number (rotated agents number) (schedule agents left (number + 1))
          (emit (round_complete number)
            >> rounds world policy rules source saved agents left (number + 1))
          pos
          (λ later ahead'.
            emitted later (schedule agents left (number + 1)) (round_complete number)
              (rounds world policy rules source saved agents left (number + 1))
              (rounds-Talks saved agents left (number + 1) (omega arith) later ahead'))
          rest ahead)
        s

  -- The state in which the turns begin.
  abbrev pub opening : List Agent → Run → Run
  opening agents s = record s {
    result = resumed (prefix_rounds s.result.outputs agents rules.max_rounds 1) s.result;
  }

  -- A discussion of distinct agents takes up the longest run of turns that is saved. If it returns,
  -- each later turn of the schedule has an output or a failure, in order; the new outputs are
  -- numbered on from the reused ones; and the context's dictionary is the one it had, with the
  -- reused and then the new outputs added. If it raises, it was cancelled, and the reused outputs
  -- are still a prefix of the outputs.
  pub round_robin_execute-Leaves :
      (agents : List Agent) (s : Run)
      → DistinctIds agents
      → 0 < length agents
      → let end = round_robin_execute world policy rules source agents s in
        let keys = schedule agents rules.max_rounds 1 in
        Leaves world policy rules source
          (leading s.result.outputs keys)
          keys
          (opening agents s)
          end.0
          end.1
  unfolding round_robin_execute
  round_robin_execute-Leaves agents s distinct some_agent =
      let guarded : (length agents =ℕ 0 && not (rules.max_rounds =ℕ 0)) ≡ false = ground arith in
      let keys = schedule agents rules.max_rounds 1 in
      let ahead : Ahead (prefix_rounds s.result.outputs agents rules.max_rounds 1)
          (leading s.result.outputs keys) keys =
        rw (prefix_rounds-eq-leading s.result.outputs agents rules.max_rounds 1) (
          Ahead-leading s.result.outputs keys
            (schedule-Distinct agents rules.max_rounds 1 distinct)) in
      rw guarded (
        rounds-Talks (prefix_rounds s.result.outputs agents rules.max_rounds 1) agents
          rules.max_rounds 1 (omega arith) (leading s.result.outputs keys) ahead (opening agents s))
