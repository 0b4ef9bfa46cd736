-- ===== src/Deliberation/RoundRobin.antt =====
-- RoundRobinPattern of protoneo/deliberation/patterns.py: a discussion in rounds, with a rotating
-- first speaker, that resumes from the accepted prefix of an interrupted discussion.
pub mod Schedule
pub mod Ahead
pub mod Rotation
pub mod Talked
pub mod Discussion
use protoneo.Prelude.{
  ℕ, zero, suc, ◌+◌, ◌-◌, ◌%◌, String, Bool, true, false, not, ◌&&◌, Option, none, some, List, [],
  ◌∷◌, ◌++◌, foldl, ◌=ℕ◌, if◌then◌else◌, length, take, drop, keep, any, ◌==◌,
}
use protoneo.Agents.{Message, AgentOutput, Agent}
use protoneo.Session.Context.{add_message, add_output}
use protoneo.Deliberation.Types.{Visibility, opened, blind, Rules, PhaseResult, Policy, World}
use protoneo.Deliberation.Exec.{
  round_start, round_complete, Run, zero_division, err, Exec, pure, ◌>>=◌, ◌>>◌, modify, emit,
}
use protoneo.Deliberation.Attempts.{Item, accepted, failure, run_agent}
use protoneo.Deliberation.Commit.{commit, add_failed}

-- The later of two entries of a dictionary under one key.
abbrev pub later_or : Option AgentOutput → Option AgentOutput → Option AgentOutput
later_or (some later) _ = some later
later_or none o = o

-- `{(o.agent_id, o.metadata.get("round")): o for o in outputs}.get((id, number))`
unfoldable pub saved_at : List AgentOutput → String → ℕ → Option AgentOutput
saved_at [] id number = none
saved_at (o ∷ os) id number =
    later_or (saved_at os id number)
      (if o.agent_id == id && o.round =ℕ number then some o else none)

-- `agents[offset:] + agents[:offset]` for `offset = (number - 1) % len(agents)`
unfoldable pub rotated : List Agent → ℕ → List Agent
rotated agents number =
    let offset = (number - 1) % length agents in drop offset agents ++ take offset agents

-- A turn of the search for the accepted prefix: a gap ends it.
abbrev pub with_turn : Option AgentOutput → List AgentOutput × Bool → List AgentOutput × Bool
with_turn (some o) (found, gap) = (o ∷ found, gap)
with_turn none _ = ([], true)

-- One round of the search: what it finds, and whether it came to a gap.
unfoldable pub prefix_round : List AgentOutput → ℕ → List Agent → List AgentOutput × Bool
prefix_round saved number [] = ([], false)
prefix_round saved number (a ∷ agents) =
    with_turn (saved_at saved a.agent_id number) (prefix_round saved number agents)

-- The rounds from `number` on, `left` of them; the first gap ends the search.
unfoldable pub prefix_rounds : List AgentOutput → List Agent → (left number : ℕ) → List AgentOutput
unfolding prefix_round saved_at rotated
prefix_rounds saved agents zero number = []
prefix_rounds saved agents (suc left) number =
    let (found, gap) = prefix_round saved number (rotated agents number) in
    let rest = prefix_rounds saved agents left (number + 1) in if gap then found else found ++ rest

abbrev pub has_agent : Option String → String → Bool
has_agent none id = false
has_agent (some a) id = a == id

-- `(m.agent_id, m.metadata.get("round")) in done`
unfoldable pub is_from : List AgentOutput → Message → Bool
is_from done m = any (λ o. has_agent m.agent_id o.agent_id && m.round =ℕ o.round) done

-- What `execute` drops from the saved phase before the discussion goes on.
unfoldable pub resumed : List AgentOutput → PhaseResult → PhaseResult
unfolding is_from
resumed prefix p = record p {
  outputs = prefix;
  messages = keep (is_from prefix) p.messages;
  failed_agents = [];
}

abbrev pub is_blind : Visibility → Bool
is_blind blind = true
is_blind opened = false

-- An accepted turn that is replayed into the context, with its messages.
unfoldable pub hydrated : AgentOutput → String → ℕ → Run → Run
hydrated o id number s = record s {
  context =
      foldl (λ c m. add_message m c) (add_output o s.context)
        (keep (λ m. has_agent m.agent_id id && m.round =ℕ number) s.result.messages);
}

module _ (world : World) (policy : Policy) (rules : Rules) (source : String) where
  unfoldable pub settle : Item → Exec Unit
  unfolding add_failed commit
  settle (failure f) = modify (add_failed f)
  settle (accepted m o) = commit m o

  -- A turn that has no accepted answer yet.
  unfoldable pub speak : ℕ → Agent → Exec Unit
  unfolding run_agent settle
  speak number agent s =
      (run_agent world policy rules agent
            (policy.discussion_prompt agent s.context source s.result.phase_name number
              (is_blind rules.visibility))
            number s.result.phase_name s.result.mode s.context
          >>= settle)
        s

  unfoldable pub turn : (done : List AgentOutput) → ℕ → Agent → Exec Unit
  unfolding speak hydrated saved_at
  turn done number agent = elim (saved_at done agent.agent_id number) [
    | some o ↦ modify (hydrated o agent.agent_id number)
    | none ↦ speak number agent
  ]

  unfoldable pub turns : (done : List AgentOutput) → ℕ → List Agent → Exec Unit
  unfolding turn
  turns done number [] = pure tt
  turns done number (a ∷ agents) = do turn done number a; turns done number agents

  unfoldable pub rounds : (done : List AgentOutput) → List Agent → (left number : ℕ) → Exec Unit
  unfolding turns rotated
  rounds done agents zero number = pure tt
  rounds done agents (suc left) number = do
    emit (round_start number)
    turns done number (rotated agents number)
    emit (round_complete number)
    rounds done agents left (number + 1)

  -- RoundRobinPattern.execute; `% len(agents)` raises where there is a round and no agent.
  unfoldable pub round_robin_execute : List Agent → Exec Unit
  unfolding prefix_rounds resumed rounds
  round_robin_execute agents s =
      if length agents =ℕ 0 && not (rules.max_rounds =ℕ 0)
      then (err zero_division, s)
      else let prefix = prefix_rounds s.result.outputs agents rules.max_rounds 1 in
        rounds prefix agents rules.max_rounds 1 (record s { result = resumed prefix s.result })
