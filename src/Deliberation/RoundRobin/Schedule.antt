-- ===== src/Deliberation/RoundRobin/Schedule.antt =====
-- The order of turns of RoundRobinPattern.execute in protoneo/deliberation/patterns.py as one list,
-- and the prefix of it that a resumed discussion reuses.
use protoneo.Prelude.{
  ℕ, zero, suc, ◌+◌, String, ◌≡◌, refl, sym, Bool, true, false, ◌&&◌, Option, none, some, List, [],
  ◌∷◌, ◌++◌, map, ◌=ℕ◌, if◌then◌else◌, ◌==◌,
}
use protoneo.Agents.{AgentOutput, Agent}
use protoneo.Deliberation.RoundRobin.{saved_at, rotated, with_turn, prefix_round, prefix_rounds}

-- A turn: who speaks, in which round.
abbrev pub Key : Type 0
Key = String × ℕ

abbrev pub same_key : Key → Key → Bool
same_key (id, n) (j, m) = id == j && n =ℕ m

abbrev pub round_keys : ℕ → List Agent → List Key
round_keys n agents = map (λ a. (a.agent_id, n)) agents

-- The turns of `left` rounds from round `number` on.
abbrev pub schedule : List Agent → (left number : ℕ) → List Key
schedule agents zero number = []
schedule agents (suc left) number =
    round_keys number (rotated agents number) ++ schedule agents left (number + 1)

abbrev pub with_saved : Option AgentOutput → List AgentOutput → List AgentOutput
with_saved (some o) rest = o ∷ rest
with_saved none rest = []

-- The outputs saved for the first turns, up to the first turn that has none.
abbrev pub leading : List AgentOutput → List Key → List AgentOutput
leading saved [] = []
leading saved ((id, n) ∷ keys) = with_saved (saved_at saved id n) (leading saved keys)

leading-round :
    (saved : List AgentOutput) (number : ℕ) (agents : List Agent) (rest : List Key)
    → let (found, gap) = prefix_round saved number agents in
      leading saved (round_keys number agents ++ rest)
      ≡ (if gap then found else found ++ leading saved rest)
unfolding prefix_round
leading-round saved number [] rest = refl
leading-round saved number (a ∷ agents) rest =
    grown (saved_at saved a.agent_id number) (prefix_round saved number agents) _ _
      (leading-round saved number agents rest)
  where
    grown :
        (found : Option AgentOutput) (later : List AgentOutput × Bool) (os ls : List AgentOutput)
        → os ≡ (if later.1 then later.0 else later.0 ++ ls)
        → with_saved found os ≡ (
            if (with_turn found later).1
            then (with_turn found later).0
            else (with_turn found later).0 ++ ls)
    grown none later os rest h = refl
    grown (some o) (found, true) os rest h = rw h
    grown (some o) (found, false) os rest h = rw h

-- The reused outputs are those of the longest run of turns, from the first one on, that are saved.
pub prefix_rounds-eq-leading :
    (saved : List AgentOutput) (agents : List Agent) (left number : ℕ)
    → prefix_rounds saved agents left number ≡ leading saved (schedule agents left number)
unfolding prefix_rounds
prefix_rounds-eq-leading saved agents zero number = refl
prefix_rounds-eq-leading saved agents (suc left) number =
    rw (prefix_rounds-eq-leading saved agents left (number + 1))
      (sym (leading-round saved number (rotated agents number) (schedule agents left (number + 1))))
