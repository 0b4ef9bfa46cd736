-- ===== src/Deliberation/RoundRobin/Rotation.antt =====
-- In a discussion of RoundRobinPattern in protoneo/deliberation/patterns.py no turn occurs twice.
use protoneo.Prelude.{
  ℕ, zero, suc, ◌+◌, ◌-◌, ◌%◌, ◌<◌, String, ◌≡◌, false, List, [], ◌∷◌, ◌++◌, arith, length, take,
  drop, All, take-append-drop, All-append, All-map, ◌==◌, eq_iff, Fresh, Distinct,
}
use protoneo.Agents.{Agent}
use protoneo.Deliberation.RoundRobin.{rotated}
use protoneo.Deliberation.RoundRobin.Schedule.{same_key, round_keys, schedule}

-- The agents of a phase are pairwise distinct, as `validate_config` demands.
abbrev pub FreshId : Agent → List Agent → Type 0
FreshId a = All (λ b. (a.agent_id == b.agent_id) ≡ false)

abbrev pub DistinctIds : List Agent → Type 0
DistinctIds [] = Unit
DistinctIds (a ∷ agents) = FreshId a agents × DistinctIds agents

-- Every agent of the first list differs from every agent of the second.
abbrev Apart : List Agent → List Agent → Type 0
Apart [] bs = Unit
Apart (a ∷ as') bs = FreshId a bs × Apart as' bs

Apart-snoc :
    (xs ys : List Agent) (y : Agent)
    → Apart xs (y ∷ ys)
    → All (λ x. (x.agent_id == y.agent_id) ≡ false) xs × Apart xs ys
Apart-snoc [] ys y h = (tt, tt)
Apart-snoc (x ∷ xs) ys y h = let r = Apart-snoc xs ys y h.1 in ((h.0.0, r.0), (h.0.1, r.1))

Apart-sym : (xs ys : List Agent) → Apart xs ys → Apart ys xs
Apart-sym xs [] h = tt
Apart-sym xs (y ∷ ys) h =
    let r = Apart-snoc xs ys y h in
    (
      All-map (λ x. (x.agent_id == y.agent_id) ≡ false) (λ x. (y.agent_id == x.agent_id) ≡ false) xs
          (λ x e. ground (arith, eq_iff x.agent_id y.agent_id, eq_iff y.agent_id x.agent_id)) r.0,
      Apart-sym xs ys r.1,
    )

FreshId-append :
    (a : Agent) (xs ys : List Agent) → FreshId a (xs ++ ys) → FreshId a xs × FreshId a ys
FreshId-append a [] ys h = (tt, h)
FreshId-append a (x ∷ xs) ys h = let r = FreshId-append a xs ys h.1 in ((h.0, r.0), r.1)

DistinctIds-split :
    (xs ys : List Agent) → DistinctIds (xs ++ ys) → DistinctIds xs × DistinctIds ys × Apart xs ys
DistinctIds-split [] ys h = (tt, h, tt)
DistinctIds-split (x ∷ xs) ys h =
    let f = FreshId-append x xs ys h.0 in
    let r = DistinctIds-split xs ys h.1 in ((f.0, r.0), r.1, (f.1, r.2))

DistinctIds-join :
    (xs ys : List Agent) → DistinctIds xs → DistinctIds ys → Apart xs ys → DistinctIds (xs ++ ys)
DistinctIds-join [] ys hx hy c = hy
DistinctIds-join (x ∷ xs) ys hx hy c = (
  All-append (λ b. (x.agent_id == b.agent_id) ≡ false) xs ys hx.0 c.0,
  DistinctIds-join xs ys hx.1 hy c.1,
)

-- A rotation has the same distinct agents.
rotated-DistinctIds :
    (agents : List Agent) (number : ℕ) → DistinctIds agents → DistinctIds (rotated agents number)
unfolding rotated
rotated-DistinctIds agents number d =
    let k = (number - 1) % length agents in
    let r = DistinctIds-split (take k agents) (drop k agents) (rw (take-append-drop k agents) d) in
    DistinctIds-join (drop k agents) (take k agents) r.1 r.0 (Apart-sym _ _ r.2)

-- Turns of an earlier round.
Fresh-round :
    (id : String) (n : ℕ) (agents : List Agent)
    → All (λ b. (id == b.agent_id) ≡ false) agents
    → Fresh same_key (id, n) (round_keys n agents)
Fresh-round id n [] h = tt
Fresh-round id n (a ∷ agents) h = (rw h.0, Fresh-round id n agents h.1)

Fresh-later_round :
    (id : String) (n m : ℕ) (agents : List Agent)
    → n < m
    → Fresh same_key (id, n) (round_keys m agents)
Fresh-later_round id n m [] h = tt
Fresh-later_round id n m (a ∷ agents) h = (ground arith, Fresh-later_round id n m agents h)

Fresh-schedule :
    (id : String) (n : ℕ) (agents : List Agent) (left m : ℕ)
    → n < m
    → Fresh same_key (id, n) (schedule agents left m)
Fresh-schedule id n agents zero m h = tt
Fresh-schedule id n agents (suc left) m h =
    All-append (λ k'. same_key (id, n) k' ≡ false) (round_keys m (rotated agents m))
      (schedule agents left (m + 1)) (Fresh-later_round id n m (rotated agents m) h)
      (Fresh-schedule id n agents left (m + 1) (omega arith))

Distinct-round :
    (n : ℕ) (agents all_agents : List Agent) (left : ℕ)
    → DistinctIds agents
    → Distinct same_key (schedule all_agents left (n + 1))
    → Distinct same_key (round_keys n agents ++ schedule all_agents left (n + 1))
Distinct-round n [] all_agents left d h = h
Distinct-round n (a ∷ agents) all_agents left d h = (
  All-append (λ k'. same_key (a.agent_id, n) k' ≡ false) (round_keys n agents)
      (schedule all_agents left (n + 1)) (Fresh-round a.agent_id n agents d.0)
      (Fresh-schedule a.agent_id n all_agents left (n + 1) (omega arith)),
  Distinct-round n agents all_agents left d.1 h,
)

-- With distinct agents no turn occurs twice.
pub schedule-Distinct :
    (agents : List Agent) (left number : ℕ)
    → DistinctIds agents
    → Distinct same_key (schedule agents left number)
schedule-Distinct agents zero number d = tt
schedule-Distinct agents (suc left) number d =
    Distinct-round number (rotated agents number) agents left (rotated-DistinctIds agents number d)
      (schedule-Distinct agents left (number + 1) d)
