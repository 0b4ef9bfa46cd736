-- ===== src/Models/Policies/Ranked.antt =====
-- How protoneo/llm/policies.py ranks the models for a phase that wants no reasoning.
use protoneo.Prelude.{◌+◌, ◌*◌, ◌≤◌, ◌<◌, ◌≡◌, true, false, none, List, [], ◌∷◌, arith, length}
use protoneo.Models.{Capability, extended_thinking, Capabilities, every_capability, ModelInfo}
use protoneo.Models.Policies.{
  Policy, Score, preferred_points, speed_points, model_score, evaluate_model_for_policy,
}

-- The first score is less than the second.
abbrev pub Below : Score → Score → Type 0
Below a b = a.added + b.taken < b.added + a.taken

preferred_points-le :
    (preferred have : Capabilities) (cs : List Capability)
    → preferred_points preferred have cs ≤ length cs * 3072000
unfolding preferred_points
preferred_points-le preferred have [] = omega arith
preferred_points-le preferred have (c ∷ cs) = ground (arith, preferred_points-le preferred have cs)

speed_points-le : (p : Policy) (m : ModelInfo) → speed_points p m ≤ 5120000
unfolding speed_points
speed_points-le p m = ground arith

-- At most 101 points are added for a reasoning model where the policy refuses reasoning.
added-le :
    (p : Policy) (m : ModelInfo)
    → p.allow_reasoning ≡ false
    → m.capabilities extended_thinking ≡ true
    → (model_score p m).added ≤ 25856000
unfolding model_score
added-le p m refuses thinks = ground (
  arith,
  refuses,
  thinks,
  preferred_points-le p.preferred m.capabilities every_capability,
  speed_points-le p m,
)

taken-eq :
    (p : Policy) (m : ModelInfo)
    → p.allow_reasoning ≡ false
    → m.capabilities extended_thinking ≡ true
    → (model_score p m).taken ≡ 25600000
unfolding model_score
taken-eq p m refuses thinks = ground (arith, refuses, thinks)

plain-ge :
    (p : Policy) (m : ModelInfo)
    → p.prefer_non_reasoning ≡ true
    → m.capabilities extended_thinking ≡ false
    → 7680000 ≤ (model_score p m).added
unfolding model_score
plain-ge p m prefers plain = ground (arith, prefers, plain)

plain-taken :
    (p : Policy) (m : ModelInfo)
    → m.capabilities extended_thinking ≡ false
    → (model_score p m).taken ≡ 0
unfolding model_score
plain-taken p m plain = ground (arith, plain)

-- Under every policy that refuses reasoning and prefers models without it, a reasoning model scores
-- below every model without reasoning, whatever the speed, the context and the other capabilities of
-- the two are.
pub reasoning-Below :
    (p : Policy) (thinker other : ModelInfo)
    → p.allow_reasoning ≡ false
    → p.prefer_non_reasoning ≡ true
    → thinker.capabilities extended_thinking ≡ true
    → other.capabilities extended_thinking ≡ false
    → Below
        (evaluate_model_for_policy none p thinker).score
        (evaluate_model_for_policy none p other).score
unfolding evaluate_model_for_policy
reasoning-Below p thinker other refuses prefers thinks plain = omega (
  arith,
  added-le p thinker refuses thinks,
  taken-eq p thinker refuses thinks,
  plain-ge p other prefers plain,
  plain-taken p other plain,
)
