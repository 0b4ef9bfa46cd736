-- ===== src/Models/Policies.antt =====
-- protoneo/llm/policies.py: what a phase asks of a model, and how well a model answers it.
-- Scores are exact here, in parts of 256,000, where the code adds floats; the sampling parameters of a
-- policy, its description and its warning are not read by the evaluation and not modelled.
pub mod Ranked
pub mod Refusals
use protoneo.Prelude.{
  ℕ, ◌+◌, ◌*◌, min, String, Bool, true, false, not, ◌&&◌, ◌||◌, Option, none, some, List, [], ◌∷◌,
  ◌++◌, map, ltb, if◌then◌else◌, keep, ◌==◌, one_of, is_empty,
}
use protoneo.Models.{
  Capability, vision, structured_output, function_calling, streaming, extended_thinking, is_local,
  Capabilities, same_capability, every_capability, capability_value, ModelInfo,
}

pub data Label : Type 0 where
  fast_structured vision_extract deep_review meta_synthesis tool_using : Label

pub record Policy : Type 0 where
  pub label : Label
  pub required : Capabilities
  pub preferred : Capabilities
  pub allow_reasoning : Bool
  pub prefer_non_reasoning : Bool
  pub require_local : Bool
  pub prefer_local : Bool
  pub prefer_fast : Bool

abbrev no_capability : Capabilities
no_capability c = false

abbrev only : Capability → Capabilities
only c d = same_capability c d

abbrev both : Capability → Capability → Capabilities
both a b c = same_capability a c || same_capability b c

unfoldable pub phase_policy : Label → Policy
phase_policy fast_structured = record {
  label = fast_structured;
  required = no_capability;
  preferred = only structured_output;
  allow_reasoning = false;
  prefer_non_reasoning = true;
  require_local = true;
  prefer_local = false;
  prefer_fast = true;
}
phase_policy vision_extract = record {
  label = vision_extract;
  required = only vision;
  preferred = only structured_output;
  allow_reasoning = false;
  prefer_non_reasoning = true;
  require_local = false;
  prefer_local = false;
  prefer_fast = true;
}
phase_policy deep_review = record {
  label = deep_review;
  required = no_capability;
  preferred = both structured_output extended_thinking;
  allow_reasoning = true;
  prefer_non_reasoning = false;
  require_local = false;
  prefer_local = false;
  prefer_fast = false;
}
phase_policy meta_synthesis = record {
  label = meta_synthesis;
  required = no_capability;
  preferred = both structured_output extended_thinking;
  allow_reasoning = true;
  prefer_non_reasoning = false;
  require_local = false;
  prefer_local = false;
  prefer_fast = false;
}
phase_policy tool_using = record {
  label = tool_using;
  required = only function_calling;
  preferred = only streaming;
  allow_reasoning = true;
  prefer_non_reasoning = false;
  require_local = false;
  prefer_local = false;
  prefer_fast = false;
}

-- `PhasePolicyLabel(text)`
unfoldable pub label_of : String → Option Label
label_of text =
    if text == "fast_structured"
    then some fast_structured
    else if text == "vision_extract"
    then some vision_extract
    else if text == "deep_review"
    then some deep_review
    else if text == "meta_synthesis"
    then some meta_synthesis
    else if text == "tool_using"
    then some tool_using
    else none

abbrev policy_at : Option Label → Option Policy
policy_at none = none
policy_at (some l) = some (phase_policy l)

unfoldable pub policy_for_label : Option String → Option Policy
unfolding label_of phase_policy
policy_for_label none = none
policy_for_label (some text) = policy_at (label_of text)

abbrev graph_phases : List String
graph_phases = "ontology" ∷ "extraction" ∷ "coref" ∷ "verification" ∷ "graph" ∷ []

abbrev meta_phases : List String
meta_phases = "meta" ∷ "meta_reviewer" ∷ "pc_chair" ∷ "final_synthesis" ∷ []

-- `key` is the phase's key in lower case.
unfoldable pub policy_for_phase : (tools : Bool) → (key : String) → Policy
unfolding phase_policy
policy_for_phase tools key =
    if tools
    then phase_policy tool_using
    else if one_of graph_phases key
    then phase_policy fast_structured
    else if one_of meta_phases key
    then phase_policy meta_synthesis
    else phase_policy deep_review

-- A reason against a model.
pub data Reason : Type 0 where
  missing_capabilities : List String → Reason
  requires_local : Reason

-- A score that can be negative: what was added, and what was taken off.
pub record Score : Type 0 where
  pub added : ℕ
  pub taken : ℕ

pub record Evaluation : Type 0 where
  pub hard_ok : Bool
  pub soft_ok : Bool
  pub reasons : List Reason
  pub warned : Bool
  pub score : Score

-- `sorted(cap.value for cap in required if cap not in model.capabilities)`
unfoldable pub missing : Capabilities → Capabilities → List String
missing required have =
    map capability_value (keep (λ c. required c && not (have c)) every_capability)

unfoldable pub reasons_against : (local_required : Bool) → Policy → ModelInfo → List Reason
unfolding missing
reasons_against local_required p m =
    let lacks = missing p.required m.capabilities in
    (if is_empty lacks then [] else missing_capabilities lacks ∷ [])
    ++ (if local_required && not (is_local m.tier) then requires_local ∷ [] else [])

-- Twelve points for every preferred capability that the model has.
unfoldable pub preferred_points : Capabilities → Capabilities → List Capability → ℕ
preferred_points preferred have [] = 0
preferred_points preferred have (c ∷ cs) =
    (if preferred c && have c then 12 * 256000 else 0) + preferred_points preferred have cs

unfoldable pub speed_points : Policy → ModelInfo → ℕ
speed_points p m =
    if p.prefer_fast
    then (if ltb 0 m.speed_tps
        then min m.speed_tps 200 * 25600
        else if m.capabilities extended_thinking
        then 0
        else 5 * 256000)
    else 0

unfoldable pub model_score : Policy → ModelInfo → Score
unfolding preferred_points speed_points
model_score p m =
    let reasoning = m.capabilities extended_thinking in
    record {
      added =
          (if reasoning
            then (if p.allow_reasoning then 20 * 256000 else 0)
            else if p.prefer_non_reasoning
            then 30 * 256000
            else 0)
          + (preferred_points p.preferred m.capabilities every_capability
              + ((if p.prefer_local && is_local m.tier then 8 * 256000 else 0)
                  + (speed_points p m + min m.max_context 256000)));
      taken = if reasoning && not p.allow_reasoning then 100 * 256000 else 0;
    }

-- `require_local` given by the caller goes before the policy's own.
unfoldable pub evaluate_model_for_policy :
    (require_local : Option Bool) → Policy → ModelInfo → Evaluation
unfolding reasons_against model_score
evaluate_model_for_policy asked p m =
    let local_required : Bool = elim asked [ none ↦ p.require_local | some b ↦ b ] in
    let reasons = reasons_against local_required p m in
    let refused = m.capabilities extended_thinking && not p.allow_reasoning in
    record {
      hard_ok = is_empty reasons;
      soft_ok = not refused;
      reasons = reasons;
      warned = refused;
      score = model_score p m;
    }
