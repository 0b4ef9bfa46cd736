-- ===== src/Models/Registry/Coherent.antt =====
-- Which capabilities and quirks protoneo/llm/registry.py gives together.
use protoneo.Prelude.{
  String, ◌≡◌, refl, Bool, true, false, ◌&&◌, ◌||◌, Option, List, [], ◌∷◌, arith, ◌==◌,
}
use protoneo.Models.{
  structured_output, extended_thinking, reasoning_control, think_tags, thinking_tags,
  hidden_reasoning_field, reasoning_effort_none, strong, Capabilities, Quirks, ModelInfo,
}
use protoneo.Models.Registry.Info.{
  add_if, add_quirk_if, tag_capability, add_found, add_tags, tags_of, observed_capabilities,
  capabilities_for, quirks_for, structured_reliability_for, build_model_info,
}
use protoneo.Models.Registry.Entries.{Words, Endpoint, Benchmark, Entry}

tag-no_control :
    (tag : String) (s : Capabilities)
    → s reasoning_control ≡ false
    → add_found (tag_capability tag) s reasoning_control ≡ false
unfolding tag_capability
tag-no_control tag s h = ground (arith, h)

tags-no_control :
    (tags : List String) (s : Capabilities)
    → s reasoning_control ≡ false
    → add_tags tags s reasoning_control ≡ false
unfolding add_tags
tags-no_control [] s h = h
tags-no_control (t ∷ ts) s h =
    tags-no_control ts (add_found (tag_capability t) s) (tag-no_control t s h)

-- Sets in whose building every addition is of another element.
three_others :
    (a b c d : Bool) → a ≡ false → (((a || b && false) || c && false) || d && false) ≡ false
three_others a b c d h = ground (arith, h)

five_others :
    (b c d e f : Bool)
    → ((((b && false || c && false) || d && false) || e && false) || f && false) ≡ false
five_others b c d e f = ground arith

observed-no_control :
    (provider lower_id : String) (e : Entry) (b : Option Benchmark)
    → observed_capabilities provider lower_id e b reasoning_control ≡ false
unfolding observed_capabilities
observed-no_control provider lower_id e b =
    three_others _ _ _ _ (tags-no_control (tags_of b) _ (five_others _ _ _ _ _))

added-control :
    (openai : Bool) (found : Capabilities)
    → found reasoning_control ≡ false
    → add_if (openai && found extended_thinking) reasoning_control found reasoning_control ≡ (
        openai
        && add_if (openai && found extended_thinking) reasoning_control found extended_thinking)
added-control openai found h = ground (arith, h)

module _ (provider lower_id : String) (s : Capabilities) (b : Bool) where
  abbrev given : Quirks
  given = add_quirk_if b reasoning_effort_none (quirks_for provider lower_id s)

  given-hidden : given hidden_reasoning_field ≡ s extended_thinking
  unfolding quirks_for
  given-hidden = ground arith

  given-paired : given think_tags ≡ given thinking_tags
  unfolding quirks_for
  given-paired = ground arith

  given-tagged : given think_tags ≡ true → s extended_thinking ≡ true
  unfolding quirks_for
  given-tagged h = ground arith

reliability-strong :
    (e : Entry) (b : Option Benchmark) (s : Capabilities)
    → s structured_output ≡ true
    → structured_reliability_for e b s ≡ strong
unfolding structured_reliability_for
reliability-strong e b s h = rw h refl

-- What a model's capabilities and quirks have in common.
pub record Coherent (m : ModelInfo) : Type 0 where
  pub control :
      m.capabilities reasoning_control
      ≡ (m.provider == "openai" && m.capabilities extended_thinking)
  pub hidden : m.quirks hidden_reasoning_field ≡ m.capabilities extended_thinking
  pub paired : m.quirks think_tags ≡ m.quirks thinking_tags
  pub tagged : m.quirks think_tags ≡ true → m.capabilities extended_thinking ≡ true
  pub strong_for : m.capabilities structured_output ≡ true → m.structured_reliability ≡ strong

-- Every model built from the settings, and every fallback, has control of its reasoning if and only if
-- it is one of OpenAI's with extended thinking; its reasoning is hidden if and only if it has extended
-- thinking; it has both kinds of thinking tags or neither, and these only with extended thinking; with
-- the capability of structured output it counts as strong in it.
pub build-Coherent :
    (words : Words) (provider raw_id : String) (e : Entry) (b : Option Benchmark)
    (endpoint : Option Endpoint)
    → Coherent (build_model_info words provider raw_id e b endpoint)
unfolding build_model_info capabilities_for
build-Coherent words provider raw_id e b endpoint =
    let lower_id = words.lower raw_id in
    let s = capabilities_for provider lower_id e b in
    let lmstudio = e.metadata_source == "lmstudio" in
    record {
      control =
          added-control (provider == "openai") (observed_capabilities provider lower_id e b)
            (observed-no_control provider lower_id e b);
      hidden = given-hidden provider lower_id s lmstudio;
      paired = given-paired provider lower_id s lmstudio;
      tagged = given-tagged provider lower_id s lmstudio;
      strong_for = reliability-strong e b s;
    }
