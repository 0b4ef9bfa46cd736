-- ===== src/Models/Registry/Info.antt =====
-- What protoneo/llm/registry.py knows of a model that it builds from an entry of the settings:
-- `_build_model_info` and the static methods that it calls.
use protoneo.Models.{structured_output, vision}
use protoneo.Prelude.{
  ℕ, String, Bool, true, false, not, ◌&&◌, ◌||◌, Option, none, some, List, [], ◌∷◌, ltb, leb,
  if◌then◌else◌, any, ◌+s◌, ◌==◌, one_of,
}
use protoneo.Models.{
  Capability, function_calling, streaming, extended_thinking, reasoning_control, Quirk, think_tags,
  thinking_tags, reasoning_content_field, hidden_reasoning_field, reasoning_effort_none,
  Reliability, undetermined, basic, strong, Latency, unrated, fast, balanced, slow, Tier, local,
  cloud_free, cloud_api, subscription, Capabilities, Quirks, same_capability, same_quirk, ModelInfo,
}
use protoneo.Models.Registry.Entries.{
  Words, Endpoint, Benchmark, Entry, prefixed_model_id, alphanumerics, entry_context_length,
}
use text.Mathlib.Text.{starts_with, find?}

unfoldable pub has_hint : List String → String → Bool
has_hint hints text = any (λ h. elim (find? text h) [ none ↦ false | some i ↦ true ]) hints

unfoldable pub starts_with_one : List String → String → Bool
starts_with_one starts text = any (λ h. starts_with text h) starts

-- `if b: capabilities.add(c)`
abbrev pub add_if : Bool → Capability → Capabilities → Capabilities
add_if b c s d = s d || (b && same_capability c d)

abbrev pub add_quirk_if : Bool → Quirk → Quirks → Quirks
add_quirk_if b c s d = s d || (b && same_quirk c d)

unfoldable pub tag_capability : String → Option Capability
tag_capability tag =
    if tag == "structured"
    then some structured_output
    else if tag == "reasoning"
    then some extended_thinking
    else if tag == "tool-use" || tag == "tools"
    then some function_calling
    else if tag == "vision"
    then some vision
    else none

abbrev pub add_found : Option Capability → Capabilities → Capabilities
add_found none s = s
add_found (some c) s = add_if true c s

unfoldable pub add_tags : List String → Capabilities → Capabilities
unfolding tag_capability
add_tags [] s = s
add_tags (t ∷ ts) s = add_tags ts (add_found (tag_capability t) s)

abbrev pub tags_of : Option Benchmark → List String
tags_of none = []
tags_of (some b) = b.tags

-- Before the last test of `_capabilities_for`, with the model's id in lower case.
unfoldable pub observed_capabilities :
    (provider lower_id : String) → Entry → Option Benchmark → Capabilities
unfolding add_tags
observed_capabilities provider lower_id e b =
    let text = not (has_hint ("embedding" ∷ "embed" ∷ []) lower_id) in
    let calls = one_of ("openai" ∷ "openrouter" ∷ []) provider in
    let sees = has_hint ("vision" ∷ "vl" ∷ "omni" ∷ "gpt-4.1" ∷ "ocr" ∷ []) lower_id in
    let reasons =
      has_hint ("reason" ∷ "thinking" ∷ "deepseek-r1" ∷ "nemotron-cascade" ∷ "-i1" ∷ "_i1" ∷ [])
        lower_id
      || (has_hint ("qwen" ∷ []) lower_id && has_hint ("i1" ∷ []) lower_id) in
    let openai_reasons =
      provider == "openai"
      && (starts_with_one ("gpt-5" ∷ "o1" ∷ "o3" ∷ "o4" ∷ []) lower_id
          || has_hint ("codex" ∷ []) lower_id) in
    let start : Capabilities = λ c. false in
    let named = add_if sees vision (add_if calls function_calling (add_if text streaming start)) in
    let listed = add_if e.tools function_calling (add_if e.has_vision vision named) in
    add_if openai_reasons extended_thinking (
      add_if reasons extended_thinking
        (add_if e.reasoning extended_thinking (add_tags (tags_of b) listed)))

unfoldable pub capabilities_for :
    (provider lower_id : String) → Entry → Option Benchmark → Capabilities
unfolding observed_capabilities
capabilities_for provider lower_id e b =
    let found = observed_capabilities provider lower_id e b in
    add_if (provider == "openai" && found extended_thinking) reasoning_control found

unfoldable pub quirks_for : (provider lower_id : String) → Capabilities → Quirks
quirks_for provider lower_id capabilities =
    let thinks = capabilities extended_thinking in
    let tagged =
      thinks && has_hint ("qwen" ∷ "deepseek" ∷ "nemotron" ∷ "reason" ∷ "i1" ∷ []) lower_id in
    let cloud = thinks && one_of ("openai" ∷ "openrouter" ∷ []) provider in
    let start : Quirks = λ q. false in
    add_quirk_if tagged thinking_tags (
      add_quirk_if tagged think_tags (
        add_quirk_if cloud reasoning_content_field
          (add_quirk_if thinks hidden_reasoning_field start)))

unfoldable pub litellm_model : (provider raw_id : String) → Option Endpoint → Option String
litellm_model provider raw_id (some e) =
    some ((if e.kind == "ollama" then "ollama_chat" else "openai") +s "/" +s raw_id)
litellm_model provider raw_id none =
    if provider == "openrouter"
    then some ("openrouter/" +s raw_id)
    else if provider == "openai"
    then some raw_id
    else none

unfoldable pub tier_for : (provider : String) → Entry → Option Endpoint → Tier
tier_for provider e (some endpoint) = local
tier_for provider e none =
    if provider == "openrouter"
    then (if e.is_free then cloud_free else cloud_api)
    else if e.provider_type == "subscription"
    then subscription
    else cloud_api

abbrev pub valid_json : Option Benchmark → Bool
valid_json none = false
valid_json (some b) = b.output_valid_json

unfoldable pub structured_reliability_for : Entry → Option Benchmark → Capabilities → Reliability
structured_reliability_for e b capabilities =
    if capabilities structured_output || (e.has_structured_output || e.json_schema)
    then strong
    else if valid_json b
    then basic
    else undetermined

unfoldable pub latency_class_for : (speed_tps : ℕ) → (lower_id : String) → Latency
latency_class_for speed_tps lower_id =
    if leb 80 speed_tps
    then fast
    else if leb 25 speed_tps
    then balanced
    else if ltb 0 speed_tps
    then slow
    else if has_hint ("120b" ∷ "70b" ∷ "405b" ∷ "opus" ∷ "reason" ∷ []) lower_id
    then slow
    else if has_hint ("mini" ∷ "nano" ∷ "8b" ∷ "4b" ∷ "3b" ∷ []) lower_id
    then fast
    else unrated

abbrev pub speed_of : Option Benchmark → ℕ
speed_of none = 0
speed_of (some b) = b.tokens_per_second

abbrev pub url_of : Option Endpoint → Option String
url_of none = none
url_of (some e) = some e.url

module _ (words : Words) where
  unfoldable pub normalize : String → String
  normalize text = alphanumerics (words.lower text)

  unfoldable pub build_model_info :
      (provider raw_id : String) → Entry → Option Benchmark → Option Endpoint → ModelInfo
  build_model_info provider raw_id e b endpoint =
      let lower_id = words.lower raw_id in
      let capabilities = capabilities_for provider lower_id e b in
      record {
        model_id = prefixed_model_id provider raw_id;
        provider = provider;
        litellm_model = litellm_model provider raw_id endpoint;
        api_base = url_of endpoint;
        capabilities = capabilities;
        quirks =
            add_quirk_if (e.metadata_source == "lmstudio") reasoning_effort_none
              (quirks_for provider lower_id capabilities);
        max_context = entry_context_length e.contexts;
        speed_tps = speed_of b;
        latency_class = latency_class_for (speed_of b) lower_id;
        structured_reliability = structured_reliability_for e b capabilities;
        tier = tier_for provider e endpoint;
      }
