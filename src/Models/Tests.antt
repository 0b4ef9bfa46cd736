-- ===== src/Models/Tests.antt =====
-- A small set of settings of protoneo/llm, and the theorems at it.
use protoneo.Prelude.{
  String, ◌≡◌, refl, true, false, none, some, [], ◌∷◌, get_at, put_at, append_at, list_at,
}
use protoneo.Models.{extended_thinking, ModelInfo}
use protoneo.Models.Policies.{fast_structured, phase_policy, evaluate_model_for_policy}
use protoneo.Models.Policies.Ranked.{Below, reasoning-Below}
use protoneo.Models.Registry.{
  endpoint_map, set_default, endpoint_alias_map, Store, Site, raw_key, register, only_one,
  resolve_provider_alias, mapped_provider, fallback, get, register_discovered, register_active,
  site_of, load_from_settings,
}
use protoneo.Models.Registry.Info.{
  has_hint, starts_with_one, add_tags, observed_capabilities, capabilities_for, normalize,
  build_model_info,
}
use protoneo.Models.Registry.Coherent.{Coherent, build-Coherent}
use protoneo.Models.Registry.Entries.{
  Words, Endpoint, Entry, Settings, empty_entry, benchmark_of, prefixed_model_id, raw_model_id,
  before_slash, after_slash, alphanumerics,
}

abbrev words : Words
words = record { lower = λ text. text; slugify = λ text. text }

abbrev endpoint : Endpoint
endpoint = record {
  id = "lan-mini";
  display_name = "Mini";
  url = "http://mini:1234";
  kind = "openai";
}

abbrev qwen : Entry
qwen = record empty_entry { id = "qwen-i1"; source = "lan-mini" }

abbrev llama : Entry
llama = record empty_entry { id = "llama.8b"; source = ""; tools = true }

abbrev settings : Settings
settings = record {
  endpoints = endpoint ∷ [];
  discovered_models = ("lan-mini", qwen ∷ llama ∷ []) ∷ [];
  active_models = ("openai", "gpt-5") ∷ [];
  benchmark_results = [];
}

abbrev site : Site
site = site_of words settings

abbrev store : Store
store = load_from_settings words settings

abbrev info : String → ModelInfo
info id = get words site id store

routed :
    ((info "mini/llama8b").model_id ≡ "lan-mini/llama.8b")
    × ((info "qwen-i1").model_id ≡ "lan-mini/qwen-i1")
unfolding site_of endpoint_map endpoint_alias_map set_default load_from_settings register_discovered
    register_active register raw_key get resolve_provider_alias only_one fallback mapped_provider
    build_model_info put_at get_at append_at list_at prefixed_model_id raw_model_id before_slash
    after_slash normalize alphanumerics benchmark_of
routed = (refl, refl)

abbrev thinker : ModelInfo
thinker = build_model_info words "lan-mini" "qwen-i1" qwen none (some endpoint)

abbrev other : ModelInfo
other = build_model_info words "lan-mini" "llama.8b" llama none (some endpoint)

of_thinking :
    (thinker.capabilities extended_thinking ≡ true) × (other.capabilities extended_thinking ≡ false)
unfolding build_model_info capabilities_for observed_capabilities add_tags has_hint starts_with_one
of_thinking = (refl, refl)

refuses : (phase_policy fast_structured).allow_reasoning ≡ false
unfolding phase_policy
refuses = refl

prefers : (phase_policy fast_structured).prefer_non_reasoning ≡ true
unfolding phase_policy
prefers = refl

reasoning-Below_example :
    Below
      (evaluate_model_for_policy none (phase_policy fast_structured) thinker).score
      (evaluate_model_for_policy none (phase_policy fast_structured) other).score
reasoning-Below_example =
    reasoning-Below (phase_policy fast_structured) thinker other refuses prefers of_thinking.0
      of_thinking.1

build-Coherent_example :
    Coherent (build_model_info words "lan-mini" "qwen-i1" qwen none (some endpoint))
build-Coherent_example = build-Coherent words "lan-mini" "qwen-i1" qwen none (some endpoint)
