-- ===== src/Models/Registry.antt =====
-- CapabilityRegistry of protoneo/llm/registry.py: how it is filled from the settings, and which model a
-- request gets; `endpoint_map` and `endpoint_alias_map` of protoneo/llm/settings.py. What is known of
-- a new model is in Registry/Info.
pub mod Entries
pub mod Info
pub mod Ids
pub mod Coherent
pub mod Indexed
pub mod Routing
pub mod Found
use protoneo.Prelude.{
  String, Bool, true, false, not, ◌&&◌, ◌||◌, Option, none, some, List, [], ◌∷◌, foldl,
  if◌then◌else◌, keep, all, find, ◌==◌, one_of, get_at, put_at, append_at, list_at, values, or_else,
  first_of,
}
use protoneo.Models.{Tier, is_local, same_tier, Capabilities, every_capability, ModelInfo}
use protoneo.Models.Registry.Info.{normalize, build_model_info}
use protoneo.Models.Registry.Entries.{
  Words, Endpoint, Benchmark, Entry, Settings, empty_entry, named_entry, benchmark_of,
  prefixed_model_id, raw_model_id, before_slash, after_slash,
}

-- `endpoint_map`: of two endpoints with one id the later stands.
unfoldable pub endpoint_map : List Endpoint → List (String × Endpoint)
endpoint_map es = foldl (λ d (e : Endpoint). put_at e.id e d) [] es

abbrev legacy_provider_ids : List (String × String)
legacy_provider_ids =
    ("zbook", "localhost-lmstudio")
    ∷ ("ollama", "localhost-ollama")
    ∷ ("mini", "lan-mini")
    ∷ ("dynamo", "lan-dynamo")
    ∷ []

-- `d.setdefault(key, x)`
unfoldable pub set_default : String → String → List (String × String) → List (String × String)
set_default key x d = elim (get_at key d) [ none ↦ put_at key x d | some y ↦ d ]

module _ (words : Words) where
  unfoldable pub endpoint_alias_map : List Endpoint → List (String × String)
  unfolding set_default
  endpoint_alias_map es =
      foldl
        (λ d (e : Endpoint). set_default (words.slugify e.display_name) e.id (put_at e.id e.id d))
        legacy_provider_ids es

pub record Store : Type 0 where
  pub models : List (String × ModelInfo)
  pub provider_models : List (String × List ModelInfo)
  pub raw_index : List (String × List ModelInfo)

-- What the registry keeps of the settings.
pub record Site : Type 0 where
  pub endpoints : List (String × Endpoint)
  pub provider_aliases : List (String × String)

abbrev pub empty_store : Store
empty_store = record { models = []; provider_models = []; raw_index = [] }

unfoldable pub raw_key : ModelInfo → String
raw_key m = raw_model_id m.provider m.model_id

unfoldable pub register : ModelInfo → Store → Store
unfolding raw_key
register m s = record {
  models = put_at m.model_id m s.models;
  provider_models = append_at m.provider m s.provider_models;
  raw_index = append_at (raw_key m) m s.raw_index;
}

-- `matches[0] if len(matches) == 1 else None`
unfoldable pub only_one {ℓ} : {A : Type ℓ} → List A → Option A
only_one [] = none
only_one (x ∷ []) = some x
only_one (x ∷ y ∷ xs) = none

-- `_LITELLM_PROVIDER.get(provider, provider)`
abbrev canonical_provider : String → String
canonical_provider p = if p == "ollama_chat" then "ollama" else p

module _ (words : Words) where
  unfoldable pub resolve_provider_alias : (provider requested : String) → Store → Option ModelInfo
  unfolding only_one
  resolve_provider_alias provider requested s =
      let candidates = list_at provider s.provider_models in
      first_of (find (λ m. raw_model_id provider m.model_id == requested) candidates) (
        only_one (
          keep
            (λ m. normalize words (raw_model_id provider m.model_id) == normalize words requested)
            candidates))

-- The provider that a request names, under its present id, and the rest of the request.
unfoldable pub mapped_provider : Site → String → String
mapped_provider site id =
    let p = canonical_provider (before_slash id) in or_else (get_at p site.provider_aliases) p

module _ (words : Words) where
  unfoldable pub fallback : Site → String → ModelInfo
  fallback site id =
      let p = mapped_provider site id in
      build_model_info words p (after_slash id) empty_entry none (get_at p site.endpoints)

  -- `get`: the id, the unique raw id, the id under the provider's present name, the provider's own
  -- models, and a model made for the request.
  unfoldable pub get : Site → String → Store → ModelInfo
  unfolding only_one
  get site id s =
      let p = mapped_provider site id in
      or_else
        (first_of (get_at id s.models) (
          first_of (only_one (list_at id s.raw_index)) (
            first_of (get_at (prefixed_model_id p (after_slash id)) s.models)
              (resolve_provider_alias words p (after_slash id) s))))
        (fallback site id)

  abbrev pub contains : String → Store → Bool
  contains id s = elim (get_at id s.models) [ none ↦ false | some m ↦ true ]

  unfoldable pub register_discovered :
      Site → List Benchmark → (bucket : String) → Entry → Store → Store
  register_discovered site benchmarks bucket e s =
      let provider = if e.source == "" then bucket else e.source in
      if provider == "" || e.id == ""
      then s
      else register
          (build_model_info words provider e.id e (benchmark_of provider e.id benchmarks)
            (get_at provider site.endpoints))
          s

  unfoldable pub register_active : Site → List Benchmark → (String × String) → Store → Store
  register_active site benchmarks (provider, raw_id) s =
      if raw_id == "" || contains (prefixed_model_id provider raw_id) s
      then s
      else register
          (build_model_info words provider raw_id (named_entry raw_id)
            (benchmark_of provider raw_id benchmarks) (get_at provider site.endpoints))
          s

  unfoldable pub site_of : Settings → Site
  unfolding endpoint_map endpoint_alias_map
  site_of settings = record {
    endpoints = endpoint_map settings.endpoints;
    provider_aliases = endpoint_alias_map words settings.endpoints;
  }

  unfoldable pub load_from_settings : Settings → Store
  unfolding register_discovered register_active
  load_from_settings settings =
      let site = site_of settings in
      let found =
        foldl
          (λ s (b : String × List Entry).
            foldl (λ t e. register_discovered site settings.benchmark_results b.0 e t) s b.1)
          empty_store settings.discovered_models in
      foldl (λ s a. register_active site settings.benchmark_results a s) found
        settings.active_models

-- `required <= m.capabilities`
abbrev pub has_all : Capabilities → Capabilities → Bool
has_all required have = all (λ c. not (required c && not (have c))) every_capability

unfoldable pub find_models : Capabilities → Store → List ModelInfo
find_models required s = keep (λ m. has_all required m.capabilities) (values s.models)

unfoldable pub find_by_tier : Tier → Store → List ModelInfo
find_by_tier tier s = keep (λ m. same_tier m.tier tier) (values s.models)

unfoldable pub find_available : (api_keys : List String) → Store → List ModelInfo
find_available api_keys s =
    keep (λ m. is_local m.tier || one_of api_keys m.provider) (values s.models)
