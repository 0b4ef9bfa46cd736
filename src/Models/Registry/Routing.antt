-- ===== src/Models/Registry/Routing.antt =====
-- Which model a request gets from the registry of protoneo/llm/registry.py.
use protoneo.Prelude.{
  String, ◌≡◌, Bool, true, false, Option, none, List, [], ◌∷◌, keep, All, ◌==◌, get_at, list_at,
  first_of,
}
use protoneo.Models.{ModelInfo}
use protoneo.Models.Registry.{
  Store, Site, raw_key, only_one, resolve_provider_alias, mapped_provider,
}
use protoneo.Models.Registry.Info.{normalize}
use protoneo.Models.Registry.Indexed.{Indexed}
use protoneo.Models.Registry.Entries.{Words, prefixed_model_id, raw_model_id, after_slash}

-- Whether a list has one element.
abbrev pub is_single {ℓ} : {A : Type ℓ} → List A → Bool
is_single [] = false
is_single (x ∷ []) = true
is_single (x ∷ y ∷ xs) = false

-- What the model's id has to do with the request: it is the request; it is the request with some
-- provider's name before it, and is the only such model; it is the request under its provider's present
-- name, registered or, where none of the others is there, made up; or the model is one of that provider's, and its own name is the request's, or is the only one
-- of the provider's that agrees with the request's but for case and signs.
pub data Routed (words : Words) (site : Site) (id : String) (s : Store) (m : ModelInfo)
    : Type 0 where
  exact : m.model_id ≡ id → Routed words site id s m
  raw :
      get_at id s.models ≡ none
      → raw_key m ≡ id
      → list_at id s.raw_index ≡ m ∷ []
      → Routed words site id s m
  renamed :
      get_at id s.models ≡ none
      → m.model_id ≡ prefixed_model_id (mapped_provider site id) (after_slash id)
      → Routed words site id s m
  named :
      get_at id s.models ≡ none
      → m.provider ≡ mapped_provider site id
      → raw_key m ≡ after_slash id
      → Routed words site id s m
  formatted :
      get_at id s.models ≡ none
      → m.provider ≡ mapped_provider site id
      → keep
          (λ n.
            normalize words (raw_model_id (mapped_provider site id) n.model_id)
            == normalize words (after_slash id))
          (list_at (mapped_provider site id) s.provider_models)
        ≡ m ∷ []
      → Routed words site id s m
  made_up :
      get_at id s.models ≡ none
      → is_single (list_at id s.raw_index) ≡ false
      → get_at (prefixed_model_id (mapped_provider site id) (after_slash id)) s.models ≡ none
      → All
          (λ n. (raw_model_id (mapped_provider site id) n.model_id == after_slash id) ≡ false)
          (list_at (mapped_provider site id) s.provider_models)
      → is_single (
          keep
            (λ n.
              normalize words (raw_model_id (mapped_provider site id) n.model_id)
              == normalize words (after_slash id))
            (list_at (mapped_provider site id) s.provider_models))
        ≡ false
      → m.model_id ≡ prefixed_model_id (mapped_provider site id) (after_slash id)
      → Routed words site id s m

module _ (words : Words) (site : Site) (id : String) (s : Store) (h : Indexed s) where
  abbrev candidates : List ModelInfo
  candidates = list_at (mapped_provider site id) s.provider_models

  -- The look-ups of the registry, one after another.
  abbrev found : Option ModelInfo
  found = first_of (get_at id s.models) (
      first_of (only_one (list_at id s.raw_index)) (
        first_of (get_at (prefixed_model_id (mapped_provider site id) (after_slash id)) s.models)
          (resolve_provider_alias words (mapped_provider site id) (after_slash id) s)))
