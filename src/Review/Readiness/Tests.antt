-- ===== src/Review/Readiness/Tests.antt =====
-- A panel of two on one endpoint, by apps/paper_review/readiness.py.
use protoneo.Prelude.{
  String, ◌≡◌, refl, ◌↔◌, true, false, List, [], ◌∷◌, get_at, put_at, list_at, first_of,
}
use protoneo.Models.Registry.{
  endpoint_map, endpoint_alias_map, resolve_provider_alias, mapped_provider, fallback, get,
}
use protoneo.Models.Registry.Info.{build_model_info}
use protoneo.Models.Registry.Entries.{Words, Endpoint, before_slash}
use protoneo.Review.Readiness.{
  Host, no_model, shared_model, without_graph, assigned, reviewers_of, share_one_model,
  provider_is_enabled, is_reachable, blockers_in, review_readiness,
}
use protoneo.Review.Readiness.Startable.{UsableIfThere, review_readiness-ready}

abbrev words : Words
words = record { lower = λ text. text; slugify = λ text. text }

abbrev mini : Endpoint
mini = record { id = "mini-llm"; display_name = "Mini"; url = "http://mini:1234"; kind = "openai" }

abbrev host : Host
host = record {
  words = words;
  endpoints = mini ∷ [];
  is_endpoint_enabled = λ e. true;
  provider_enabled = [];
  site = record { endpoints = ("mini-llm", mini) ∷ []; provider_aliases = [] };
  store = record { models = []; provider_models = []; raw_index = [] };
  catalog = [];
  has_settings = [];
  has_key = λ provider. false;
}

abbrev panel : List (String × String)
panel = ("area", "mini-llm/qwen") ∷ ("methods", "mini-llm/qwen") ∷ ("meta", "mini-llm/qwen") ∷ []

abbrev unassigned : List (String × String)
unassigned = ("area", "mini-llm/qwen") ∷ ("meta", "") ∷ []

-- Two reviewers with two rounds take 2 * 3 + 1 turns, and share a model.
turns_of_panel : (review_readiness host panel [] true false 2).review_turns ≡ 7
unfolding review_readiness reviewers_of
turns_of_panel = refl

warnings_of_panel :
    (review_readiness host panel [] true false 2).warnings ≡ shared_model ∷ without_graph ∷ []
unfolding review_readiness reviewers_of share_one_model
warnings_of_panel = refl

blocked : (review_readiness host unassigned [] true false 2).blockers ≡ no_model "meta" ∷ []
unfolding review_readiness assigned blockers_in provider_is_enabled is_reachable endpoint_map
    endpoint_alias_map get fallback put_at get_at list_at resolve_provider_alias build_model_info
    mapped_provider before_slash
blocked = refl

abbrev steps : List (String × String)
steps = ("coref", "mini-llm/qwen") ∷ ("ontology", "mini-llm/qwen") ∷ []

review_readiness-ready_example :
    ((review_readiness host panel steps false false 2).ready ≡ true)
    ↔ ((role : String) → UsableIfThere host role (first_of (get_at role panel) (get_at role steps)))
review_readiness-ready_example =
    review_readiness-ready host panel steps false false 2
      ((refl, (refl, tt)), ((refl, tt), (tt, tt))) ((refl, tt), (tt, tt))
