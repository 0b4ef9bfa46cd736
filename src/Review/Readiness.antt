-- ===== src/Review/Readiness.antt =====
-- review_readiness of apps/paper_review/readiness.py: what keeps a review from its start, over the
-- registry and `provider_is_enabled` of protoneo/llm/settings.py. The catalogue and the models of the
-- graph's steps are given; the location of a model is not modelled, and a message is told apart by
-- its kind.
pub mod Roles
pub mod Startable
mod Tests
use protoneo.Prelude.{
  ℕ, ◌+◌, ◌*◌, String, Bool, true, false, not, ◌&&◌, ◌||◌, Option, none, some, List, [], ◌∷◌, ◌++◌,
  foldl, if◌then◌else◌, length, keep, all, ◌==◌, get_at, put_at, is_some, is_empty, or_else,
}
use protoneo.Models.Registry.{endpoint_map, endpoint_alias_map, Store, Site, get}
use protoneo.Models.Registry.Entries.{Words, Endpoint}

-- An entry of the catalogue; an absent `review_routable` is none.
pub record CatalogEntry : Type 0 where
  pub availability : String
  pub review_routable : Option Bool

-- `has_settings` tells for a configured provider whether it has a key or a URL, `has_key` is the truth
-- of `resolve_api_key`.
pub record Host : Type 0 where
  pub words : Words
  pub endpoints : List Endpoint
  pub is_endpoint_enabled : Endpoint → Bool
  pub provider_enabled : List (String × Bool)
  pub site : Site
  pub store : Store
  pub catalog : List (String × CatalogEntry)
  pub has_settings : List (String × Bool)
  pub has_key : String → Bool

pub data Blocker : Type 0 where
  no_model : (role : String) → Blocker
  is_disabled not_connected : (role provider : String) → Blocker
  not_available : (role model : String) → Blocker

pub data Warning : Type 0 where
  shared_model without_graph : Warning

pub record Row : Type 0 where
  pub role : String
  pub model : String
  pub context_length : ℕ

pub record Readiness : Type 0 where
  pub ready : Bool
  pub blockers : List Blocker
  pub warnings : List Warning
  pub assignments : List Row
  pub graph_models : List (String × String)
  pub reviewer_count : ℕ
  pub review_turns : ℕ
  pub discussion_rounds : ℕ

abbrev pub entry_routable : Option CatalogEntry → Bool
entry_routable none = true
entry_routable (some e) = not (e.availability == "unsupported") && or_else e.review_routable true

-- Roles in order; the models of agents replace those of graph steps with the same key.
unfoldable pub assigned : (graph_models agents : List (String × String)) → List (String × String)
assigned graph_models agents =
    foldl (λ d (a : String × String). put_at a.0 a.1 d) graph_models agents

unfoldable pub reviewers_of : List (String × String) → List (String × String)
reviewers_of agents = keep (λ (a : String × String). not (a.0 == "meta")) agents

-- `len({a.model for a in reviewers}) == 1 and len(reviewers) > 1`
unfoldable pub share_one_model : List (String × String) → Bool
share_one_model [] = false
share_one_model (a ∷ []) = false
share_one_model (a ∷ b ∷ rest) = all (λ (r : String × String). r.1 == a.1) (b ∷ rest)

abbrev pub roles_of :
    (agents graph_models : List (String × String))
    → (skip_graph graph_only : Bool) → List (String × String)
roles_of agents graph_models skip_graph graph_only =
    let graph = if skip_graph then [] else graph_models in
    if graph_only then graph else assigned graph agents

module _ (host : Host) where
  abbrev pub endpoint_enabled : Option Endpoint → (id : String) → Bool
  endpoint_enabled none id = or_else (get_at id host.provider_enabled) true
  endpoint_enabled (some e) id = host.is_endpoint_enabled e

  unfoldable pub provider_is_enabled : String → Bool
  provider_is_enabled provider =
      let id = or_else (get_at provider (endpoint_alias_map host.words host.endpoints)) provider in
      endpoint_enabled (get_at id (endpoint_map host.endpoints)) id

  -- An endpoint of the settings, a configured provider, or a key.
  unfoldable pub is_reachable : String → Bool
  is_reachable provider =
      is_some (get_at provider (endpoint_map host.endpoints))
      || or_else (get_at provider host.has_settings) false
      || host.has_key provider

  abbrev pub blockers_of : (role model provider : String) → List Blocker
  blockers_of role model provider =
      if not (provider_is_enabled provider)
      then is_disabled role provider ∷ []
      else if not (entry_routable (get_at model host.catalog))
      then not_available role model ∷ []
      else if not (is_reachable provider)
      then not_connected role provider ∷ []
      else []

  unfoldable pub blockers_in : List (String × String) → List Blocker
  blockers_in [] = []
  blockers_in ((role, model) ∷ rest) =
      let later = blockers_in rest in
      if model == ""
      then no_model role ∷ later
      else blockers_of role model (get host.words host.site model host.store).provider ++ later

  unfoldable pub rows_in : List (String × String) → List Row
  rows_in [] = []
  rows_in ((role, model) ∷ rest) =
      let later = rows_in rest in
      if model == ""
      then later
      else record {
        role = role;
        model = model;
        context_length = (get host.words host.site model host.store).max_context;
      }
        ∷ later

  unfoldable pub review_readiness :
      (agents graph_models : List (String × String))
      → (skip_graph graph_only : Bool) → (max_rounds : ℕ) → Readiness
  review_readiness agents graph_models skip_graph graph_only max_rounds =
      let graph = if skip_graph then [] else graph_models in
      let roles = roles_of agents graph_models skip_graph graph_only in
      let reviewers = reviewers_of agents in
      let blockers = blockers_in roles in
      record {
        ready = is_empty blockers;
        blockers = blockers;
        warnings =
            (if not graph_only && share_one_model reviewers then shared_model ∷ [] else [])
            ++ (if skip_graph && not graph_only then without_graph ∷ [] else []);
        assignments = rows_in roles;
        graph_models = graph;
        reviewer_count = if graph_only then 0 else length reviewers;
        review_turns = if graph_only then 0 else length reviewers * (1 + max_rounds) + 1;
        discussion_rounds = max_rounds;
      }
