-- ===== src/Review/Readiness/Startable.antt =====
-- When a review may start, by apps/paper_review/readiness.py.
use protoneo.Prelude.{
  ℕ, String, ◌≡◌, refl, sym, ap, subst, ◌↔◌, inl, inr, Bool, true, false, not, ◌&&◌, ◌||◌, Option,
  none, some, List, [], ◌∷◌, ◌++◌, arith, if◌then◌else◌, Bool-cases, All, ◌==◌, Distinct, get_at,
  get_at-All, is_some, is_empty, or_else, first_of,
}
use protoneo.Models.Registry.{endpoint_map, get}
use protoneo.Review.Readiness.{
  CatalogEntry, Host, entry_routable, roles_of, provider_is_enabled, is_reachable, blockers_of,
  blockers_in, review_readiness,
}
use protoneo.Review.Readiness.Roles.{same_key, get_at-Distinct, roles_of-Distinct, roles_of-get_at}

pub both_empty {ℓ} : {A : Type ℓ} (xs ys : List A) → xs ++ ys ≡ [] → (xs ≡ []) × (ys ≡ [])
both_empty [] ys h = (refl, h)
both_empty (x ∷ xs) ys h = ground (arith, h)

pub empty_is {ℓ} : {A : Type ℓ} (xs : List A) → is_empty xs ≡ true → xs ≡ []
empty_is [] h = refl
empty_is (x ∷ xs) h = ground (arith, h)

abbrev pub is_false : Option Bool → Bool
is_false (some b) = not b
is_false none = false

abbrev pub is_true : Option Bool → Bool
is_true (some b) = b
is_true none = false

routable_entry : (b : Bool) (o : Option Bool) → (not b && or_else o true) ≡ not (b || is_false o)
routable_entry true o = refl
routable_entry false none = refl
routable_entry false (some true) = refl
routable_entry false (some false) = refl

-- The catalogue says that a model does not serve reviews.
abbrev pub is_ruled_out : Option CatalogEntry → Bool
is_ruled_out none = false
is_ruled_out (some e) = e.availability == "unsupported" || is_false e.review_routable

routable-eq : (e : Option CatalogEntry) → entry_routable e ≡ not (is_ruled_out e)
routable-eq none = refl
routable-eq (some e) = routable_entry (e.availability == "unsupported") e.review_routable

is_true-or_else : (o : Option Bool) → or_else o false ≡ is_true o
is_true-or_else none = refl
is_true-or_else (some b) = refl

module _ (host : Host) where
  abbrev pub provider_of : String → String
  provider_of model = (get host.words host.site model host.store).provider

  -- A role with a model that the review can call.
  pub record Usable (assignment : String × String) : Type 0 where
    pub chosen : (assignment.1 == "") ≡ false
    pub enabled : provider_is_enabled host (provider_of assignment.1) ≡ true
    pub routable : is_ruled_out (get_at assignment.1 host.catalog) ≡ false
    pub reachable :
        (is_some (get_at (provider_of assignment.1) (endpoint_map host.endpoints))
          || is_true (get_at (provider_of assignment.1) host.has_settings)
          || host.has_key (provider_of assignment.1))
        ≡ true

  blockers_of-Usable :
      (role model : String)
      → (model == "") ≡ false
      → blockers_of host role model (provider_of model) ≡ []
      → Usable (role, model)
  unfolding is_reachable
  blockers_of-Usable role model chosen h = record {
    chosen = chosen;
    enabled = ground (arith, h);
    routable = ground (arith, h, routable-eq (get_at model host.catalog));
    reachable = ground (arith, h, is_true-or_else (get_at (provider_of model) host.has_settings));
  }

  Usable-blockers_of :
      (role model : String)
      → Usable (role, model)
      → blockers_of host role model (provider_of model) ≡ []
  unfolding is_reachable
  Usable-blockers_of role model u = ground (
    arith,
    u.enabled,
    u.routable,
    u.reachable,
    routable-eq (get_at model host.catalog),
    is_true-or_else (get_at (provider_of model) host.has_settings),
  )

  pub blockers_in-Usable :
      (roles : List (String × String)) → blockers_in host roles ≡ [] → All Usable roles
  unfolding blockers_in
  blockers_in-Usable [] h = tt
  blockers_in-Usable ((role, model) ∷ rest) h = elim (Bool-cases (model == "")) [
    | inl e ↦ let bad = rw e at h in ground (arith, bad)
    | inr e ↦
        let parts = both_empty _ (blockers_in host rest) (rw e at h) in
        (blockers_of-Usable role model e parts.0, blockers_in-Usable rest parts.1)
  ]

  pub Usable-blockers_in :
      (roles : List (String × String)) → All Usable roles → blockers_in host roles ≡ []
  unfolding blockers_in
  Usable-blockers_in [] h = refl
  Usable-blockers_in ((role, model) ∷ rest) h =
      rw h.0.chosen rw (Usable-blockers_of role model h.0) (Usable-blockers_in rest h.1)

  abbrev pub UsableIfThere : (role : String) → Option String → Type 0
  UsableIfThere role none = Unit
  UsableIfThere role (some model) = Usable (role, model)

  there :
      (role : String) (found : Option String) (roles : List (String × String))
      → get_at role roles ≡ found
      → All Usable roles
      → UsableIfThere role found
  there role none roles e h = tt
  there role (some model) roles e h = get_at-All (λ key m. Usable (key, m)) role model roles h e

  each_there :
      (roles entries : List (String × String))
      → All (λ e. get_at e.0 roles ≡ some e.1) entries
      → ((role : String) → UsableIfThere role (get_at role roles))
      → All Usable entries
  each_there roles [] found h = tt
  each_there roles ((role, model) ∷ entries) found h =
      (subst (UsableIfThere role) found.0 (h role), each_there roles entries found.1 h)

  -- The report is ready exactly when every role that the review will use has a usable model: a model is
  -- chosen, its provider is enabled and reachable, and the catalogue does not rule it out. Unless only
  -- the graph is wanted, an agent's role has the agent's model; any other role is a step of the graph,
  -- which has its own model unless the graph is skipped. The keys of both dictionaries are distinct.
  pub review_readiness-ready :
      (agents graph_models : List (String × String)) (skip_graph graph_only : Bool) (max_rounds : ℕ)
      → Distinct same_key agents
      → Distinct same_key graph_models
      → ((review_readiness host agents graph_models skip_graph graph_only max_rounds).ready ≡ true)
        ↔ ((role : String)
            → UsableIfThere role (
                first_of
                  (if graph_only then none else get_at role agents)
                  (if skip_graph then none else get_at role graph_models)))
  unfolding review_readiness
  review_readiness-ready agents graph_models skip_graph graph_only max_rounds da dg =
      let roles = roles_of agents graph_models skip_graph graph_only in
      let model_of = roles_of-get_at agents graph_models skip_graph graph_only da in
      (
        (λ h role. subst (UsableIfThere role) (model_of role) (
            there role (get_at role roles) roles refl
              (blockers_in-Usable roles (empty_is (blockers_in host roles) h)))),
        (λ h. ap is_empty (
            Usable-blockers_in roles (
              each_there roles roles
                (get_at-Distinct roles
                  (roles_of-Distinct agents graph_models skip_graph graph_only dg))
                (λ role. subst (UsableIfThere role) (sym (model_of role)) (h role))))),
      )
