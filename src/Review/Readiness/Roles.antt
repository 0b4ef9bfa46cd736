-- ===== src/Review/Readiness/Roles.antt =====
-- The roles of a review and their models, by apps/paper_review/readiness.py.
use protoneo.Prelude.{
  String, ◌≡◌, refl, sym, ap, ◌∙◌, subst, inl, inr, Bool, true, false, none, some, List, [], ◌∷◌,
  arith, if◌then◌else◌, Bool-cases, All, ◌==◌, eq_iff, eq_refl, Distinct, get_at, put_at,
  get_at-put_at, All-put_at, first_of,
}
use protoneo.Review.Readiness.{assigned, roles_of}

abbrev pub same_key : (String × String) → (String × String) → Bool
same_key a b = a.0 == b.0

fresh_get_at :
    (key x : String) (d : List (String × String))
    → All (λ e. same_key (key, x) e ≡ false) d
    → get_at key d ≡ none
unfolding get_at
fresh_get_at key x [] h = refl
fresh_get_at key x ((k, y) ∷ d) h =
    ground (arith, h.0, fresh_get_at key x d h.1, eq_iff k key, eq_iff key k)

skip_entry :
    (key x : String) (d es : List (String × String))
    → All (λ e. same_key (key, x) e ≡ false) es
    → All (λ e. get_at e.0 d ≡ some e.1) es
    → All (λ e. get_at e.0 ((key, x) ∷ d) ≡ some e.1) es
unfolding get_at
skip_entry key x d [] apart h = tt
skip_entry key x d ((k, y) ∷ es) apart h = (rw apart.0 h.0, skip_entry key x d es apart.1 h.1)

get_at_first : (key x : String) (d : List (String × String)) → get_at key ((key, x) ∷ d) ≡ some x
unfolding get_at
get_at_first key x d = rw (eq_refl key) refl

-- Of a dictionary each key gives the value that stands with it.
pub get_at-Distinct :
    (d : List (String × String)) → Distinct same_key d → All (λ e. get_at e.0 d ≡ some e.1) d
get_at-Distinct [] distinct = tt
get_at-Distinct ((key, x) ∷ d) distinct =
    (get_at_first key x d, skip_entry key x d d distinct.0 (get_at-Distinct d distinct.1))

put_at-Distinct :
    (key x : String) (d : List (String × String))
    → Distinct same_key d
    → Distinct same_key (put_at key x d)
unfolding put_at
put_at-Distinct key x [] distinct = (tt, tt)
put_at-Distinct key x ((k, y) ∷ d) distinct = elim (Bool-cases (k == key)) [
  | inl e ↦
      let same : k ≡ key = (eq_iff k key).0 e in
      rw e (subst (λ j. All (λ e. same_key (j, x) e ≡ false) d) same distinct.0, distinct.1)
  | inr e ↦ rw e (
    All-put_at (λ j z. (k == j) ≡ false) key x d e distinct.0,
    put_at-Distinct key x d distinct.1,
  )
]

pub assigned-Distinct :
    (graph agents : List (String × String))
    → Distinct same_key graph
    → Distinct same_key (assigned graph agents)
unfolding assigned
assigned-Distinct graph [] distinct = distinct
assigned-Distinct graph ((key, x) ∷ agents) distinct =
    assigned-Distinct (put_at key x graph) agents (put_at-Distinct key x graph distinct)

-- The value written last for a key is the one that its dictionary gives.
pub assigned-get_at :
    (graph agents : List (String × String)) (role : String)
    → Distinct same_key agents
    → get_at role (assigned graph agents) ≡ first_of (get_at role agents) (get_at role graph)
unfolding assigned get_at
assigned-get_at graph [] role distinct = refl
assigned-get_at graph ((key, x) ∷ agents) role distinct =
    assigned-get_at (put_at key x graph) agents role distinct.1
    ∙ ap (first_of (get_at role agents)) (get_at-put_at key role x graph)
    ∙ elim (Bool-cases (key == role)) [
      | inl e ↦
          let same : key ≡ role = (eq_iff key role).0 e in
          let none_later : get_at role agents ≡ none =
            ap (λ k. get_at k agents) (sym same) ∙ fresh_get_at key x agents distinct.0 in
          rw (none_later, e) refl
      | inr e ↦ rw e refl
    ]

pub roles_of-Distinct :
    (agents graph_models : List (String × String)) (skip_graph graph_only : Bool)
    → Distinct same_key graph_models
    → Distinct same_key (roles_of agents graph_models skip_graph graph_only)
roles_of-Distinct agents graph_models true true distinct = tt
roles_of-Distinct agents graph_models false true distinct = distinct
roles_of-Distinct agents graph_models true false distinct = assigned-Distinct [] agents tt
roles_of-Distinct agents graph_models false false distinct =
    assigned-Distinct graph_models agents distinct

pub roles_of-get_at :
    (agents graph_models : List (String × String)) (skip_graph graph_only : Bool)
    → Distinct same_key agents
    → (role : String)
    → get_at role (roles_of agents graph_models skip_graph graph_only)
      ≡ first_of
          (if graph_only then none else get_at role agents)
          (if skip_graph then none else get_at role graph_models)
unfolding get_at
roles_of-get_at agents graph_models true true distinct role = refl
roles_of-get_at agents graph_models false true distinct role = refl
roles_of-get_at agents graph_models true false distinct role =
    assigned-get_at [] agents role distinct
roles_of-get_at agents graph_models false false distinct role =
    assigned-get_at graph_models agents role distinct
