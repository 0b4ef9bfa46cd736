-- ===== src/Tools/GraphQuery/Evidence.antt =====
-- The two queries about claims of protoneo/tools/graph_query.py agree with the graph and with each
-- other.
use protoneo.Prelude.{
  ℕ, zero, suc, ◌+◌, ◌≤◌, String, ◌≡◌, refl, ap, ◌∙◌, Bool, not, ◌&&◌, List, [], ◌∷◌, map, arith,
  ◌=ℕ◌, if◌then◌else◌, length, take, keep, any, length-take, ◌==◌,
}
use protoneo.Knowledge.Graph.{Node, Edge, Graph}
use protoneo.Tools.GraphQuery.{
  is_evidence_type, type_at, claims_of, neighbour, neighbors, is_evidence, has_evidence,
  unsupported_row, claims_without_support, claim_row, has_rows, claim_evidence,
}

-- The edge joins the node of this id with a piece of evidence; a loop is seen from its source.
abbrev pub supports : Graph → String → Edge → Bool
supports g id e =
    if e.source_id == id
    then is_evidence_type (type_at g e.target_id)
    else e.target_id == id && is_evidence_type (type_at g e.source_id)

keep-not :
    {A : Type 0} (p : A → Bool) (xs : List A)
    → length (keep p xs) + length (keep (λ x. not (p x)) xs) ≡ length xs
keep-not p [] = omega arith
keep-not p (x ∷ xs) = ground (arith, keep-not p xs)

take-all : {A : Type 0} (n : ℕ) (xs : List A) → length xs ≤ n → take n xs ≡ xs
take-all zero [] h = refl
take-all zero (x ∷ xs) h = ground arith
take-all (suc n) [] h = refl
take-all (suc n) (x ∷ xs) h = ap (λ r. x ∷ r) (take-all n xs (omega arith))

keep-same :
    {A : Type 0} (p q : A → Bool) (xs : List A)
    → ((x : A) → p x ≡ q x)
    → length (keep p xs) ≡ length (keep q xs)
keep-same p q [] h = refl
keep-same p q (x ∷ xs) h = ground (arith, h x, keep-same p q xs h)

keep-map :
    {A B : Type 0} (p : B → Bool) (f : A → B) (xs : List A)
    → length (keep p (map f xs)) ≡ length (keep (λ x. p (f x)) xs)
keep-map p f [] = refl
keep-map p f (x ∷ xs) = ground (arith, keep-map p f xs)

any-keep :
    {A B : Type 0} (p : A → Bool) (f : A → B) (xs : List A)
    → not (length (map f (keep p xs)) =ℕ 0) ≡ any p xs
any-keep p f [] = refl
any-keep p f (x ∷ xs) = ground (arith, any-keep p f xs)

module _ (short : String → String) (sorted_set : List String → List String) (g : Graph) where
  neighbors-supports :
      (id : String) (es : List Edge)
      → any (is_evidence short sorted_set g) (neighbors short sorted_set g id es)
        ≡ any (supports g id) es
  unfolding neighbors neighbour
  neighbors-supports id [] = refl
  neighbors-supports id (e ∷ es) = ground (arith, neighbors-supports id es)

  -- A claim is reported as unsupported if and only if no edge joins it with evidence: the reported
  -- count is the number of such claims, and the other claims are the supported ones. Not more rows
  -- than the limit are shown.
  pub claims_without_support-counts :
      (limit : ℕ)
      → let r = claims_without_support short sorted_set g limit in
        (r.count ≡ length (keep (λ c. not (any (supports g c.id) g.edges)) (claims_of g)))
        × (r.supported + r.count ≡ length (claims_of g))
        × (length r.results ≤ limit)
  unfolding claims_without_support has_evidence
  claims_without_support-counts limit = (
    keep-same (λ c. not (has_evidence short sorted_set g c))
        (λ (c : Node). not (any (supports g c.id) g.edges)) (claims_of g)
        (λ c. ap not (neighbors-supports c.id g.edges)),
    keep-not (has_evidence short sorted_set g) (claims_of g),
    omega (
      arith,
      length-take limit (
          map (unsupported_row short sorted_set g)
            (keep (λ c. not (has_evidence short sorted_set g c)) (claims_of g))),
    ),
  )

  -- If the limit lets all claims through, the claims that `claim_evidence` shows with evidence are
  -- just as many as `claims_without_support` counts as supported.
  pub claim_evidence-agrees :
      (limit : ℕ)
      → length (claims_of g) ≤ limit
      → (claim_evidence short sorted_set g limit).with_evidence
        ≡ (claims_without_support short sorted_set g limit).supported
  unfolding claim_evidence claims_without_support has_evidence
  claim_evidence-agrees limit h =
      ap (λ cs. length (keep (has_rows short sorted_set g) (map (claim_row short sorted_set g) cs)))
        (take-all limit (claims_of g) h)
      ∙ keep-map (has_rows short sorted_set g) (claim_row short sorted_set g) (claims_of g)
      ∙ keep-same (λ c. has_rows short sorted_set g (claim_row short sorted_set g c))
          (has_evidence short sorted_set g) (claims_of g)
          (λ c.
            any-keep (is_evidence short sorted_set g) _ (neighbors short sorted_set g c.id g.edges))
