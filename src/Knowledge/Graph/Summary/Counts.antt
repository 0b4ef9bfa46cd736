-- ===== src/Knowledge/Graph/Summary/Counts.antt =====
-- The counts of the summaries of KnowledgeGraph in protoneo/knowledge/graph.py fit together.
use protoneo.Prelude.{
  ◌+◌, ◌≤◌, ◌<◌, ◌≡◌, refl, ◌↔◌, inl, inr, Bool, true, false, ◌&&◌, ◌||◌, List, [], ◌∷◌, arith,
  Bool-cases, length, keep, length-keep-le, ◌==◌, eq_iff,
}
use protoneo.Json.{Json, null, bool, num, str, arr, obj}
use protoneo.Knowledge.Graph.{Node, Graph}
use protoneo.Knowledge.Graph.Summary.{
  attribute, is_text, is_visual, is_described, is_undecoded, is_decoded, is_equation, ungrounded,
  vision_grounded, mode_of, grounding_summary, graph_stats,
}

-- The nodes for which one of two exclusive tests holds are counted by the two.
keep-either {ℓ} :
    {A : Type ℓ} (base p q : A → Bool)
    → ((x : A) → base x ≡ true → (p x && q x) ≡ false)
    → ((x : A) → base x ≡ true → (p x || q x) ≡ true)
    → (xs : List A)
    → length (keep p (keep base xs)) + length (keep q (keep base xs)) ≡ length (keep base xs)
keep-either base p q apart cover [] = omega arith
keep-either base p q apart cover (x ∷ xs) =
    ground (arith, keep-either base p q apart cover xs, apart x, cover x)

is_text-apart :
    (j : Json) → (is_text "formula_decoded" j && is_text "formula_not_decoded" j) ≡ false
is_text-apart (str s) = elim (Bool-cases (s == "formula_decoded")) [
  | inl e ↦ rw ((eq_iff s "formula_decoded").0 e) refl
  | inr e ↦ rw e refl
]
is_text-apart null = refl
is_text-apart (bool b) = refl
is_text-apart (num n) = refl
is_text-apart (arr js) = refl
is_text-apart (obj fs) = refl

equations-split :
    (ns : List Node)
    → length (keep is_decoded (keep is_equation ns))
        + length (keep is_undecoded (keep is_equation ns))
      ≡ length (keep is_equation ns)
unfolding is_equation is_decoded is_undecoded
equations-split ns =
    keep-either is_equation is_decoded is_undecoded (λ n h. is_text-apart (attribute "grounding" n))
      (λ n h. ground arith) ns

-- In a summary the described and the other artifacts make up the visual ones, and the decoded and
-- the other equations all equations. The mode says exactly this: whether there is no artifact, or
-- none is described, or all are, or some.
pub grounding_summary_counts :
    (g : Graph)
    → let s = grounding_summary g in
      (s.described + s.undescribed ≡ s.visual)
      × (s.decoded + s.not_decoded ≡ s.equations)
      × (s.total ≡ s.visual + s.equations)
      × ((s.mode ≡ ungrounded) ↔ (s.visual ≡ 0))
      × ((s.mode ≡ vision_grounded) ↔ ((0 < s.visual) × (s.undescribed ≡ 0)))
unfolding grounding_summary mode_of
grounding_summary_counts g =
    let v = length (keep is_visual g.nodes) in
    let d = length (keep is_described (keep is_visual g.nodes)) in
    let le = length-keep-le is_described (keep is_visual g.nodes) in
    (omega (arith, le), equations-split g.nodes, refl, ground (arith, le), ground (arith, le))

-- No more entities are connected than there are, no more artifacts described than found, and no more
-- equations undecoded than found; and the counts of artifacts agree with the summary's.
pub graph_stats_counts :
    (g : Graph)
    → let s = graph_stats g in
      (s.connected_entities ≤ s.semantic_entities)
      × (s.described_artifacts ≤ s.visual_evidence)
      × (s.not_decoded_equations ≤ s.equation_evidence)
      × (s.semantic_entities ≤ length g.nodes)
      × (s.described_artifacts ≡ (grounding_summary g).described)
      × (s.equation_evidence ≡ (grounding_summary g).equations)
unfolding graph_stats grounding_summary
graph_stats_counts g = (
  length-keep-le _ _,
  length-keep-le is_described _,
  length-keep-le is_undecoded _,
  length-keep-le _ g.nodes,
  refl,
  refl,
)
