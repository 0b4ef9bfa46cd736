-- ===== src/Knowledge/Graph/Summary.antt =====
-- The summaries of KnowledgeGraph in protoneo/knowledge/graph.py: `grounding_summary`, and
-- `graph_stats` without its rounded ratio and its sorted distribution.
pub mod Counts
mod Tests
use protoneo.Prelude.{
  ℕ, ◌+◌, ◌-◌, String, Bool, true, false, not, ◌&&◌, ◌||◌, none, some, List, [], ◌∷◌, map, foldl,
  ◌=ℕ◌, if◌then◌else◌, length, keep, find, ◌==◌, one_of,
}
use protoneo.Json.{
  nonnegative, Json, null, bool, num, str, arr, obj, Items, nil, cons, Fields, end, field,
}
use protoneo.Knowledge.Graph.{Node, Edge, Graph}
use protoneo.Knowledge.Graph.Clean.{is_structural, is_connected, add_id}

-- `node.attributes.get(key)`
unfoldable pub attribute : String → Node → Json
attribute key n = elim (find (λ e. e.0 == key) n.attributes) [ some e ↦ e.1 | none ↦ null ]

abbrev pub has_items : Items → Bool
has_items nil = false
has_items (cons j js) = true

abbrev pub has_fields : Fields → Bool
has_fields end = false
has_fields (field k j fs) = true

-- `bool(value)`
unfoldable pub truthy : Json → Bool
truthy null = false
truthy (bool b) = b
truthy (num (nonnegative n)) = not (n =ℕ 0)
truthy (num _) = true
truthy (str s) = not (s == "")
truthy (arr js) = has_items js
truthy (obj fs) = has_fields fs

abbrev pub is_text : String → Json → Bool
is_text t (str s) = s == t
is_text t _ = false

unfoldable pub is_visual : Node → Bool
is_visual n = one_of ("Figure" ∷ "Table" ∷ []) n.node_type

unfoldable pub is_described : Node → Bool
unfolding attribute truthy
is_described n = truthy (attribute "description" n)

unfoldable pub is_undecoded : Node → Bool
unfolding attribute
is_undecoded n = is_text "formula_not_decoded" (attribute "grounding" n)

unfoldable pub is_decoded : Node → Bool
unfolding attribute
is_decoded n = is_text "formula_decoded" (attribute "grounding" n)

unfoldable pub is_equation : Node → Bool
unfolding is_undecoded is_decoded
is_equation n = n.node_type == "Equation" && (is_undecoded n || is_decoded n)

pub data GroundingMode : Type 0 where
  ungrounded text_only vision_grounded mixed : GroundingMode

pub record Grounding : Type 0 where
  pub mode : GroundingMode
  pub visual : ℕ
  pub described : ℕ
  pub undescribed : ℕ
  pub equations : ℕ
  pub decoded : ℕ
  pub not_decoded : ℕ
  pub total : ℕ

unfoldable pub mode_of : (visual described : ℕ) → GroundingMode
mode_of visual described =
    if visual =ℕ 0
    then ungrounded
    else if described =ℕ 0
    then text_only
    else if described =ℕ visual
    then vision_grounded
    else mixed

unfoldable pub grounding_summary : Graph → Grounding
unfolding is_visual is_described is_equation is_decoded is_undecoded mode_of
grounding_summary g =
    let visual = keep is_visual g.nodes in
    let described = keep is_described visual in
    let equations = keep is_equation g.nodes in
    record {
      mode = mode_of (length visual) (length described);
      visual = length visual;
      described = length described;
      undescribed = length visual - length described;
      equations = length equations;
      decoded = length (keep is_decoded equations);
      not_decoded = length (keep is_undecoded equations);
      total = length visual + length equations;
    }

abbrev pub is_structural_relation : String → Bool
is_structural_relation = one_of ("HAS_SECTION" ∷ "CONTAINS" ∷ "HAS_ARTIFACT" ∷ "APPEARS_IN" ∷ [])

-- The distinct texts of a list, each once.
unfoldable pub distinct_texts : List String → List String
unfolding add_id
distinct_texts xs = foldl (λ s x. add_id x s) [] xs

pub record Stats : Type 0 where
  pub semantic_entities : ℕ
  pub semantic_edges : ℕ
  pub connected_entities : ℕ
  pub sections_covered : ℕ
  pub total_sections : ℕ
  pub entity_types : ℕ
  pub edge_types : ℕ
  pub visual_evidence : ℕ
  pub described_artifacts : ℕ
  pub equation_evidence : ℕ
  pub not_decoded_equations : ℕ

unfoldable pub graph_stats : Graph → Stats
unfolding is_structural is_connected distinct_texts is_visual is_described is_equation is_undecoded
graph_stats g =
    let semantic = keep (λ n. not (is_structural n.node_type)) g.nodes in
    let edges = keep (λ e. not (is_structural_relation e.edge_type)) g.edges in
    let visual = keep is_visual g.nodes in
    let equations = keep is_equation g.nodes in
    record {
      semantic_entities = length semantic;
      semantic_edges = length edges;
      connected_entities = length (keep (is_connected edges) semantic);
      sections_covered = length (
          distinct_texts
            (keep (λ s. not (s == "")) (map (λ (n : Node). n.source_section) semantic)));
      total_sections = length g.section_names;
      entity_types = length (distinct_texts (map (λ (n : Node). n.node_type) semantic));
      edge_types = length (distinct_texts (map (λ (e : Edge). e.edge_type) edges));
      visual_evidence = length visual;
      described_artifacts = length (keep is_described visual);
      equation_evidence = length equations;
      not_decoded_equations = length (keep is_undecoded equations);
    }
