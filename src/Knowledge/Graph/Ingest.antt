-- ===== src/Knowledge/Graph/Ingest.antt =====
-- What KnowledgeGraph of protoneo/knowledge/graph.py takes from a document's metadata and from its
-- ontology.
use protoneo.Prelude.{
  ℕ, zero, suc, ◌+◌, min, String, Bool, ◌&&◌, Option, none, some, List, [], ◌∷◌, if◌then◌else◌,
  find, ◌+s◌, ◌==◌, change_first,
}
use protoneo.Json.{Json, str}
use protoneo.Knowledge.Graph.{
  Host, Node, Edge, Graph, Details, plain, add_node, node_by_label, add_edge, update_stats,
}

-- The fields of DocumentMetadata that the graph reads; the counts and the preview are given as the
-- texts that the code makes of them.
pub record Metadata : Type 0 where
  pub title : String
  pub abstract : String
  pub text_preview : String
  pub word_count : String
  pub reference_count : String
  pub sections : List String
  pub figure_count : ℕ
  pub table_count : ℕ
  pub equation_labels : List String
  pub reference_sample : Option String
  pub citation_markers : List (String × String)  -- of each its "marker" and its "section"

abbrev pub link : (source target edge_type description : String) → Edge
link source target edge_type description = record {
  source_id = source;
  target_id = target;
  edge_type = edge_type;
  description = description;
  confidence = 1000;
  source_text = "";
}

-- `d[k] = v` for a node's attributes.
unfoldable pub put_attribute : String → Json → List (String × Json) → List (String × Json)
put_attribute k v [] = (k, v) ∷ []
put_attribute k v ((j, w) ∷ d) =
    let rest = put_attribute k v d in if j == k then (k, v) ∷ d else (j, w) ∷ rest

unfoldable pub add_reference_sample : Option String → Graph → Graph
unfolding put_attribute
add_reference_sample none g = g
add_reference_sample (some sample) g = record g {
  nodes =
      change_first (λ n. n.id == "paper-root")
        (λ n. record n { attributes = put_attribute "reference_sample" (str sample) n.attributes })
        g.nodes;
}

module _ (host : Host) where
  -- A node, and its edge from `root`.
  unfoldable pub attach : (root edge_type why label node_type : String) → Details → Graph → Graph
  unfolding add_node add_edge
  attach root edge_type why label node_type d g =
      let (n, h) = add_node host label node_type "" d g in
      (add_edge (link root n.id edge_type why) h).1

  unfoldable pub add_equations : (root : String) → List String → Graph → Graph
  unfolding attach
  add_equations root [] g = g
  add_equations root (l ∷ ls) g =
      add_equations root ls (attach root "CONTAINS" "" l "Equation" plain g)

  unfoldable pub add_abstract : (root : String) → Metadata → Graph → Graph
  unfolding attach
  add_abstract root m g =
      if m.abstract == ""
      then g
      else attach root "HAS_SECTION" "" "Abstract" "Section"
          (record plain { attributes = ("text_preview", str m.text_preview) ∷ [] }) g

  module _ (print : ℕ → String) where
    unfoldable pub add_sections : (root : String) → ℕ → List String → Graph → Graph
    unfolding attach
    add_sections root i [] g = g
    add_sections root i (s ∷ ss) g = add_sections root (i + 1) ss (
        attach root "HAS_SECTION" "" s "Section"
          (record plain { attributes = ("order", str (print (i + 1))) ∷ [] }) g)

    -- `for i in range(1, min(count + 1, 16))`
    unfoldable pub add_numbered : (root name node_type : String) → (left i : ℕ) → Graph → Graph
    unfolding attach
    add_numbered root name node_type zero i g = g
    add_numbered root name node_type (suc left) i g =
        add_numbered root name node_type left (i + 1)
          (attach root "CONTAINS" "" (name +s " " +s print i) node_type plain g)

  -- `cites marker label` is `marker.startswith("[") and marker in label[:20]`.
  module _ (cites : (marker label : String) → Bool) where
    abbrev pub citation : (marker section source target : String) → Edge
    citation marker section source target =
        record (link source target "CITES" ("citation " +s marker +s " in " +s section)) {
          confidence = 800;
        }

    unfoldable pub add_found : (marker section : String) → Option Node → Option Node → Graph → Graph
    unfolding add_edge
    add_found marker section (some source) (some target) g =
        (add_edge (citation marker section source.id target.id) g).1
    add_found marker section (some source) none g = g
    add_found marker section none target g = g

    -- The nodes of the section and of the reference, where both are there.
    unfoldable pub add_citation : String × String → Graph → Graph
    unfolding add_found
    add_citation (marker, section) g =
        add_found marker section (if section == "" then none else node_by_label host section g)
          (find (λ n. n.node_type == "Reference" && cites marker n.label) g.nodes) g

    unfoldable pub add_citations : List (String × String) → Graph → Graph
    unfolding add_citation
    add_citations [] g = g
    add_citations (c ∷ cs) g = add_citations cs (add_citation c g)

  module _ (print : ℕ → String) (cites : (marker label : String) → Bool) where
    unfoldable pub ingest_metadata : Metadata → Graph → Graph
    unfolding add_node add_abstract add_sections add_numbered add_equations add_reference_sample
        add_citations update_stats
    ingest_metadata m g =
        let titled = record g {
          paper_title = m.title;
          paper_abstract = m.abstract;
          section_names = m.sections;
        } in
        let (root, h) =
          add_node host (if m.title == "" then "Untitled Paper" else m.title) "Paper" "paper-root"
            (record plain {
              attributes =
                  ("word_count", str m.word_count)
                  ∷ ("reference_count", str m.reference_count)
                  ∷ [];
            })
            titled in
        update_stats (
          add_citations cites m.citation_markers (
            add_reference_sample m.reference_sample (
              add_equations root.id m.equation_labels (
                add_numbered print root.id "Table" "Table" (min m.table_count 15) 1 (
                  add_numbered print root.id "Figure" "Diagram" (min m.figure_count 15) 1
                    (add_sections print root.id 0 m.sections (add_abstract root.id m h)))))))

  -- The contributions of the ontology, whose links to the paper point at its root.
  unfoldable pub add_contributions : List String → Graph → Graph
  unfolding add_node add_edge
  add_contributions [] g = g
  add_contributions (c ∷ cs) g =
      let (n, h) =
        add_node host c "Concept" ""
          (record plain { description = "Key contribution: " +s c; source_section = "ontology" })
          g in
      add_contributions cs (add_edge (link "paper-root" n.id "PART_OF" "Key contribution") h).1

  unfoldable pub add_ontology_nodes : List String → Graph → Graph
  unfolding add_contributions update_stats
  add_ontology_nodes contributions g = update_stats (add_contributions contributions g)
