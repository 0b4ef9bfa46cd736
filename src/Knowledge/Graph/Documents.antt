-- ===== src/Knowledge/Graph/Documents.antt =====
-- A document's metadata and ontology enter the KnowledgeGraph of protoneo/knowledge/graph.py as
-- nodes that are all joined to the paper.
use protoneo.Prelude.{
  ℕ, zero, suc, ◌+◌, min, String, ◌≡◌, refl, inl, inr, Bool, true, false, ◌&&◌, Option, none, some,
  List, [], ◌∷◌, arith, if◌then◌else◌, Bool-cases, find, ◌==◌, Distinct-change_first,
}
use protoneo.Json.{str}
use protoneo.Knowledge.Graph.{
  Host, Node, Edge, Graph, plain, labelled, add_node, node_by_label, update_stats,
}
use protoneo.Knowledge.Graph.Ingest.{
  Metadata, add_reference_sample, add_equations, add_abstract, add_sections, add_numbered,
  add_found, add_citation, add_citations, ingest_metadata, add_contributions, add_ontology_nodes,
}
use protoneo.Knowledge.Graph.Labels.{same_label, Labelled}
use protoneo.Knowledge.Graph.Intact.{has_node, Intact, Joined-widen, has_node-change_first}
use protoneo.Knowledge.Graph.Returned.{found-has_node, add_node-returned}
use protoneo.Knowledge.Graph.Titles.{Titled-change_first}
use protoneo.Knowledge.Graph.Paper.{
  paper_label, Sound, Sound-add_node, Sound-add_edge, Sound-attach, Sound-paper,
}

module _ (host : Host) (old : List Edge) (title : String) where
  module _ (print : ℕ → String) where
    Sound-sections :
        (root : String) (i : ℕ) (ss : List String) (g : Graph)
        → Sound host old title root g
        → Sound host old title root (add_sections host print root i ss g)
    unfolding add_sections
    Sound-sections root i [] g s = s
    Sound-sections root i (l ∷ ls) g s =
        Sound-sections root (i + 1) ls _
          (Sound-attach host old title root "HAS_SECTION" "" l "Section" _ g s)

    Sound-numbered :
        (root name node_type : String) (left i : ℕ) (g : Graph)
        → Sound host old title root g
        → Sound host old title root (add_numbered host print root name node_type left i g)
    unfolding add_numbered
    Sound-numbered root name node_type zero i g s = s
    Sound-numbered root name node_type (suc left) i g s =
        Sound-numbered root name node_type left (i + 1) _
          (Sound-attach host old title root "CONTAINS" "" _ node_type plain g s)

    Sound-equations :
        (root : String) (ls : List String) (g : Graph)
        → Sound host old title root g
        → Sound host old title root (add_equations host root ls g)
    unfolding add_equations
    Sound-equations root [] g s = s
    Sound-equations root (l ∷ ls) g s =
        Sound-equations root ls _
          (Sound-attach host old title root "CONTAINS" "" l "Equation" plain g s)

    Sound-abstract :
        (root : String) (m : Metadata) (g : Graph)
        → Sound host old title root g
        → Sound host old title root (add_abstract host root m g)
    unfolding add_abstract
    Sound-abstract root m g s = elim (Bool-cases (m.abstract == "")) [
      | inl e ↦ rw e s
      | inr e ↦ rw e (Sound-attach host old title root "HAS_SECTION" "" "Abstract" "Section" _ g s)
    ]

    Sound-sample :
        (root : String) (sample : Option String) (g : Graph)
        → Sound host old title root g
        → Sound host old title root (add_reference_sample sample g)
    unfolding add_reference_sample
    Sound-sample root none g s = s
    Sound-sample root (some text) g s =
        let widen = λ (j : String) (k : has_node j g.nodes ≡ true).
          has_node-change_first j _ _ g.nodes (λ m. refl) k in
        record {
          distinct =
              Distinct-change_first (same_label host) _ _ g.nodes (λ n m. refl) (λ n m. refl)
                s.distinct;
          closed = Joined-widen g.nodes _ widen g.edges s.closed;
          rooted = widen root s.rooted;
          since = s.since;
          titled = Titled-change_first host title root _ _ g.nodes (λ m. refl) (λ m. refl) s.titled;
        }

  module _ (cites : (marker label : String) → Bool) where
    Sound-found :
        (root marker section : String) (g : Graph) (source target : Option Node)
        → ((n : Node) → source ≡ some n → has_node n.id g.nodes ≡ true)
        → ((n : Node) → target ≡ some n → has_node n.id g.nodes ≡ true)
        → Sound host old title root g
        → Sound host old title root (add_found host cites marker section source target g)
    unfolding add_found
    Sound-found root marker section g (some n) (some k) source target s =
        Sound-add_edge host old title root _ g (source n refl, target k refl) (inr refl) s
    Sound-found root marker section g (some n) none source target s = s
    Sound-found root marker section g none k source target s = s

    section_there :
        (b : Bool) (p : Node → Bool) (g : Graph) (n : Node)
        → (if b then none else find p g.nodes) ≡ some n
        → has_node n.id g.nodes ≡ true
    section_there true p g n e = ground (arith, e)
    section_there false p g n e = found-has_node p g.nodes n e

    Sound-citations :
        (root : String) (cs : List (String × String)) (g : Graph)
        → Sound host old title root g
        → Sound host old title root (add_citations host cites cs g)
    unfolding add_citations add_citation node_by_label
    Sound-citations root [] g s = s
    Sound-citations root ((marker, section) ∷ cs) g s = Sound-citations root cs _ (
        Sound-found root marker section g _ _
          (section_there (section == "") (labelled host section) g)
          (found-has_node (λ n. n.node_type == "Reference" && cites marker n.label) g.nodes) s)

  Sound-contributions :
      (cs : List String) (g : Graph)
      → Sound host old title "paper-root" g
      → Sound host old title "paper-root" (add_contributions host cs g)
  unfolding add_contributions
  Sound-contributions [] g s = s
  Sound-contributions (c ∷ cs) g s =
      let h = Sound-add_node host old title "paper-root" c "Concept" "" _ g s in
      Sound-contributions cs _ (
        Sound-add_edge host old title "paper-root" _ _
          (h.rooted, add_node-returned host c "Concept" "" _ g) (inl refl) h)

  -- If the graph has the paper's root, distinct labels and joined edges, so it has after the
  -- ontology's contributions have been added.
  pub add_ontology_nodes-Sound :
      (contributions : List String) (g : Graph)
      → Sound host old title "paper-root" g
      → Sound host old title "paper-root" (add_ontology_nodes host contributions g)
  unfolding add_ontology_nodes update_stats
  add_ontology_nodes-Sound contributions g s =
      let t = Sound-contributions contributions g s in
      record {
        distinct = t.distinct;
        closed = t.closed;
        rooted = t.rooted;
        since = t.since;
        titled = t.titled;
      }

module _ (host : Host) (print : ℕ → String) (cites : (marker label : String) → Bool) where
  -- From a graph with distinct labels and joined edges, the ingestion of metadata leads to such a
  -- graph, which keeps the old edges and has a node with the paper's title; from this node all its new
  -- edges start but for the citations.
  pub ingest_metadata-Sound :
      (m : Metadata) (g : Graph)
      → Labelled host g
      → Intact g
      → (root : String) × Sound host g.edges
          (paper_label m)
          root
          (ingest_metadata host print cites m g)
  unfolding ingest_metadata update_stats
  ingest_metadata-Sound m g l c =
      let titled = record g {
        paper_title = m.title;
        paper_abstract = m.abstract;
        section_names = m.sections;
      } in
      let label = paper_label m in
      let d = record plain {
        attributes =
            ("word_count", str m.word_count) ∷ ("reference_count", str m.reference_count) ∷ [];
      } in
      let root = (add_node host label "Paper" "paper-root" d titled).0.id in
      let s0 = Sound-paper host g.edges label d titled l c refl in
      let s1 =
        Sound-sections host g.edges label print root 0 m.sections _
          (Sound-abstract host g.edges label print root m _ s0) in
      let s2 =
        Sound-numbered host g.edges label print root "Figure" "Diagram" (min m.figure_count 15) 1 _
          s1 in
      let s3 =
        Sound-numbered host g.edges label print root "Table" "Table" (min m.table_count 15) 1 _
          s2 in
      let s4 =
        Sound-sample host g.edges label print root m.reference_sample _
          (Sound-equations host g.edges label print root m.equation_labels _ s3) in
      let s5 = Sound-citations host g.edges label cites root m.citation_markers _ s4 in
      (
        root,
        record {
          distinct = s5.distinct;
          closed = s5.closed;
          rooted = s5.rooted;
          since = s5.since;
          titled = s5.titled;
        },
      )
