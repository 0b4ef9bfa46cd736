-- ===== src/Knowledge/Graph/Tests.antt =====
-- Small graphs of protoneo/knowledge/graph.py, and the theorems at them.
use protoneo.Prelude.{
  ℕ, String, ◌≡◌, refl, Bool, ◌&&◌, some, List, [], ◌∷◌, ◌++◌, map, ◌=ℕ◌, if◌then◌else◌, ◌==◌,
}
use protoneo.Knowledge.Graph.{
  Host, Edge, Graph, empty_graph, plain, make_node, node_by_label, tally,
}
use protoneo.Knowledge.Graph.Ingest.{Metadata, link, ingest_metadata}
use protoneo.Knowledge.Graph.Steps.{
  Op, adds_node, adds_edge, annotates, removes, redirects, prunes_orphans, links, counts,
  prunes_ungrounded, run,
}
use protoneo.Knowledge.Graph.Labels.{Labelled, run-Labelled}
use protoneo.Knowledge.Graph.Keys.{Keyed, run-Keyed}
use protoneo.Knowledge.Graph.Intact.{Intact}
use protoneo.Knowledge.Graph.Integrity.{run-Intact}
use protoneo.Knowledge.Graph.Documents.{ingest_metadata-Sound}
use protoneo.Knowledge.Graph.Paper.{paper_label, Sound}

-- Texts in lower case already, no parts, and the identifiers "u0", "u1" and "u".
abbrev host : Host
host = record {
  lower = λ s. s;
  contains = λ part whole. part == whole;
  uuid = λ n. if n =ℕ 0 then "u0" else if n =ℕ 1 then "u1" else "u";
}

abbrev print : ℕ → String
print n = if n =ℕ 1 then "1" else "n"

abbrev uses : Edge
uses = link "u0" "u1" "USES" ""

abbrev ops : List Op
ops =
    adds_node "intro" "Section" "" plain
    ∷ adds_node "bert" "Concept" "" (record plain { source_section = "intro"; confidence = 200 })
    ∷ adds_edge uses
    ∷ adds_edge uses
    ∷ adds_node "bert" "Method" "x" plain
    ∷ annotates "u1" (record { agent_id = "ada"; annotation_type = "strength"; content = "sound" })
    ∷ links
    ∷ counts
    ∷ []

-- The same, and then the clean-up.
abbrev cleaning : List Op
cleaning = ops ++ redirects "u0" "u1" ∷ prunes_ungrounded 300 ∷ prunes_orphans ∷ removes "u0" ∷ []

abbrev paper : Metadata
paper = record {
  title = "t";
  abstract = "a";
  text_preview = "a";
  word_count = "9";
  reference_count = "0";
  sections = "intro" ∷ "t" ∷ [];
  figure_count = 1;
  table_count = 0;
  equation_labels = [];
  reference_sample = some "r";
  citation_markers = ("[1]", "intro") ∷ ("[2]", "") ∷ [];
}

program : Unit {0}
unfolding run ingest_metadata tally node_by_label
program = tt

abbrev labels : Graph → List String
labels g = map (λ n. n.label) g.nodes

-- The second "bert" is the first one, with the better type.
upgrades : map (λ n. n.node_type) (run host ops empty_graph).nodes ≡ "Section" ∷ "Method" ∷ []
unfolding program
upgrades = refl

-- The repeated edge is there once, and the link to the section is made.
adds_edges : map (λ e. e.edge_type) (run host ops empty_graph).edges ≡ "USES" ∷ "APPEARS_IN" ∷ []
unfolding program
adds_edges = refl

cleans : labels (run host cleaning empty_graph) ≡ []
unfolding program
cleans = refl

abbrev cites : (marker label : String) → Bool
cites marker label = marker == "[1]" && label == "[1] Ada"

-- A graph that has a reference.
abbrev cited : Graph
cited = record empty_graph { nodes = make_node "r1" "[1] Ada" "Reference" plain ∷ [] }

cites_from_section :
    map (λ e. e.edge_type) (ingest_metadata host print cites paper cited).edges
    ≡ "HAS_SECTION" ∷ "HAS_SECTION" ∷ "HAS_SECTION" ∷ "CONTAINS" ∷ "CITES" ∷ []
unfolding program make_node
cites_from_section = refl

-- A section that has the paper's title is the paper.
ingests :
    labels (ingest_metadata host print cites paper empty_graph)
    ≡ "t" ∷ "Abstract" ∷ "intro" ∷ "Figure 1" ∷ []
unfolding program
ingests = refl

run-Labelled_example : Labelled host (run host cleaning empty_graph)
run-Labelled_example = run-Labelled host cleaning empty_graph tt

run-Keyed_example : Keyed (run host ops empty_graph)
run-Keyed_example = run-Keyed host ops empty_graph refl tt

run-Intact_example : Intact (run host cleaning empty_graph)
unfolding program
run-Intact_example = run-Intact host cleaning empty_graph refl tt

ingest_metadata-Sound_example :
    (root : String) × Sound host cited.edges
      (paper_label paper)
      root
      (ingest_metadata host print cites paper cited)
ingest_metadata-Sound_example = ingest_metadata-Sound host print cites paper cited (tt, tt) tt
