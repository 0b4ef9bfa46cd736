-- ===== src/Knowledge/Verifier/Tests.antt =====
-- A small graph for protoneo/knowledge/graph_verifier.py, and the theorems at it.
use protoneo.Prelude.{
  ℕ, ◌+◌, ◌≤◌, String, ◌≡◌, refl, true, some, List, [], ◌∷◌, map, ◌=ℕ◌, if◌then◌else◌, length, ◌==◌,
  get_at, put_at,
}
use protoneo.Knowledge.Graph.{
  Host, Node, Graph, empty_graph, is_generic, make_node, upgraded, add_new, add_by_label,
  add_unless, add_node, add_edge_unless, add_edge, bump, tally, update_stats,
}
use protoneo.Knowledge.Graph.Clean.{is_structural, put, section_map, section_of}
use protoneo.Knowledge.Graph.Labels.{Labelled}
use protoneo.Knowledge.Graph.Intact.{has_node, Intact}
use protoneo.Knowledge.Verifier.{
  Findings, lowered, joined_by, connect, label_to_node, connect_all, link_concept, is_new_concept,
  add_concept, add_concepts, complete_graph, with_confidence, lower_confidence, lower_all,
  ground_graph, connect_graph, audit_graph, verify_graph,
}
use protoneo.Knowledge.Verifier.Bounded.{verify_graph-bounded}
use protoneo.Knowledge.Verifier.Preserved.{Lowered, verify_graph-Lowered}
use protoneo.Knowledge.Verifier.Sound.{verify_graph-Intact}

abbrev host : Host
host = record {
  lower = λ text. text;
  contains = λ part whole. part == whole;
  uuid = λ n. if n =ℕ 0 then "id0" else "id1";
}

abbrev node : (id label node_type : String) → Node
node id label node_type = record {
  id = id;
  label = label;
  node_type = node_type;
  description = "";
  source_section = "";
  source_text = "";
  confidence = 900;
  attributes = [];
  annotations = [];
}

abbrev graph : Graph
graph = record empty_graph {
  nodes =
      node "paper-root" "A paper" "Paper"
      ∷ node "s1" "intro" "Section"
      ∷ node "a" "array" "Method"
      ∷ [];
}

abbrev findings : Findings
findings = record {
  connections =
      some (record { source = "array"; target = "intro"; kind = "APPEARS_IN"; evidence = "" } ∷ []);
  audit = some (
    record { concept = "beam"; suggested_type = "Concept"; section = "intro" } ∷ [],
    record { entity = "array"; confidence = some 20 } ∷ [],
  );
}

abbrev confidences : Graph → List ℕ
confidences g = map (λ (n : Node). n.confidence) g.nodes

verified :
    (confidences (verify_graph host findings graph).0 ≡ 900 ∷ 900 ∷ 100 ∷ 700 ∷ [])
    × ((verify_graph host findings graph).1.entities_added ≡ 1)
unfolding verify_graph connect_graph audit_graph complete_graph ground_graph lower_all
    lower_confidence with_confidence add_concepts add_concept is_new_concept link_concept
    connect_all label_to_node connect joined_by lowered get_at put_at is_structural add_node
    add_unless add_by_label add_new make_node upgraded is_generic section_map section_of put
    add_edge add_edge_unless update_stats tally bump
verified = (refl, refl)

verify_graph-bounded_example :
    (length (verify_graph host findings graph).0.nodes
      ≡ length graph.nodes + (verify_graph host findings graph).1.entities_added)
    × ((verify_graph host findings graph).1.entities_added ≤ 15)
verify_graph-bounded_example = verify_graph-bounded host findings graph

graph-Labelled : Labelled host graph
graph-Labelled = ((refl, (refl, tt)), ((refl, tt), (tt, tt)))

verify_graph-Lowered_example :
    Labelled host (verify_graph host findings graph).0
    × Lowered graph.nodes (verify_graph host findings graph).0.nodes
verify_graph-Lowered_example = verify_graph-Lowered host findings graph graph-Labelled

verify_graph-Intact_example :
    Intact (verify_graph host findings graph).0
    × (has_node "paper-root" (verify_graph host findings graph).0.nodes ≡ true)
verify_graph-Intact_example = verify_graph-Intact host findings graph tt refl
