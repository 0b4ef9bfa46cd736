-- ===== src/Knowledge/Graph/Summary/Tests.antt =====
-- A small graph with artifacts of protoneo/knowledge/graph.py, and the theorems on its summaries.
use protoneo.Prelude.{String, ◌≡◌, refl, List, [], ◌∷◌}
use protoneo.Json.{Json, str}
use protoneo.Knowledge.Graph.{Node, Graph, empty_graph}
use protoneo.Knowledge.Graph.Summary.{mixed, grounding_summary, graph_stats}

abbrev node : (id node_type : String) → List (String × Json) → Node
node id node_type attributes = record {
  id = id;
  label = id;
  node_type = node_type;
  description = "";
  source_section = "";
  source_text = "";
  confidence = 1000;
  attributes = attributes;
  annotations = [];
}

abbrev graph : Graph
graph = record empty_graph {
  nodes =
      node "f1" "Figure" (("description", str "a plot") ∷ [])
      ∷ node "f2" "Figure" (("description", str "") ∷ [])
      ∷ node "e1" "Equation" (("grounding", str "formula_decoded") ∷ [])
      ∷ node "e2" "Equation" []
      ∷ node "bert" "Method" []
      ∷ [];
}

-- The equation without grounding is no evidence.
summarised :
    ((grounding_summary graph).mode ≡ mixed)
    × ((grounding_summary graph).equations ≡ 1)
    × ((graph_stats graph).semantic_entities ≡ 1)
unfolding grounding_summary graph_stats
summarised = (refl, refl, refl)
