-- ===== src/Tools/GraphQuery/Tests.antt =====
-- Queries of protoneo/tools/graph_query.py on a small graph, and the theorems at it.
use protoneo.Prelude.{◌≤◌, String, ◌≡◌, refl, List, [], ◌∷◌, map, arith, length}
use protoneo.Knowledge.Graph.{Node, Edge, Graph, empty_graph}
use protoneo.Tools.GraphQuery.{Unsupported, claims_of, claims_without_support, claim_evidence}
use protoneo.Tools.GraphQuery.Evidence.{claim_evidence-agrees}

abbrev node : (id node_type : String) → Node
node id node_type = record {
  id = id;
  label = id;
  node_type = node_type;
  description = "";
  source_section = "";
  source_text = "";
  confidence = 1000;
  attributes = [];
  annotations = [];
}

abbrev edge : (source target : String) → Edge
edge source target = record {
  source_id = source;
  target_id = target;
  edge_type = "SUPPORTS";
  description = "";
  confidence = 1000;
  source_text = "";
}

abbrev graph : Graph
graph = record empty_graph {
  nodes = node "c1" "Claim" ∷ node "c2" "Claim" ∷ node "r1" "Result" ∷ node "m1" "Method" ∷ [];
  edges = edge "r1" "c1" ∷ edge "c2" "m1" ∷ [];
}

abbrev same : String → String
same s = s

abbrev as_given : List String → List String
as_given xs = xs

-- The second claim has only a method beside it.
finds_unsupported :
    map (λ (r : Unsupported). r.claim) (claims_without_support same as_given graph 20).results
    ≡ "c2" ∷ []
unfolding claims_without_support
finds_unsupported = refl

two_claims : length (claims_of graph) ≤ 20
two_claims = omega arith

claim_evidence-agrees_example :
    (claim_evidence same as_given graph 20).with_evidence
    ≡ (claims_without_support same as_given graph 20).supported
claim_evidence-agrees_example = claim_evidence-agrees same as_given graph 20 two_claims
