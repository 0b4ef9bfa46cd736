-- ===== src/Knowledge/Coref/Tests.antt =====
-- A small run of protoneo/knowledge/coref_resolver.py, and the theorems at it.
use protoneo.Prelude.{String, ◌≡◌, refl, List, [], ◌∷◌, map, ◌==◌}
use protoneo.Knowledge.Graph.{Host, Node, Edge, Graph, empty_graph}
use protoneo.Knowledge.Graph.Ingest.{link}
use protoneo.Knowledge.Graph.Labels.{Labelled}
use protoneo.Knowledge.Coref.{Answer, id_at, absorb_node, resolve}
use protoneo.Knowledge.Coref.Cleaned.{Tidy, resolve-Tidy}

abbrev host : Host
host = record { lower = λ s. s; contains = λ part whole. part == whole; uuid = λ n. "u" }

-- "bert" and "BERT model" are one, and "nlp" abbreviates what the graph calls "language".
abbrev an_answer : Answer
an_answer = record {
  merges = record { keeps = "bert"; removes = "BERT model" ∷ "bert" ∷ "unknown" ∷ [] } ∷ [];
  aliases = record { full = "language"; abbreviation = "nlp" } ∷ [];
}

abbrev answers : List Answer
answers = an_answer ∷ []

abbrev node : String → Node
node id = record {
  id = id;
  label = id;
  node_type = "Method";
  description = "";
  source_section = "";
  source_text = "";
  confidence = 1000;
  attributes = [];
  annotations = [];
}

abbrev graph : Graph
graph = record empty_graph {
  nodes = node "bert" ∷ node "BERT model" ∷ node "language" ∷ node "nlp" ∷ [];
  edges =
      link "bert" "nlp" "USES" ""
      ∷ link "BERT model" "nlp" "USES" ""
      ∷ link "bert" "BERT model" "EXTENDS" ""
      ∷ [];
}

program : Unit {0}
unfolding resolve absorb_node
program = tt

abbrev ends_of : Edge → List String
ends_of e = e.source_id ∷ e.edge_type ∷ e.target_id ∷ []

resolves :
    map ends_of (resolve host answers graph).graph.edges
    ≡ ("bert" ∷ "USES" ∷ "nlp" ∷ []) ∷ ("nlp" ∷ "ALIAS_OF" ∷ "language" ∷ []) ∷ []
unfolding program id_at
resolves = refl

resolve-Tidy_example : Tidy (resolve host answers graph).graph.edges
resolve-Tidy_example = resolve-Tidy host an_answer [] graph

graph-Labelled : Labelled host graph
graph-Labelled = ((refl, (refl, (refl, tt))), ((refl, (refl, tt)), ((refl, tt), (tt, tt))))
