-- ===== src/Knowledge/Verifier.antt =====
-- `verify_graph` of protoneo/knowledge/graph_verifier.py, from the parsed answers of the model on: the
-- connections, the concepts and the confidences that its three passes change in the graph. The prompts
-- are not modelled. A confidence is in thousandths.
pub mod Added
pub mod Concepts
pub mod Passes
pub mod Bounded
pub mod Preserved
pub mod Sound
mod Tests
use protoneo.Prelude.{
  ℕ, ◌+◌, min, max, String, Bool, not, ◌&&◌, ◌||◌, Option, none, some, List, [], ◌∷◌, ◌++◌, foldl,
  ltb, leb, if◌then◌else◌, any, ◌+s◌, ◌==◌, get_at, put_at, is_some,
}
use protoneo.Knowledge.Graph.{
  Host, Node, Edge, Graph, Details, labelled, add_node, add_edge, update_stats,
}
use protoneo.Knowledge.Graph.Clean.{is_structural, section_map, section_of}
use Prim.Native.String.{count}

pub record Connection : Type 0 where
  pub source : String
  pub target : String
  pub kind : String
  pub evidence : String

pub record Concept : Type 0 where
  pub concept : String
  pub suggested_type : String
  pub section : String

-- `confidence` is none where `float` raises.
pub record Issue : Type 0 where
  pub entity : String
  pub confidence : Option ℕ

-- VerificationResult
pub record Report : Type 0 where
  pub grounding_issues : List Issue
  pub missing_concepts : List Concept
  pub missing_connections : List Connection
  pub confidence_updates : List (String × ℕ)
  pub entities_added : ℕ
  pub entities_flagged : ℕ

abbrev pub empty_report : Report
empty_report = record {
  grounding_issues = [];
  missing_concepts = [];
  missing_connections = [];
  confidence_updates = [];
  entities_added = 0;
  entities_flagged = 0;
}

-- What the model answered: to the first pass, and to the other two, which fail together.
pub record Findings : Type 0 where
  pub connections : Option (List Connection)
  pub audit : Option (List Concept × List Issue)

-- The last element that passes is changed: a dictionary keeps the last node of a label.
abbrev pub change_last {ℓ} : {A : Type ℓ} → (A → Bool) → (A → A) → List A → List A
change_last p f [] = []
change_last p f (x ∷ xs) =
    let rest = change_last p f xs in if any p xs then x ∷ rest else if p x then f x ∷ xs else x ∷ xs

abbrev pub find_last {ℓ} : {A : Type ℓ} → (A → Bool) → List A → Option A
find_last p [] = none
find_last p (x ∷ xs) =
    let rest = find_last p xs in if any p xs then rest else if p x then some x else none

abbrev pub confidence_of : Option Node → ℕ
confidence_of none = 0
confidence_of (some n) = n.confidence

unfoldable pub lowered : (confidence : ℕ) → Node → Node
lowered confidence n = record n { confidence = max 100 (min confidence n.confidence) }

abbrev pub connected : Connection → (source target : String) → Edge
connected c source target = record {
  source_id = source;
  target_id = target;
  edge_type = c.kind;
  description = c.evidence;
  confidence = 1000;
  source_text = "";
}

unfoldable pub joined_by : Connection → (source target : String) → Graph × Report → Graph × Report
joined_by c source target (g, r) = (
  (add_edge (connected c source target) g).1,
  record r { missing_connections = r.missing_connections ++ c ∷ [] },
)

unfoldable pub connect :
    Connection → Option String → Option String → Graph × Report → Graph × Report
connect c (some source) (some target) s =
    if source == target then s else joined_by c source target s
connect c (some source) none s = s
connect c none target s = s

abbrev pub found_edge : (source target kind description : String) → Edge
found_edge source target kind description = record {
  source_id = source;
  target_id = target;
  edge_type = kind;
  description = description;
  confidence = 1000;
  source_text = "";
}

abbrev pub concept_details : (section : String) → Details
concept_details section = record {
  description = "Found by verification completeness pass";
  source_section = section;
  source_text = "";
  confidence = 700;
  attributes = [];
}

-- The state of the second pass: the labels, the graph and the report.
pub record Completing : Type 0 where
  pub labels : List (String × String)
  pub graph : Graph
  pub report : Report

abbrev pub unless_raised :
    Option (Graph × Report) → Graph × Report → (Graph × Report → Graph × Report) → Graph × Report
unless_raised none s continue = s
unless_raised (some t) s continue = continue t

module _ (host : Host) where
  -- `{n.label.lower(): n for n in nodes}`, with the nodes' ids
  unfoldable pub label_to_node : List Node → List (String × String)
  label_to_node ns = foldl (λ d (n : Node). put_at (host.lower n.label) n.id d) [] ns

  unfoldable pub connect_all :
      (labels : List (String × String)) → List Connection → Graph × Report → Graph × Report
  connect_all labels [] s = s
  connect_all labels (c ∷ cs) s =
      connect_all labels cs
        (connect c (get_at (host.lower c.source) labels) (get_at (host.lower c.target) labels) s)

  -- The edge from the new node to its section, or to the root.
  unfoldable pub link_concept : (sections : List (String × String)) → Concept → (id : String) → Edge
  link_concept sections c id =
      let section = section_of host sections c.section in
      if c.section == "" || section == ""
      then found_edge id "paper-root" "PART_OF" "verification: completeness addition"
      else found_edge id section "APPEARS_IN" ("verification: found in " +s c.section)

  unfoldable pub is_new_concept : List (String × String) → String → Bool
  is_new_concept labels name =
      not (name == "") && ltb 2 (count name) && not (is_some (get_at (host.lower name) labels))

  unfoldable pub add_concept :
      (sections : List (String × String)) → Concept → Completing → Completing
  add_concept sections c s =
      let added = add_node host c.concept c.suggested_type "" (concept_details c.section) s.graph in
      if is_new_concept s.labels c.concept
      then record {
        labels = put_at (host.lower c.concept) added.0.id s.labels;
        graph = (add_edge (link_concept sections c added.0.id) added.1).1;
        report = record s.report {
          missing_concepts = s.report.missing_concepts ++ c ∷ [];
          entities_added = s.report.entities_added + 1;
        };
      }
      else s

  unfoldable pub add_concepts :
      (sections : List (String × String)) → List Concept → Completing → Completing
  add_concepts sections [] s = s
  add_concepts sections (c ∷ cs) s =
      let rest = add_concepts sections cs (add_concept sections c s) in
      if leb 15 s.report.entities_added then s else rest

  unfoldable pub complete_graph : List Concept → Graph × Report → Graph × Report
  complete_graph cs (g, r) =
      let s =
        add_concepts (section_map host g.nodes) cs
          (record { labels = label_to_node g.nodes; graph = g; report = r }) in
      (s.graph, s.report)

  unfoldable pub with_confidence :
      (entity id : String) → (confidence : ℕ) → Graph × Report → Graph × Report
  with_confidence entity id confidence (g, r) =
      let nodes = change_last (labelled host entity) (lowered confidence) g.nodes in
      (
        record g { nodes = nodes },
        record r {
          confidence_updates =
              put_at id (confidence_of (find_last (labelled host entity) nodes))
                r.confidence_updates;
          entities_flagged = r.entities_flagged + 1;
        },
      )

  -- The confidence of the last node of the entity's label; none where `float` raises.
  unfoldable pub lower_confidence :
      Issue
      → (id : Option String) → (confidence : Option ℕ) → Graph × Report
      → Option (Graph × Report)
  lower_confidence i none confidence s = some s
  lower_confidence i (some id) none s = none
  lower_confidence i (some id) (some confidence) s = some (with_confidence i.entity id confidence s)

  unfoldable pub lower_all :
      (labels : List (String × String)) → List Issue → Graph × Report → Graph × Report
  lower_all labels [] s = s
  lower_all labels (i ∷ is) s =
      unless_raised (lower_confidence i (get_at (host.lower i.entity) labels) i.confidence s) s
        (λ t. lower_all labels is t)

  unfoldable pub ground_graph : List Issue → Graph × Report → Graph × Report
  ground_graph is (g, r) =
      lower_all (label_to_node g.nodes) is (g, record r { grounding_issues = is })

  unfoldable pub connect_graph : Option (List Connection) → Graph × Report → Graph × Report
  connect_graph none s = s
  connect_graph (some cs) (g, r) = connect_all (label_to_node g.nodes) cs (g, r)

  unfoldable pub audit_graph : Option (List Concept × List Issue) → Graph × Report → Graph × Report
  audit_graph none s = s
  audit_graph (some (cs, is)) s = ground_graph is (complete_graph cs s)

  unfoldable pub verify_graph : Findings → Graph → Graph × Report
  verify_graph f g =
      if any (λ n. not (is_structural n.node_type)) g.nodes
      then (let s = audit_graph f.audit (connect_graph f.connections (g, empty_report)) in
          (update_stats s.0, s.1))
      else (g, empty_report)
