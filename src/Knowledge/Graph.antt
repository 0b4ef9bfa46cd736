-- ===== src/Knowledge/Graph.antt =====
-- KnowledgeGraph of protoneo/knowledge/graph.py: its nodes, its edges, and the operations on single
-- nodes and edges. A method that returns one of the graph's objects returns its value here.
pub mod Clean
pub mod Ingest
pub mod Steps
pub mod Labels
pub mod Keys
pub mod Intact
pub mod Removals
pub mod Linked
pub mod Integrity
pub mod Returned
pub mod Titles
pub mod Paper
pub mod Documents
pub mod Stats
pub mod Summary
pub mod Tests
use protoneo.Prelude.{
  ℕ, ◌+◌, String, Bool, not, ◌&&◌, ◌||◌, Option, none, some, List, [], ◌∷◌, ◌++◌, map, foldl,
  if◌then◌else◌, keep, find, ◌==◌, one_of, change_first, remove_first,
}
use protoneo.Json.{Json}

-- What the graph takes from the language: `str.lower`, `part in whole` on texts, and the identifiers
-- that successive calls of `uuid.uuid4` give.
pub record Host : Type 0 where
  pub lower : String → String
  pub contains : (part whole : String) → Bool
  pub uuid : ℕ → String

pub record Annotation : Type 0 where
  pub agent_id : String
  pub annotation_type : String
  pub content : String

-- A confidence is a float that the code only compares: of ℕ, thousandths, only the order counts.
pub record Node : Type 0 where
  pub id : String
  pub label : String
  pub node_type : String
  pub description : String
  pub source_section : String
  pub source_text : String
  pub confidence : ℕ
  pub attributes : List (String × Json)
  pub annotations : List Annotation

pub record Edge : Type 0 where
  pub source_id : String
  pub target_id : String
  pub edge_type : String
  pub description : String
  pub confidence : ℕ
  pub source_text : String

-- `drawn` counts the identifiers drawn so far.
pub record Graph : Type 0 where
  pub nodes : List Node
  pub edges : List Edge
  pub paper_title : String
  pub paper_abstract : String
  pub section_names : List String
  pub node_count_by_type : List (String × ℕ)
  pub edge_count_by_type : List (String × ℕ)
  pub drawn : ℕ

abbrev pub empty_graph : Graph
empty_graph = record {
  nodes = [];
  edges = [];
  paper_title = "";
  paper_abstract = "";
  section_names = [];
  node_count_by_type = [];
  edge_count_by_type = [];
  drawn = 0;
}

-- The keyword arguments of `add_node`.
pub record Details : Type 0 where
  pub description : String
  pub source_section : String
  pub source_text : String
  pub confidence : ℕ
  pub attributes : List (String × Json)

abbrev pub plain : Details
plain = record {
  description = "";
  source_section = "";
  source_text = "";
  confidence = 1000;
  attributes = [];
}

unfoldable pub is_generic : String → Bool
is_generic = one_of ("Concept" ∷ "Reference" ∷ "Equation" ∷ [])

unfoldable pub make_node : (id label node_type : String) → Details → Node
make_node id label node_type d = record {
  id = id;
  label = label;
  node_type = node_type;
  description = d.description;
  source_section = d.source_section;
  source_text = d.source_text;
  confidence = d.confidence;
  attributes = d.attributes;
  annotations = [];
}

-- The more specific type wins, and fills what is still empty.
unfoldable pub upgraded : (node_type : String) → Details → Node → Node
unfolding is_generic
upgraded node_type d n = record n {
  node_type =
      if is_generic n.node_type && not (is_generic node_type) then node_type else n.node_type;
  description =
      if is_generic n.node_type && not (is_generic node_type) && n.description == ""
      then d.description
      else n.description;
  source_section =
      if is_generic n.node_type && not (is_generic node_type) && n.source_section == ""
      then d.source_section
      else n.source_section;
}

module _ (host : Host) where
  -- `existing.label.lower() == label.lower()`
  abbrev pub labelled : String → Node → Bool
  labelled label n = host.lower n.label == host.lower label

  -- An empty `node_id` counts as none: `node_id or uuid4().hex[:12]`.
  unfoldable pub add_new : (label node_type node_id : String) → Details → Graph → Node × Graph
  unfolding make_node
  add_new label node_type node_id d g =
      let fresh = node_id == "" in
      let n = make_node (if fresh then host.uuid g.drawn else node_id) label node_type d in
      (n, record g { nodes = g.nodes ++ n ∷ []; drawn = if fresh then g.drawn + 1 else g.drawn })

  -- The second search, for the label alone.
  unfoldable pub add_by_label :
      Option Node → (label node_type node_id : String) → Details → Graph → Node × Graph
  unfolding upgraded add_new
  add_by_label (some n) label node_type node_id d g = (
    upgraded node_type d n,
    record g { nodes = change_first (labelled label) (upgraded node_type d) g.nodes },
  )
  add_by_label none label node_type node_id d g = add_new label node_type node_id d g

  -- The first search, for the label with the type.
  unfoldable pub add_unless :
      Option Node → (label node_type node_id : String) → Details → Graph → Node × Graph
  unfolding add_by_label
  add_unless (some n) label node_type node_id d g = (n, g)
  add_unless none label node_type node_id d g =
      add_by_label (find (labelled label) g.nodes) label node_type node_id d g

  unfoldable pub add_node : (label node_type node_id : String) → Details → Graph → Node × Graph
  unfolding add_unless
  add_node label node_type node_id d g =
      add_unless (find (λ n. labelled label n && n.node_type == node_type) g.nodes) label node_type
        node_id d g

  unfoldable pub node_by_label : String → Graph → Option Node
  node_by_label label g = find (labelled label) g.nodes

unfoldable pub node_by_id : String → Graph → Option Node
node_by_id id g = find (λ n. n.id == id) g.nodes

abbrev pub same_key : Edge → Edge → Bool
same_key e f =
    e.source_id == f.source_id && e.target_id == f.target_id && e.edge_type == f.edge_type

unfoldable pub add_edge_unless : Option Edge → Edge → Graph → Edge × Graph
add_edge_unless (some existing) e g = (existing, g)
add_edge_unless none e g = (e, record g { edges = g.edges ++ e ∷ [] })

unfoldable pub add_edge : Edge → Graph → Edge × Graph
unfolding add_edge_unless
add_edge e g = add_edge_unless (find (λ x. same_key x e) g.edges) e g

unfoldable pub annotate_node : String → Annotation → Graph → Graph
annotate_node id a g = record g {
  nodes =
      change_first (λ n. n.id == id) (λ n. record n { annotations = n.annotations ++ a ∷ [] })
        g.nodes;
}

abbrev pub touches : String → Edge → Bool
touches id e = e.source_id == id || e.target_id == id

unfoldable pub remove_found : Option Node → String → Graph → Option Node × Graph
remove_found none id g = (none, g)
remove_found (some n) id g = (
  some n,
  record g {
    nodes = remove_first (λ m. m.id == id) g.nodes;
    edges = keep (λ e. not (touches id e)) g.edges;
  },
)

unfoldable pub remove_node : String → Graph → Option Node × Graph
unfolding remove_found
remove_node id g = remove_found (find (λ n. n.id == id) g.nodes) id g

abbrev pub moved : (old new id : String) → String
moved old new id = if id == old then new else id

unfoldable pub redirected : (old new : String) → Edge → Edge
redirected old new e = record e {
  source_id = moved old new e.source_id;
  target_id = moved old new e.target_id;
}

abbrev pub count_ends : String → List Edge → ℕ
count_ends old [] = 0
count_ends old (e ∷ es) =
    (if e.source_id == old then 1 else 0)
    + (if e.target_id == old then 1 else 0)
    + count_ends old es

unfoldable pub redirect_edges : (old new : String) → Graph → ℕ × Graph
unfolding redirected
redirect_edges old new g =
    (count_ends old g.edges, record g { edges = map (redirected old new) g.edges })

-- One more in a `defaultdict(int)`.
unfoldable pub bump : String → List (String × ℕ) → List (String × ℕ)
bump k [] = (k, 1) ∷ []
bump k ((j, n) ∷ d) = let rest = bump k d in if j == k then (j, n + 1) ∷ d else (j, n) ∷ rest

unfoldable pub tally : List String → List (String × ℕ)
unfolding bump
tally ks = foldl (λ d k. bump k d) [] ks

unfoldable pub update_stats : Graph → Graph
unfolding tally
update_stats g = record g {
  node_count_by_type = tally (map (λ n. n.node_type) g.nodes);
  edge_count_by_type = tally (map (λ e. e.edge_type) g.edges);
}
