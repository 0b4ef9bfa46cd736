-- ===== src/Tools/GraphQuery.antt =====
-- The queries of protoneo/tools/graph_query.py about the claims of a knowledge graph. `short` is
-- `_short`, and `sorted_set` is `sorted` of the set of the texts.
pub mod Evidence
mod Tests
use protoneo.Prelude.{
  ℕ, min, max, String, Bool, true, false, not, Option, none, some, List, [], ◌∷◌, map, ◌=ℕ◌,
  if◌then◌else◌, length, take, keep, any, get_last?, ◌==◌, one_of,
}
use protoneo.Knowledge.Graph.{Node, Edge, Graph}

unfoldable pub is_evidence_type : String → Bool
is_evidence_type = one_of (
    "Result" ∷ "Evidence" ∷ "Finding" ∷ "Metric" ∷ "Figure" ∷ "Table" ∷ "Equation" ∷ "Experiment"
    ∷ "Observation" ∷ [])

-- `{n.id: n for n in nodes}.get(id)`
unfoldable pub last_node : String → List Node → Option Node
last_node id ns = get_last? (keep (λ n. n.id == id) ns)

abbrev pub label_or : String → Option Node → String
label_or id none = id
label_or id (some n) = n.label

abbrev pub type_or_empty : Option Node → String
type_or_empty none = ""
type_or_empty (some n) = n.node_type

-- `type_map.get(id, "")`
unfoldable pub type_at : Graph → String → String
unfolding last_node
type_at g id = type_or_empty (last_node id g.nodes)

pub record Neighbour : Type 0 where
  pub label : String
  pub node_type : String
  pub edge_type : String
  pub outgoing : Bool

-- `limit = max(1, min(int(limit or 20), 100))`
unfoldable pub clamped : ℕ → ℕ
clamped n = max 1 (min (if n =ℕ 0 then 20 else n) 100)

pub record Unsupported : Type 0 where
  pub claim : String
  pub section : String
  pub neighbor_types : List String

pub record Unsupporteds : Type 0 where
  pub results : List Unsupported
  pub count : ℕ
  pub supported : ℕ
  pub available : Bool

pub record ClaimRow : Type 0 where
  pub claim : String
  pub section : String
  pub evidence : List (String × String)

pub record ClaimRows : Type 0 where
  pub results : List ClaimRow
  pub count : ℕ
  pub with_evidence : ℕ
  pub available : Bool

-- `by_type.get("Claim", [])`
abbrev pub claims_of : Graph → List Node
claims_of g = keep (λ n. n.node_type == "Claim") g.nodes

module _ (short : String → String) (sorted_set : List String → List String) (g : Graph) where
  unfoldable pub neighbour : (other edge_type : String) (outgoing : Bool) → Neighbour
  unfolding type_at last_node
  neighbour other edge_type outgoing = record {
    label = short (label_or other (last_node other g.nodes));
    node_type = type_at g other;
    edge_type = edge_type;
    outgoing = outgoing;
  }

  unfoldable pub neighbors : String → List Edge → List Neighbour
  unfolding neighbour
  neighbors id [] = []
  neighbors id (e ∷ es) =
      let rest = neighbors id es in
      if e.source_id == id
      then neighbour e.target_id e.edge_type true ∷ rest
      else if e.target_id == id
      then neighbour e.source_id e.edge_type false ∷ rest
      else rest

  abbrev pub is_evidence : Neighbour → Bool
  is_evidence n = is_evidence_type n.node_type

  unfoldable pub has_evidence : Node → Bool
  unfolding neighbors is_evidence_type
  has_evidence c = any is_evidence (neighbors c.id g.edges)

  abbrev pub unsupported_row : Node → Unsupported
  unsupported_row c = record {
    claim = short c.label;
    section = c.source_section;
    neighbor_types =
        sorted_set (
          keep (λ t. not (t == ""))
            (map (λ (n : Neighbour). n.node_type) (neighbors c.id g.edges)));
  }

  unfoldable pub claims_without_support : (limit : ℕ) → Unsupporteds
  unfolding has_evidence
  claims_without_support limit =
      let unsupported = keep (λ c. not (has_evidence c)) (claims_of g) in
      record {
        results = take limit (map unsupported_row unsupported);
        count = length unsupported;
        supported = length (keep has_evidence (claims_of g));
        available = not (length (claims_of g) =ℕ 0);
      }

  abbrev pub claim_row : Node → ClaimRow
  claim_row c = record {
    claim = short c.label;
    section = c.source_section;
    evidence =
        map (λ (n : Neighbour). (n.label, n.node_type)) (keep is_evidence (neighbors c.id g.edges));
  }

  abbrev pub has_rows : ClaimRow → Bool
  has_rows r = not (length r.evidence =ℕ 0)

  unfoldable pub claim_evidence : (limit : ℕ) → ClaimRows
  unfolding neighbors is_evidence_type
  claim_evidence limit =
      let rows = map claim_row (take limit (claims_of g)) in
      record {
        results = rows;
        count = length (claims_of g);
        with_evidence = length (keep has_rows rows);
        available = not (length (claims_of g) =ℕ 0);
      }
