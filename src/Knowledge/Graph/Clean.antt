-- ===== src/Knowledge/Graph/Clean.antt =====
-- The passes of KnowledgeGraph in protoneo/knowledge/graph.py over the whole graph: pruning, and the
-- links from entities to their sections.
use protoneo.Prelude.{
  ℕ, ◌+◌, ◌-◌, String, Bool, not, ◌&&◌, ◌||◌, Option, none, some, List, [], ◌∷◌, ◌++◌, foldl, leb,
  ◌=ℕ◌, if◌then◌else◌, length, keep, any, find, ◌+s◌, ◌==◌,
}
use protoneo.Knowledge.Graph.{Host, Node, Edge, Graph, one_of, add_edge, touches, update_stats}

-- `_KEEP` and `_STRUCTURAL` of these methods.
unfoldable pub is_structural : String → Bool
is_structural =
    one_of ("Paper" ∷ "Section" ∷ "Diagram" ∷ "Figure" ∷ "Table" ∷ "Reference" ∷ "Equation" ∷ [])

unfoldable pub is_connected : List Edge → Node → Bool
is_connected es n = any (touches n.id) es

-- `if removed: self.update_stats()`
unfoldable pub restat : ℕ → Graph → Graph
unfolding update_stats
restat n g = if n =ℕ 0 then g else update_stats g

unfoldable pub prune_orphans : Graph → ℕ × Graph
unfolding is_structural is_connected restat
prune_orphans g =
    let kept = keep (λ n. is_structural n.node_type || is_connected g.edges n) g.nodes in
    let removed = length g.nodes - length kept in
    (removed, restat removed (record g { nodes = kept }))

unfoldable pub is_grounded : ℕ → Node → Bool
unfolding is_structural
is_grounded threshold n = is_structural n.node_type || leb threshold n.confidence

-- A set, as a list without repetitions.
unfoldable pub add_id : String → List String → List String
add_id x xs = if one_of xs x then xs else xs ++ x ∷ []

unfoldable pub id_set : List Node → List String
unfolding add_id
id_set ns = foldl (λ s n. add_id n.id s) [] ns

abbrev pub apart_from : List String → Edge → Bool
apart_from ids e = not (one_of ids e.source_id) && not (one_of ids e.target_id)

unfoldable pub prune_ungrounded : (threshold : ℕ) → Graph → ℕ × Graph
unfolding is_grounded id_set restat
prune_ungrounded threshold g =
    let removed = id_set (keep (λ n. not (is_grounded threshold n)) g.nodes) in
    let edges = keep (apart_from removed) g.edges in
    (
      length removed,
      restat (length removed)
          (record g { nodes = keep (is_grounded threshold) g.nodes; edges = edges }),
    )

-- `d[k] = v`: a key keeps its place.
unfoldable pub put : String → String → List (String × String) → List (String × String)
put k v [] = (k, v) ∷ []
put k v ((j, w) ∷ d) = let rest = put k v d in if j == k then (k, v) ∷ d else (j, w) ∷ rest

abbrev pub value_of : Option (String × String) → String
value_of none = ""
value_of (some (k, v)) = v

module _ (host : Host) where
  unfoldable pub section_map : List Node → List (String × String)
  unfolding put
  section_map ns =
      foldl (λ d n. if n.node_type == "Section" then put (host.lower n.label) n.id d else d) [] ns

  -- The section's id by its name, or by the first entry that has a part in common with the name;
  -- an empty id counts as none.
  unfoldable pub section_of : List (String × String) → String → String
  section_of sections name =
      let exact = value_of (find (λ e. e.0 == host.lower name) sections) in
      if exact == ""
      then value_of (
          find (λ e. host.contains (host.lower name) e.0 || host.contains e.0 (host.lower name))
            sections)
      else exact

  abbrev pub appears_in : Node → String → Edge
  appears_in n section = record {
    source_id = n.id;
    target_id = section;
    edge_type = "APPEARS_IN";
    description = "extracted from " +s n.source_section;
    confidence = 1000;
    source_text = "";
  }

  -- The set `existing` is read off the graph: it has the APPEARS_IN edges, the new ones too.
  abbrev pub is_linked : Node → String → Graph → Bool
  is_linked n section g =
      any (λ e. e.edge_type == "APPEARS_IN" && e.source_id == n.id && e.target_id == section)
        g.edges

  unfoldable pub link_node : List (String × String) → Node → ℕ × Graph → ℕ × Graph
  unfolding section_of is_structural add_edge
  link_node sections n (created, g) =
      let section = section_of sections n.source_section in
      if is_structural n.node_type
        || n.source_section == ""
        || section == ""
        || is_linked n section g
      then (created, g)
      else (created + 1, (add_edge (appears_in n section) g).1)

  unfoldable pub link_all : List (String × String) → List Node → ℕ × Graph → ℕ × Graph
  unfolding link_node
  link_all sections [] acc = acc
  link_all sections (n ∷ ns) acc = link_all sections ns (link_node sections n acc)

  unfoldable pub ensure_structural_links : Graph → ℕ × Graph
  unfolding link_all section_map restat
  ensure_structural_links g =
      let (created, h) = link_all (section_map g.nodes) g.nodes (0, g) in
      (created, restat created h)
