-- ===== src/Knowledge/Graph/Linked.antt =====
-- The links of entities to sections that KnowledgeGraph in protoneo/knowledge/graph.py makes end at
-- nodes of the graph.
use protoneo.Prelude.{
  ℕ, String, ◌≡◌, sym, subst, inl, inr, Bool, true, false, ◌||◌, List, [], ◌∷◌, ◌++◌, foldl,
  append_assoc, arith, if◌then◌else◌, Bool-cases, find, All, ◌==◌, eq_refl,
}
use protoneo.Knowledge.Graph.{Host, Node, Graph}
use protoneo.Knowledge.Graph.Clean.{
  is_structural, put, value_of, section_map, section_of, appears_in, is_linked, link_node, link_all,
  ensure_structural_links,
}
use protoneo.Knowledge.Graph.Labels.{link_node-nodes}
use protoneo.Knowledge.Graph.Intact.{has_node, Intact}
use protoneo.Knowledge.Graph.Removals.{restat-Intact, add_edge-Intact}

-- A dictionary whose values are ids of nodes.
abbrev pub Targets : List Node → List (String × String) → Type 0
Targets ns d = All (λ kv. has_node kv.1 ns ≡ true) d

put-Targets :
    (ns : List Node) (k v : String) (d : List (String × String))
    → has_node v ns ≡ true
    → Targets ns d
    → Targets ns (put k v d)
unfolding put
put-Targets ns k v [] h t = (h, tt)
put-Targets ns k v ((j, w) ∷ d) h t = elim (Bool-cases (j == k)) [
  | inl e ↦ rw e (h, t.1)
  | inr e ↦ rw e (t.0, put-Targets ns k v d h t.1)
]

value_of-Targets :
    (ns : List Node) (p : String × String → Bool) (d : List (String × String))
    → Targets ns d
    → (value_of (find p d) == "") ≡ false
    → has_node (value_of (find p d)) ns ≡ true
value_of-Targets ns p [] t h = ground (arith, eq_refl "")
value_of-Targets ns p ((k, v) ∷ d) t h = elim (Bool-cases (p (k, v))) [
  | inl e ↦ rw e t.0
  | inr e ↦ rw e (value_of-Targets ns p d t.1 (rw e at h))
]

-- Every node of a suffix of a list is in the list.
pub suffix-has_node : (ns ms : List Node) → All (λ n. has_node n.id (ns ++ ms) ≡ true) ms
suffix-has_node ns [] = tt
suffix-has_node ns (m ∷ ms) = (
  has_node-last ns,
  subst (λ l. All (λ n. has_node n.id l ≡ true) ms) (append_assoc ns (m ∷ []) ms)
      (suffix-has_node (ns ++ m ∷ []) ms),
)
  where
    has_node-last : (xs : List Node) → has_node m.id (xs ++ m ∷ ms) ≡ true
    has_node-last [] = ground (arith, eq_refl m.id)
    has_node-last (x ∷ xs) = ground (arith, has_node-last xs)

module _ (host : Host) where
  pub section_map-Targets :
      (ns ms : List Node) (d : List (String × String))
      → All (λ n. has_node n.id ns ≡ true) ms
      → Targets ns d
      → Targets ns (
          foldl
            (λ d n. if n.node_type == "Section" then put (host.lower n.label) n.id d else d)
            d
            ms)
  section_map-Targets ns [] d h t = t
  section_map-Targets ns (m ∷ ms) d h t =
      section_map-Targets ns ms _ h.1 (step (m.node_type == "Section"))
    where
      step : (b : Bool) → Targets ns (if b then put (host.lower m.label) m.id d else d)
      step true = put-Targets ns (host.lower m.label) m.id d h.0 t
      step false = t

  pub section_of-Targets :
      (ns : List Node) (d : List (String × String)) (name : String)
      → Targets ns d
      → (section_of host d name == "") ≡ false
      → has_node (section_of host d name) ns ≡ true
  unfolding section_of
  section_of-Targets ns d name t h =
      elim (Bool-cases (value_of (find (λ e. e.0 == host.lower name) d) == "")) [
        | inl e ↦ rw e (value_of-Targets ns _ d t (rw e at h))
        | inr e ↦ rw e (value_of-Targets ns _ d t e)
      ]

  link_node-Intact :
      (d : List (String × String)) (n : Node) (acc : ℕ × Graph)
      → has_node n.id acc.1.nodes ≡ true
      → Targets acc.1.nodes d
      → Intact acc.1
      → Intact (link_node host d n acc).1
  unfolding link_node
  link_node-Intact d n (created, g) m t h =
      let section = section_of host d n.source_section in
      let b =
        is_structural n.node_type
        || n.source_section == ""
        || section == ""
        || is_linked host n section g in
      elim (Bool-cases b) [
        | inl e ↦ rw e h
        | inr e ↦ rw e (
            add_edge-Intact (appears_in host n section) g
              (m, section_of-Targets g.nodes d n.source_section t (ground arith)) h)
      ]

  link_all-Intact :
      (d : List (String × String)) (ns : List Node) (acc : ℕ × Graph)
      → All (λ n. has_node n.id acc.1.nodes ≡ true) ns
      → Targets acc.1.nodes d
      → Intact acc.1
      → Intact (link_all host d ns acc).1
  unfolding link_all
  link_all-Intact d [] acc m t h = h
  link_all-Intact d (n ∷ ns) acc m t h =
      let same = sym (link_node-nodes host d n acc) in
      link_all-Intact d ns (link_node host d n acc)
        (subst (λ xs. All (λ n. has_node n.id xs ≡ true) ns) same m.1)
        (subst (λ xs. Targets xs d) same t) (link_node-Intact d n acc m.0 t h)

  pub links-Intact : (g : Graph) → Intact g → Intact (ensure_structural_links host g).1
  unfolding ensure_structural_links section_map
  links-Intact g h =
      let own = suffix-has_node [] g.nodes in
      restat-Intact (link_all host (section_map host g.nodes) g.nodes (0, g)).0 _ (
        link_all-Intact (section_map host g.nodes) g.nodes (0, g) own
          (section_map-Targets g.nodes g.nodes [] own tt) h)
