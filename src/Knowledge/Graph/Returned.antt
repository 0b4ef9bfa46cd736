-- ===== src/Knowledge/Graph/Returned.antt =====
-- The node that `add_node` of protoneo/knowledge/graph.py returns, and the edges that it and `add_edge`
-- leave.
use protoneo.Prelude.{
  String, ◌≡◌, refl, ap, ◌∙◌, subst, ◌⊎◌, inl, inr, Bool, true, ◌&&◌, some, some-injective, List,
  [], ◌∷◌, ◌++◌, append_assoc, arith, Bool-cases, Option-cases, find, All, All-append, ◌==◌,
  eq_refl,
}
use protoneo.Knowledge.Graph.{
  Host, Node, Edge, Graph, Details, upgraded, labelled, add_new, add_by_label, add_unless, add_node,
  same_key, add_edge_unless, add_edge,
}
use protoneo.Knowledge.Graph.Intact.{has_node, has_node-change_first}
use protoneo.Knowledge.Graph.Integrity.{add_unless-has_node}

pub found-has_node :
    (p : Node → Bool) (ns : List Node) (n : Node) → find p ns ≡ some n → has_node n.id ns ≡ true
found-has_node p [] n h = ground arith
found-has_node p (m ∷ ms) n h = elim (Bool-cases (p m)) [
  | inl e ↦
      subst (λ k. has_node k.id (m ∷ ms) ≡ true) (some-injective _ _ (rw e at h))
        (ground (arith, eq_refl m.id))
  | inr e ↦ ground (arith, found-has_node p ms n (rw e at h))
]

last-has_node : (n : Node) (ns : List Node) → has_node n.id (ns ++ n ∷ []) ≡ true
last-has_node n [] = ground (arith, eq_refl n.id)
last-has_node n (m ∷ ms) = ground (arith, last-has_node n ms)

module _ (host : Host) where
  -- `add_node` returns a node of the graph that it leaves.
  add_by_label-returned :
      (label node_type node_id : String) (d : Details) (g : Graph)
      → let r =
          add_by_label host (find (labelled host label) g.nodes) label node_type node_id d g in
        has_node r.0.id r.1.nodes ≡ true
  unfolding add_by_label add_new upgraded
  add_by_label-returned label node_type node_id d g =
      elim (Option-cases (find (labelled host label) g.nodes)) [
        | inl e ↦ rw e (last-has_node _ g.nodes)
        | inr (n, e) ↦ rw e (
            has_node-change_first n.id (labelled host label) (upgraded node_type d) g.nodes
              (λ m. refl) (found-has_node (labelled host label) g.nodes n e))
      ]

  pub add_node-returned :
      (label node_type node_id : String) (d : Details) (g : Graph)
      → has_node
          (add_node host label node_type node_id d g).0.id
          (add_node host label node_type node_id d g).1.nodes
        ≡ true
  unfolding add_node add_unless
  add_node-returned label node_type node_id d g =
      let p = λ (n : Node). labelled host label n && n.node_type == node_type in
      elim (Option-cases (find p g.nodes)) [
        | inl e ↦ rw e (add_by_label-returned label node_type node_id d g)
        | inr (n, e) ↦ rw e (found-has_node p g.nodes n e)
      ]

  pub add_node-has_node :
      (label node_type node_id : String) (d : Details) (g : Graph) (id : String)
      → has_node id g.nodes ≡ true
      → has_node id (add_node host label node_type node_id d g).1.nodes ≡ true
  unfolding add_node
  add_node-has_node label node_type node_id d g =
      add_unless-has_node host
        (find (λ n. labelled host label n && n.node_type == node_type) g.nodes) label node_type
        node_id d g

-- The edges that were there, and then edges from the paper, and citations.
abbrev pub Starts : (root : String) → Edge → Type 0
Starts root e = (e.source_id ≡ root) ⊎ (e.edge_type ≡ "CITES")

abbrev pub Since : (old : List Edge) (root : String) → List Edge → Type 0
Since old root edges = (new : List Edge) × ((edges ≡ old ++ new) × All (Starts root) new)

pub Since-add_edge :
    (old : List Edge) (root : String) (e : Edge) (g : Graph)
    → Starts root e
    → Since old root g.edges
    → Since old root (add_edge e g).1.edges
unfolding add_edge add_edge_unless
Since-add_edge old root e g starts since = elim (Option-cases (find (λ x. same_key x e) g.edges)) [
  | inl absent ↦ rw absent (
    since.0 ++ e ∷ [],
    (
      ap (λ es. es ++ e ∷ []) since.1.0 ∙ append_assoc old since.0 (e ∷ []),
      All-append (Starts root) since.0 (e ∷ []) since.1.1 (starts, tt),
    ),
  )
  | inr (x, found) ↦ rw found since
]
