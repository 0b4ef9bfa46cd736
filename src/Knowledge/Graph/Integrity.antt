-- ===== src/Knowledge/Graph/Integrity.antt =====
-- Referential integrity of KnowledgeGraph in protoneo/knowledge/graph.py under its mutations.
use protoneo.Prelude.{
  String, ◌≡◌, refl, Bool, true, ◌&&◌, Option, none, some, List, [], ◌∷◌, arith, find, ◌==◌,
}
use protoneo.Knowledge.Graph.{
  Host, Node, Graph, Details, upgraded, labelled, add_new, add_by_label, add_unless, add_node,
  annotate_node, redirect_edges, update_stats,
}
use protoneo.Knowledge.Graph.Steps.{
  Op, adds_node, adds_edge, annotates, removes, redirects, prunes_orphans, links, counts,
  prunes_ungrounded, apply, run,
}
use protoneo.Knowledge.Graph.Keys.{add_node-edges}
use protoneo.Knowledge.Graph.Intact.{
  has_node, Intact, Joined-widen, has_node-append, has_node-change_first,
}
use protoneo.Knowledge.Graph.Removals.{
  add_edge-Intact, remove_node-Intact, redirect-Intact, orphans-Intact, ungrounded-Intact,
}
use protoneo.Knowledge.Graph.Linked.{links-Intact}

module _ (host : Host) where
  -- The ends of a new edge, and the new end of redirected ones, are in the graph.
  abbrev pub admits : Op → Graph → Bool
  admits (adds_edge e) g = has_node e.source_id g.nodes && has_node e.target_id g.nodes
  admits (redirects old new) g = has_node new g.nodes
  admits _ g = true

  abbrev pub admits_all : List Op → Graph → Bool
  admits_all [] g = true
  admits_all (op ∷ ops) g = admits op g && admits_all ops (apply host op g)

  add_by_label-has_node :
      (o : Option Node) (label node_type node_id : String) (d : Details) (g : Graph) (id : String)
      → has_node id g.nodes ≡ true
      → has_node id (add_by_label host o label node_type node_id d g).1.nodes ≡ true
  unfolding add_by_label add_new upgraded
  add_by_label-has_node none label node_type node_id d g id h = has_node-append id g.nodes _ h
  add_by_label-has_node (some n) label node_type node_id d g id h =
      has_node-change_first id _ (upgraded node_type d) g.nodes (λ m. refl) h

  pub add_unless-has_node :
      (o : Option Node) (label node_type node_id : String) (d : Details) (g : Graph) (id : String)
      → has_node id g.nodes ≡ true
      → has_node id (add_unless host o label node_type node_id d g).1.nodes ≡ true
  unfolding add_unless
  add_unless-has_node none label node_type node_id d g id h =
      add_by_label-has_node (find (labelled host label) g.nodes) label node_type node_id d g id h
  add_unless-has_node (some n) label node_type node_id d g id h = h

  pub add_node-Intact :
      (label node_type node_id : String) (d : Details) (g : Graph)
      → Intact g
      → Intact (add_node host label node_type node_id d g).1
  unfolding add_node
  add_node-Intact label node_type node_id d g h =
      rw (add_node-edges host label node_type node_id d g) (
        Joined-widen g.nodes _
          (add_unless-has_node
            (find (λ n. labelled host label n && n.node_type == node_type) g.nodes) label node_type
            node_id d g)
          g.edges h)

  apply-Intact : (op : Op) (g : Graph) → admits op g ≡ true → Intact g → Intact (apply host op g)
  unfolding apply annotate_node update_stats redirect_edges
  apply-Intact (adds_node label node_type node_id d) g a h =
      add_node-Intact label node_type node_id d g h
  apply-Intact (adds_edge e) g a h = add_edge-Intact e g (ground arith, ground arith) h
  apply-Intact (annotates id n) g a h =
      Joined-widen g.nodes _ (λ j k. has_node-change_first j _ _ g.nodes (λ m. refl) k) g.edges h
  apply-Intact (removes id) g a h = remove_node-Intact id g h
  apply-Intact (redirects old new) g a h = redirect-Intact old new g.nodes g.edges a h
  apply-Intact prunes_orphans g a h = orphans-Intact g h
  apply-Intact links g a h = links-Intact host g h
  apply-Intact counts g a h = h
  apply-Intact (prunes_ungrounded t) g a h = ungrounded-Intact t g h

  -- If each new edge joins nodes of the graph, and edges are redirected only to nodes of the graph,
  -- then after any sequence of additions, annotations, removals, prunings and section links, every
  -- edge still joins nodes of the graph.
  pub run-Intact :
      (ops : List Op) (g : Graph) → admits_all ops g ≡ true → Intact g → Intact (run host ops g)
  unfolding run
  run-Intact [] g a h = h
  run-Intact (op ∷ ops) g a h =
      run-Intact ops (apply host op g) (ground arith) (apply-Intact op g (ground arith) h)
