-- ===== src/Knowledge/Graph/Steps.antt =====
-- Sequences of the mutations of KnowledgeGraph in protoneo/knowledge/graph.py.
use protoneo.Prelude.{ℕ, String, List, [], ◌∷◌}
use protoneo.Knowledge.Graph.{
  Host, Annotation, Edge, Graph, Details, add_node, add_edge, annotate_node, remove_node,
  redirect_edges, update_stats,
}
use protoneo.Knowledge.Graph.Clean.{prune_orphans, prune_ungrounded, ensure_structural_links}

pub data Op : Type 0 where
  adds_node : (label node_type node_id : String) → Details → Op
  adds_edge : Edge → Op
  annotates : String → Annotation → Op
  removes : String → Op
  redirects : (old new : String) → Op
  prunes_orphans links counts : Op
  prunes_ungrounded : ℕ → Op

module _ (host : Host) where
  unfoldable pub apply : Op → Graph → Graph
  unfolding add_node add_edge annotate_node remove_node redirect_edges prune_orphans
      ensure_structural_links update_stats prune_ungrounded
  apply (adds_node label node_type node_id d) g = (add_node host label node_type node_id d g).1
  apply (adds_edge e) g = (add_edge e g).1
  apply (annotates id a) g = annotate_node id a g
  apply (removes id) g = (remove_node id g).1
  apply (redirects old new) g = (redirect_edges old new g).1
  apply prunes_orphans g = (prune_orphans g).1
  apply links g = (ensure_structural_links host g).1
  apply counts g = update_stats g
  apply (prunes_ungrounded t) g = (prune_ungrounded t g).1

  unfoldable pub run : List Op → Graph → Graph
  unfolding apply
  run [] g = g
  run (op ∷ ops) g = run ops (apply op g)
