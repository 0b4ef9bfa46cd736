-- ===== src/Knowledge/Graph/Keys.antt =====
-- The edges of a KnowledgeGraph in protoneo/knowledge/graph.py do not repeat themselves.
use protoneo.Prelude.{
  ℕ, String, ◌≡◌, refl, inl, inr, Bool, true, false, ◌&&◌, ◌||◌, Option, none, some, List, [], ◌∷◌,
  arith, Bool-cases, Option-cases, any, find, ◌==◌, Distinct, find-none, Distinct-keep,
  Distinct-snoc,
}
use protoneo.Knowledge.Graph.{
  Host, Node, Edge, Graph, Details, labelled, add_new, add_by_label, add_unless, add_node, same_key,
  add_edge_unless, add_edge, annotate_node, remove_found, remove_node, update_stats,
}
use protoneo.Knowledge.Graph.Clean.{
  is_structural, restat, prune_orphans, prune_ungrounded, section_map, section_of, appears_in,
  is_linked, link_node, link_all, ensure_structural_links,
}
use protoneo.Knowledge.Graph.Steps.{
  Op, adds_node, adds_edge, annotates, removes, redirects, prunes_orphans, links, counts,
  prunes_ungrounded, apply, run,
}

abbrev pub Keyed : Graph → Type 0
Keyed g = Distinct same_key g.edges

pub restat-edges : (n : ℕ) (g : Graph) → (restat n g).edges ≡ g.edges
unfolding restat update_stats
restat-edges n g = ground arith

add_edge-Keyed : (e : Edge) (g : Graph) → Keyed g → Keyed (add_edge e g).1
unfolding add_edge add_edge_unless
add_edge-Keyed e g h = elim (Option-cases (find (λ x. same_key x e) g.edges)) [
  | inl k ↦ rw k (Distinct-snoc same_key g.edges e (find-none (λ x. same_key x e) g.edges k) h)
  | inr (x, k) ↦ rw k h
]

remove_node-Keyed : (id : String) (g : Graph) → Keyed g → Keyed (remove_node id g).1
unfolding remove_node remove_found
remove_node-Keyed id g h = elim (Option-cases (find (λ n. n.id == id) g.nodes)) [
  | inl e ↦ rw e h
  | inr (n, e) ↦ rw e (Distinct-keep same_key _ g.edges h)
]

module _ (host : Host) where
  add_by_label-edges :
      (o : Option Node) (label node_type node_id : String) (d : Details) (g : Graph)
      → (add_by_label host o label node_type node_id d g).1.edges ≡ g.edges
  unfolding add_by_label add_new
  add_by_label-edges none label node_type node_id d g = refl
  add_by_label-edges (some n) label node_type node_id d g = refl

  add_unless-edges :
      (o : Option Node) (label node_type node_id : String) (d : Details) (g : Graph)
      → (add_unless host o label node_type node_id d g).1.edges ≡ g.edges
  unfolding add_unless
  add_unless-edges none label node_type node_id d g =
      add_by_label-edges (find (labelled host label) g.nodes) label node_type node_id d g
  add_unless-edges (some n) label node_type node_id d g = refl

  pub add_node-edges :
      (label node_type node_id : String) (d : Details) (g : Graph)
      → (add_node host label node_type node_id d g).1.edges ≡ g.edges
  unfolding add_node
  add_node-edges label node_type node_id d g =
      add_unless-edges (find (λ n. labelled host label n && n.node_type == node_type) g.nodes) label
        node_type node_id d g

  link_all-Keyed :
      (sections : List (String × String)) (ns : List Node) (acc : ℕ × Graph)
      → Keyed acc.1
      → Keyed (link_all host sections ns acc).1
  unfolding link_all link_node
  link_all-Keyed sections [] acc h = h
  link_all-Keyed sections (n ∷ ns) (created, g) h =
      let section = section_of host sections n.source_section in
      let b =
        is_structural n.node_type
        || n.source_section == ""
        || section == ""
        || is_linked host n section g in
      link_all-Keyed sections ns _ (elim (Bool-cases b) [
        | inl e ↦ rw e h
        | inr e ↦ rw e (add_edge-Keyed (appears_in host n section) g h)
      ])

  abbrev pub is_redirect : Op → Bool
  is_redirect (redirects old new) = true
  is_redirect _ = false

  apply-Keyed : (op : Op) (g : Graph) → is_redirect op ≡ false → Keyed g → Keyed (apply host op g)
  unfolding apply annotate_node prune_orphans update_stats prune_ungrounded ensure_structural_links
  apply-Keyed (adds_node label node_type node_id d) g c h =
      rw (add_node-edges label node_type node_id d g) h
  apply-Keyed (adds_edge e) g c h = add_edge-Keyed e g h
  apply-Keyed (annotates id a) g c h = h
  apply-Keyed (removes id) g c h = remove_node-Keyed id g h
  apply-Keyed (redirects old new) g c h = cc
  apply-Keyed prunes_orphans g c h = rw (restat-edges _ _) h
  apply-Keyed links g c h =
      rw (restat-edges _ _) (link_all-Keyed (section_map host g.nodes) g.nodes (0, g) h)
  apply-Keyed counts g c h = h
  apply-Keyed (prunes_ungrounded t) g c h =
      rw (restat-edges _ _) (Distinct-keep same_key _ g.edges h)

  -- While no edges are redirected, no two edges of a graph come to agree in source, target and type.
  pub run-Keyed :
      (ops : List Op) (g : Graph) → any is_redirect ops ≡ false → Keyed g → Keyed (run host ops g)
  unfolding run
  run-Keyed [] g c h = h
  run-Keyed (op ∷ ops) g c h =
      run-Keyed ops (apply host op g) (ground arith) (apply-Keyed op g (ground arith) h)
