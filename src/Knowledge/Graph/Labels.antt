-- ===== src/Knowledge/Graph/Labels.antt =====
-- The labels of a KnowledgeGraph in protoneo/knowledge/graph.py stay distinct up to case.
use protoneo.Prelude.{
  ℕ, String, ◌≡◌, refl, ◌∙◌, inl, inr, Bool, ◌&&◌, ◌||◌, none, List, [], ◌∷◌, arith, Bool-cases,
  Option-cases, find, ◌==◌, change_first, Distinct, find-none, Distinct-keep, Distinct-remove_first,
  Distinct-snoc, Distinct-change_first,
}
use protoneo.Knowledge.Graph.{
  Host, Node, Edge, Graph, Details, make_node, upgraded, labelled, add_new, add_by_label,
  add_unless, add_node, same_key, add_edge_unless, add_edge, annotate_node, remove_found,
  remove_node, redirect_edges, update_stats,
}
use protoneo.Knowledge.Graph.Clean.{
  is_structural, restat, prune_orphans, prune_ungrounded, section_map, section_of, is_linked,
  link_node, link_all, ensure_structural_links,
}
use protoneo.Knowledge.Graph.Steps.{
  Op, adds_node, adds_edge, annotates, removes, redirects, prunes_orphans, links, counts,
  prunes_ungrounded, apply, run,
}

pub add_edge-nodes : (e : Edge) (g : Graph) → (add_edge e g).1.nodes ≡ g.nodes
unfolding add_edge add_edge_unless
add_edge-nodes e g = elim (Option-cases (find (λ x. same_key x e) g.edges)) [
  | inl h ↦ rw h refl
  | inr (x, h) ↦ rw h refl
]

pub restat-nodes : (n : ℕ) (g : Graph) → (restat n g).nodes ≡ g.nodes
unfolding restat update_stats
restat-nodes n g = ground arith

module _ (host : Host) where
  -- The nodes' labels, in lower case.
  abbrev pub same_label : Node → Node → Bool
  same_label n m = host.lower n.label == host.lower m.label

  abbrev pub Labelled : Graph → Type 0
  Labelled g = Distinct same_label g.nodes

  upgraded-Labelled :
      (label node_type : String) (d : Details) (ns : List Node)
      → Distinct same_label ns
      → Distinct same_label (change_first (labelled host label) (upgraded node_type d) ns)
  unfolding upgraded
  upgraded-Labelled label node_type d ns h =
      Distinct-change_first same_label _ _ ns (λ n m. refl) (λ n m. refl) h

  add_new-Labelled :
      (label node_type node_id : String) (d : Details) (g : Graph)
      → find (labelled host label) g.nodes ≡ none
      → Labelled g
      → Labelled (add_new host label node_type node_id d g).1
  unfolding add_new make_node
  add_new-Labelled label node_type node_id d g e h =
      Distinct-snoc same_label g.nodes _ (find-none (labelled host label) g.nodes e) h

  add_by_label-Labelled :
      (label node_type node_id : String) (d : Details) (g : Graph)
      → Labelled g
      → Labelled
          (add_by_label host (find (labelled host label) g.nodes) label node_type node_id d g).1
  unfolding add_by_label
  add_by_label-Labelled label node_type node_id d g h =
      elim (Option-cases (find (labelled host label) g.nodes)) [
        | inl e ↦ rw e (add_new-Labelled label node_type node_id d g e h)
        | inr (n, e) ↦ rw e (upgraded-Labelled label node_type d g.nodes h)
      ]

  pub add_node-Labelled :
      (label node_type node_id : String) (d : Details) (g : Graph)
      → Labelled g
      → Labelled (add_node host label node_type node_id d g).1
  unfolding add_node add_unless
  add_node-Labelled label node_type node_id d g h =
      elim (Option-cases (find (λ n. labelled host label n && n.node_type == node_type) g.nodes)) [
        | inl e ↦ rw e (add_by_label-Labelled label node_type node_id d g h)
        | inr (n, e) ↦ rw e h
      ]

  pub link_node-nodes :
      (sections : List (String × String)) (n : Node) (acc : ℕ × Graph)
      → (link_node host sections n acc).1.nodes ≡ acc.1.nodes
  unfolding link_node
  link_node-nodes sections n (created, g) =
      let b =
        is_structural n.node_type
        || n.source_section == ""
        || section_of host sections n.source_section == ""
        || is_linked host n (section_of host sections n.source_section) g in
      elim (Bool-cases b) [ inl e ↦ rw e refl | inr e ↦ rw e (add_edge-nodes _ g) ]

  link_all-nodes :
      (sections : List (String × String)) (ns : List Node) (acc : ℕ × Graph)
      → (link_all host sections ns acc).1.nodes ≡ acc.1.nodes
  unfolding link_all
  link_all-nodes sections [] acc = refl
  link_all-nodes sections (n ∷ ns) acc =
      link_all-nodes sections ns (link_node host sections n acc) ∙ link_node-nodes sections n acc

  pub links-nodes : (g : Graph) → (ensure_structural_links host g).1.nodes ≡ g.nodes
  unfolding ensure_structural_links
  links-nodes g =
      restat-nodes (link_all host (section_map host g.nodes) g.nodes (0, g)).0 _
      ∙ link_all-nodes (section_map host g.nodes) g.nodes (0, g)

  remove_node-Labelled : (id : String) (g : Graph) → Labelled g → Labelled (remove_node id g).1
  unfolding remove_node remove_found
  remove_node-Labelled id g h = elim (Option-cases (find (λ n. n.id == id) g.nodes)) [
    | inl e ↦ rw e h
    | inr (n, e) ↦ rw e (Distinct-remove_first same_label _ g.nodes h)
  ]

  apply-Labelled : (op : Op) (g : Graph) → Labelled g → Labelled (apply host op g)
  unfolding apply annotate_node redirect_edges prune_orphans update_stats prune_ungrounded
  apply-Labelled (adds_node label node_type node_id d) g h =
      add_node-Labelled label node_type node_id d g h
  apply-Labelled (adds_edge e) g h = rw (add_edge-nodes e g) h
  apply-Labelled (annotates id a) g h =
      Distinct-change_first same_label _ _ g.nodes (λ n m. refl) (λ n m. refl) h
  apply-Labelled (removes id) g h = remove_node-Labelled id g h
  apply-Labelled (redirects old new) g h = h
  apply-Labelled prunes_orphans g h = rw (restat-nodes _ _) (Distinct-keep same_label _ g.nodes h)
  apply-Labelled links g h = rw (links-nodes g) h
  apply-Labelled counts g h = h
  apply-Labelled (prunes_ungrounded t) g h =
      rw (restat-nodes _ _) (Distinct-keep same_label _ g.nodes h)

  -- From a graph whose labels are distinct when case is ignored, any sequence of additions of nodes and
  -- edges, annotations, removals, redirections, prunings, section links and recounts leads to such a
  -- graph.
  pub run-Labelled : (ops : List Op) (g : Graph) → Labelled g → Labelled (run host ops g)
  unfolding run
  run-Labelled [] g h = h
  run-Labelled (op ∷ ops) g h = run-Labelled ops (apply host op g) (apply-Labelled op g h)
