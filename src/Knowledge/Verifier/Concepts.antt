-- ===== src/Knowledge/Verifier/Concepts.antt =====
-- What every new concept keeps, the completeness pass of protoneo/knowledge/graph_verifier.py keeps.
use protoneo.Prelude.{
  ◌+◌, ◌<◌, String, ◌≡◌, sym, ◌∙◌, subst, inl, inr, true, false, none, List, [], ◌∷◌, ◌++◌, arith,
  leb, not_leb→lt, Bool-cases, find, All-append, get_at, put_at, is_some,
}
use protoneo.Knowledge.Graph.{Host, Node, Graph, labelled, add_node, add_edge}
use protoneo.Knowledge.Graph.Clean.{section_map}
use protoneo.Knowledge.Graph.Labels.{add_edge-nodes}
use protoneo.Knowledge.Verifier.{
  Concept, Report, concept_details, Completing, label_to_node, link_concept, is_new_concept,
  add_concept, add_concepts, complete_graph,
}
use protoneo.Knowledge.Verifier.Added.{
  Keyed, put_at-here, Keyed-put_at, label_to_node-Keyed, unlabelled, add_node-appends,
}

module _ (host : Host) (sections : List (String × String)) (c : Concept) (g : Graph)
    (r : Report) where
  abbrev pub new_node : Node
  new_node = (add_node host c.concept c.suggested_type "" (concept_details c.section) g).0

  -- The graph and the report with a concept more.
  abbrev pub with_concept : Graph × Report
  with_concept = (
    (add_edge (link_concept host sections c new_node.id)
        (add_node host c.concept c.suggested_type "" (concept_details c.section) g).1).1,
    record r {
      missing_concepts = r.missing_concepts ++ c ∷ [];
      entities_added = r.entities_added + 1;
    },
  )

  pub with_concept-nodes :
      find (labelled host c.concept) g.nodes ≡ none
      → (with_concept.0.nodes ≡ g.nodes ++ new_node ∷ []) × (new_node.label ≡ c.concept)
  with_concept-nodes h =
      let more = add_node-appends host c.concept c.suggested_type (concept_details c.section) g h in
      (add_edge-nodes (link_concept host sections c new_node.id) _ ∙ more.0, more.1)

module _ (host : Host) (sections : List (String × String)) (Q : Graph × Report → Type 0) where
  -- A concept whose label is new keeps the property, where fewer than fifteen were added.
  abbrev pub KeptByConcepts : Type 0
  KeptByConcepts =
      (c : Concept) (g : Graph) (r : Report)
      → find (labelled host c.concept) g.nodes ≡ none
      → r.entities_added < 15
      → Q (g, r)
      → Q (with_concept host sections c g r)

  -- The labels are keys, and the property holds.
  abbrev Keeping : Completing → Type 0
  Keeping s = Keyed host s.labels s.graph.nodes × Q (s.graph, s.report)

  add_concept-keeps :
      (c : Concept) (s : Completing)
      → KeptByConcepts
      → s.report.entities_added < 15
      → Keeping s
      → Keeping (add_concept host sections c s)
  unfolding add_concept is_new_concept
  add_concept-keeps c s k l h = elim (Bool-cases (is_new_concept host s.labels c.concept)) [
    | inr e ↦ rw e h
    | inl e ↦
        let fresh : is_some (get_at (host.lower c.concept) s.labels) ≡ false = ground (arith, e) in
        let none_yet = unlabelled host s.labels c.concept s.graph.nodes fresh h.0 in
        let key = host.lower c.concept in
        let id = (new_node host sections c s.graph s.report).id in
        let more = with_concept-nodes host sections c s.graph s.report none_yet in
        let here =
          subst (λ l. is_some (get_at (host.lower l) (put_at key id s.labels)) ≡ true) (sym more.1)
            (put_at-here host key id s.labels) in
        rw e (
          subst (Keyed host (put_at key id s.labels)) (sym more.0) (
              All-append
                (λ n. is_some (get_at (host.lower n.label) (put_at key id s.labels)) ≡ true)
                s.graph.nodes (new_node host sections c s.graph s.report ∷ [])
                (Keyed-put_at host key id s.labels s.graph.nodes h.0) (here, tt)),
          k c s.graph s.report none_yet l h.1,
        )
  ]

  add_concepts-keeps :
      (cs : List Concept) (s : Completing)
      → KeptByConcepts
      → Keeping s
      → Keeping (add_concepts host sections cs s)
  unfolding add_concepts
  add_concepts-keeps [] s k h = h
  add_concepts-keeps (c ∷ cs) s k h = elim (Bool-cases (leb 15 s.report.entities_added)) [
    | inl e ↦ rw e h
    | inr e ↦ rw e (
        add_concepts-keeps cs (add_concept host sections c s) k
          (add_concept-keeps c s k (not_leb→lt 15 s.report.entities_added e) h))
  ]

pub complete_graph-keeps :
    (host : Host) (Q : Graph × Report → Type 0) (cs : List Concept) (g : Graph) (r : Report)
    → KeptByConcepts host (section_map host g.nodes) Q
    → Q (g, r)
    → Q (complete_graph host cs (g, r))
unfolding complete_graph
complete_graph-keeps host Q cs g r k h =
    (add_concepts-keeps host (section_map host g.nodes) Q cs
      (record { labels = label_to_node host g.nodes; graph = g; report = r }) k
      (label_to_node-Keyed host g.nodes, h)).1
