-- ===== src/Knowledge/Verifier/Sound.antt =====
-- Where the edges end that `verify_graph` of protoneo/knowledge/graph_verifier.py adds.
use protoneo.Prelude.{
  ℕ, String, ◌≡◌, sym, ◌∙◌, subst, inl, inr, true, false, ◌||◌, List, [], ◌∷◌, ◌++◌, arith,
  Bool-cases, All-map, ◌==◌, eq_refl,
}
use protoneo.Knowledge.Graph.{Host, Node, Graph, labelled, add_node, update_stats}
use protoneo.Knowledge.Graph.Clean.{section_map, section_of}
use protoneo.Knowledge.Graph.Labels.{add_edge-nodes}
use protoneo.Knowledge.Graph.Intact.{has_node, Joined, Intact, Joined-widen, has_node-append}
use protoneo.Knowledge.Graph.Removals.{add_edge-Intact}
use protoneo.Knowledge.Graph.Linked.{
  Targets, suffix-has_node, section_map-Targets, section_of-Targets,
}
use protoneo.Knowledge.Graph.Integrity.{add_node-Intact}
use protoneo.Knowledge.Verifier.{
  Concept, Report, Findings, change_last, lowered, connected, joined_by, concept_details,
  link_concept, complete_graph, with_confidence, verify_graph,
}
use protoneo.Knowledge.Verifier.Concepts.{
  new_node, with_concept-nodes, KeptByConcepts, complete_graph-keeps,
}
use protoneo.Knowledge.Verifier.Passes.{KeptByEdges, verify_graph-keeps}
use protoneo.Knowledge.Verifier.Preserved.{has_node-change_last}

module _ (host : Host) where
  -- Every edge joins nodes of the graph, the root is there, and so are the sections.
  abbrev Rooted : (sections : List (String × String)) → Graph × Report → Type 0
  Rooted sections s =
      Intact s.0 × ((has_node "paper-root" s.0.nodes ≡ true) × Targets s.0.nodes sections)

  Targets-append :
      (ns more : List Node) (d : List (String × String)) → Targets ns d → Targets (ns ++ more) d
  Targets-append ns more d h =
      All-map (λ kv. has_node kv.1 ns ≡ true) _ d (λ kv k. has_node-append kv.1 ns more k) h

  -- The new edge joins the new node with its section or with the root.
  link_concept-Joined :
      (sections : List (String × String)) (c : Concept) (id : String) (ns : List Node)
      → has_node id ns ≡ true
      → has_node "paper-root" ns ≡ true
      → Targets ns sections
      → Joined ns (link_concept host sections c id)
  unfolding link_concept
  link_concept-Joined sections c id ns n root t =
      elim (Bool-cases (c.section == "" || section_of host sections c.section == "")) [
        | inl e ↦ rw e (n, root)
        | inr e ↦
            let there : (section_of host sections c.section == "") ≡ false = ground (arith, e) in
            rw e (n, section_of-Targets host ns sections c.section t there)
      ]

  has_node-last : (ns : List Node) (n : Node) → has_node n.id (ns ++ n ∷ []) ≡ true
  has_node-last [] n = ground (arith, eq_refl n.id)
  has_node-last (m ∷ ns) n = ground (arith, has_node-last ns n)

  concept-Rooted :
      (sections : List (String × String)) → KeptByConcepts host sections (Rooted sections)
  concept-Rooted sections c g r e l h =
      let n = new_node host sections c g r in
      let added = (add_node host c.concept c.suggested_type "" (concept_details c.section) g).1 in
      let nodes : added.nodes ≡ g.nodes ++ n ∷ [] =
        sym (add_edge-nodes (link_concept host sections c n.id) added)
        ∙ (with_concept-nodes host sections c g r e).0 in
      let there = λ (ns : List Node).
        (has_node n.id ns ≡ true) × ((has_node "paper-root" ns ≡ true) × Targets ns sections) in
      let ends : there added.nodes = subst there (sym nodes) (
        has_node-last g.nodes n,
        (
          has_node-append "paper-root" g.nodes (n ∷ []) h.1.0,
          Targets-append g.nodes (n ∷ []) sections h.1.1,
        ),
      ) in
      (
        add_edge-Intact (link_concept host sections c n.id) added
            (link_concept-Joined sections c n.id added.nodes ends.0 ends.1.0 ends.1.1)
            (add_node-Intact host c.concept c.suggested_type "" (concept_details c.section) g h.0),
        subst (λ ns. (has_node "paper-root" ns ≡ true) × Targets ns sections)
            (sym (add_edge-nodes (link_concept host sections c n.id) added)) ends.1,
      )

  -- Every edge joins nodes of the graph, and the root is there.
  abbrev Sound : Graph × Report → Type 0
  Sound s = Intact s.0 × (has_node "paper-root" s.0.nodes ≡ true)

  concepts-Sound :
      (cs : List Concept) (g : Graph) (r : Report)
      → Sound (g, r)
      → Sound (complete_graph host cs (g, r))
  unfolding section_map
  concepts-Sound cs g r h =
      let sections = section_map host g.nodes in
      let done =
        complete_graph-keeps host (Rooted sections) cs g r (concept-Rooted sections) (
          h.0,
          (h.1, section_map-Targets host g.nodes g.nodes [] (suffix-has_node [] g.nodes) tt),
        ) in
      (done.0, done.1.0)

  edge-Sound : KeptByEdges Sound
  unfolding joined_by
  edge-Sound c a b g r x y h =
      (add_edge-Intact (connected c a b) g (x, y) h.0, rw (add_edge-nodes (connected c a b) g) h.1)

  confidence-Sound :
      (entity id : String) (k : ℕ) (g : Graph) (r : Report)
      → Sound (g, r)
      → Sound (with_confidence host entity id k (g, r))
  unfolding with_confidence
  confidence-Sound entity id k g r h = (
    Joined-widen g.nodes (change_last (labelled host entity) (lowered k) g.nodes)
        (λ j. has_node-change_last j (labelled host entity) k g.nodes) g.edges h.0,
    has_node-change_last "paper-root" (labelled host entity) k g.nodes h.1,
  )

  stats-Sound : (g : Graph) (r : Report) → Sound (g, r) → Sound (update_stats g, r)
  unfolding update_stats
  stats-Sound g r h = h

  -- Where every edge joins nodes of the graph and the paper's root is among these, the same holds after
  -- the verification.
  pub verify_graph-Intact :
      (f : Findings) (g : Graph)
      → Intact g
      → has_node "paper-root" g.nodes ≡ true
      → Intact (verify_graph host f g).0
        × (has_node "paper-root" (verify_graph host f g).0.nodes ≡ true)
  verify_graph-Intact f g h root =
      verify_graph-keeps host Sound
        (record {
          by_edges = edge-Sound;
          by_concepts = concepts-Sound;
          by_report = λ is t r k. k;
          by_confidence = confidence-Sound;
          by_stats = stats-Sound;
        })
        f g (h, root)
