-- ===== src/Knowledge/Verifier/Bounded.antt =====
-- How many nodes `verify_graph` of protoneo/knowledge/graph_verifier.py adds.
use protoneo.Prelude.{
  ℕ, ◌+◌, ◌≤◌, String, ◌≡◌, refl, ap, ◌∙◌, Bool, true, List, [], ◌∷◌, arith, length, length-append,
}
use protoneo.Knowledge.Graph.{Host, Graph, labelled, update_stats}
use protoneo.Knowledge.Graph.Clean.{section_map}
use protoneo.Knowledge.Graph.Labels.{add_edge-nodes}
use protoneo.Knowledge.Graph.Intact.{has_node}
use protoneo.Knowledge.Verifier.{
  Connection, Report, Findings, change_last, lowered, connected, joined_by, with_confidence,
  verify_graph,
}
use protoneo.Knowledge.Verifier.Concepts.{
  new_node, with_concept-nodes, KeptByConcepts, complete_graph-keeps,
}
use protoneo.Knowledge.Verifier.Passes.{verify_graph-keeps}

-- The nodes that there are, with the ones that the report counts, of at most fifteen.
abbrev Counted : (base : ℕ) → Graph × Report → Type 0
Counted base s = (length s.0.nodes ≡ base + s.1.entities_added) × (s.1.entities_added ≤ 15)

length-change_last {ℓ} :
    {A : Type ℓ} (p : A → Bool) (f : A → A) (xs : List A) → length (change_last p f xs) ≡ length xs
length-change_last p f [] = refl
length-change_last p f (x ∷ xs) = ground (arith, length-change_last p f xs)

module _ (host : Host) (base : ℕ) where
  connected-Counted :
      (c : Connection) (a b : String) (g : Graph) (r : Report)
      → has_node a g.nodes ≡ true
      → has_node b g.nodes ≡ true
      → Counted base (g, r)
      → Counted base (joined_by c a b (g, r))
  unfolding joined_by
  connected-Counted c a b g r x y h = rw (add_edge-nodes (connected c a b) g) h

  lowered-Counted :
      (entity id : String) (confidence : ℕ) (g : Graph) (r : Report)
      → Counted base (g, r)
      → Counted base (with_confidence host entity id confidence (g, r))
  unfolding with_confidence
  lowered-Counted entity id confidence g r h =
      (length-change_last (labelled host entity) (lowered confidence) g.nodes ∙ h.0, h.1)

  concept-Counted :
      (sections : List (String × String)) → KeptByConcepts host sections (Counted base)
  concept-Counted sections c g r e l h =
      let more = with_concept-nodes host sections c g r e in
      (
        ap length more.0
            ∙ omega (arith, length-append g.nodes (new_node host sections c g r ∷ []), h.0),
        omega (arith, l),
      )

stats-Counted :
    (base : ℕ) (g : Graph) (r : Report) → Counted base (g, r) → Counted base (update_stats g, r)
unfolding update_stats
stats-Counted base g r h = h

-- The verification adds at most fifteen nodes, takes none away, and reports the number of the ones
-- that it adds.
pub verify_graph-bounded :
    (host : Host) (f : Findings) (g : Graph)
    → (length (verify_graph host f g).0.nodes
        ≡ length g.nodes + (verify_graph host f g).1.entities_added)
      × ((verify_graph host f g).1.entities_added ≤ 15)
verify_graph-bounded host f g =
    let base = length g.nodes in
    verify_graph-keeps host (Counted base)
      (record {
        by_edges = connected-Counted host base;
        by_concepts = λ cs t r.
            complete_graph-keeps host (Counted base) cs t r
              (concept-Counted host base (section_map host t.nodes));
        by_report = λ is t r h. h;
        by_confidence = lowered-Counted host base;
        by_stats = stats-Counted base;
      })
      f g (omega arith, omega arith)
