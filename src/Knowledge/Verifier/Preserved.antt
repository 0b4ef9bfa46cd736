-- ===== src/Knowledge/Verifier/Preserved.antt =====
-- What `verify_graph` of protoneo/knowledge/graph_verifier.py leaves of a graph.
use protoneo.Prelude.{
  ℕ, ◌≤◌, min, max, String, ◌≡◌, refl, sym, ap, subst, inl, inr, Bool, true, false, List, [], ◌∷◌,
  ◌++◌, arith, Bool-cases, any, All, ◌==◌, Fresh, Distinct, find-none, Distinct-snoc,
}
use protoneo.Knowledge.Graph.{Host, Node, Graph, labelled, add_edge, update_stats}
use protoneo.Knowledge.Graph.Clean.{section_map}
use protoneo.Knowledge.Graph.Labels.{add_edge-nodes, same_label, Labelled}
use protoneo.Knowledge.Graph.Intact.{has_node}
use protoneo.Knowledge.Verifier.{
  Report, Findings, change_last, lowered, connected, joined_by, with_confidence, verify_graph,
}
use protoneo.Knowledge.Verifier.Concepts.{
  new_node, with_concept-nodes, KeptByConcepts, complete_graph-keeps,
}
use protoneo.Knowledge.Verifier.Passes.{KeptByEdges, verify_graph-keeps}

-- The nodes are still there, in their places and with nothing changed but the confidence, which is at
-- most what it was or a tenth.
abbrev pub Lowered : List Node → List Node → Type 0
Lowered [] ms = Unit
Lowered (n ∷ ns) [] = ⊥
Lowered (n ∷ ns) (m ∷ ms) =
    (m ≡ record n { confidence = m.confidence })
    × ((m.confidence ≤ max 100 n.confidence) × Lowered ns ms)

Lowered-self : (ns : List Node) → Lowered ns ns
Lowered-self [] = tt
Lowered-self (n ∷ ns) = (refl, (omega arith, Lowered-self ns))

Lowered-append : (ns ms more : List Node) → Lowered ns ms → Lowered ns (ms ++ more)
Lowered-append [] ms more h = tt
Lowered-append (n ∷ ns) [] more h = absurd h
Lowered-append (n ∷ ns) (m ∷ ms) more h = (h.0, (h.1.0, Lowered-append ns ms more h.1.1))

lowered-one :
    (k : ℕ) (n m : Node)
    → m ≡ record n { confidence = m.confidence }
    → m.confidence ≤ max 100 n.confidence
    → (lowered k m ≡ record n { confidence = (lowered k m).confidence })
      × ((lowered k m).confidence ≤ max 100 n.confidence)
unfolding lowered
lowered-one k n m e h =
    (ap (λ (x : Node). record x { confidence = max 100 (min k m.confidence) }) e, omega arith)

Lowered-change_last :
    (p : Node → Bool) (k : ℕ) (ns ms : List Node)
    → Lowered ns ms
    → Lowered ns (change_last p (lowered k) ms)
Lowered-change_last p k [] ms h = tt
Lowered-change_last p k (n ∷ ns) [] h = absurd h
Lowered-change_last p k (n ∷ ns) (m ∷ ms) h = elim (Bool-cases (any p ms)) [
  | inl e ↦ rw e (h.0, (h.1.0, Lowered-change_last p k ns ms h.1.1))
  | inr e ↦ elim (Bool-cases (p m)) [
    | inl f ↦ rw (e, f) ((lowered-one k n m h.0 h.1.0).0, ((lowered-one k n m h.0 h.1.0).1, h.1.1))
    | inr f ↦ rw (e, f) h
  ]
]

pub has_node-change_last :
    (id : String) (p : Node → Bool) (k : ℕ) (ns : List Node)
    → has_node id ns ≡ true
    → has_node id (change_last p (lowered k) ns) ≡ true
unfolding lowered
has_node-change_last id p k [] h = h
has_node-change_last id p k (n ∷ ns) h = ground (arith, has_node-change_last id p k ns)

module _ (host : Host) where
  Fresh-change_last :
      (m : Node) (p : Node → Bool) (k : ℕ) (ns : List Node)
      → Fresh (same_label host) m ns
      → Fresh (same_label host) m (change_last p (lowered k) ns)
  unfolding lowered
  Fresh-change_last m p k [] h = tt
  Fresh-change_last m p k (n ∷ ns) h = elim (Bool-cases (any p ns)) [
    | inl e ↦ rw e (h.0, Fresh-change_last m p k ns h.1)
    | inr e ↦ elim (Bool-cases (p n)) [ inl f ↦ rw (e, f) h | inr f ↦ rw (e, f) h ]
  ]

  Distinct-change_last :
      (p : Node → Bool) (k : ℕ) (ns : List Node)
      → Distinct (same_label host) ns
      → Distinct (same_label host) (change_last p (lowered k) ns)
  unfolding lowered
  Distinct-change_last p k [] h = tt
  Distinct-change_last p k (n ∷ ns) h = elim (Bool-cases (any p ns)) [
    | inl e ↦ rw e (Fresh-change_last n p k ns h.0, Distinct-change_last p k ns h.1)
    | inr e ↦ elim (Bool-cases (p n)) [ inl f ↦ rw (e, f) h | inr f ↦ rw (e, f) h ]
  ]

  -- Distinct labels, and the nodes of before.
  abbrev Preserved : List Node → Graph × Report → Type 0
  Preserved ns s = Labelled host s.0 × Lowered ns s.0.nodes

  same_nodes-Preserved :
      (ns : List Node) (g h : Graph) (r : Report)
      → h.nodes ≡ g.nodes
      → Preserved ns (g, r)
      → Preserved ns (h, r)
  same_nodes-Preserved ns g h r e p =
      subst (λ l. Distinct (same_label host) l × Lowered ns l) (sym e) p

  concept-Preserved :
      (ns : List Node) (sections : List (String × String))
      → KeptByConcepts host sections (Preserved ns)
  concept-Preserved ns sections c g r e l h =
      let more = with_concept-nodes host sections c g r e in
      let n = new_node host sections c g r in
      let apart : All (λ m. same_label host m n ≡ false) g.nodes =
        subst (λ t. All (λ m. (host.lower m.label == host.lower t) ≡ false) g.nodes) (sym more.1)
          (find-none (labelled host c.concept) g.nodes e) in
      subst (λ xs. Distinct (same_label host) xs × Lowered ns xs) (sym more.0)
        (
          Distinct-snoc (same_label host) g.nodes n apart h.0,
          Lowered-append ns g.nodes (n ∷ []) h.1,
        )

  confidence-Preserved :
      (ns : List Node) (entity id : String) (k : ℕ) (g : Graph) (r : Report)
      → Preserved ns (g, r)
      → Preserved ns (with_confidence host entity id k (g, r))
  unfolding with_confidence
  confidence-Preserved ns entity id k g r h = (
    Distinct-change_last (labelled host entity) k g.nodes h.0,
    Lowered-change_last (labelled host entity) k ns g.nodes h.1,
  )

  edge-Preserved : (ns : List Node) → KeptByEdges (Preserved ns)
  unfolding joined_by
  edge-Preserved ns c a b g r x y h =
      same_nodes-Preserved ns g (add_edge (connected c a b) g).1 r
        (add_edge-nodes (connected c a b) g) h

  stats-Preserved :
      (ns : List Node) (g : Graph) (r : Report)
      → Preserved ns (g, r)
      → Preserved ns (update_stats g, r)
  unfolding update_stats
  stats-Preserved ns g r h = h

  -- A graph with labels that are distinct when case is ignored keeps such labels in the verification,
  -- and each of its nodes, in its place and with nothing changed but its confidence, which ends at most
  -- at what it was, or at a tenth where it was less.
  pub verify_graph-Lowered :
      (f : Findings) (g : Graph)
      → Labelled host g
      → Labelled host (verify_graph host f g).0 × Lowered g.nodes (verify_graph host f g).0.nodes
  verify_graph-Lowered f g h =
      verify_graph-keeps host (Preserved g.nodes)
        (record {
          by_edges = edge-Preserved g.nodes;
          by_concepts = λ cs t r.
              complete_graph-keeps host (Preserved g.nodes) cs t r
                (concept-Preserved g.nodes (section_map host t.nodes));
          by_report = λ is t r k. k;
          by_confidence = confidence-Preserved g.nodes;
          by_stats = stats-Preserved g.nodes;
        })
        f g (h, Lowered-self g.nodes)
