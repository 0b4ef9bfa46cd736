-- ===== src/Knowledge/Verifier/Passes.antt =====
-- What every single change of `verify_graph` in protoneo/knowledge/graph_verifier.py keeps, the whole
-- verification keeps.
use protoneo.Prelude.{
  ℕ, String, ◌≡◌, refl, sym, subst, inl, inr, Bool, true, false, not, Option, none, some, List, [],
  ◌∷◌, foldl, if◌then◌else◌, Bool-cases, any, All, ◌==◌, get_at, put_at, All-put_at, get_at-All,
}
use protoneo.Knowledge.Graph.{Host, Node, Graph, update_stats}
use protoneo.Knowledge.Graph.Clean.{is_structural}
use protoneo.Knowledge.Graph.Labels.{add_edge-nodes}
use protoneo.Knowledge.Graph.Intact.{has_node}
use protoneo.Knowledge.Graph.Linked.{Targets, suffix-has_node}
use protoneo.Knowledge.Verifier.{
  Connection, Concept, Issue, Report, empty_report, Findings, connected, joined_by, connect,
  unless_raised, label_to_node, connect_all, complete_graph, with_confidence, lower_confidence,
  lower_all, ground_graph, connect_graph, audit_graph, verify_graph,
}

module _ (host : Host) where
  folded-Targets :
      (ns ms : List Node) (d : List (String × String))
      → All (λ n. has_node n.id ns ≡ true) ms
      → Targets ns d
      → Targets ns (foldl (λ d (n : Node). put_at (host.lower n.label) n.id d) d ms)
  folded-Targets ns [] d h t = t
  folded-Targets ns (m ∷ ms) d h t =
      folded-Targets ns ms (put_at (host.lower m.label) m.id d) h.1
        (All-put_at (λ k id. has_node id ns ≡ true) (host.lower m.label) m.id d h.0 t)

  -- The dictionary leads to nodes of the graph.
  pub label_to_node-Targets : (ns : List Node) → Targets ns (label_to_node host ns)
  unfolding label_to_node
  label_to_node-Targets ns = folded-Targets ns ns [] (suffix-has_node [] ns) tt

-- A connection between nodes of the graph keeps the property.
abbrev pub KeptByEdges : (Graph × Report → Type 0) → Type 0
KeptByEdges P =
    (c : Connection) (a b : String) (g : Graph) (r : Report)
    → has_node a g.nodes ≡ true
    → has_node b g.nodes ≡ true
    → P (g, r)
    → P (joined_by c a b (g, r))

module _ (P : Graph × Report → Type 0) where
  joined-keeps :
      (c : Connection) (a b : String) (test : Bool) (s : Graph × Report)
      → KeptByEdges P
      → has_node a s.0.nodes ≡ true
      → has_node b s.0.nodes ≡ true
      → P s
      → P (if test then s else joined_by c a b s)
  joined-keeps c a b true s k x y h = h
  joined-keeps c a b false s k x y h = k c a b s.0 s.1 x y h

  connect-keeps :
      (c : Connection) (a b : Option String) (s : Graph × Report)
      → KeptByEdges P
      → ((x : String) → a ≡ some x → has_node x s.0.nodes ≡ true)
      → ((y : String) → b ≡ some y → has_node y s.0.nodes ≡ true)
      → P s
      → P (connect c a b s)
  unfolding connect
  connect-keeps c (some x) (some y) s k f g h =
      joined-keeps c x y (x == y) s k (f x refl) (g y refl) h
  connect-keeps c (some x) none s k f g h = h
  connect-keeps c none b s k f g h = h

connect-nodes :
    (c : Connection) (a b : Option String) (s : Graph × Report)
    → (connect c a b s).0.nodes ≡ s.0.nodes
unfolding connect joined_by
connect-nodes c (some x) (some y) (g, r) = elim (Bool-cases (x == y)) [
  | inl e ↦ rw e refl
  | inr e ↦ rw e (add_edge-nodes (connected c x y) g)
]
connect-nodes c (some x) none s = refl
connect-nodes c none b s = refl

module _ (host : Host) (P : Graph × Report → Type 0) where
  connect_all-keeps :
      (labels : List (String × String)) (cs : List Connection) (s : Graph × Report)
      → KeptByEdges P
      → Targets s.0.nodes labels
      → P s
      → P (connect_all host labels cs s)
  unfolding connect_all
  connect_all-keeps labels [] s k t h = h
  connect_all-keeps labels (c ∷ cs) s k t h =
      let a = get_at (host.lower c.source) labels in
      let b = get_at (host.lower c.target) labels in
      let there = get_at-All (λ key id. has_node id s.0.nodes ≡ true) in
      connect_all-keeps labels cs (connect c a b s) k
        (subst (λ ns. Targets ns labels) (sym (connect-nodes c a b s)) t)
        (connect-keeps P c a b s k (λ x e. there (host.lower c.source) x labels t e)
          (λ y e. there (host.lower c.target) y labels t e) h)

  lower_all-keeps :
      (labels : List (String × String)) (is : List Issue) (s : Graph × Report)
      → ((entity id : String) (confidence : ℕ) (g : Graph) (r : Report)
          → P (g, r)
          → P (with_confidence host entity id confidence (g, r)))
      → P s
      → P (lower_all host labels is s)
  unfolding lower_all lower_confidence
  lower_all-keeps labels [] s k h = h
  lower_all-keeps labels (i ∷ is) s k h =
      raised (get_at (host.lower i.entity) labels) i.confidence (λ t. lower_all host labels is t)
        (λ t p. lower_all-keeps labels is t k p)
    where
      raised :
          (id : Option String) (confidence : Option ℕ) (continue : Graph × Report → Graph × Report)
          → ((t : Graph × Report) → P t → P (continue t))
          → P (unless_raised (lower_confidence host i id confidence s) s continue)
      raised none confidence continue f = f s h
      raised (some id) none continue f = h
      raised (some id) (some confidence) continue f =
          f (with_confidence host i.entity id confidence s) (k i.entity id confidence s.0 s.1 h)

-- What the changes of `verify_graph` keep.
pub record Kept (host : Host) (P : Graph × Report → Type 0) : Type 0 where
  pub by_edges : KeptByEdges P
  pub by_concepts :
      (cs : List Concept) (g : Graph) (r : Report) → P (g, r) → P (complete_graph host cs (g, r))
  pub by_report :
      (is : List Issue) (g : Graph) (r : Report)
      → P (g, r)
      → P (g, record r { grounding_issues = is })
  pub by_confidence :
      (entity id : String) (confidence : ℕ) (g : Graph) (r : Report)
      → P (g, r)
      → P (with_confidence host entity id confidence (g, r))
  pub by_stats : (g : Graph) (r : Report) → P (g, r) → P (update_stats g, r)

module _ (host : Host) (P : Graph × Report → Type 0) (kept : Kept host P) where
  connect_graph-keeps :
      (cs : Option (List Connection)) (s : Graph × Report) → P s → P (connect_graph host cs s)
  unfolding connect_graph
  connect_graph-keeps none s h = h
  connect_graph-keeps (some cs) s h =
      connect_all-keeps host P (label_to_node host s.0.nodes) cs s kept.by_edges
        (label_to_node-Targets host s.0.nodes) h

  audit_graph-keeps :
      (audit : Option (List Concept × List Issue)) (s : Graph × Report)
      → P s
      → P (audit_graph host audit s)
  unfolding audit_graph ground_graph
  audit_graph-keeps none s h = h
  audit_graph-keeps (some (cs, is)) s h =
      let done = complete_graph host cs s in
      lower_all-keeps host P (label_to_node host done.0.nodes) is _ kept.by_confidence
        (kept.by_report is done.0 done.1 (kept.by_concepts cs s.0 s.1 h))

  pub verify_graph-keeps :
      (f : Findings) (g : Graph) → P (g, empty_report) → P (verify_graph host f g)
  unfolding verify_graph
  verify_graph-keeps f g h =
      elim (Bool-cases (any (λ n. not (is_structural n.node_type)) g.nodes)) [
        | inl e ↦
            let s = audit_graph host f.audit (connect_graph host f.connections (g, empty_report)) in
            rw e (
              kept.by_stats s.0 s.1 (
                audit_graph-keeps f.audit (connect_graph host f.connections (g, empty_report))
                  (connect_graph-keeps f.connections (g, empty_report) h)))
        | inr e ↦ rw e h
      ]
