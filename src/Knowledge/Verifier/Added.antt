-- ===== src/Knowledge/Verifier/Added.antt =====
-- What the completeness pass of protoneo/knowledge/graph_verifier.py adds.
use protoneo.Prelude.{
  String, ◌≡◌, refl, ap, inl, inr, true, false, ◌&&◌, none, List, [], ◌∷◌, ◌++◌, foldl, arith,
  Bool-cases, find, All, All-map, ◌==◌, eq_iff, eq_refl, get_at, put_at, get_at-put_at, is_some,
}
use protoneo.Knowledge.Graph.{
  Host, Node, Graph, Details, make_node, labelled, add_new, add_by_label, add_unless, add_node,
}
use protoneo.Knowledge.Verifier.{label_to_node}

module _ (host : Host) where
  -- Every node's label is a key.
  abbrev pub Keyed : List (String × String) → List Node → Type 0
  Keyed labels ns = All (λ n. is_some (get_at (host.lower n.label) labels) ≡ true) ns

  put_at-known :
      (key j id : String) (labels : List (String × String))
      → is_some (get_at j labels) ≡ true
      → is_some (get_at j (put_at key id labels)) ≡ true
  put_at-known key j id labels h = rw (get_at-put_at key j id labels) (ground (arith, h))

  pub put_at-here :
      (key id : String) (labels : List (String × String))
      → is_some (get_at key (put_at key id labels)) ≡ true
  put_at-here key id labels = rw (get_at-put_at key key id labels, eq_refl key) refl

  pub Keyed-put_at :
      (key id : String) (labels : List (String × String)) (ns : List Node)
      → Keyed labels ns
      → Keyed (put_at key id labels) ns
  Keyed-put_at key id labels ns h =
      All-map (λ n. is_some (get_at (host.lower n.label) labels) ≡ true) _ ns
        (λ n k. put_at-known key (host.lower n.label) id labels k) h

  label_to_node-known :
      (ns : List Node) (d : List (String × String)) (j : String)
      → is_some (get_at j d) ≡ true
      → is_some (get_at j (foldl (λ d (n : Node). put_at (host.lower n.label) n.id d) d ns)) ≡ true
  label_to_node-known [] d j h = h
  label_to_node-known (n ∷ ns) d j h =
      label_to_node-known ns (put_at (host.lower n.label) n.id d) j
        (put_at-known (host.lower n.label) j n.id d h)

  folded-Keyed :
      (ns : List Node) (d : List (String × String))
      → Keyed (foldl (λ d (n : Node). put_at (host.lower n.label) n.id d) d ns) ns
  folded-Keyed [] d = tt
  folded-Keyed (n ∷ ns) d = (
    label_to_node-known ns (put_at (host.lower n.label) n.id d) (host.lower n.label)
        (put_at-here (host.lower n.label) n.id d),
    folded-Keyed ns (put_at (host.lower n.label) n.id d),
  )

  pub label_to_node-Keyed : (ns : List Node) → Keyed (label_to_node host ns) ns
  unfolding label_to_node
  label_to_node-Keyed ns = folded-Keyed ns []

  pub unlabelled :
      (labels : List (String × String)) (name : String) (ns : List Node)
      → is_some (get_at (host.lower name) labels) ≡ false
      → Keyed labels ns
      → find (labelled host name) ns ≡ none
  unlabelled labels name [] e h = refl
  unlabelled labels name (n ∷ ns) e h = elim (Bool-cases (labelled host name n)) [
    | inl k ↦
        let same = (eq_iff (host.lower n.label) (host.lower name)).0 k in
        cc (e, h.0, ap (λ t. is_some (get_at t labels)) same)
    | inr k ↦ rw k (unlabelled labels name ns e h.1)
  ]

  find-both :
      (name kind : String) (ns : List Node)
      → find (labelled host name) ns ≡ none
      → find (λ n. labelled host name n && n.node_type == kind) ns ≡ none
  find-both name kind [] h = refl
  find-both name kind (n ∷ ns) h = elim (Bool-cases (labelled host name n)) [
    | inl k ↦ ground (arith, h, k)
    | inr k ↦ rw k (find-both name kind ns (ground (arith, h, k)))
  ]

  -- A node with a new label is added at the end.
  pub add_node-appends :
      (name kind : String) (d : Details) (g : Graph)
      → find (labelled host name) g.nodes ≡ none
      → ((add_node host name kind "" d g).1.nodes
          ≡ g.nodes ++ (add_node host name kind "" d g).0 ∷ [])
        × ((add_node host name kind "" d g).0.label ≡ name)
  unfolding add_node add_unless add_by_label add_new make_node
  add_node-appends name kind d g h = rw (find-both name kind g.nodes h, h) (refl, refl)
