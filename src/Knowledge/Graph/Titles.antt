-- ===== src/Knowledge/Graph/Titles.antt =====
-- The node that has a title in the KnowledgeGraph of protoneo/knowledge/graph.py.
use protoneo.Prelude.{
  String, ◌≡◌, refl, sym, ap, ◌∙◌, inl, inr, Bool, true, false, ◌&&◌, none, some, some-injective,
  List, [], ◌∷◌, ◌++◌, arith, Bool-cases, Option-cases, find, ◌==◌, eq_iff, eq_refl, change_first,
  Distinct, find-All,
}
use protoneo.Knowledge.Graph.{
  Host, Node, Graph, Details, make_node, upgraded, labelled, add_new, add_by_label, add_unless,
  add_node,
}
use protoneo.Knowledge.Graph.Labels.{same_label, Labelled}

find-end {ℓ} :
    {A : Type ℓ} (p : A → Bool) (xs : List A) (y n : A)
    → find p xs ≡ some n
    → find p (xs ++ y ∷ []) ≡ some n
find-end p [] y n h = ground (arith, h)
find-end p (x ∷ xs) y n h = elim (Bool-cases (p x)) [
  | inl e ↦ rw e (rw e at h)
  | inr e ↦ rw e (find-end p xs y n (rw e at h))
]

find_new {ℓ} :
    {A : Type ℓ} (p : A → Bool) (xs : List A) (y : A)
    → find p xs ≡ none
    → p y ≡ true
    → find p (xs ++ y ∷ []) ≡ some y
find_new p [] y h e = rw e refl
find_new p (x ∷ xs) y h e = elim (Bool-cases (p x)) [
  | inl k ↦ let bad = rw k at h in ground (arith, bad)
  | inr k ↦ rw k (find_new p xs y (rw k at h) e)
]

-- A change that keeps the identifier and the test's answer leaves a node of that identifier first.
find-change_first :
    (p q : Node → Bool) (f : Node → Node) (ns : List Node) (n : Node)
    → ((m : Node) → p (f m) ≡ p m)
    → ((m : Node) → (f m).id ≡ m.id)
    → find p ns ≡ some n
    → (k : Node) × ((find p (change_first q f ns) ≡ some k) × (k.id ≡ n.id))
find-change_first p q f [] n tests ids h = ground (arith, h)
find-change_first p q f (m ∷ ns) n tests ids h = elim (Bool-cases (q m)) [
  | inl e ↦ elim (Bool-cases (p m)) [
    | inl k ↦
        let same : m ≡ n = some-injective m n (rw k at h) in
        rw e rw (tests m) rw k (f m, (refl, ids m ∙ ap Node.id same))
    | inr k ↦ rw e rw (tests m) rw k (n, (rw k at h, refl))
  ]
  | inr e ↦ elim (Bool-cases (p m)) [
    | inl k ↦
        let same : m ≡ n = some-injective m n (rw k at h) in rw e rw k (m, (refl, ap Node.id same))
    | inr k ↦ rw e rw k (find-change_first p q f ns n tests ids (rw k at h))
  ]
]

module _ (host : Host) (title : String) where
  -- The node with this title has this identifier.
  abbrev pub Titled : (root : String) → List Node → Type 0
  Titled root ns = (n : Node) × ((find (labelled host title) ns ≡ some n) × (n.id ≡ root))

  pub Titled-change_first :
      (root : String) (q : Node → Bool) (f : Node → Node) (ns : List Node)
      → ((m : Node) → (f m).label ≡ m.label)
      → ((m : Node) → (f m).id ≡ m.id)
      → Titled root ns
      → Titled root (change_first q f ns)
  Titled-change_first root q f ns labels ids t =
      let k =
        find-change_first (labelled host title) q f ns t.0
          (λ m. ap (λ l. host.lower l == host.lower title) (labels m)) ids t.1.0 in
      (k.0, (k.1.0, k.1.1 ∙ t.1.1))

  pub Titled-add_node :
      (root label node_type node_id : String) (d : Details) (g : Graph)
      → Titled root g.nodes
      → Titled root (add_node host label node_type node_id d g).1.nodes
  unfolding add_node add_unless add_by_label add_new upgraded
  Titled-add_node root label node_type node_id d g t =
      elim (Option-cases (find (λ n. labelled host label n && n.node_type == node_type) g.nodes)) [
        | inr (n, e) ↦ rw e t
        | inl e ↦ elim (Option-cases (find (labelled host label) g.nodes)) [
          | inl none_there ↦
              rw e rw none_there (t.0, (find-end (labelled host title) g.nodes _ t.0 t.1.0, t.1.1))
          | inr (n, there) ↦ rw e rw there (
              Titled-change_first root (labelled host label) (upgraded node_type d) g.nodes
                (λ m. refl) (λ m. refl) t)
        ]
      ]

module _ (host : Host) where
  same_labelled :
      (label : String) (m n : Node)
      → labelled host label m ≡ true
      → labelled host label n ≡ true
      → same_label host m n ≡ true
  same_labelled label m n h k = ground (
    arith,
    h,
    k,
    eq_iff (host.lower m.label) (host.lower label),
    eq_iff (host.lower n.label) (host.lower label),
    eq_iff (host.lower m.label) (host.lower n.label),
  )

  -- Of distinct labels the node with this label and a further property is the one with this label.
  find-labelled :
      (label : String) (q : Node → Bool) (ns : List Node) (n : Node)
      → Distinct (same_label host) ns
      → find (λ m. labelled host label m && q m) ns ≡ some n
      → find (labelled host label) ns ≡ some n
  find-labelled label q [] n d h = ground (arith, h)
  find-labelled label q (m ∷ ns) n d h = elim (Bool-cases (labelled host label m)) [
    | inr k ↦ rw k (find-labelled label q ns n d.1 (rw k at h))
    | inl k ↦ elim (Bool-cases (q m)) [
      | inl e ↦ rw k (rw (k, e) at h)
      | inr e ↦
          let later =
            find-All (λ y. same_label host m y ≡ false) (λ y. labelled host label y && q y) n ns d.0
              (rw (k, e) at h) in
          let both : labelled host label n ≡ true = ground (arith, later.1) in
          let bad : true ≡ false = sym (same_labelled label m n k both) ∙ later.0 in
          ground (arith, bad)
    ]
  ]

  pub add_node-Titled :
      (title node_type node_id : String) (d : Details) (g : Graph)
      → Labelled host g
      → Titled host title
          (add_node host title node_type node_id d g).0.id
          (add_node host title node_type node_id d g).1.nodes
  unfolding add_node add_unless add_by_label add_new make_node upgraded
  add_node-Titled title node_type node_id d g l =
      elim (Option-cases (find (λ n. labelled host title n && n.node_type == node_type) g.nodes)) [
        | inr (n, e) ↦
            rw e (n, (find-labelled title (λ m. m.node_type == node_type) g.nodes n l e, refl))
        | inl e ↦ elim (Option-cases (find (labelled host title) g.nodes)) [
          | inl none_there ↦ rw e rw none_there (
            _,
            (
              find_new (labelled host title) g.nodes _ none_there (eq_refl (host.lower title)),
              refl,
            ),
          )
          | inr (n, there) ↦ rw e rw there (
              Titled-change_first host title n.id (labelled host title) (upgraded node_type d)
                g.nodes (λ m. refl) (λ m. refl) (n, (there, refl)))
        ]
      ]
