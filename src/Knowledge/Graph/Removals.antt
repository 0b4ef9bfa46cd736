-- ===== src/Knowledge/Graph/Removals.antt =====
-- Single mutations of KnowledgeGraph in protoneo/knowledge/graph.py, additions and removals, leave
-- its edges joined.
use protoneo.Prelude.{
  ℕ, String, ◌≡◌, subst, inl, inr, Bool, true, false, not, ◌||◌, List, [], ◌∷◌, ◌++◌, map, foldl,
  arith, Bool-cases, Option-cases, length, keep, any, find, All, All-append, All-map, ◌==◌, eq_iff,
  eq_refl, remove_first,
}
use protoneo.Knowledge.Graph.{
  Node, Edge, Graph, one_of, same_key, add_edge_unless, add_edge, touches, remove_found,
  remove_node, moved, redirected,
}
use protoneo.Knowledge.Graph.Clean.{
  is_structural, is_connected, restat, prune_orphans, is_grounded, add_id, id_set, apart_from,
  prune_ungrounded,
}
use protoneo.Knowledge.Graph.Labels.{restat-nodes}
use protoneo.Knowledge.Graph.Keys.{restat-edges}
use protoneo.Knowledge.Graph.Intact.{
  has_node, Joined, Intact, has_node-remove_first, sources-touched, targets-touched, All-both,
  kept-connected,
}

pub restat-Intact : (n : ℕ) (g : Graph) → Intact g → Intact (restat n g)
restat-Intact n g h = rw (restat-nodes n g, restat-edges n g) h

pub add_edge-Intact : (e : Edge) (g : Graph) → Joined g.nodes e → Intact g → Intact (add_edge e g).1
unfolding add_edge add_edge_unless
add_edge-Intact e g j h = elim (Option-cases (find (λ x. same_key x e) g.edges)) [
  | inl k ↦ rw k (All-append (Joined g.nodes) g.edges (e ∷ []) h (j, tt))
  | inr (x, k) ↦ rw k h
]

-- An edge that does not touch a node survives its removal.
removed-Joined :
    (id : String) (ns : List Node) (es : List Edge)
    → All (Joined ns) es
    → All (Joined (remove_first (λ n. n.id == id) ns)) (keep (λ e. not (touches id e)) es)
removed-Joined id ns [] h = tt
removed-Joined id ns (e ∷ es) h = elim (Bool-cases (touches id e)) [
  | inl t ↦ rw t (removed-Joined id ns es h.1)
  | inr t ↦ rw t (
    (
      has_node-remove_first id e.source_id ns (ground arith) h.0.0,
      has_node-remove_first id e.target_id ns (ground arith) h.0.1,
    ),
    removed-Joined id ns es h.1,
  )
]

pub remove_node-Intact : (id : String) (g : Graph) → Intact g → Intact (remove_node id g).1
unfolding remove_node remove_found
remove_node-Intact id g h = elim (Option-cases (find (λ n. n.id == id) g.nodes)) [
  | inl e ↦ rw e h
  | inr (n, e) ↦ rw e (removed-Joined id g.nodes g.edges h)
]

moved-has_node :
    (old new id : String) (ns : List Node)
    → has_node new ns ≡ true
    → has_node id ns ≡ true
    → has_node (moved old new id) ns ≡ true
moved-has_node old new id ns k h = elim (Bool-cases (id == old)) [ inl e ↦ rw e k | inr e ↦ rw e h ]

pub redirect-Intact :
    (old new : String) (ns : List Node) (es : List Edge)
    → has_node new ns ≡ true
    → All (Joined ns) es
    → All (Joined ns) (map (redirected old new) es)
unfolding redirected
redirect-Intact old new ns [] k h = tt
redirect-Intact old new ns (e ∷ es) k h = (
  (moved-has_node old new e.source_id ns k h.0.0, moved-has_node old new e.target_id ns k h.0.1),
  redirect-Intact old new ns es k h.1,
)

pub orphans-Intact : (g : Graph) → Intact g → Intact (prune_orphans g).1
unfolding prune_orphans
orphans-Intact g h =
    let kept = keep (λ n. is_structural n.node_type || is_connected g.edges n) g.nodes in
    restat-Intact _ (record g { nodes = kept })
      (All-map
        (λ e.
          Joined g.nodes e
          × ((any (touches e.source_id) g.edges ≡ true)
              × (any (touches e.target_id) g.edges ≡ true)))
        (Joined kept) g.edges
        (λ e j. (
          kept-connected g.edges g.nodes e.source_id j.1.0 j.0.0,
          kept-connected g.edges g.nodes e.target_id j.1.1 j.0.1,
        ))
        (All-both _ _ g.edges h
          (All-both _ _ g.edges (sources-touched g.edges) (targets-touched g.edges))))

add_id-keeps :
    (x y : String) (xs : List String) → one_of xs y ≡ true → one_of (add_id x xs) y ≡ true
unfolding add_id
add_id-keeps x y xs h = elim (Bool-cases (one_of xs x)) [
  | inl e ↦ rw e h
  | inr e ↦ rw e (one_of-append xs h)
]
  where
    one_of-append : (zs : List String) → one_of zs y ≡ true → one_of (zs ++ x ∷ []) y ≡ true
    one_of-append [] k = ground arith
    one_of-append (z ∷ zs) k = ground (arith, one_of-append zs)

add_id-has : (x : String) (xs : List String) → one_of (add_id x xs) x ≡ true
unfolding add_id
add_id-has x xs = elim (Bool-cases (one_of xs x)) [ inl e ↦ rw e e | inr e ↦ rw e (one_of-snoc xs) ]
  where
    one_of-snoc : (zs : List String) → one_of (zs ++ x ∷ []) x ≡ true
    one_of-snoc [] = ground (arith, eq_refl x)
    one_of-snoc (z ∷ zs) = ground (arith, one_of-snoc zs)

-- The set has the ids of all its nodes.
ids-kept :
    (id : String) (ns : List Node) (s : List String)
    → one_of s id ≡ true
    → one_of (foldl (λ t n. add_id n.id t) s ns) id ≡ true
ids-kept id [] s h = h
ids-kept id (n ∷ ns) s h = ids-kept id ns (add_id n.id s) (add_id-keeps n.id id s h)

ids-had :
    (id : String) (ns : List Node) (s : List String)
    → has_node id ns ≡ true
    → one_of (foldl (λ t n. add_id n.id t) s ns) id ≡ true
ids-had id [] s h = ground arith
ids-had id (n ∷ ns) s h = elim (Bool-cases (n.id == id)) [
  | inl e ↦
      ids-kept id ns (add_id n.id s)
        (subst (λ j. one_of (add_id n.id s) j ≡ true) ((eq_iff n.id id).0 e) (add_id-has n.id s))
  | inr e ↦ ids-had id ns (add_id n.id s) (ground (arith, e))
]

-- A node is kept or removed.
kept_or_removed :
    (id : String) (p : Node → Bool) (ns : List Node)
    → has_node id ns ≡ true
    → has_node id (keep (λ n. not (p n)) ns) ≡ false
    → has_node id (keep p ns) ≡ true
kept_or_removed id p [] h k = h
kept_or_removed id p (n ∷ ns) h k = ground (arith, kept_or_removed id p ns)

grounded-has_node :
    (id : String) (threshold : ℕ) (ns : List Node)
    → has_node id ns ≡ true
    → one_of (id_set (keep (λ n. not (is_grounded threshold n)) ns)) id ≡ false
    → has_node id (keep (is_grounded threshold) ns) ≡ true
unfolding id_set
grounded-has_node id threshold ns h k =
    let removed = keep (λ n. not (is_grounded threshold n)) ns in
    kept_or_removed id (is_grounded threshold) ns h (elim (Bool-cases (has_node id removed)) [
      | inl e ↦ ground (arith, ids-had id removed [] e)
      | inr e ↦ e
    ])

-- The edges apart from the removed nodes join kept nodes.
apart-Joined :
    (threshold : ℕ) (ns : List Node) (es : List Edge)
    → All (Joined ns) es
    → All
        (Joined (keep (is_grounded threshold) ns))
        (keep (apart_from (id_set (keep (λ n. not (is_grounded threshold n)) ns))) es)
apart-Joined threshold ns [] h = tt
apart-Joined threshold ns (e ∷ es) h =
    let removed = id_set (keep (λ n. not (is_grounded threshold n)) ns) in
    elim (Bool-cases (apart_from removed e)) [
      | inl t ↦ rw t (
        (
          grounded-has_node e.source_id threshold ns h.0.0 (ground arith),
          grounded-has_node e.target_id threshold ns h.0.1 (ground arith),
        ),
        apart-Joined threshold ns es h.1,
      )
      | inr t ↦ rw t (apart-Joined threshold ns es h.1)
    ]

pub ungrounded-Intact : (t : ℕ) (g : Graph) → Intact g → Intact (prune_ungrounded t g).1
unfolding prune_ungrounded
ungrounded-Intact t g h =
    let removed = id_set (keep (λ n. not (is_grounded t n)) g.nodes) in
    restat-Intact (length removed)
      (record g { nodes = keep (is_grounded t) g.nodes; edges = keep (apart_from removed) g.edges })
      (apart-Joined t g.nodes g.edges h)
