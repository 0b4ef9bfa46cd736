-- ===== src/Knowledge/Graph/Intact.antt =====
-- Edges of a KnowledgeGraph in protoneo/knowledge/graph.py that join nodes which it has, and how the
-- changes of its nodes leave them joined.
use protoneo.Prelude.{
  String, ◌≡◌, inl, inr, Bool, true, false, ◌||◌, List, [], ◌∷◌, ◌++◌, arith, Bool-cases, keep, any,
  All, All-map, ◌==◌, eq_iff, eq_refl, change_first, remove_first,
}
use protoneo.Knowledge.Graph.{Node, Edge, Graph, touches}
use protoneo.Knowledge.Graph.Clean.{is_structural, is_connected}

abbrev pub has_node : String → List Node → Bool
has_node id ns = any (λ n. n.id == id) ns

abbrev pub Joined : List Node → Edge → Type 0
Joined ns e = (has_node e.source_id ns ≡ true) × (has_node e.target_id ns ≡ true)

abbrev pub Intact : Graph → Type 0
Intact g = All (Joined g.nodes) g.edges

-- More nodes keep an edge joined.
pub Joined-widen :
    (ns ms : List Node)
    → ((id : String) → has_node id ns ≡ true → has_node id ms ≡ true)
    → (es : List Edge) → All (Joined ns) es
    → All (Joined ms) es
Joined-widen ns ms f es h =
    All-map (Joined ns) (Joined ms) es (λ e j. (f e.source_id j.0, f e.target_id j.1)) h

pub has_node-append :
    (id : String) (ns ms : List Node) → has_node id ns ≡ true → has_node id (ns ++ ms) ≡ true
has_node-append id [] ms h = ground arith
has_node-append id (n ∷ ns) ms h = ground (arith, has_node-append id ns ms)

-- A change of nodes that keeps their ids.
pub has_node-change_first :
    (id : String) (p : Node → Bool) (f : Node → Node) (ns : List Node)
    → ((n : Node) → (f n).id ≡ n.id)
    → has_node id ns ≡ true
    → has_node id (change_first p f ns) ≡ true
has_node-change_first id p f [] k h = h
has_node-change_first id p f (n ∷ ns) k h = elim (Bool-cases (p n)) [
  | inl e ↦ rw (e, k n) h
  | inr e ↦ rw e (ground (arith, has_node-change_first id p f ns k))
]

pub has_node-remove_first :
    (id j : String) (ns : List Node)
    → (j == id) ≡ false
    → has_node j ns ≡ true
    → has_node j (remove_first (λ n. n.id == id) ns) ≡ true
has_node-remove_first id j [] d h = h
has_node-remove_first id j (n ∷ ns) d h =
    ground (arith, has_node-remove_first id j ns d, eq_iff n.id id, eq_iff n.id j, eq_iff j id)

-- A filter that every node of this id passes.
pub has_node-keep :
    (id : String) (p : Node → Bool) (ns : List Node)
    → ((n : Node) → (n.id == id) ≡ true → p n ≡ true)
    → has_node id ns ≡ true
    → has_node id (keep p ns) ≡ true
has_node-keep id p [] k h = h
has_node-keep id p (n ∷ ns) k h = ground (arith, has_node-keep id p ns k, k n)

-- Every edge touches its own ends.
pub sources-touched : (es : List Edge) → All (λ e. any (touches e.source_id) es ≡ true) es
sources-touched [] = tt
sources-touched (e ∷ es) = (
  ground (arith, eq_refl e.source_id),
  All-map (λ x. any (touches x.source_id) es ≡ true)
      (λ x. (touches x.source_id e || any (touches x.source_id) es) ≡ true) es (λ x h. ground arith)
      (sources-touched es),
)

pub targets-touched : (es : List Edge) → All (λ e. any (touches e.target_id) es ≡ true) es
targets-touched [] = tt
targets-touched (e ∷ es) = (
  ground (arith, eq_refl e.target_id),
  All-map (λ x. any (touches x.target_id) es ≡ true)
      (λ x. (touches x.target_id e || any (touches x.target_id) es) ≡ true) es (λ x h. ground arith)
      (targets-touched es),
)

pub All-both {ℓ κ μ} :
    {A : Type ℓ} (P : A → Type κ) (Q : A → Type μ) (xs : List A)
    → All P xs
    → All Q xs
    → All (λ x. P x × Q x) xs
All-both P Q [] h k = tt
All-both P Q (x ∷ xs) h k = ((h.0, k.0), All-both P Q xs h.1 k.1)

-- A node with an edge survives the removal of the orphans.
pub kept-connected :
    (es : List Edge) (ns : List Node) (id : String)
    → any (touches id) es ≡ true
    → has_node id ns ≡ true
    → has_node id (keep (λ n. is_structural n.node_type || is_connected es n) ns) ≡ true
unfolding is_connected
kept-connected es ns id t h =
    has_node-keep id _ ns (λ n e. rw ((eq_iff n.id id).0 e, t) (ground arith)) h
