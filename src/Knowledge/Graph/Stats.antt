-- ===== src/Knowledge/Graph/Stats.antt =====
-- The counts that KnowledgeGraph of protoneo/knowledge/graph.py keeps by type.
use protoneo.Prelude.{
  ℕ, ◌+◌, String, ◌≡◌, refl, List, [], ◌∷◌, map, foldl, arith, if◌then◌else◌, length, keep, ◌==◌,
  eq_iff,
}
use protoneo.Knowledge.Graph.{Graph, bump, tally, update_stats}

-- `d.get(key, 0)`
abbrev pub count_of : String → List (String × ℕ) → ℕ
count_of key [] = 0
count_of key ((k, n) ∷ d) = let rest = count_of key d in if k == key then n else rest

bump-count_of :
    (k j : String) (d : List (String × ℕ))
    → count_of j (bump k d) ≡ (if k == j then count_of j d + 1 else count_of j d)
unfolding bump
bump-count_of k j [] = ground arith
bump-count_of k j ((i, n) ∷ d) =
    ground (arith, bump-count_of k j d, eq_iff i k, eq_iff i j, eq_iff k j)

tally-count_of :
    (j : String) (ks : List String) (d : List (String × ℕ))
    → count_of j (foldl (λ d k. bump k d) d ks) ≡ count_of j d + length (keep (λ k. k == j) ks)
tally-count_of j [] d = omega arith
tally-count_of j (k ∷ ks) d = ground (arith, tally-count_of j ks (bump k d), bump-count_of k j d)

keep-map :
    {A : Type 0} (f : A → String) (j : String) (xs : List A)
    → length (keep (λ k. k == j) (map f xs)) ≡ length (keep (λ x. f x == j) xs)
keep-map f j [] = refl
keep-map f j (x ∷ xs) = ground (arith, keep-map f j xs)

-- `update_stats` leaves for each type the number of the graph's nodes and of its edges of that type.
pub update_stats-counts :
    (g : Graph) (type : String)
    → (count_of type (update_stats g).node_count_by_type
        ≡ length (keep (λ n. n.node_type == type) g.nodes))
      × (count_of type (update_stats g).edge_count_by_type
          ≡ length (keep (λ e. e.edge_type == type) g.edges))
unfolding update_stats tally
update_stats-counts g type = (
  omega (
    arith,
    tally-count_of type (map (λ n. n.node_type) g.nodes) [],
    keep-map (λ n. n.node_type) type g.nodes,
  ),
  omega (
    arith,
    tally-count_of type (map (λ e. e.edge_type) g.edges) [],
    keep-map (λ e. e.edge_type) type g.edges,
  ),
)
