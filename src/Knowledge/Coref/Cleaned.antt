-- ===== src/Knowledge/Coref/Cleaned.antt =====
-- The graph that `resolve_coreferences` of protoneo/knowledge/coref_resolver.py leaves.
use protoneo.Prelude.{
  ℕ, String, ◌≡◌, refl, sym, ◌∙◌, subst, inl, inr, false, ◌||◌, Option, none, some, List, [], ◌∷◌,
  ◌++◌, arith, Bool-cases, Option-cases, any, find, concat_map, All, All-append, ◌==◌, eq_iff,
  Distinct, Distinct-keep, Distinct-snoc,
}
use protoneo.Knowledge.Graph.{Host, Edge, Graph, same_key, add_edge_unless, add_edge, update_stats}
use protoneo.Knowledge.Graph.Labels.{add_edge-nodes, same_label, Labelled}
use protoneo.Knowledge.Coref.{
  Merge, Alias, Answer, id_at, clean_edge, clean_edges, join_merges, join_aliases, label_map,
  Merging, absorb_node, remove_label, remove_labels, apply_merge, apply_merges, alias_edge,
  apply_alias, next_alias, apply_aliases, apply_answers, resolve,
}

abbrev pub NoLoop : Edge → Type 0
NoLoop e = (e.source_id == e.target_id) ≡ false

-- Edges that do not repeat themselves and join different nodes.
pub record Tidy (es : List Edge) : Type 0 where
  pub keyed : Distinct same_key es
  pub no_loops : All NoLoop es

not-any :
    (e : Edge) (es : List Edge)
    → any (λ x. same_key x e) es ≡ false
    → All (λ x. same_key x e ≡ false) es
not-any e [] h = tt
not-any e (x ∷ xs) h = (ground arith, not-any e xs (ground arith))

Tidy-snoc :
    (e : Edge) (es : List Edge)
    → NoLoop e
    → any (λ x. same_key x e) es ≡ false
    → Tidy es
    → Tidy (es ++ e ∷ [])
Tidy-snoc e es l h t = record {
  keyed = Distinct-snoc same_key es e (not-any e es h) t.keyed;
  no_loops = All-append NoLoop es (e ∷ []) t.no_loops (l, tt);
}

clean_edge-Tidy : (e : Edge) (seen : List Edge) → Tidy seen → Tidy (clean_edge e seen)
unfolding clean_edge
clean_edge-Tidy e seen t =
    elim (Bool-cases (e.source_id == e.target_id || any (λ x. same_key x e) seen)) [
      | inl h ↦ rw h t
      | inr h ↦ rw h (Tidy-snoc e seen (ground arith) (ground arith) t)
    ]

clean_edges-Tidy : (es seen : List Edge) → Tidy seen → Tidy (clean_edges es seen)
unfolding clean_edges
clean_edges-Tidy [] seen t = t
clean_edges-Tidy (e ∷ es) seen t =
    clean_edges-Tidy es (clean_edge e seen) (clean_edge-Tidy e seen t)

find-any :
    (e : Edge) (es : List Edge)
    → find (λ x. same_key x e) es ≡ none
    → any (λ x. same_key x e) es ≡ false
find-any e [] h = refl
find-any e (x ∷ xs) h = elim (Bool-cases (same_key x e)) [
  | inl k ↦ ground (arith, rw k at h)
  | inr k ↦ rw k (find-any e xs (rw k at h))
]

add_edge-Tidy : (e : Edge) (g : Graph) → NoLoop e → Tidy g.edges → Tidy (add_edge e g).1.edges
unfolding add_edge add_edge_unless
add_edge-Tidy e g l t = elim (Option-cases (find (λ x. same_key x e) g.edges)) [
  | inl h ↦ rw h (Tidy-snoc e g.edges l (find-any e g.edges h) t)
  | inr (x, h) ↦ rw h t
]

module _ (host : Host) where
  apply_alias-Tidy :
      (a : Alias) (f b : Option String) (acc : ℕ × Graph)
      → Tidy acc.1.edges
      → Tidy (apply_alias host a f b acc).1.edges
  unfolding apply_alias
  apply_alias-Tidy a (some f) (some b) (n, g) t = elim (Bool-cases (f == b)) [
    | inl h ↦ rw h t
    | inr h ↦
        rw h (add_edge-Tidy (alias_edge host a f b) g (ground (arith, eq_iff f b, eq_iff b f)) t)
  ]
  apply_alias-Tidy a (some f) none acc t = t
  apply_alias-Tidy a none b acc t = t

  apply_aliases-Tidy :
      (d : List (String × String)) (as' : List Alias) (acc : ℕ × Graph)
      → Tidy acc.1.edges
      → Tidy (apply_aliases host d as' acc).1.edges
  unfolding apply_aliases
  apply_aliases-Tidy d [] acc t = t
  apply_aliases-Tidy d (a ∷ as') acc t =
      apply_aliases-Tidy d as' (next_alias host d a acc) (
        apply_alias-Tidy a (id_at (host.lower a.full) d) (id_at (host.lower a.abbreviation) d) acc
          t)

  abbrev aliases_of : List Answer → List Alias
  aliases_of answers = join_aliases host [] (concat_map (λ (a : Answer). a.aliases) answers)

  abbrev merged_by : List Answer → Graph → Merging host
  merged_by answers g =
      apply_merges host (join_merges host [] (concat_map (λ (a : Answer). a.merges) answers))
        (record { labels = label_map host g.nodes; merged = 0; graph = g })

  -- Whatever the model answers and whatever the graph was, after the coreferences are resolved by at
  -- least one answer, no two edges agree in source, target and type, and no edge joins a node with
  -- itself.
  pub resolve-Tidy :
      (first : Answer) (answers : List Answer) (g : Graph)
      → Tidy (resolve host (first ∷ answers) g).graph.edges
  unfolding resolve apply_answers update_stats
  resolve-Tidy first rest g =
      let answers = first ∷ rest in
      let s = merged_by answers g in
      let h = record s.graph { edges = clean_edges s.graph.edges [] } in
      apply_aliases-Tidy (label_map host h.nodes) (aliases_of answers) (0, h)
        (clean_edges-Tidy s.graph.edges [] (record { keyed = tt; no_loops = tt }))

  remove_label-Labelled :
      (keep_id label : String) (o : Option String) (s : Merging host)
      → Labelled host s.graph
      → Labelled host (remove_label host keep_id label o s).graph
  unfolding remove_label absorb_node
  remove_label-Labelled keep_id label none s h = h
  remove_label-Labelled keep_id label (some id) s h = elim (Bool-cases (id == keep_id)) [
    | inl e ↦ rw e h
    | inr e ↦ rw e (Distinct-keep (same_label host) _ s.graph.nodes h)
  ]

  remove_labels-Labelled :
      (keep_id : String) (ls : List String) (s : Merging host)
      → Labelled host s.graph
      → Labelled host (remove_labels host keep_id ls s).graph
  unfolding remove_labels
  remove_labels-Labelled keep_id [] s h = h
  remove_labels-Labelled keep_id (l ∷ ls) s h =
      remove_labels-Labelled keep_id ls
        (remove_label host keep_id l (id_at (host.lower l) s.labels) s)
        (remove_label-Labelled keep_id l _ s h)

  apply_merges-Labelled :
      (ms : List Merge) (s : Merging host)
      → Labelled host s.graph
      → Labelled host (apply_merges host ms s).graph
  unfolding apply_merges apply_merge
  apply_merges-Labelled [] s h = h
  apply_merges-Labelled (m ∷ ms) s h =
      apply_merges-Labelled ms (apply_merge host (id_at (host.lower m.keeps) s.labels) m s)
        (merged (id_at (host.lower m.keeps) s.labels))
    where
      merged : (o : Option String) → Labelled host (apply_merge host o m s).graph
      merged none = h
      merged (some id) = remove_labels-Labelled id m.removes s h

  apply_alias-nodes :
      (a : Alias) (f b : Option String) (acc : ℕ × Graph)
      → (apply_alias host a f b acc).1.nodes ≡ acc.1.nodes
  unfolding apply_alias
  apply_alias-nodes a (some f) (some b) (n, g) = elim (Bool-cases (f == b)) [
    | inl h ↦ rw h refl
    | inr h ↦ rw h (add_edge-nodes (alias_edge host a f b) g)
  ]
  apply_alias-nodes a (some f) none acc = refl
  apply_alias-nodes a none b acc = refl

  apply_aliases-nodes :
      (d : List (String × String)) (as' : List Alias) (acc : ℕ × Graph)
      → (apply_aliases host d as' acc).1.nodes ≡ acc.1.nodes
  unfolding apply_aliases
  apply_aliases-nodes d [] acc = refl
  apply_aliases-nodes d (a ∷ as') acc =
      apply_aliases-nodes d as' (next_alias host d a acc)
      ∙ apply_alias-nodes a (id_at (host.lower a.full) d) (id_at (host.lower a.abbreviation) d) acc

  -- Labels that are distinct when case is ignored stay so when coreferences are resolved.
  pub resolve-Labelled :
      (answers : List Answer) (g : Graph)
      → Labelled host g
      → Labelled host (resolve host answers g).graph
  unfolding resolve apply_answers update_stats
  resolve-Labelled [] g h = h
  resolve-Labelled (first ∷ rest) g h =
      let answers = first ∷ rest in
      let s = merged_by answers g in
      let h' = record s.graph { edges = clean_edges s.graph.edges [] } in
      subst (λ ns. Distinct (same_label host) ns)
        (sym (apply_aliases-nodes (label_map host h'.nodes) (aliases_of answers) (0, h')))
        (apply_merges-Labelled (join_merges host [] (concat_map (λ (a : Answer). a.merges) answers))
          (record { labels = label_map host g.nodes; merged = 0; graph = g }) h)
