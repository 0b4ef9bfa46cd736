-- ===== src/Knowledge/Coref.antt =====
-- `resolve_coreferences` of protoneo/knowledge/coref_resolver.py, from the answers of the model on:
-- they are joined, the merges are applied to the graph, its edges are cleaned, and aliases become
-- edges. The candidates and the prompts that lead to the answers are not modelled.
pub mod Cleaned
mod Tests
use protoneo.Prelude.{
  ℕ, ◌+◌, String, Bool, not, ◌&&◌, ◌||◌, Option, none, some, List, [], ◌∷◌, ◌++◌, map, foldl,
  if◌then◌else◌, keep, any, find, concat_map, ◌+s◌, ◌==◌, one_of,
}
use protoneo.Knowledge.Graph.{Host, Node, Edge, Graph, same_key, add_edge, redirected, update_stats}
use protoneo.Knowledge.Graph.Clean.{put}

pub record Merge : Type 0 where
  pub keeps : String
  pub removes : List String

pub record Alias : Type 0 where
  pub full : String
  pub abbreviation : String

pub record Answer : Type 0 where
  pub merges : List Merge
  pub aliases : List Alias

abbrev pub same_alias : (String × String) → (String × String) → Bool
same_alias a b = a.0 == b.0 && a.1 == b.1

-- `d.get(key)`, as the id of the node; an absent node has none.
unfoldable pub id_at : String → List (String × String) → Option String
id_at key d = elim (find (λ e. e.0 == key) d) [ some e ↦ some e.1 | none ↦ none ]

-- Edges without self-loops, and of those that agree in source, target and type the first.
unfoldable pub clean_edge : Edge → (seen : List Edge) → List Edge
clean_edge e seen =
    if e.source_id == e.target_id || any (λ x. same_key x e) seen then seen else seen ++ e ∷ []

unfoldable pub clean_edges : List Edge → (seen : List Edge) → List Edge
unfolding clean_edge
clean_edges [] seen = seen
clean_edges (e ∷ es) seen = clean_edges es (clean_edge e seen)

module _ (host : Host) where
  -- The merges of all answers: an entity is kept once.
  unfoldable pub join_merges : (seen : List String) → List Merge → List Merge
  join_merges seen [] = []
  join_merges seen (m ∷ ms) =
      let key = host.lower m.keeps in
      let fresh = not (key == "") && not (one_of seen key) in
      let rest = join_merges (if fresh then seen ++ key ∷ [] else seen) ms in
      if fresh then m ∷ rest else rest

  abbrev pub alias_key : Alias → String × String
  alias_key a = (host.lower a.full, host.lower a.abbreviation)

  unfoldable pub join_aliases : (seen : List (String × String)) → List Alias → List Alias
  join_aliases seen [] = []
  join_aliases seen (a ∷ as') =
      let key = alias_key a in
      let fresh = not (key.0 == "") && not (key.1 == "") && not (any (same_alias key) seen) in
      let rest = join_aliases (if fresh then seen ++ key ∷ [] else seen) as' in
      if fresh then a ∷ rest else rest

  -- `{n.label.lower(): n for n in nodes}`, with the nodes' ids
  unfoldable pub label_map : List Node → List (String × String)
  unfolding put
  label_map ns = foldl (λ d n. put (host.lower n.label) n.id d) [] ns

  -- The state of the merging: the dictionary, the count, and the graph.
  pub record Merging : Type 0 where
    pub labels : List (String × String)
    pub merged : ℕ
    pub graph : Graph

  -- The node goes, and its edges go to the one that is kept.
  unfoldable pub absorb_node : (keep_id remove_id remove_label : String) → Merging → Merging
  unfolding redirected
  absorb_node keep_id remove_id remove_label s = record {
    labels = keep (λ e. not (e.0 == host.lower remove_label)) s.labels;
    merged = s.merged + 1;
    graph = record s.graph {
      edges = map (redirected remove_id keep_id) s.graph.edges;
      nodes = keep (λ n. not (n.id == remove_id)) s.graph.nodes;
    };
  }

  unfoldable pub remove_label : (keep_id label : String) → Option String → Merging → Merging
  unfolding absorb_node
  remove_label keep_id label none s = s
  remove_label keep_id label (some id) s =
      if id == keep_id then s else absorb_node keep_id id label s

  unfoldable pub remove_labels : (keep_id : String) → List String → Merging → Merging
  unfolding remove_label id_at
  remove_labels keep_id [] s = s
  remove_labels keep_id (l ∷ ls) s =
      remove_labels keep_id ls (remove_label keep_id l (id_at (host.lower l) s.labels) s)

  unfoldable pub apply_merge : Option String → Merge → Merging → Merging
  unfolding remove_labels
  apply_merge none m s = s
  apply_merge (some keep_id) m s = remove_labels keep_id m.removes s

  unfoldable pub apply_merges : List Merge → Merging → Merging
  unfolding apply_merge id_at
  apply_merges [] s = s
  apply_merges (m ∷ ms) s = apply_merges ms (apply_merge (id_at (host.lower m.keeps) s.labels) m s)

  abbrev pub alias_edge : Alias → (full abbreviation : String) → Edge
  alias_edge a full abbreviation = record {
    source_id = abbreviation;
    target_id = full;
    edge_type = "ALIAS_OF";
    description = a.abbreviation +s " is abbreviation for " +s a.full;
    confidence = 1000;
    source_text = "";
  }

  unfoldable pub apply_alias : Alias → (full abbreviation : Option String) → ℕ × Graph → ℕ × Graph
  unfolding add_edge
  apply_alias a (some f) (some b) (n, g) =
      if f == b then (n, g) else (n + 1, (add_edge (alias_edge a f b) g).1)
  apply_alias a (some f) none acc = acc
  apply_alias a none b acc = acc

  abbrev pub next_alias : List (String × String) → Alias → ℕ × Graph → ℕ × Graph
  next_alias labels a =
      apply_alias a (id_at (host.lower a.full) labels) (id_at (host.lower a.abbreviation) labels)

  unfoldable pub apply_aliases : List (String × String) → List Alias → ℕ × Graph → ℕ × Graph
  unfolding apply_alias id_at
  apply_aliases labels [] acc = acc
  apply_aliases labels (a ∷ as') acc = apply_aliases labels as' (next_alias labels a acc)

  -- The counts that are returned, and the graph; the totals are the lengths of its nodes.
  pub record Resolved : Type 0 where
    pub merged : ℕ
    pub aliases_created : ℕ
    pub graph : Graph

  unfoldable pub apply_answers : List Answer → Graph → Resolved
  unfolding join_merges join_aliases label_map apply_merges apply_aliases clean_edges update_stats
  apply_answers answers g =
      let merges = join_merges [] (concat_map (λ (a : Answer). a.merges) answers) in
      let aliases = join_aliases [] (concat_map (λ (a : Answer). a.aliases) answers) in
      let s = apply_merges merges (record { labels = label_map g.nodes; merged = 0; graph = g }) in
      let h = record s.graph { edges = clean_edges s.graph.edges [] } in
      let (n, k) = apply_aliases (label_map h.nodes) aliases (0, h) in
      record { merged = s.merged; aliases_created = n; graph = update_stats k }

  -- Without an answer nothing is done.
  unfoldable pub resolve : List Answer → Graph → Resolved
  unfolding apply_answers
  resolve [] g = record { merged = 0; aliases_created = 0; graph = g }
  resolve (a ∷ answers) g = apply_answers (a ∷ answers) g
