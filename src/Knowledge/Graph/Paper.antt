-- ===== src/Knowledge/Graph/Paper.antt =====
-- Nodes that are joined to the paper in the KnowledgeGraph of protoneo/knowledge/graph.py.
use protoneo.Prelude.{
  String, ◌≡◌, refl, sym, ◌∙◌, subst, inl, true, List, [], append-nil, if◌then◌else◌, ◌==◌,
  Distinct,
}
use protoneo.Knowledge.Graph.{Host, Edge, Graph, Details, add_node, add_edge}
use protoneo.Knowledge.Graph.Ingest.{Metadata, attach}
use protoneo.Knowledge.Graph.Labels.{add_edge-nodes, same_label, Labelled, add_node-Labelled}
use protoneo.Knowledge.Graph.Keys.{add_node-edges}
use protoneo.Knowledge.Graph.Intact.{has_node, Joined, Intact}
use protoneo.Knowledge.Graph.Removals.{add_edge-Intact}
use protoneo.Knowledge.Graph.Integrity.{add_node-Intact}
use protoneo.Knowledge.Graph.Returned.{
  add_node-returned, add_node-has_node, Starts, Since, Since-add_edge,
}
use protoneo.Knowledge.Graph.Titles.{Titled, Titled-add_node, add_node-Titled}

-- The title under which the paper stands.
abbrev pub paper_label : Metadata → String
paper_label m = if m.title == "" then "Untitled Paper" else m.title

module _ (host : Host) (old : List Edge) (title : String) where
  -- A graph with distinct labels and joined edges, whose node with the title has this identifier, and
  -- whose edges since `old` start from it or are citations.
  pub record Sound (root : String) (g : Graph) : Type 0 where
    pub distinct : Labelled host g
    pub closed : Intact g
    pub rooted : has_node root g.nodes ≡ true
    pub since : Since old root g.edges
    pub titled : Titled host title root g.nodes

  pub Sound-add_node :
      (root label node_type node_id : String) (d : Details) (g : Graph)
      → Sound root g
      → Sound root (add_node host label node_type node_id d g).1
  Sound-add_node root label node_type node_id d g s = record {
    distinct = add_node-Labelled host label node_type node_id d g s.distinct;
    closed = add_node-Intact host label node_type node_id d g s.closed;
    rooted = add_node-has_node host label node_type node_id d g root s.rooted;
    since = subst (Since old root) (sym (add_node-edges host label node_type node_id d g)) s.since;
    titled = Titled-add_node host title root label node_type node_id d g s.titled;
  }

  pub Sound-add_edge :
      (root : String) (e : Edge) (g : Graph)
      → Joined g.nodes e
      → Starts root e
      → Sound root g
      → Sound root (add_edge e g).1
  Sound-add_edge root e g j starts s =
      let same = sym (add_edge-nodes e g) in
      record {
        distinct = subst (λ ns. Distinct (same_label host) ns) same s.distinct;
        closed = add_edge-Intact e g j s.closed;
        rooted = subst (λ ns. has_node root ns ≡ true) same s.rooted;
        since = Since-add_edge old root e g starts s.since;
        titled = subst (Titled host title root) same s.titled;
      }

  pub Sound-attach :
      (root edge_type why label node_type : String) (d : Details) (g : Graph)
      → Sound root g
      → Sound root (attach host root edge_type why label node_type d g)
  unfolding attach
  Sound-attach root edge_type why label node_type d g s =
      let h = Sound-add_node root label node_type "" d g s in
      Sound-add_edge root _ _ (h.rooted, add_node-returned host label node_type "" d g) (inl refl) h

  -- A graph with the node that `add_node` has just returned.
  pub Sound-paper :
      (d : Details) (g : Graph)
      → Labelled host g
      → Intact g
      → g.edges ≡ old
      → Sound
          (add_node host title "Paper" "paper-root" d g).0.id
          (add_node host title "Paper" "paper-root" d g).1
  Sound-paper d g l c start = record {
    distinct = add_node-Labelled host title "Paper" "paper-root" d g l;
    closed = add_node-Intact host title "Paper" "paper-root" d g c;
    rooted = add_node-returned host title "Paper" "paper-root" d g;
    since = (
      [],
      (add_node-edges host title "Paper" "paper-root" d g ∙ start ∙ sym (append-nil old), tt),
    );
    titled = add_node-Titled host title "Paper" "paper-root" d g l;
  }
