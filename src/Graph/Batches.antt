-- ===== src/Graph/Batches.antt =====
-- The batch route of routes/graph.py: what a batch of edges leaves in the graph.
use n_quark.Prelude.{
  ℕ, ◌≡◌, refl, String, Bool, true, Option, none, some, List, [], ◌∷◌, arith, is_some, eq_iff,
}
use n_quark.Prelude.Time.{Time}
use n_quark.Graph.Tokens.{normalize_rel}
use n_quark.Graph.{
  Node, EdgeWrite, Edge, GraphStore, find_edge, link_found, upsert_edge, upsert_edges, upsert_nodes,
  upsert_batch, set_default,
}
use n_quark.Graph.Unique.{has_edge, has_edge-append, has_edge-put, same_codes_refl}

module _ {V : Type 0} where
  -- The store has an edge with these ends and this relationship.
  abbrev has_link : (String → String) → EdgeWrite V → GraphStore V → Bool
  has_link canon w s =
      is_some (find_edge w.source (normalize_rel canon w.relationship) w.target s.edges)

  abbrev key_edge : String → List ℕ → String → Edge V
  key_edge source rel target = record {
    source = source;
    relationship = rel;
    target = target;
    properties = [];
  }

  link_found_makes :
      (w : EdgeWrite V) (rel : List ℕ) (o : Option (Edge V)) (s : GraphStore V)
      → find_edge w.source rel w.target s.edges ≡ o
      → is_some (find_edge w.source rel w.target (link_found w rel o s).1.edges) ≡ true
  unfolding link_found
  link_found_makes w rel none s e = ground (
    arith,
    e,
    has_edge-append s.edges (key_edge w.source rel w.target) (record {
      source = w.source;
      relationship = rel;
      target = w.target;
      properties = w.properties;
    }),
    eq_iff w.source w.source,
    eq_iff w.target w.target,
    same_codes_refl rel,
  )
  link_found_makes w rel (some old) s e =
      rw (has_edge-put s.edges (key_edge w.source rel w.target) _, e) refl

  link_found_keeps :
      (w : EdgeWrite V) (rel : List ℕ) (o : Option (Edge V)) (s : GraphStore V) (x : Edge V)
      → has_edge s.edges x ≡ true
      → has_edge (link_found w rel o s).1.edges x ≡ true
  unfolding link_found
  link_found_keeps w rel none s x h = rw (has_edge-append s.edges x _, h) refl
  link_found_keeps w rel (some old) s x h = rw (has_edge-put s.edges x _) h

  upsert_edge_makes :
      (canon : String → String) (w : EdgeWrite V) (s : GraphStore V)
      → has_link canon w (upsert_edge canon w s).1 ≡ true
  unfolding upsert_edge
  upsert_edge_makes canon w s =
      link_found_makes w (normalize_rel canon w.relationship)
        (find_edge w.source (normalize_rel canon w.relationship) w.target s.edges)
        (record s { nodes = set_default w.target (set_default w.source s.nodes) }) refl

  upsert_edge_keeps :
      (canon : String → String) (w x : EdgeWrite V) (s : GraphStore V)
      → has_link canon x s ≡ true
      → has_link canon x (upsert_edge canon w s).1 ≡ true
  unfolding upsert_edge
  upsert_edge_keeps canon w x s h =
      link_found_keeps w (normalize_rel canon w.relationship)
        (find_edge w.source (normalize_rel canon w.relationship) w.target s.edges)
        (record s { nodes = set_default w.target (set_default w.source s.nodes) })
        (key_edge x.source (normalize_rel canon x.relationship) x.target) h

  upsert_edges_keep :
      (canon : String → String) (ws : List (EdgeWrite V)) (x : EdgeWrite V) (s : GraphStore V)
      → has_link canon x s ≡ true
      → has_link canon x (upsert_edges canon ws s) ≡ true
  unfolding upsert_edges
  upsert_edges_keep canon [] x s h = h
  upsert_edges_keep canon (w ∷ rest) x s h =
      upsert_edges_keep canon rest x (upsert_edge canon w s).1 (upsert_edge_keeps canon w x s h)

  -- All the edges of a list are in the store.
  abbrev pub HasLinks : (String → String) → List (EdgeWrite V) → GraphStore V → Type 0
  HasLinks canon [] s = Unit
  HasLinks canon (w ∷ rest) s = (has_link canon w s ≡ true) × HasLinks canon rest s

  upsert_edges-HasLinks :
      (canon : String → String) (ws : List (EdgeWrite V)) (s : GraphStore V)
      → HasLinks canon ws (upsert_edges canon ws s)
  unfolding upsert_edges
  upsert_edges-HasLinks canon [] s = tt
  upsert_edges-HasLinks canon (w ∷ rest) s = (
    upsert_edges_keep canon rest w (upsert_edge canon w s).1 (upsert_edge_makes canon w s),
    upsert_edges-HasLinks canon rest (upsert_edge canon w s).1,
  )

  -- After a batch every edge of it is in the store.
  pub upsert_batch-HasLinks :
      (iso : Time → V) (canon : String → String) (now : Time) (nodes : List (Node V))
      (ws : List (EdgeWrite V)) (s : GraphStore V)
      → HasLinks canon ws (upsert_batch iso canon now nodes ws s)
  unfolding upsert_batch
  upsert_batch-HasLinks iso canon now nodes ws s =
      upsert_edges-HasLinks canon ws (upsert_nodes iso now nodes s)
