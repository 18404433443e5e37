-- ===== src/Graph/Links.antt =====
-- store.py: what every graph that the store builds satisfies.
use n_quark.Prelude.{
  ℕ, ◌≡◌, String, true, List, [], ◌∷◌, ◌++◌, arith, if◌then◌else◌, str_eq, eq_iff, Every,
  Every-append, Every-mono, Option-cases, inl, inr,
}
use n_quark.Prelude.Time.{Time}
use n_quark.Graph.Tokens.{normalize_rel, IsToken, normalize_rel-IsToken}
use n_quark.Graph.{
  Node, EdgeWrite, Edge, GraphStore, find_node, put_node, set_default, upsert_found, link_found,
  find_edge, thin, merged_node, created_node, upsert_node, upsert_edge,
}
use n_quark.Graph.Runs.{Write, of_node, of_edge, run}
use n_quark.Graph.Unique.{
  has_node, UniqueIds, UniqueTriples, UniqueIds-append, UniqueIds-put, has_node-append,
  has_node-put, UniqueTriples-append, UniqueTriples-put, Every-put, find_edge_key,
}

module _ {V : Type 0} where
  -- Both ends of an edge are there, and its relationship is a token.
  pub record IsLinked (nodes : List (Node V)) (e : Edge V) : Type 0 where
    pub source_there : has_node nodes e.source ≡ true
    pub target_there : has_node nodes e.target ≡ true
    pub token : IsToken e.relationship

  pub record IsGraph (s : GraphStore V) : Type 0 where
    pub ids : UniqueIds s.nodes
    pub triples : UniqueTriples s.edges
    pub links : Every (IsLinked s.nodes) s.edges

  -- Every node of the first list has its id in the second.
  abbrev Grows : List (Node V) → List (Node V) → Type 0
  Grows nodes nodes' = (id : String) → has_node nodes id ≡ true → has_node nodes' id ≡ true

  IsLinked-Grows :
      (nodes nodes' : List (Node V)) (e : Edge V)
      → Grows nodes nodes'
      → IsLinked nodes e
      → IsLinked nodes' e
  IsLinked-Grows nodes nodes' e g l = record {
    source_there = g e.source l.source_there;
    target_there = g e.target l.target_there;
    token = l.token;
  }

  upsert_node-IsGraph :
      (iso : Time → V) (now : Time) (n : Node V) (s : GraphStore V)
      → IsGraph s
      → IsGraph (upsert_node iso now n s).1
  unfolding upsert_node upsert_found created_node merged_node
  upsert_node-IsGraph iso now n s g = elim (Option-cases (find_node n.id s.nodes)) [
    | inl e ↦ rw e (record {
      ids = UniqueIds-append s.nodes (created_node iso now n) g.ids (rw e);
      triples = g.triples;
      links =
          Every-mono (IsLinked s.nodes) (IsLinked (s.nodes ++ created_node iso now n ∷ [])) s.edges
            (λ x. IsLinked-Grows s.nodes _ x λ id h. rw (has_node-append id s.nodes _, h)) g.links;
    })
    | inr (old, e) ↦ rw e (record {
      ids = UniqueIds-put (merged_node iso now old n) s.nodes g.ids;
      triples = g.triples;
      links =
          Every-mono (IsLinked s.nodes) (IsLinked (put_node (merged_node iso now old n) s.nodes))
            s.edges (λ x. IsLinked-Grows s.nodes _ x λ id h. rw (has_node-put id _ s.nodes) h)
            g.links;
    })
  ]

  set_default_has :
      (id id' : String) (nodes : List (Node V))
      → has_node (set_default id nodes) id' ≡ (if has_node nodes id' then true else str_eq id id')
  unfolding set_default
  set_default_has id id' nodes = ground (arith, has_node-append id' nodes (thin id), eq_iff id id')

  set_default-UniqueIds :
      (id : String) (nodes : List (Node V)) → UniqueIds nodes → UniqueIds (set_default id nodes)
  unfolding set_default
  set_default-UniqueIds id nodes u = ground (arith, UniqueIds-append nodes (thin id) u)

  link_found-IsGraph :
      (w : EdgeWrite V) (rel : List ℕ) (s : GraphStore V)
      → IsGraph s
      → IsToken rel
      → has_node s.nodes w.source ≡ true
      → has_node s.nodes w.target ≡ true
      → IsGraph (link_found w rel (find_edge w.source rel w.target s.edges) s).1
  unfolding link_found
  link_found-IsGraph w rel s g tok hs ht =
      elim (Option-cases (find_edge w.source rel w.target s.edges)) [
        | inl e ↦ rw e (record {
          ids = g.ids;
          triples = UniqueTriples-append s.edges _ g.triples (rw e);
          links =
              Every-append (IsLinked s.nodes) s.edges _ g.links
                (record { source_there = hs; target_there = ht; token = tok }, tt);
        })
        | inr (old, e) ↦
            let key = find_edge_key w.source w.target rel s.edges old e in
            rw e (record {
              ids = g.ids;
              triples = UniqueTriples-put _ s.edges g.triples;
              links =
                  Every-put (IsLinked s.nodes) _ s.edges
                    (record {
                      source_there = rw (key.0) hs;
                      target_there = rw (key.2) ht;
                      token = rw (key.1) tok;
                    })
                    g.links;
            })
      ]

  upsert_edge-IsGraph :
      (canon : String → String) (w : EdgeWrite V) (s : GraphStore V)
      → IsGraph s
      → IsGraph (upsert_edge canon w s).1
  unfolding upsert_edge
  upsert_edge-IsGraph canon w s g =
      let nodes = set_default w.target (set_default w.source s.nodes) in
      link_found-IsGraph w (normalize_rel canon w.relationship) (record s { nodes = nodes })
        (record {
          ids = set_default-UniqueIds _ _ (set_default-UniqueIds w.source s.nodes g.ids);
          triples = g.triples;
          links =
              Every-mono (IsLinked s.nodes) (IsLinked nodes) s.edges
                (λ x. IsLinked-Grows s.nodes _ x λ id h. ground (
                  arith,
                  set_default_has w.target id (set_default w.source s.nodes),
                  set_default_has w.source id s.nodes,
                  h,
                ))
                g.links;
        })
        (normalize_rel-IsToken canon w.relationship)
        (ground (
          arith,
          set_default_has w.target w.source (set_default w.source s.nodes),
          set_default_has w.source w.source s.nodes,
          eq_iff w.source w.source,
        ))
        (ground (
          arith,
          set_default_has w.target w.target (set_default w.source s.nodes),
          eq_iff w.target w.target,
        ))

  -- Whatever nodes and edges are written to a graph whose ids and triples are unique and whose edges
  -- have both ends, it stays such a graph: writing a node or an edge again makes no second one, no
  -- edge dangles, and every relationship is a token.
  pub run-IsGraph :
      (iso : Time → V) (canon : String → String) (ws : List (Write V)) (s : GraphStore V)
      → IsGraph s
      → IsGraph (run iso canon ws s)
  unfolding run
  run-IsGraph iso canon [] s g = g
  run-IsGraph iso canon (of_node now n ∷ ws) s g =
      run-IsGraph iso canon ws _ (upsert_node-IsGraph iso now n s g)
  run-IsGraph iso canon (of_edge now w ∷ ws) s g =
      run-IsGraph iso canon ws _ (upsert_edge-IsGraph canon w s g)
