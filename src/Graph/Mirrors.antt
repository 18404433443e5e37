-- ===== src/Graph/Mirrors.antt =====
-- store.py: the store on the tables mirrors the in-memory one, write by write.
use n_quark.Prelude.{
  ℕ, ◌≡◌, refl, ap, String, Bool, true, not, ◌&&◌, Option, none, some, List, [], ◌∷◌, ◌++◌, map,
  arith, if◌then◌else◌, str_eq, is_some, eq_iff, Bool-cases, sym, inl, inr,
}
use n_quark.Prelude.Time.{Time}
use n_quark.Graph.Tokens.{normalize_rel}
use n_quark.Graph.{
  Node, EdgeWrite, Edge, GraphStore, find_node, put_node, set_default, upsert_found, link_found,
  find_edge, is_unknown, set_property, update,
}
use n_quark.Graph
use n_quark.Graph.Postgres.{
  GraphNodeRecord, GraphTables, to_node, found_node, find_row, put_row, flush_rows, ensure_node,
  upsert_row, upsert_edge_row, flushed,
}
use n_quark.Graph.Postgres

module _ {V : Type 0} where
  -- The abstract view of the tables forgets the column of the last write.
  abbrev pub view : GraphTables V → GraphStore V
  view t = record { nodes = map to_node t.node_rows; edges = t.edge_rows }

  pub find_node-view :
      (id : String) (rows : List (GraphNodeRecord V))
      → find_node id (map to_node rows) ≡ found_node (find_row id rows)
  unfolding find_node find_row
  find_node-view id [] = refl
  find_node-view id (r ∷ rest) = ground (arith, find_node-view id rest)

  put_node-view :
      (r : GraphNodeRecord V) (rows : List (GraphNodeRecord V))
      → put_node (to_node r) (map to_node rows) ≡ map to_node (put_row r rows)
  unfolding put_node put_row
  put_node-view r [] = refl
  put_node-view r (x ∷ rest) = ground (arith, put_node-view r rest)

  map-append_row :
      (rows new : List (GraphNodeRecord V))
      → map to_node (rows ++ new) ≡ map to_node rows ++ map to_node new
  map-append_row [] new = refl
  map-append_row (x ∷ rest) new = ap (λ l. to_node x ∷ l) (map-append_row rest new)

  upsert_found-view :
      (iso : Time → V) (now : Time) (n : Node V) (o : Option (GraphNodeRecord V))
      (t : GraphTables V)
      → upsert_found iso now n (found_node o) (view t)
        ≡ ((upsert_row iso now n o t).0, view (upsert_row iso now n o t).1)
  unfolding upsert_found upsert_row
  upsert_found-view iso now n none t = rw (map-append_row t.node_rows)
  upsert_found-view iso now n (some r) t =
      let row : GraphNodeRecord V = record {
        id = r.id;
        type = if is_unknown n.type then r.type else n.type;
        properties = set_property "updated_at" (iso now) (update r.properties n.properties);
        updated_at = now;
      } in
      rw (put_node-view row t.node_rows)

  -- Writing a node gives the same reply, and the same nodes in the same order.
  pub upsert_node-view :
      (iso : Time → V) (now : Time) (n : Node V) (t : GraphTables V)
      → Graph.upsert_node iso now n (view t)
        ≡ (let (reply, t') = Postgres.upsert_node iso now n t in (reply, view t'))
  unfolding Graph.upsert_node Postgres.upsert_node
  upsert_node-view iso now n t =
      rw (find_node-view n.id t.node_rows) (upsert_found-view iso now n _ t)

  is_some-view :
      (id : String) (rows : List (GraphNodeRecord V))
      → is_some (find_node id (map to_node rows)) ≡ is_some (find_row id rows)
  is_some-view id rows =
      rw (find_node-view id rows)
        (elim (find_row id rows) as (λ o. is_some (found_node o) ≡ is_some o) [
          | none ↦ refl
          | some r ↦ refl
        ])

  link_found-view :
      (w : EdgeWrite V) (rel : List ℕ) (o : Option (Edge V)) (rows : List (GraphNodeRecord V))
      (edges : List (Edge V))
      → link_found w rel o (record { nodes = map to_node rows; edges = edges })
        ≡ ((upsert_edge_row w rel o rows edges).0, view (upsert_edge_row w rel o rows edges).1)
  unfolding link_found upsert_edge_row
  link_found-view w rel none rows edges = refl
  link_found-view w rel (some e) rows edges = refl

  find_row-append :
      (id : String) (rows : List (GraphNodeRecord V)) (r : GraphNodeRecord V)
      → is_some (find_row id (rows ++ r ∷ []))
        ≡ (if is_some (find_row id rows) then true else str_eq r.id id)
  unfolding find_row
  find_row-append id [] r = ground arith
  find_row-append id (x ∷ rest) r = ground (arith, find_row-append id rest r)

  -- A loop at a node that is not there yet.
  abbrev pub is_fresh_loop : EdgeWrite V → GraphStore V → Bool
  is_fresh_loop w s = str_eq w.source w.target && not (is_some (find_node w.source s.nodes))

  abbrev map_rows : Option (List (GraphNodeRecord V)) → Option (List (Node V))
  map_rows none = none
  map_rows (some rows) = some (map to_node rows)

  insert_row-view :
      (r : GraphNodeRecord V) (rows : List (GraphNodeRecord V))
      → map_rows (flush_rows (r ∷ []) rows)
        ≡ (if is_some (find_row r.id rows) then none else some (map to_node rows ++ to_node r ∷ []))
  unfolding flush_rows
  insert_row-view r rows = elim (Bool-cases (is_some (find_row r.id rows))) [
    | inl e ↦ rw (e)
    | inr e ↦ rw (e, map-append_row rows)
  ]

  insert_rows_nil : (rows : List (GraphNodeRecord V)) → flush_rows [] rows ≡ some rows
  unfolding flush_rows
  insert_rows_nil rows = refl

  flush_rows-view :
      (r r' : GraphNodeRecord V) (rows : List (GraphNodeRecord V))
      → map_rows (flush_rows (r ∷ r' ∷ []) rows) ≡ (
          if is_some (find_row r.id rows)
          then none
          else map_rows (flush_rows (r' ∷ []) (rows ++ r ∷ [])))
  unfolding flush_rows
  flush_rows-view r r' rows = elim (Bool-cases (is_some (find_row r.id rows))) [
    | inl e ↦ rw (e)
    | inr e ↦ rw (e)
  ]

  endpoints-view :
      (now : Time) (w : EdgeWrite V) (rows : List (GraphNodeRecord V))
      → map_rows (flush_rows (ensure_node now w.source rows ++ ensure_node now w.target rows) rows)
        ≡ (if str_eq w.source w.target && not (is_some (find_row w.source rows))
            then none
            else some (set_default w.target (set_default w.source (map to_node rows))))
  unfolding ensure_node set_default
  endpoints-view now w rows =
      let row_of : String → GraphNodeRecord V =
        λ id. record { id = id; type = "unknown"; properties = []; updated_at = now } in
      let s : GraphNodeRecord V = row_of w.source in
      let t : GraphNodeRecord V = row_of w.target in
      ground (
        arith,
        is_some-view w.source rows,
        is_some-view w.target rows,
        is_some-view w.target (rows ++ s ∷ []),
        map-append_row rows (s ∷ []),
        find_row-append w.target rows s,
        insert_row-view s rows,
        insert_row-view t rows,
        insert_row-view t (rows ++ s ∷ []),
        flush_rows-view s t rows,
        insert_rows_nil rows,
        eq_iff w.source w.target,
      )

  abbrev pub viewed : Option (Edge V × GraphTables V) → Option (Edge V × GraphStore V)
  viewed none = none
  viewed (some (e, t)) = some (e, view t)

  flushed-view :
      (w : EdgeWrite V) (rel : List ℕ) (o : Option (List (GraphNodeRecord V)))
      (edges : List (Edge V))
      → viewed (flushed w rel o edges) ≡ elim (map_rows o) [
        | none ↦ none
        | some nodes ↦ some (
            link_found w rel
              (find_edge w.source rel w.target edges)
              (record { nodes = nodes; edges = edges }))
      ]
  unfolding flushed
  flushed-view w rel none edges = refl
  flushed-view w rel (some rows) edges =
      ap some (sym (link_found-view w rel (find_edge w.source rel w.target edges) rows edges))

  -- Writing an edge fails exactly for a fresh loop, and otherwise gives the same reply, the same
  -- nodes and the same edges.
  pub upsert_edge-view :
      (canon : String → String) (now : Time) (w : EdgeWrite V) (t : GraphTables V)
      → viewed (Postgres.upsert_edge canon now w t)
        ≡ (if is_fresh_loop w (view t) then none else some (Graph.upsert_edge canon w (view t)))
  unfolding Graph.upsert_edge Postgres.upsert_edge
  upsert_edge-view canon now w t =
      let rows = t.node_rows in
      rw
        (
          flushed-view w (normalize_rel canon w.relationship)
              (flush_rows (ensure_node now w.source rows ++ ensure_node now w.target rows) rows)
              t.edge_rows,
          endpoints-view now w rows,
          is_some-view w.source rows,
        )
        (elim (Bool-cases (str_eq w.source w.target && not (is_some (find_row w.source rows)))) [
          | inl e ↦ rw e
          | inr e ↦ rw e
        ])
