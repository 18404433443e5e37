-- ===== src/Graph/Postgres.antt =====
-- services/graph-service/graph_service/store.py, PostgresGraphStore over the two tables of
-- models.py. A call is one transaction; `none` is the driver's IntegrityError, which commits nothing.
use n_quark.Prelude.{
  ℕ, String, Bool, ◌&&◌, Option, none, some, List, [], ◌∷◌, ◌++◌, if◌then◌else◌, length, str_eq,
  is_some,
}
use n_quark.Prelude.Time.{Time}
use n_quark.Graph.Tokens.{normalize_rel}
use n_quark.Graph.{
  Properties, Node, EdgeWrite, Edge, Direction, Neighbor, out, incoming, is_unknown,
  type_or_unknown, type_matches, rel_matches, rel_filter, wants_out, wants_in, find_edge, put_edge,
  set_property, update, neighbor_at, take,
}

pub record GraphNodeRecord (V : Type 0) : Type 0 where
  pub id : String
  pub type : String
  pub properties : Properties V
  pub updated_at : Time

-- GraphEdgeRecord has the fields of an edge; the triple is its primary key.
pub record GraphTables (V : Type 0) : Type 0 where
  pub node_rows : List (GraphNodeRecord V)
  pub edge_rows : List (Edge V)

module _ {V : Type 0} where
  -- `session.get(GraphNodeRecord, id)`
  unfoldable pub find_row : String → List (GraphNodeRecord V) → Option (GraphNodeRecord V)
  find_row id [] = none
  find_row id (r ∷ rest) = if str_eq r.id id then some r else find_row id rest

  unfoldable pub put_row : GraphNodeRecord V → List (GraphNodeRecord V) → List (GraphNodeRecord V)
  put_row r [] = []
  put_row r (x ∷ rest) =
      let later = x ∷ put_row r rest in if str_eq x.id r.id then r ∷ rest else later

  -- The flush of the rows that a session added: the id is the primary key.
  unfoldable pub flush_rows :
      List (GraphNodeRecord V) → List (GraphNodeRecord V) → Option (List (GraphNodeRecord V))
  unfolding find_row
  flush_rows [] rows = some rows
  flush_rows (r ∷ new) rows =
      let inserted = flush_rows new (rows ++ r ∷ []) in
      if is_some (find_row r.id rows) then none else inserted

  abbrev pub to_node : GraphNodeRecord V → Node V
  to_node r = record { id = r.id; type = r.type; properties = r.properties }

  unfoldable pub upsert_row :
      (Time → V)
      → Time
      → Node V
      → Option (GraphNodeRecord V)
      → GraphTables V
      → Node V × GraphTables V
  unfolding put_row update set_property
  upsert_row iso now n none t =
      let props = set_property "updated_at" (iso now) n.properties in
      let row : GraphNodeRecord V = record {
        id = n.id;
        type = type_or_unknown n.type;
        properties = props;
        updated_at = now;
      } in
      (
        record { id = n.id; type = type_or_unknown n.type; properties = props },
        record t { node_rows = t.node_rows ++ row ∷ [] },
      )
  upsert_row iso now n (some old) t =
      let row : GraphNodeRecord V = record {
        id = old.id;
        type = if is_unknown n.type then old.type else n.type;
        properties = set_property "updated_at" (iso now) (update old.properties n.properties);
        updated_at = now;
      } in
      (to_node row, record t { node_rows = put_row row t.node_rows })

  unfoldable pub upsert_node : (Time → V) → Time → Node V → GraphTables V → Node V × GraphTables V
  unfolding upsert_row find_row
  upsert_node iso now n t = upsert_row iso now n (find_row n.id t.node_rows) t

  -- `_ensure_node`: what the session adds. It reads the rows that were there before the call, since
  -- the session does not flush by itself.
  unfoldable pub ensure_node : Time → String → List (GraphNodeRecord V) → List (GraphNodeRecord V)
  unfolding find_row
  ensure_node now id rows =
      if is_some (find_row id rows)
      then []
      else record { id = id; type = "unknown"; properties = []; updated_at = now } ∷ []

  unfoldable pub upsert_edge_row :
      EdgeWrite V
      → List ℕ
      → Option (Edge V)
      → List (GraphNodeRecord V)
      → List (Edge V)
      → Edge V × GraphTables V
  unfolding put_edge update
  upsert_edge_row w rel none rows edges =
      let created : Edge V = record {
        source = w.source;
        relationship = rel;
        target = w.target;
        properties = w.properties;
      } in
      (created, record { node_rows = rows; edge_rows = edges ++ created ∷ [] })
  upsert_edge_row w rel (some old) rows edges =
      let merged : Edge V = record old { properties = update old.properties w.properties } in
      (merged, record { node_rows = rows; edge_rows = put_edge merged edges })

  unfoldable pub flushed :
      EdgeWrite V
      → List ℕ
      → Option (List (GraphNodeRecord V))
      → List (Edge V)
      → Option (Edge V × GraphTables V)
  unfolding upsert_edge_row find_edge
  flushed w rel none edges = none
  flushed w rel (some rows) edges =
      some (upsert_edge_row w rel (find_edge w.source rel w.target edges) rows edges)

  unfoldable pub upsert_edge :
      (String → String) → Time → EdgeWrite V → GraphTables V → Option (Edge V × GraphTables V)
  unfolding flushed flush_rows ensure_node
  upsert_edge canon now w t =
      let added = ensure_node now w.source t.node_rows ++ ensure_node now w.target t.node_rows in
      flushed w (normalize_rel canon w.relationship) (flush_rows added t.node_rows) t.edge_rows

  abbrev pub found_node : Option (GraphNodeRecord V) → Option (Node V)
  found_node none = none
  found_node (some r) = some (to_node r)

  unfoldable pub get_node : String → GraphTables V → Option (Node V)
  unfolding find_row
  get_node id t = found_node (find_row id t.node_rows)

  -- ORDER BY id: `before` stands for the order of the database's texts.
  unfoldable pub insert_by_id : (String → String → Bool) → Node V → List (Node V) → List (Node V)
  insert_by_id before n [] = n ∷ []
  insert_by_id before n (x ∷ rest) =
      let later = x ∷ insert_by_id before n rest in if before n.id x.id then n ∷ x ∷ rest else later

  unfoldable pub rows_of_type :
      (String → String → Bool) → Option String → List (GraphNodeRecord V) → List (Node V)
  unfolding insert_by_id
  rows_of_type before wanted [] = []
  rows_of_type before wanted (r ∷ rest) =
      let later = rows_of_type before wanted rest in
      if type_matches wanted r.type then insert_by_id before (to_node r) later else later

  unfoldable pub list_nodes :
      (String → String → Bool) → Option String → ℕ → GraphTables V → List (Node V)
  unfolding rows_of_type
  list_nodes before wanted limit t = take limit (rows_of_type before wanted t.node_rows)

  unfoldable pub out_rows :
      List (GraphNodeRecord V) → String → Option (List ℕ) → List (Edge V) → List (Neighbor V)
  unfolding find_row
  out_rows rows id rel [] = []
  out_rows rows id rel (e ∷ rest) =
      let later = out_rows rows id rel rest in
      if str_eq e.source id && rel_matches rel e.relationship
      then neighbor_at e.relationship out (found_node (find_row e.target rows)) ++ later
      else later

  unfoldable pub in_rows :
      List (GraphNodeRecord V) → String → Option (List ℕ) → List (Edge V) → List (Neighbor V)
  unfolding find_row
  in_rows rows id rel [] = []
  in_rows rows id rel (e ∷ rest) =
      let later = in_rows rows id rel rest in
      if str_eq e.target id && rel_matches rel e.relationship
      then neighbor_at e.relationship incoming (found_node (find_row e.source rows)) ++ later
      else later

  unfoldable pub neighbors :
      (String → String) → String → Direction → Option String → GraphTables V → List (Neighbor V)
  unfolding out_rows in_rows
  neighbors canon id d relationship t =
      let rel = rel_filter canon relationship in
      (if wants_out d then out_rows t.node_rows id rel t.edge_rows else [])
      ++ (if wants_in d then in_rows t.node_rows id rel t.edge_rows else [])

  unfoldable pub stats : GraphTables V → ℕ × ℕ
  stats t = (length t.node_rows, length t.edge_rows)
