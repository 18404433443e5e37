-- ===== src/Graph.antt =====
-- services/graph-service/graph_service/store.py: the in-memory graph store, with the batch route of
-- routes/graph.py. Graph/Postgres is the store on the two tables of models.py.
pub mod Tokens
pub mod Postgres
pub mod Unique
pub mod Links
pub mod Batches
pub mod Mirrors
pub mod Runs
pub mod Reads
mod Examples
use n_quark.Prelude.{
  ℕ, zero, suc, String, Bool, true, false, not, ◌&&◌, ◌||◌, Option, none, some, List, [], ◌∷◌, ◌++◌,
  if◌then◌else◌, length, str_eq, same_codes, opt_str_eq, is_some,
}
use n_quark.Prelude.Time.{Time}
use n_quark.Graph.Tokens.{normalize_rel}

-- A dict in its order of insertion. `V` stands for the JSON values.
abbrev pub Properties : Type 0 → Type 0
Properties V = List (String × V)

pub record Node (V : Type 0) : Type 0 where
  pub id : String
  pub type : String
  pub properties : Properties V

-- An edge as a caller writes it.
pub record EdgeWrite (V : Type 0) : Type 0 where
  pub source : String
  pub relationship : String
  pub target : String
  pub properties : Properties V

-- A stored edge: its relationship is a token, by its code points.
pub record Edge (V : Type 0) : Type 0 where
  pub source : String
  pub relationship : List ℕ
  pub target : String
  pub properties : Properties V

pub data Direction : Type 0 where
  out incoming both : Direction

pub record Neighbor (V : Type 0) : Type 0 where
  pub relationship : List ℕ
  pub direction : Direction
  pub node : Node V

-- The two containers of InMemoryGraphStore.
pub record GraphStore (V : Type 0) : Type 0 where
  pub nodes : List (Node V)
  pub edges : List (Edge V)

abbrev pub wants_out : Direction → Bool
wants_out incoming = false
wants_out _ = true

abbrev pub wants_in : Direction → Bool
wants_in out = false
wants_in _ = true

-- `relationship is None or edge.relationship == rel`
abbrev pub rel_matches : Option (List ℕ) → List ℕ → Bool
rel_matches none r = true
rel_matches (some rel) r = same_codes r rel

abbrev pub type_matches : Option String → String → Bool
type_matches none t = true
type_matches (some wanted) t = str_eq t wanted

abbrev pub is_unknown : String → Bool
is_unknown type = str_eq type "" || str_eq type "unknown"

abbrev pub type_or_unknown : String → String
type_or_unknown type = if str_eq type "" then "unknown" else type

-- `normalize_rel(relationship) if relationship else None`
abbrev pub rel_filter : (String → String) → Option String → Option (List ℕ)
rel_filter canon none = none
rel_filter canon (some r) = if str_eq r "" then none else some (normalize_rel canon r)

module _ {V : Type 0} where
  -- `d[key] = v`
  unfoldable pub set_property : String → V → Properties V → Properties V
  set_property key v [] = (key, v) ∷ []
  set_property key v ((k, w) ∷ rest) =
      let later = (k, w) ∷ set_property key v rest in if str_eq k key then (k, v) ∷ rest else later

  -- `d.update(new)`
  unfoldable pub update : Properties V → Properties V → Properties V
  unfolding set_property
  update d [] = d
  update d ((k, v) ∷ new) = update (set_property k v d) new

  unfoldable pub find_node : String → List (Node V) → Option (Node V)
  find_node id [] = none
  find_node id (n ∷ rest) = if str_eq n.id id then some n else find_node id rest

  -- The node under the key changes in place.
  unfoldable pub put_node : Node V → List (Node V) → List (Node V)
  put_node n [] = []
  put_node n (x ∷ rest) =
      let later = x ∷ put_node n rest in if str_eq x.id n.id then n ∷ rest else later

  abbrev pub thin : String → Node V
  thin id = record { id = id; type = "unknown"; properties = [] }

  unfoldable pub merged_node : (Time → V) → Time → Node V → Node V → Node V
  merged_node iso now old n = record old {
    type = if is_unknown n.type then old.type else n.type;
    properties = set_property "updated_at" (iso now) (update old.properties n.properties);
  }

  unfoldable pub created_node : (Time → V) → Time → Node V → Node V
  created_node iso now n = record n {
    type = type_or_unknown n.type;
    properties = set_property "updated_at" (iso now) n.properties;
  }

  unfoldable pub upsert_found :
      (Time → V) → Time → Node V → Option (Node V) → GraphStore V → Node V × GraphStore V
  unfolding merged_node created_node put_node
  upsert_found iso now n (some old) s =
      let merged = merged_node iso now old n in
      (merged, record s { nodes = put_node merged s.nodes })
  upsert_found iso now n none s =
      let created = created_node iso now n in
      (created, record s { nodes = s.nodes ++ created ∷ [] })

  -- `iso` stands for `isoformat`.
  unfoldable pub upsert_node : (Time → V) → Time → Node V → GraphStore V → Node V × GraphStore V
  unfolding upsert_found find_node
  upsert_node iso now n s = upsert_found iso now n (find_node n.id s.nodes) s

  -- `self._nodes.setdefault(id, Node(id))`
  unfoldable pub set_default : String → List (Node V) → List (Node V)
  unfolding find_node
  set_default id nodes = if is_some (find_node id nodes) then nodes else nodes ++ thin id ∷ []

  abbrev pub is_edge : String → List ℕ → String → Edge V → Bool
  is_edge source rel target e =
      str_eq e.source source && same_codes e.relationship rel && str_eq e.target target

  unfoldable pub find_edge : String → List ℕ → String → List (Edge V) → Option (Edge V)
  find_edge source rel target [] = none
  find_edge source rel target (e ∷ rest) =
      if is_edge source rel target e then some e else find_edge source rel target rest

  unfoldable pub put_edge : Edge V → List (Edge V) → List (Edge V)
  put_edge e [] = []
  put_edge e (x ∷ rest) =
      let later = x ∷ put_edge e rest in
      if is_edge e.source e.relationship e.target x then e ∷ rest else later

  unfoldable pub link_found :
      EdgeWrite V → List ℕ → Option (Edge V) → GraphStore V → Edge V × GraphStore V
  unfolding put_edge update
  link_found w rel (some old) s =
      let merged : Edge V = record old { properties = update old.properties w.properties } in
      (merged, record s { edges = put_edge merged s.edges })
  link_found w rel none s =
      let created : Edge V = record {
        source = w.source;
        relationship = rel;
        target = w.target;
        properties = w.properties;
      } in
      (created, record s { edges = s.edges ++ created ∷ [] })

  -- `canon` stands for `relationship.strip().upper()`.
  unfoldable pub upsert_edge :
      (String → String) → EdgeWrite V → GraphStore V → Edge V × GraphStore V
  unfolding link_found set_default find_edge
  upsert_edge canon w s =
      let rel = normalize_rel canon w.relationship in
      let nodes = set_default w.target (set_default w.source s.nodes) in
      link_found w rel (find_edge w.source rel w.target s.edges) (record s { nodes = nodes })

  unfoldable pub get_node : String → GraphStore V → Option (Node V)
  unfolding find_node
  get_node id s = find_node id s.nodes

  unfoldable pub of_type : Option String → List (Node V) → List (Node V)
  of_type wanted [] = []
  of_type wanted (n ∷ rest) =
      let later = of_type wanted rest in if type_matches wanted n.type then n ∷ later else later

  abbrev pub take : ℕ → List (Node V) → List (Node V)
  take zero nodes = []
  take (suc k) [] = []
  take (suc k) (n ∷ rest) = n ∷ take k rest

  unfoldable pub list_nodes : Option String → ℕ → GraphStore V → List (Node V)
  unfolding of_type
  list_nodes wanted limit s = take limit (of_type wanted s.nodes)

  -- The other end of an edge, if the store has it.
  abbrev pub neighbor_at : List ℕ → Direction → Option (Node V) → List (Neighbor V)
  neighbor_at rel d none = []
  neighbor_at rel d (some n) = record { relationship = rel; direction = d; node = n } ∷ []

  unfoldable pub out_of : List (Node V) → String → Direction → Edge V → List (Neighbor V)
  unfolding find_node
  out_of nodes id d e =
      if wants_out d && str_eq e.source id
      then neighbor_at e.relationship out (find_node e.target nodes)
      else []

  unfoldable pub into : List (Node V) → String → Direction → Edge V → List (Neighbor V)
  unfolding find_node
  into nodes id d e =
      if wants_in d && str_eq e.target id
      then neighbor_at e.relationship incoming (find_node e.source nodes)
      else []

  unfoldable pub neighbors_over :
      List (Node V) → String → Direction → Option (List ℕ) → List (Edge V) → List (Neighbor V)
  unfolding out_of into
  neighbors_over nodes id d rel [] = []
  neighbors_over nodes id d rel (e ∷ rest) =
      let later = neighbors_over nodes id d rel rest in
      if rel_matches rel e.relationship
      then out_of nodes id d e ++ (into nodes id d e ++ later)
      else later

  unfoldable pub neighbors :
      (String → String) → String → Direction → Option String → GraphStore V → List (Neighbor V)
  unfolding neighbors_over
  neighbors canon id d relationship s =
      neighbors_over s.nodes id d (rel_filter canon relationship) s.edges

  -- How many nodes, how many edges.
  unfoldable pub stats : GraphStore V → ℕ × ℕ
  stats s = (length s.nodes, length s.edges)

  unfoldable pub upsert_nodes : (Time → V) → Time → List (Node V) → GraphStore V → GraphStore V
  unfolding upsert_node
  upsert_nodes iso now [] s = s
  upsert_nodes iso now (n ∷ rest) s = upsert_nodes iso now rest (upsert_node iso now n s).1

  unfoldable pub upsert_edges : (String → String) → List (EdgeWrite V) → GraphStore V → GraphStore V
  unfolding upsert_edge
  upsert_edges canon [] s = s
  upsert_edges canon (w ∷ rest) s = upsert_edges canon rest (upsert_edge canon w s).1

  -- The batch route: nodes first.
  unfoldable pub upsert_batch :
      (Time → V)
      → (String → String)
      → Time
      → List (Node V)
      → List (EdgeWrite V)
      → GraphStore V
      → GraphStore V
  unfolding upsert_nodes upsert_edges
  upsert_batch iso canon now nodes edges s = upsert_edges canon edges (upsert_nodes iso now nodes s)
