-- ===== src/Graph/Examples.antt =====
-- A venue and an artist of an event, written to both stores.
use n_quark.Prelude.{
  ℕ, ◌≡◌, refl, String, Bool, true, none, some, List, [], ◌∷◌, codes, if◌then◌else◌,
}
use n_quark.Graph.{Node, EdgeWrite, Edge, GraphStore, Direction, out, both, find_node, find_edge}
use n_quark.Graph
use n_quark.Graph.Tokens.{IsToken, normalize_rel, normalize_rel-IsToken}
use n_quark.Graph.Postgres.{GraphNodeRecord, GraphTables}
use n_quark.Graph.Postgres
use n_quark.Graph.Mirrors.{view, viewed, is_fresh_loop, upsert_edge-view}
use n_quark.Graph.Runs.{Write, of_node, of_edge, run, run_tables, run-mirrors, viewed_tables}
use n_quark.Graph.Links.{IsGraph, run-IsGraph}
use n_quark.Graph.Reads.{AnswersAlike, view-AnswersAlike}

abbrev iso : ℕ → String
iso t = "2026-01-01"

abbrev canon : String → String
canon r = r

abbrev before : String → String → Bool
before a b = true

abbrev club : Node String
club = record { id = "venue:club"; type = "venue"; properties = ("city", "Pune") ∷ [] }

abbrev hosts : EdgeWrite String
hosts = record {
  source = "event:gig";
  relationship = "OCCURS AT ";
  target = "venue:club";
  properties = [];
}

abbrev loop_at : EdgeWrite String
loop_at = record hosts { target = "event:gig" }

abbrev writes : List (Write String)
writes = of_node 5 club ∷ of_edge 6 hosts ∷ of_node 7 club ∷ of_edge 8 hosts ∷ []

abbrev empty : GraphTables String
empty = record { node_rows = []; edge_rows = [] }

normalize_rel_spaces : normalize_rel canon "OCCURS AT " ≡ codes "OCCURS_AT"
unfolding normalize_rel
normalize_rel_spaces = refl

normalize_rel-IsToken_example : IsToken (normalize_rel canon "OCCURS AT ")
normalize_rel-IsToken_example = normalize_rel-IsToken canon "OCCURS AT "

stats_after : Graph.stats (run iso canon writes (view empty)) ≡ (2, 1)
unfolding run Graph.stats Graph.upsert_node Graph.upsert_edge normalize_rel
stats_after = refl

run-mirrors_example :
    viewed_tables (run_tables iso canon writes empty) ≡ some (run iso canon writes (view empty))
run-mirrors_example = run-mirrors iso canon writes empty (refl, (refl, tt))

empty-IsGraph : IsGraph (view empty)
empty-IsGraph = record { ids = tt; triples = tt; links = tt }

run-IsGraph_example : IsGraph (run iso canon writes (view empty))
run-IsGraph_example = run-IsGraph iso canon writes (view empty) empty-IsGraph

-- A loop at an unknown node, which the in-memory store takes, is an error on the tables.
upsert_edge_loop : Postgres.upsert_edge canon 5 loop_at empty ≡ none
unfolding Postgres.upsert_edge
upsert_edge_loop = refl

upsert_edge-view_example : viewed (Postgres.upsert_edge canon 5 loop_at empty) ≡ (
    if is_fresh_loop loop_at (view empty)
    then none
    else some (Graph.upsert_edge canon loop_at (view empty)))
upsert_edge-view_example = upsert_edge-view canon 5 loop_at empty

abbrev one_club : GraphTables String
one_club = record {
  node_rows = record { id = "venue:club"; type = "venue"; properties = []; updated_at = 5 } ∷ [];
  edge_rows = [];
}

view-AnswersAlike_example : AnswersAlike canon before one_club
view-AnswersAlike_example = view-AnswersAlike canon before one_club
