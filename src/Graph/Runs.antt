-- ===== src/Graph/Runs.antt =====
-- store.py: the two stores over any sequence of writes.
use n_quark.Prelude.{◌≡◌, refl, String, false, Option, none, some, List, [], ◌∷◌, arith, str_eq}
use n_quark.Prelude.Time.{Time}
use n_quark.Graph.{Node, EdgeWrite, Edge, GraphStore}
use n_quark.Graph
use n_quark.Graph.Postgres.{GraphTables}
use n_quark.Graph.Postgres
use n_quark.Graph.Mirrors.{view, viewed, upsert_node-view, upsert_edge-view}

-- A write and its instant.
pub data Write (V : Type 0) : Type 0 where
  of_node : Time → Node V → Write V
  of_edge : Time → EdgeWrite V → Write V

module _ {V : Type 0} where
  -- The in-memory store over a sequence of writes.
  unfoldable pub run : (Time → V) → (String → String) → List (Write V) → GraphStore V → GraphStore V
  run iso canon [] s = s
  run iso canon (of_node now n ∷ ws) s = run iso canon ws (Graph.upsert_node iso now n s).1
  run iso canon (of_edge now w ∷ ws) s = run iso canon ws (Graph.upsert_edge canon w s).1

  abbrev then_run :
      (GraphTables V → Option (GraphTables V))
      → Option (Edge V × GraphTables V)
      → Option (GraphTables V)
  then_run later none = none
  then_run later (some (e, t)) = later t

  -- The store on the tables: an error stops the sequence.
  unfoldable pub run_tables :
      (Time → V) → (String → String) → List (Write V) → GraphTables V → Option (GraphTables V)
  run_tables iso canon [] t = some t
  run_tables iso canon (of_node now n ∷ ws) t =
      run_tables iso canon ws (Postgres.upsert_node iso now n t).1
  run_tables iso canon (of_edge now w ∷ ws) t =
      then_run (run_tables iso canon ws) (Postgres.upsert_edge canon now w t)

  -- No write links a node to itself.
  abbrev IsLoopFree : List (Write V) → Type 0
  IsLoopFree [] = Unit
  IsLoopFree (of_node now n ∷ ws) = IsLoopFree ws
  IsLoopFree (of_edge now w ∷ ws) = (str_eq w.source w.target ≡ false) × IsLoopFree ws

  abbrev pub viewed_tables : Option (GraphTables V) → Option (GraphStore V)
  viewed_tables none = none
  viewed_tables (some t) = some (view t)

  then_run-view :
      (later : GraphTables V → Option (GraphTables V)) (f : GraphStore V → GraphStore V)
      → ((t : GraphTables V) → viewed_tables (later t) ≡ some (f (view t)))
      → (o : Option (Edge V × GraphTables V)) (made : Edge V × GraphStore V) → viewed o ≡ some made
      → viewed_tables (then_run later o) ≡ some (f made.1)
  then_run-view later f keep none made h = cc
  then_run-view later f keep (some (e, t)) made h = ground (arith, keep t, h)

  -- From tables whatever they hold, a sequence of writes of nodes and edges, without an edge from a
  -- node to itself, never fails on the tables, and they then hold what the in-memory store holds
  -- after the same writes: the same nodes with the same types and properties, and the same edges.
  pub run-mirrors :
      (iso : Time → V) (canon : String → String) (ws : List (Write V)) (t : GraphTables V)
      → IsLoopFree ws
      → viewed_tables (run_tables iso canon ws t) ≡ some (run iso canon ws (view t))
  unfolding run run_tables
  run-mirrors iso canon [] t h = refl
  run-mirrors iso canon (of_node now n ∷ ws) t h =
      rw (upsert_node-view iso now n t)
        (run-mirrors iso canon ws (Postgres.upsert_node iso now n t).1 h)
  run-mirrors iso canon (of_edge now w ∷ ws) t h =
      let made : viewed (Postgres.upsert_edge canon now w t)
          ≡ some (Graph.upsert_edge canon w (view t)) =
        rw (h.0) at (upsert_edge-view canon now w t) in
      then_run-view (run_tables iso canon ws) (λ s. run iso canon ws s)
        (λ t'. run-mirrors iso canon ws t' h.1) (Postgres.upsert_edge canon now w t)
        (Graph.upsert_edge canon w (view t)) made
