-- ===== src/Graph/Reads.antt =====
-- store.py: what a reader sees of the two stores.
use mathlib.Core.List.{Perm, perm_append_comm, append_assoc}
use mathlib.Core.List.Perm as P
use n_quark.Prelude.{
  ℕ, zero, suc, ◌≤◌, ◌≡◌, refl, ap, String, Bool, Option, List, [], ◌∷◌, ◌++◌, map, arith,
  if◌then◌else◌, length, Bool-cases, inl, inr,
}
use n_quark.Graph.{
  Node, Edge, GraphStore, Direction, Neighbor, out, incoming, both, find_node, rel_matches,
  type_matches, of_type, neighbor_at, neighbors_over, out_of, into, wants_out, wants_in, take,
  rel_filter,
}
use n_quark.Graph
use n_quark.Graph.Postgres.{
  GraphNodeRecord, GraphTables, to_node, found_node, find_row, out_rows, in_rows, insert_by_id,
  rows_of_type,
}
use n_quark.Graph.Postgres
use n_quark.Graph.Mirrors.{view, find_node-view}

module _ {V : Type 0} where
  -- Two lists that are taken together, piece by piece, or one after the other.
  zipped-perm :
      (a b outs ins later : List (Neighbor V))
      → Perm later (outs ++ ins)
      → Perm (a ++ (b ++ later)) ((a ++ outs) ++ (b ++ ins))
  zipped-perm a b outs ins later p =
      let moved : Perm (b ++ (outs ++ ins)) (outs ++ (b ++ ins)) =
        rw (← (append_assoc b outs ins), ← (append_assoc outs b ins))
          (P.append_right ins (perm_append_comm b outs)) in
      rw (append_assoc a outs (b ++ ins)) (P.append_left a (P.trans (P.append_left b p) moved))

  outs_of : GraphTables V → String → Direction → Option (List ℕ) → List (Edge V) → List (Neighbor V)
  outs_of t id d rel edges = if wants_out d then out_rows t.node_rows id rel edges else []

  ins_of : GraphTables V → String → Direction → Option (List ℕ) → List (Edge V) → List (Neighbor V)
  ins_of t id d rel edges = if wants_in d then in_rows t.node_rows id rel edges else []

  outs_of-step :
      (t : GraphTables V) (id : String) (d : Direction) (rel : Option (List ℕ)) (e : Edge V)
      (rest : List (Edge V))
      → outs_of t id d rel (e ∷ rest)
        ≡ (if rel_matches rel e.relationship then out_of (view t).nodes id d e else [])
          ++ outs_of t id d rel rest
  unfolding outs_of out_rows out_of
  outs_of-step t id d rel e rest = ground (arith, find_node-view e.target t.node_rows)

  ins_of-step :
      (t : GraphTables V) (id : String) (d : Direction) (rel : Option (List ℕ)) (e : Edge V)
      (rest : List (Edge V))
      → ins_of t id d rel (e ∷ rest)
        ≡ (if rel_matches rel e.relationship then into (view t).nodes id d e else [])
          ++ ins_of t id d rel rest
  unfolding ins_of in_rows into
  ins_of-step t id d rel e rest = ground (arith, find_node-view e.source t.node_rows)

  outs_of_nil :
      (t : GraphTables V) (id : String) (d : Direction) (rel : Option (List ℕ))
      → outs_of t id d rel [] ≡ []
  unfolding outs_of out_rows
  outs_of_nil t id d rel = ground arith

  ins_of_nil :
      (t : GraphTables V) (id : String) (d : Direction) (rel : Option (List ℕ))
      → ins_of t id d rel [] ≡ []
  unfolding ins_of in_rows
  ins_of_nil t id d rel = ground arith

  neighbors_over-perm :
      (t : GraphTables V) (id : String) (d : Direction) (rel : Option (List ℕ))
      (edges : List (Edge V))
      → Perm
          (neighbors_over (view t).nodes id d rel edges)
          (outs_of t id d rel edges ++ ins_of t id d rel edges)
  unfolding neighbors_over
  neighbors_over-perm t id d rel [] = rw (outs_of_nil t id d rel, ins_of_nil t id d rel) (P.refl [])
  neighbors_over-perm t id d rel (e ∷ rest) =
      rw (outs_of-step t id d rel e rest, ins_of-step t id d rel e rest)
        (elim (Bool-cases (rel_matches rel e.relationship)) [
          | inl m ↦ rw m (
              zipped-perm (out_of (view t).nodes id d e) (into (view t).nodes id d e)
                (outs_of t id d rel rest) (ins_of t id d rel rest)
                (neighbors_over (view t).nodes id d rel rest) (neighbors_over-perm t id d rel rest))
          | inr m ↦ rw m (neighbors_over-perm t id d rel rest)
        ])

  insert_by_id-perm :
      (before : String → String → Bool) (n : Node V) (nodes : List (Node V))
      → Perm (n ∷ nodes) (insert_by_id before n nodes)
  unfolding insert_by_id
  insert_by_id-perm before n [] = P.refl (n ∷ [])
  insert_by_id-perm before n (x ∷ rest) = elim (Bool-cases (before n.id x.id)) [
    | inl b ↦ rw b (P.refl (n ∷ x ∷ rest))
    | inr b ↦ rw b (P.trans (P.swap x n rest) (P.cons x (insert_by_id-perm before n rest)))
  ]

  rows_of_type-perm :
      (before : String → String → Bool) (wanted : Option String) (rows : List (GraphNodeRecord V))
      → Perm (of_type wanted (map to_node rows)) (rows_of_type before wanted rows)
  unfolding of_type rows_of_type
  rows_of_type-perm before wanted [] = P.refl []
  rows_of_type-perm before wanted (r ∷ rest) = elim (Bool-cases (type_matches wanted r.type)) [
    | inl m ↦ rw m (
        P.trans (P.cons (to_node r) (rows_of_type-perm before wanted rest))
          (insert_by_id-perm before (to_node r) (rows_of_type before wanted rest)))
    | inr m ↦ rw m (rows_of_type-perm before wanted rest)
  ]

  take_all : (limit : ℕ) (nodes : List (Node V)) → length nodes ≤ limit → take limit nodes ≡ nodes
  take_all zero [] h = refl
  take_all zero (n ∷ rest) h = absurd (omega arith)
  take_all (suc k) [] h = refl
  take_all (suc k) (n ∷ rest) h = ap (λ l. n ∷ l) (take_all k rest (omega arith))

  length-map : (rows : List (GraphNodeRecord V)) → length (map to_node rows) ≡ length rows
  length-map [] = refl
  length-map (r ∷ rest) = ap suc (length-map rest)

  length-of_type :
      (wanted : Option String) (rows : List (GraphNodeRecord V))
      → length (of_type wanted (map to_node rows)) ≤ length rows
  unfolding of_type
  length-of_type wanted [] = omega arith
  length-of_type wanted (r ∷ rest) = ground (arith, length-of_type wanted rest)

  length-insert_ordered :
      (before : String → String → Bool) (n : Node V) (nodes : List (Node V))
      → length (insert_by_id before n nodes) ≡ suc (length nodes)
  unfolding insert_by_id
  length-insert_ordered before n [] = refl
  length-insert_ordered before n (x ∷ rest) = ground (arith, length-insert_ordered before n rest)

  length-rows_of_type :
      (before : String → String → Bool) (wanted : Option String) (rows : List (GraphNodeRecord V))
      → length (rows_of_type before wanted rows) ≤ length rows
  unfolding rows_of_type
  length-rows_of_type before wanted [] = omega arith
  length-rows_of_type before wanted (r ∷ rest) = ground (
    arith,
    length-rows_of_type before wanted rest,
    length-insert_ordered before (to_node r) (rows_of_type before wanted rest),
  )

  -- What the two stores answer to the same question.
  pub record AnswersAlike (canon : String → String) (before : String → String → Bool)
      (t : GraphTables V) : Type 0 where
    pub node_alike : (id : String) → Graph.get_node id (view t) ≡ Postgres.get_node id t
    pub stats_alike : Graph.stats (view t) ≡ Postgres.stats t
    pub neighbors_alike :
        (id : String) (d : Direction) (relationship : Option String)
        → Perm
            (Graph.neighbors canon id d relationship (view t))
            (Postgres.neighbors canon id d relationship t)
    pub list_alike :
        (wanted : Option String) (limit : ℕ)
        → length t.node_rows ≤ limit
        → Perm (Graph.list_nodes wanted limit (view t)) (Postgres.list_nodes before wanted limit t)

  -- A reader of the tables is answered as by the in-memory store that holds the same: the same node
  -- for an id, the same counts, the same neighbours in each direction and of each relationship up to
  -- their order, and, where the limit covers the table, the same nodes of a type up to their order,
  -- whatever order the database gives to the ids.
  pub view-AnswersAlike :
      (canon : String → String) (before : String → String → Bool) (t : GraphTables V)
      → AnswersAlike canon before t
  unfolding Graph.get_node Postgres.get_node Graph.stats Postgres.stats Graph.neighbors
      Postgres.neighbors Graph.list_nodes Postgres.list_nodes outs_of ins_of
  view-AnswersAlike canon before t = record {
    node_alike = λ id. find_node-view id t.node_rows;
    stats_alike = rw (length-map t.node_rows);
    neighbors_alike =
        λ id d relationship. neighbors_over-perm t id d (rel_filter canon relationship) t.edge_rows;
    list_alike = λ wanted limit h.
        rw
          (
            take_all limit (of_type wanted (map to_node t.node_rows))
                (omega (arith, length-of_type wanted t.node_rows)),
            take_all limit (rows_of_type before wanted t.node_rows)
                (omega (arith, length-rows_of_type before wanted t.node_rows)),
          )
          (rows_of_type-perm before wanted t.node_rows);
  }
