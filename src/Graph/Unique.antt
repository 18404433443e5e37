-- ===== src/Graph/Unique.antt =====
-- store.py: no two nodes have one id and no two edges one triple, through each change of a list.
use n_quark.Prelude.{
  ℕ, ◌≡◌, refl, String, Bool, true, false, some, List, [], ◌∷◌, ◌++◌, arith, if◌then◌else◌, str_eq,
  same_codes, is_some, eq_iff, Every,
}
use n_quark.Graph.{Node, Edge, find_node, put_node, find_edge, put_edge, is_edge}

same_codes_eq : (as' bs : List ℕ) → same_codes as' bs ≡ true → as' ≡ bs
same_codes_eq [] [] h = refl
same_codes_eq [] (b ∷ bs) h = cc
same_codes_eq (a ∷ as') [] h = cc
same_codes_eq (a ∷ as') (b ∷ bs) h = ground (arith, same_codes_eq as' bs)

pub same_codes_refl : (as' : List ℕ) → same_codes as' as' ≡ true
same_codes_refl [] = refl
same_codes_refl (a ∷ as') = ground (arith, same_codes_refl as')

module _ {V : Type 0} where
  abbrev pub has_node : List (Node V) → String → Bool
  has_node nodes id = is_some (find_node id nodes)

  -- No two nodes have one id.
  abbrev pub UniqueIds : List (Node V) → Type 0
  UniqueIds [] = Unit
  UniqueIds (n ∷ rest) = (has_node rest n.id ≡ false) × UniqueIds rest

  -- No two edges have one source, relationship and target.
  abbrev pub UniqueTriples : List (Edge V) → Type 0
  UniqueTriples [] = Unit
  UniqueTriples (e ∷ rest) =
      (is_some (find_edge e.source e.relationship e.target rest) ≡ false) × UniqueTriples rest

  pub has_node-append :
      (id : String) (nodes : List (Node V)) (n : Node V)
      → has_node (nodes ++ n ∷ []) id ≡ (if has_node nodes id then true else str_eq n.id id)
  unfolding find_node
  has_node-append id [] n = ground arith
  has_node-append id (x ∷ rest) n = ground (arith, has_node-append id rest n)

  pub has_node-put :
      (id : String) (n : Node V) (nodes : List (Node V))
      → has_node (put_node n nodes) id ≡ has_node nodes id
  unfolding find_node put_node
  has_node-put id n [] = refl
  has_node-put id n (x ∷ rest) = ground (arith, has_node-put id n rest, eq_iff x.id n.id)

  pub UniqueIds-append :
      (nodes : List (Node V)) (n : Node V)
      → UniqueIds nodes
      → has_node nodes n.id ≡ false
      → UniqueIds (nodes ++ n ∷ [])
  unfolding find_node
  UniqueIds-append [] n u h = (refl, tt)
  UniqueIds-append (x ∷ rest) n u h = ground (
    arith,
    UniqueIds-append rest n u.1,
    has_node-append x.id rest n,
    eq_iff x.id n.id,
    eq_iff n.id x.id,
  )

  pub UniqueIds-put :
      (n : Node V) (nodes : List (Node V)) → UniqueIds nodes → UniqueIds (put_node n nodes)
  unfolding put_node
  UniqueIds-put n [] u = tt
  UniqueIds-put n (x ∷ rest) u =
      ground (arith, UniqueIds-put n rest u.1, has_node-put x.id n rest, eq_iff x.id n.id)

  find_node_id :
      (id : String) (nodes : List (Node V)) (n : Node V) → find_node id nodes ≡ some n → n.id ≡ id
  unfolding find_node
  find_node_id id [] n h = cc
  find_node_id id (x ∷ rest) n h = ground (arith, find_node_id id rest n, eq_iff x.id id)

  is_edge_same :
      (source target : String) (rel : List ℕ) (e x : Edge V)
      → is_edge e.source e.relationship e.target x ≡ true
      → is_edge source rel target e ≡ is_edge source rel target x
  is_edge_same source target rel e x h = ground (
    arith,
    eq_iff x.source e.source,
    same_codes_eq x.relationship e.relationship,
    eq_iff x.target e.target,
  )

  abbrev pub has_edge : List (Edge V) → Edge V → Bool
  has_edge edges e = is_some (find_edge e.source e.relationship e.target edges)

  pub has_edge-append :
      (edges : List (Edge V)) (x e : Edge V)
      → has_edge (edges ++ e ∷ []) x
        ≡ (if has_edge edges x then true else is_edge x.source x.relationship x.target e)
  unfolding find_edge
  has_edge-append [] x e = ground arith
  has_edge-append (y ∷ rest) x e = ground (arith, has_edge-append rest x e)

  pub has_edge-put :
      (edges : List (Edge V)) (x e : Edge V) → has_edge (put_edge e edges) x ≡ has_edge edges x
  unfolding find_edge put_edge
  has_edge-put [] x e = refl
  has_edge-put (y ∷ rest) x e =
      ground (arith, has_edge-put rest x e, is_edge_same x.source x.target x.relationship e y)

  pub UniqueTriples-append :
      (edges : List (Edge V)) (e : Edge V)
      → UniqueTriples edges
      → has_edge edges e ≡ false
      → UniqueTriples (edges ++ e ∷ [])
  unfolding find_edge
  UniqueTriples-append [] e u h = (refl, tt)
  UniqueTriples-append (x ∷ rest) e u h = ground (
    arith,
    UniqueTriples-append rest e u.1,
    has_edge-append rest x e,
    is_edge_same e.source e.target e.relationship x e,
    eq_iff e.source e.source,
    eq_iff e.target e.target,
    same_codes_refl e.relationship,
  )

  pub UniqueTriples-put :
      (e : Edge V) (edges : List (Edge V)) → UniqueTriples edges → UniqueTriples (put_edge e edges)
  unfolding put_edge
  UniqueTriples-put e [] u = tt
  UniqueTriples-put e (x ∷ rest) u = ground (
    arith,
    UniqueTriples-put e rest u.1,
    has_edge-put rest x e,
    eq_iff x.source e.source,
    same_codes_eq x.relationship e.relationship,
    eq_iff x.target e.target,
  )

  pub Every-put :
      (P : Edge V → Type 0) (e : Edge V) (edges : List (Edge V))
      → P e
      → Every P edges
      → Every P (put_edge e edges)
  unfolding put_edge
  Every-put P e [] p h = tt
  Every-put P e (x ∷ rest) p h = ground (arith, Every-put P e rest p h.1)

  pub find_edge_key :
      (source target : String) (rel : List ℕ) (edges : List (Edge V)) (e : Edge V)
      → find_edge source rel target edges ≡ some e
      → (e.source ≡ source) × (e.relationship ≡ rel) × (e.target ≡ target)
  unfolding find_edge
  find_edge_key source target rel [] e h = cc
  find_edge_key source target rel (x ∷ rest) e h = ground (
    arith,
    find_edge_key source target rel rest e,
    eq_iff x.source source,
    same_codes_eq x.relationship rel,
    eq_iff x.target target,
  )
