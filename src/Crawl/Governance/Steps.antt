-- ===== src/Crawl/Governance/Steps.antt =====
-- services/crawl-service/crawl_service/governance.py: whatever an operator does, the tables change by
-- the changes of Changes alone.
use n_quark.Prelude.{
  ℕ, suc, ◌≡◌, refl, String, Bool, true, false, Option, none, some, List, [], ◌∷◌, arith,
  if◌then◌else◌, str_eq, if_ind,
}
use n_quark.Prelude.Time.{Time}
use n_quark.Graph.{Node, list_nodes}
use n_quark.Crawl.Governance.{
  GovernanceTables, GovernanceResult, done, refused, Network, GraphClient, Governed, CandidateReply,
  EntityType, node_exists, write_graph,
}
use n_quark.Crawl.Governance.Creation.{
  Normalizers, CreateInput, create_accept, checked_cid, is_generic, entity_cid, entity_type_of,
  create_entity, create_checked, describe,
}
use n_quark.Crawl.Governance.Artists.{
  ArtistReply, create_artist, create_artist_at, finish_artist, tallied, reconcile_graph_artists,
  reconcile_nodes, register_external_artist, node_name,
}
use n_quark.Crawl.Governance.Accept.{accept}
use n_quark.Crawl.Governance.Supersede.{unsupersede, find_supersession, unsupersede_found}
use n_quark.Crawl.Governance.Series.{SeriesPlan, correct_series, carry_out, plan_series}
use n_quark.Crawl.Governance.Commands.{
  Command, do_accept, do_reject, do_unresolve, do_reverse, do_create, do_create_artist,
  do_reconcile, do_supersede, do_unsupersede, do_series, step,
}
use n_quark.Crawl.Governance.Changes.{
  Change, same, registers, next, write_graph-tables, accept-Change, reverse_accept-Change,
  reject-Change, unresolve-Change, supersede_legacy-Change, unsupersede_commit-Change,
}

abbrev pub is_reversal : {V : Type 0} → Command V → Bool
is_reversal (do_reverse i) = true
is_reversal _ = false

module _ {V : Type 0} (n : Normalizers) (k : GraphClient V) where
  describe-tables :
      (net : Network) (i : CreateInput) (etype : EntityType) (cid : String) (now : Time)
      (r : GovernanceResult CandidateReply) (w : Governed V)
      → (describe n k net i etype cid now (r, w)).1.tables ≡ w.tables
  unfolding describe write_graph
  describe-tables net i etype cid now (refused e) w = refl
  describe-tables net i etype cid now (done r) w = ground arith

  create_checked-Change :
      (net : Network) (i : CreateInput) (now : Time) (r : GovernanceResult (EntityType × String))
      (w : Governed V)
      → Change false w.tables (create_checked n k net i now r w).1.tables
  unfolding create_checked
  create_checked-Change net i now (refused e) w = same
  create_checked-Change net i now (done (etype, cid)) w =
      let a = accept k net (create_accept i cid) now w in
      rw (describe-tables net i etype cid now a.0 a.1)
        (accept-Change k net (create_accept i cid) now w)

  finish_artist-Change :
      (net : Network) (id name : String) (source : Option String) (p : Option V) (cid : String)
      (now : Time) (found : Bool) (o : Option (Bool × GovernanceTables)) (w : Governed V)
      → register_external_artist n id cid name now w.tables ≡ o
      → Change false w.tables (finish_artist n k net name source p cid now found o w).1.tables
  unfolding finish_artist
  finish_artist-Change net id name source p cid now found none w h = same
  finish_artist-Change net id name source p cid now found (some (added, t)) w h =
      if_ind (λ (r : GovernanceResult ArtistReply × Governed V). Change false w.tables r.1.tables)
        found (λ _. registers n id cid name now added h)
        (λ _. rw (write_graph-tables k net now _ _ _ _) (registers n id cid name now added h))

  create_artist_at-Change :
      (net : Network) (id name : String) (source : Option String) (p : Option V) (cid : String)
      (now : Time) (r : GovernanceResult (Bool × Option String)) (w : Governed V)
      → Change false w.tables (create_artist_at n k net id name source p cid now r w).1.tables
  unfolding create_artist_at
  create_artist_at-Change net id name source p cid now (refused e) w = same
  create_artist_at-Change net id name source p cid now (done (found, type)) w =
      let made = register_external_artist n id cid name now w.tables in
      finish_artist-Change net id name source p cid now found made w refl

  create_artist-Change :
      (net : Network) (id name : String) (source : Option String) (p : Option V) (now : Time)
      (w : Governed V)
      → Change false w.tables (create_artist n k net id name source p now w).1.tables
  unfolding create_artist
  create_artist-Change net id name source p now w =
      let P : GovernanceResult ArtistReply × Governed V → Type 0 =
        λ r. Change false w.tables r.1.tables in
      let cid = entity_cid n "artist" (n.spaced (n.slug name)) none in
      if_ind P (str_eq (n.slug name) "") (λ _. same)
        λ _.
          if_ind P (is_generic (n.base name)) (λ _. same)
            λ _.
              create_artist_at-Change net id name source p cid now (node_exists net cid w.graph) w

  tallied-Change :
      (later : ℕ × ℕ → GovernanceTables → GovernanceResult (ℕ × ℕ) × GovernanceTables)
      (id cid name : String) (now : Time) (counts : ℕ × ℕ) (t : GovernanceTables)
      (o : Option (Bool × GovernanceTables))
      → ((counts' : ℕ × ℕ) (u : GovernanceTables) → Change false u (later counts' u).1)
      → register_external_artist n id cid name now t ≡ o
      → Change false t (tallied n k later counts t o).1
  tallied-Change later id cid name now counts t none keep h = same
  tallied-Change later id cid name now (a, b) t (some (added, t')) keep h =
      next (registers n id cid name now added h) (keep (suc a, if added then suc b else b) t')

  reconcile_nodes-Change :
      (uuid : ℕ → String) (now : Time) (nodes : List (Node V)) (counts : ℕ × ℕ)
      (t : GovernanceTables)
      → Change false t (reconcile_nodes n k uuid now nodes counts t).1
  unfolding reconcile_nodes
  reconcile_nodes-Change uuid now [] counts t = same
  reconcile_nodes-Change uuid now (node ∷ rest) counts t =
      if_ind (λ (r : GovernanceResult (ℕ × ℕ) × GovernanceTables). Change false t r.1)
        (str_eq node.id "") (λ _. reconcile_nodes-Change uuid now rest counts t)
        (λ _.
          tallied-Change (reconcile_nodes n k uuid now rest) (uuid counts.0) node.id
            (node_name n k node) now counts t _
            (λ counts' u. reconcile_nodes-Change uuid now rest counts' u) refl)

  reconcile-Change :
      (net : Network) (uuid : ℕ → String) (limit : ℕ) (now : Time) (w : Governed V)
      → Change false w.tables (reconcile_graph_artists n k net uuid limit now w).1.tables
  unfolding reconcile_graph_artists
  reconcile-Change net uuid limit now w =
      if_ind
        (λ (r : Option (GovernanceResult (ℕ × ℕ)) × Governed V). Change false w.tables r.1.tables)
        net.reads
        (λ _.
          reconcile_nodes-Change uuid now (list_nodes (some "artist") limit w.graph) (0, 0)
            w.tables)
        (λ _. same)

  carry_out-Change :
      (net : Network) (now : Time) (r : GovernanceResult (SeriesPlan V)) (w : Governed V)
      → Change false w.tables (carry_out n k net now r w).1.tables
  unfolding carry_out
  carry_out-Change net now (refused e) w = same
  carry_out-Change net now (done p) w = rw (write_graph-tables k net now p.nodes p.edges p w) same

  pub step-Change :
      (net : Network) (now : Time) (c : Command V) (w : Governed V)
      → Change (is_reversal c) w.tables (step n k net now c w).tables
  unfolding step create_entity correct_series unsupersede
  step-Change net now (do_accept i) w = accept-Change k net i now w
  step-Change net now (do_reject id reason expected) w = reject-Change k id reason expected now w
  step-Change net now (do_unresolve id reason) w = unresolve-Change k id reason now w
  step-Change net now (do_reverse i) w = reverse_accept-Change k net i now w
  step-Change net now (do_create i) w =
      create_checked-Change net i now (checked_cid n i (entity_type_of i.entity_type)) w
  step-Change net now (do_create_artist id name source p) w =
      create_artist-Change net id name source p now w
  step-Change net now (do_reconcile uuid limit) w = reconcile-Change net uuid limit now w
  step-Change net now (do_supersede i) w = supersede_legacy-Change k net i now w
  step-Change net now (do_unsupersede legacy) w =
      let rows = w.tables.supersessions in
      let found = unsupersede_found now (find_supersession legacy rows) rows in
      unsupersede_commit-Change k net legacy now found w refl
  step-Change net now (do_series i) w = carry_out-Change net now (plan_series n k net i w) w
