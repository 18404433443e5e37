-- ===== src/Crawl/Governance/Published.antt =====
-- services/crawl-service/crawl_service/governance.py with the graph of graph-service: what an
-- acceptance that replied has put into the graph.
use n_quark.Prelude.{
  ◌≡◌, ap, subst, String, Bool, true, false, Option, none, arith, if◌then◌else◌, Bool-cases, inl,
  inr, ◌⊎◌, [], ◌∷◌, truthy, or_empty, is_some,
}
use n_quark.Prelude.Time.{Time}
use n_quark.Graph.{GraphStore, find_edge}
use n_quark.Graph.Tokens.{normalize_rel}
use n_quark.Graph.Batches.{HasLinks, upsert_batch-HasLinks}
use n_quark.Crawl.Governance.{
  EntityType, artist, venue, organizer, event_series, EntityResolutionCandidate, rel_of,
  GovernanceResult, done, refused, CandidateReply, Network, GraphClient, Governed, write_graph,
  node_exists, transacted,
}
use n_quark.Crawl.Governance.Accept.{
  AcceptInput, accept, accept_target, accept_tables, publish, accept_edges, accept_nodes,
  identifies, event_edge,
}

module _ {V : Type 0} (k : GraphClient V) where
  done_eq :
      {a b : CandidateReply} {v w : Governed V}
      → ◌≡◌ {A = GovernanceResult CandidateReply × Governed V} (done a, v) (done b, w)
      → (a ≡ b) × (v ≡ w)
  done_eq h = ground (arith, h)

  publish-HasLinks :
      (net : Network) (now : Time) (cid : String) (r : GovernanceResult CandidateReply)
      (w w' : Governed V) (reply : CandidateReply)
      → publish k net now cid (r, w) ≡ (done reply, w')
      → reply.idempotent ≡ false
      → HasLinks k.canon (accept_edges k cid reply.candidate) w'.graph
  unfolding publish write_graph accept_nodes
  publish-HasLinks net now cid (refused e) w w' reply h first = cc
  publish-HasLinks net now cid (done r) w w' reply h first = elim (Bool-cases r.idempotent) [
    | inl old ↦ cc (ap (λ (c : CandidateReply). c.idempotent) (done_eq (rw old at h)).0)
    | inr new ↦ elim (Bool-cases net.writes) [
      | inl up ↦
          let e = done_eq (rw (new, up) at h) in
          subst (λ c. HasLinks k.canon (accept_edges k cid c.candidate) w'.graph) (e.0)
            (subst (λ (v : Governed V). HasLinks k.canon (accept_edges k cid r.candidate) v.graph)
              (e.1)
              (upsert_batch-HasLinks k.iso k.canon now (accept_nodes k cid r.candidate)
                (accept_edges k cid r.candidate) w.graph))
      | inr down ↦ cc (rw (new, down) at h)
    ]
  ]

  target_links :
      (net : Network) (i : AcceptInput) (now : Time) (r : GovernanceResult (Bool × Option String))
      (w w' : Governed V) (reply : CandidateReply)
      → accept_target k net i now r w ≡ (done reply, w')
      → reply.idempotent ≡ false
      → HasLinks k.canon (accept_edges k i.canonical_entity_id reply.candidate) w'.graph
  unfolding accept_target
  target_links net i now (refused e) w w' reply h first = cc
  target_links net i now (done target) w w' reply h first =
      let c = transacted w (accept_tables i now target w.tables) in
      publish-HasLinks net now i.canonical_entity_id c.0 c.1 w' reply h first

  accept_edges-published :
      (net : Network) (i : AcceptInput) (now : Time) (w w' : Governed V) (reply : CandidateReply)
      → accept k net i now w ≡ (done reply, w')
      → reply.idempotent ≡ false
      → HasLinks k.canon (accept_edges k i.canonical_entity_id reply.candidate) w'.graph
  unfolding accept
  accept_edges-published net i now w w' reply h first =
      target_links net i now
        (if i.require_exists
          then node_exists net i.canonical_entity_id w.graph
          else done (true, none))
        w w' reply h first

  -- The graph has an edge with these ends and this relationship.
  abbrev pub HasEdge : (source relationship target : String) → GraphStore V → Type 0
  HasEdge source relationship target g =
      is_some (find_edge source (normalize_rel k.canon relationship) target g.edges) ≡ true

  -- The edge from an event to an entity of this type.
  abbrev pub HasEventEdge : EntityType → (event entity : String) → GraphStore V → Type 0
  HasEventEdge artist event entity g = HasEdge event "FEATURES" entity g
  HasEventEdge venue event entity g = HasEdge event "OCCURS_AT" entity g
  HasEventEdge organizer event entity g = HasEdge event "ORGANIZED_BY" entity g
  HasEventEdge event_series event entity g = HasEdge event "PART_OF_SERIES" entity g

  -- The edges that identify a candidate as an entity.
  abbrev pub IsLinked : EntityResolutionCandidate → String → GraphStore V → Type 0
  IsLinked c entity g =
      HasEdge c.source_entity_handle "IDENTIFIES" entity g
      × ((truthy c.canonical_event_id ≡ false)
          ⊎ HasEventEdge c.entity_type (or_empty c.canonical_event_id) entity g)

  event_edge-HasEventEdge :
      (type : EntityType) (event entity status : String) (g : GraphStore V)
      → HasLinks k.canon (event_edge k event type status entity ∷ []) g
      → HasEventEdge type event entity g
  unfolding event_edge rel_of
  event_edge-HasEventEdge artist event entity status g h = h.0
  event_edge-HasEventEdge venue event entity status g h = h.0
  event_edge-HasEventEdge organizer event entity status g h = h.0
  event_edge-HasEventEdge event_series event entity status g h = h.0

  accept_edges-IsLinked :
      (c : EntityResolutionCandidate) (cid : String) (g : GraphStore V)
      → HasLinks k.canon (accept_edges k cid c) g
      → IsLinked c cid g
  unfolding accept_edges identifies
  accept_edges-IsLinked c cid g h = (
    h.0,
    elim (Bool-cases (truthy c.canonical_event_id)) [
      | inl given ↦ inr (
          event_edge-HasEventEdge c.entity_type (or_empty c.canonical_event_id) cid "RESOLVED" g
            (rw given at h.1))
      | inr missing ↦ inl missing
    ],
  )

  -- An acceptance that replies, and is not a repetition, has put into the graph the edge IDENTIFIES
  -- from the source's handle to the entity and, for a candidate with an event, the edge from the
  -- event to the entity, which is FEATURES for an artist, OCCURS_AT for a venue, ORGANIZED_BY for an
  -- organizer and PART_OF_SERIES for a series, whatever the graph was before.
  pub accept-HasLinks :
      (net : Network) (i : AcceptInput) (now : Time) (w w' : Governed V) (reply : CandidateReply)
      → accept k net i now w ≡ (done reply, w')
      → reply.idempotent ≡ false
      → IsLinked reply.candidate i.canonical_entity_id w'.graph
  accept-HasLinks net i now w w' reply h first =
      accept_edges-IsLinked reply.candidate i.canonical_entity_id w'.graph
        (accept_edges-published net i now w w' reply h first)
