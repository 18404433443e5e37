-- ===== src/Crawl/Governance/Accept.antt =====
-- services/crawl-service/crawl_service/governance.py: accept.
use n_quark.Prelude.{
  String, Bool, true, false, not, ◌&&◌, Option, none, some, List, [], ◌∷◌, if◌then◌else◌, str_eq,
  opt_str_eq, truthy, or_empty,
}
use n_quark.Prelude.Time.{Time}
use n_quark.Graph.{Node, EdgeWrite}
use n_quark.Crawl.Governance.{
  EntityResolutionCandidate, EntityType, GovernanceTables, GovernanceResult, done, refused, Network,
  GraphClient, Governed, CandidateReply, node_type, rel_of, find_candidate, handle_owner,
  register_handle, decided, node_exists, write_graph, transacted, candidate_not_found,
  stale_preview, target_entity_not_found, entity_type_mismatch, handle_already_linked,
}

abbrev pub gov_version : String
gov_version = "governance-1"

-- `create_entity` accepts a target that need not exist.
pub record AcceptInput : Type 0 where
  pub candidate_id : String
  pub canonical_entity_id : String
  pub expected_status : Option String
  pub reason_code : String
  pub require_exists : Bool

abbrev pub reply_of : EntityResolutionCandidate → Bool → EntityResolutionCandidate → CandidateReply
reply_of c again after = record {
  candidate = after;
  idempotent = again;
  previous_status = c.resolution_status;
  previous_canonical_entity_id = c.candidate_canonical_entity_id;
}

abbrev pub is_stale : Option String → EntityResolutionCandidate → Bool
is_stale expected c = truthy expected && not (str_eq c.resolution_status (or_empty expected))

abbrev pub is_accepted : String → EntityResolutionCandidate → Bool
is_accepted cid c =
    str_eq c.resolution_status "RESOLVED" && opt_str_eq c.candidate_canonical_entity_id (some cid)

abbrev pub is_owned_by_other : String → EntityResolutionCandidate → GovernanceTables → Bool
is_owned_by_other cid c t =
    let owner = handle_owner c.source c.source_entity_handle t.handles in
    truthy owner && not (str_eq (or_empty owner) cid)

abbrev pub is_missing : AcceptInput → Bool → Bool
is_missing i found = i.require_exists && not found

abbrev pub is_mistyped : Option String → EntityResolutionCandidate → Bool
is_mistyped type c = truthy type && not (opt_str_eq type (some (node_type c.entity_type)))

-- The writes of a decision that passed.
unfoldable pub accepted :
    AcceptInput → Time → EntityResolutionCandidate → GovernanceTables → GovernanceTables
unfolding decided register_handle
accepted i now c t =
    decided (record c { resolver_version = gov_version }) "RESOLVED" (some i.canonical_entity_id)
      (some i.canonical_entity_id) i.reason_code now
      (record t { handles = register_handle c i.canonical_entity_id now i.reason_code t.handles })

abbrev pub accepted_row : AcceptInput → Time → EntityResolutionCandidate → EntityResolutionCandidate
accepted_row i now c = record c {
  resolution_status = "RESOLVED";
  candidate_canonical_entity_id = some i.canonical_entity_id;
  reason_code = some i.reason_code;
  resolver_version = gov_version;
  updated_at = now;
}

unfoldable pub accept_found :
    AcceptInput
    → Time
    → Bool × Option String
    → Option EntityResolutionCandidate
    → GovernanceTables
    → GovernanceResult (CandidateReply × GovernanceTables)
unfolding accepted
accept_found i now (found, type) none t = refused candidate_not_found
accept_found i now (found, type) (some c) t =
    if is_stale i.expected_status c
    then refused stale_preview
    else if is_accepted i.canonical_entity_id c
    then done (reply_of c true c, t)
    else if is_missing i found
    then refused target_entity_not_found
    else if is_mistyped type c
    then refused entity_type_mismatch
    else if is_owned_by_other i.canonical_entity_id c t
    then refused handle_already_linked
    else done (reply_of c false (accepted_row i now c), accepted i now c t)

-- The transaction of `accept`.
unfoldable pub accept_tables :
    AcceptInput
    → Time
    → Bool × Option String
    → GovernanceTables
    → GovernanceResult (CandidateReply × GovernanceTables)
unfolding accept_found find_candidate
accept_tables i now target t =
    accept_found i now target (find_candidate i.candidate_id t.candidates) t

module _ {V : Type 0} (k : GraphClient V) where
  unfoldable pub accept_nodes : String → EntityResolutionCandidate → List (Node V)
  unfolding node_type
  accept_nodes cid c =
      record {
        id = cid;
        type = node_type c.entity_type;
        properties = ("display_name", k.text c.raw_name) ∷ [];
      }
      ∷ record {
        id = c.source_entity_handle;
        type = "source_handle";
        properties = ("source", k.text c.source) ∷ ("raw_name", k.text c.raw_name) ∷ [];
      }
      ∷ []

  -- The edge from a handle to its entity.
  unfoldable pub identifies : String → EntityResolutionCandidate → EdgeWrite V
  identifies cid c = record {
    source = c.source_entity_handle;
    relationship = "IDENTIFIES";
    target = cid;
    properties = ("confidence", k.full_confidence) ∷ ("manual", k.truth true) ∷ [];
  }

  -- The edge from an event to an entity, with its status.
  unfoldable pub event_edge : String → EntityType → String → String → EdgeWrite V
  unfolding rel_of
  event_edge event etype status cid = record {
    source = event;
    relationship = rel_of etype;
    target = cid;
    properties = ("resolution_status", k.text status) ∷ ("manual", k.truth true) ∷ [];
  }

  unfoldable pub accept_edges : String → EntityResolutionCandidate → List (EdgeWrite V)
  unfolding identifies event_edge
  accept_edges cid c =
      let event = c.canonical_event_id in
      identifies cid c
      ∷ (if truthy event then event_edge (or_empty event) c.entity_type "RESOLVED" cid ∷ [] else [])

  -- After the commit; an idempotent call replies before the write.
  unfoldable pub publish :
      Network
      → Time
      → String
      → GovernanceResult CandidateReply × Governed V
      → GovernanceResult CandidateReply × Governed V
  unfolding write_graph accept_nodes accept_edges
  publish net now cid (refused e, w) = (refused e, w)
  publish net now cid (done r, w) =
      if r.idempotent
      then (done r, w)
      else write_graph k net now (accept_nodes cid r.candidate) (accept_edges cid r.candidate) r w

  unfoldable pub accept_target :
      Network
      → AcceptInput
      → Time
      → GovernanceResult (Bool × Option String)
      → Governed V
      → GovernanceResult CandidateReply × Governed V
  unfolding publish accept_tables
  accept_target net i now (refused e) w = (refused e, w)
  accept_target net i now (done target) w =
      publish net now i.canonical_entity_id (transacted w (accept_tables i now target w.tables))

  unfoldable pub accept :
      Network → AcceptInput → Time → Governed V → GovernanceResult CandidateReply × Governed V
  unfolding accept_target node_exists
  accept net i now w =
      let target =
        if i.require_exists
        then node_exists net i.canonical_entity_id w.graph
        else done (true, none) in
      accept_target net i now target w
