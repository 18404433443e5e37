-- ===== src/Crawl/Governance/Withdraw.antt =====
-- services/crawl-service/crawl_service/governance.py: reject, mark_unresolved and reverse_accept.
use n_quark.Prelude.{
  String, Bool, false, not, ◌&&◌, Option, none, some, List, [], ◌∷◌, if◌then◌else◌, truthy,
  or_empty,
}
use n_quark.Prelude.Time.{Time}
use n_quark.Crawl.Governance.{
  EntityResolutionCandidate, EntitySourceHandle, GovernanceTables, GovernanceResult, done, refused,
  Network, GraphClient, Governed, CandidateReply, find_candidate, register_handle, delete_handle,
  decided, write_graph, transacted, candidate_not_found, stale_preview,
}
use n_quark.Crawl.Governance.Accept.{reply_of, is_stale, event_edge}

unfoldable pub reject_found :
    String
    → Option String
    → Time
    → Option EntityResolutionCandidate
    → GovernanceTables
    → GovernanceResult (CandidateReply × GovernanceTables)
unfolding decided
reject_found reason expected now none t = refused candidate_not_found
reject_found reason expected now (some c) t =
    let after : EntityResolutionCandidate = record c {
      resolution_status = "REJECTED";
      reason_code = some reason;
      updated_at = now;
    } in
    if is_stale expected c
    then refused stale_preview
    else done (
      reply_of c false after,
      decided c "REJECTED" c.candidate_canonical_entity_id none reason now t,
    )

unfoldable pub reject :
    String
    → String
    → Option String
    → Time
    → GovernanceTables
    → GovernanceResult (CandidateReply × GovernanceTables)
unfolding reject_found find_candidate
reject id reason expected now t =
    reject_found reason expected now (find_candidate id t.candidates) t

unfoldable pub unresolve_found :
    String
    → Time
    → Option EntityResolutionCandidate
    → GovernanceTables
    → GovernanceResult (CandidateReply × GovernanceTables)
unfolding decided
unresolve_found reason now none t = refused candidate_not_found
unresolve_found reason now (some c) t =
    let after : EntityResolutionCandidate = record c {
      resolution_status = "UNRESOLVED";
      candidate_canonical_entity_id = none;
      reason_code = some reason;
      updated_at = now;
    } in
    done (reply_of c false after, decided c "UNRESOLVED" none none reason now t)

unfoldable pub mark_unresolved :
    String → String → Time → GovernanceTables → GovernanceResult (CandidateReply × GovernanceTables)
unfolding unresolve_found find_candidate
mark_unresolved id reason now t = unresolve_found reason now (find_candidate id t.candidates) t

pub record ReverseInput : Type 0 where
  pub candidate_id : String
  pub restore_status : Option String
  pub restore_canonical : Option String
  pub remove_handle : Bool

abbrev pub restored_status : ReverseInput → String
restored_status i = if truthy i.restore_status then or_empty i.restore_status else "UNRESOLVED"

abbrev reversed_row : ReverseInput → Time → EntityResolutionCandidate → EntityResolutionCandidate
reversed_row i now c = record c {
  resolution_status = restored_status i;
  candidate_canonical_entity_id = i.restore_canonical;
  reason_code = some "REVERSED";
  updated_at = now;
}

-- The handle leaves, goes back to the restored entity, or stays.
unfoldable pub reversed_handles :
    ReverseInput
    → Time
    → EntityResolutionCandidate
    → List EntitySourceHandle
    → List EntitySourceHandle
unfolding delete_handle register_handle
reversed_handles i now c handles =
    if i.remove_handle && not (truthy i.restore_canonical)
    then delete_handle c.source c.source_entity_handle handles
    else if truthy i.restore_canonical
    then register_handle c (or_empty i.restore_canonical) now "REVERSED" handles
    else handles

unfoldable pub reverse_found :
    ReverseInput
    → Time
    → Option EntityResolutionCandidate
    → GovernanceTables
    → GovernanceResult (CandidateReply × GovernanceTables)
unfolding decided reversed_handles
reverse_found i now none t = refused candidate_not_found
reverse_found i now (some c) t = done (
  reply_of c false (reversed_row i now c),
  decided c (restored_status i) i.restore_canonical i.restore_canonical "REVERSED" now
      (record t { handles = reversed_handles i now c t.handles }),
)

unfoldable pub reverse_tables :
    ReverseInput → Time → GovernanceTables → GovernanceResult (CandidateReply × GovernanceTables)
unfolding reverse_found find_candidate
reverse_tables i now t = reverse_found i now (find_candidate i.candidate_id t.candidates) t

module _ {V : Type 0} (k : GraphClient V) where
  -- The edge of the event is marked, never deleted.
  unfoldable pub retract :
      Network
      → Time
      → GovernanceResult CandidateReply × Governed V
      → GovernanceResult CandidateReply × Governed V
  unfolding write_graph event_edge
  retract net now (refused e, w) = (refused e, w)
  retract net now (done r, w) =
      let c = r.candidate in
      let applied = r.previous_canonical_entity_id in
      let edge =
        event_edge k (or_empty c.canonical_event_id) c.entity_type "REVERSED" (or_empty applied) in
      if truthy c.canonical_event_id && truthy applied
      then write_graph k net now [] (edge ∷ []) r w
      else (done r, w)

  unfoldable pub reverse_accept :
      Network → ReverseInput → Time → Governed V → GovernanceResult CandidateReply × Governed V
  unfolding retract reverse_tables
  reverse_accept net i now w = retract net now (transacted w (reverse_tables i now w.tables))
