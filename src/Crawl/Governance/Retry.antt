-- ===== src/Crawl/Governance/Retry.antt =====
-- services/crawl-service/crawl_service/governance.py: an acceptance that is sent again.
use n_quark.Prelude.{
  ◌≡◌, refl, String, Bool, true, ◌&&◌, Option, none, some, if◌then◌else◌, str_eq, eq_iff,
  Bool-cases, inl, inr, if_ind,
}
use n_quark.Prelude.Time.{Time}
use n_quark.Crawl.Governance.{
  EntityResolutionCandidate, GovernanceTables, GovernanceResult, done, refused, CandidateReply,
  Network, GraphClient, Governed, find_candidate, node_exists,
}
use n_quark.Crawl.Governance.Accept.{
  AcceptInput, accept, accept_tables, accept_found, accept_target, accepted_row, publish, is_stale,
  is_accepted, is_missing, is_mistyped, is_owned_by_other,
}
use n_quark.Crawl.Governance.Reversal.{accepted-found}

-- The candidate has the entity.
abbrev HasEntity : String → String → GovernanceTables → Type 0
HasEntity id cid t =
    (c : EntityResolutionCandidate) × (find_candidate id t.candidates ≡ some c)
    × (is_accepted cid c ≡ true)

abbrev HasIfDone : String → String → GovernanceResult (CandidateReply × GovernanceTables) → Type 0
HasIfDone id cid (refused e) = Unit
HasIfDone id cid (done (r, t)) = HasEntity id cid t

accept_found-HasEntity :
    (i : AcceptInput) (now : Time) (target : Bool × Option String) (t : GovernanceTables)
    (o : Option EntityResolutionCandidate)
    → find_candidate i.candidate_id t.candidates ≡ o
    → HasIfDone i.candidate_id i.canonical_entity_id (accept_found i now target o t)
unfolding accept_found
accept_found-HasEntity i now target t none h = tt
accept_found-HasEntity i now target t (some c) h =
    let P : GovernanceResult (CandidateReply × GovernanceTables) → Type 0 =
      λ r. HasIfDone i.candidate_id i.canonical_entity_id r in
    if_ind P (is_stale i.expected_status c) (λ _. tt)
      λ _.
        if_ind P (is_accepted i.canonical_entity_id c) (λ old. (c, h, old))
          λ _.
            if_ind P (is_missing i target.0) (λ _. tt)
              λ _.
                if_ind P (is_mistyped target.1 c) (λ _. tt)
                  λ _.
                    if_ind P (is_owned_by_other i.canonical_entity_id c t) (λ _. tt)
                      λ _. (
                        accepted_row i now c,
                        accepted-found i now t c h,
                        same_entity i.canonical_entity_id,
                      )
  where
    same_entity : (cid : String) → (true && str_eq cid cid) ≡ true
    same_entity cid = (eq_iff cid cid).1 refl

module _ {V : Type 0} (k : GraphClient V) where
  accept_target-same :
      (net : Network) (i : AcceptInput) (now : Time) (r : GovernanceResult (Bool × Option String))
      (w : Governed V)
      → HasEntity i.candidate_id i.canonical_entity_id w.tables
      → (accept_target k net i now r w).1 ≡ w
  unfolding accept_target accept_tables accept_found publish
  accept_target-same net i now (refused e) w h = refl
  accept_target-same net i now (done target) w (c, found, old) =
      elim (Bool-cases (is_stale i.expected_status c)) [
        | inl b ↦ rw (found, b) refl
        | inr b ↦ rw (found, b, old) refl
      ]

  -- Once the transaction of an acceptance has passed, a call that accepts the same candidate for the
  -- same entity, whatever it expects, at any instant and whatever the network does, changes neither
  -- the tables nor the graph, also if the first call did not reach the graph.
  pub accept_again :
      (net : Network) (i again : AcceptInput) (now now' : Time) (target : Bool × Option String)
      (reply : CandidateReply) (t : GovernanceTables) (w : Governed V)
      → accept_tables i now target t ≡ done (reply, w.tables)
      → again.candidate_id ≡ i.candidate_id
      → again.canonical_entity_id ≡ i.canonical_entity_id
      → (accept k net again now' w).1 ≡ w
  unfolding accept accept_tables
  accept_again net i again now now' target reply t w h same_candidate same_cid =
      let has : HasEntity i.candidate_id i.canonical_entity_id w.tables =
        rw h at (
          accept_found-HasEntity i now target t (find_candidate i.candidate_id t.candidates)
            refl) in
      accept_target-same net again now'
        (if again.require_exists
          then node_exists net again.canonical_entity_id w.graph
          else done (true, none))
        w (rw (same_candidate, same_cid) has)
