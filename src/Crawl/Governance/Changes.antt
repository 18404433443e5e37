-- ===== src/Crawl/Governance/Changes.antt =====
-- services/crawl-service/crawl_service/governance.py: what a command does to the tables, as a
-- relation between the tables before and after it.
use n_quark.Prelude.{
  ◌≡◌, refl, String, Bool, true, false, Option, none, some, List, arith, if◌then◌else◌, str_eq,
  if_ind,
}
use n_quark.Prelude.Time.{Time}
use n_quark.Graph.{Node, EdgeWrite}
use n_quark.Crawl.Governance.{
  EntityResolutionCandidate, EntitySupersession, GovernanceTables, GovernanceResult, done, refused,
  Network, GraphClient, Governed, CandidateReply, find_candidate, decided, write_graph, transacted,
  node_exists,
}
use n_quark.Crawl.Governance.Accept.{
  AcceptInput, accept, accepted, accept_found, accept_tables, accept_target, publish,
  is_owned_by_other, is_missing, is_mistyped, is_stale, is_accepted,
}
use n_quark.Crawl.Governance.Withdraw.{
  ReverseInput, reject, reject_found, mark_unresolved, unresolve_found, reverse_accept,
  reverse_tables, reverse_found, reversed_handles, restored_status, retract,
}
use n_quark.Crawl.Governance.Creation.{Normalizers}
use n_quark.Crawl.Governance.Artists.{register_external_artist}
use n_quark.Crawl.Governance.Legacy.{
  IsFunctional, supersede_found-IsFunctional, unsupersede_found-IsFunctional,
}
use n_quark.Crawl.Governance.Supersede.{
  SupersedeInput, find_supersession, supersede_found, unsupersede_found, supersede_legacy,
  supersede_target, supersede_commit, unsupersede_commit,
}

-- `r`: whether the change may be a reversal.
pub data Change (r : Bool) : GovernanceTables → GovernanceTables → Type 0 where
  same : {t : GovernanceTables} → Change r t t
  accepts :
      {t : GovernanceTables} (i : AcceptInput) (now : Time) (c : EntityResolutionCandidate)
      → find_candidate i.candidate_id t.candidates ≡ some c
      → is_owned_by_other i.canonical_entity_id c t ≡ false
      → Change r t (accepted i now c t)
  rejects :
      {t : GovernanceTables} (id reason : String) (now : Time) (c : EntityResolutionCandidate)
      → find_candidate id t.candidates ≡ some c
      → Change r t (decided c "REJECTED" c.candidate_canonical_entity_id none reason now t)
  unresolves :
      {t : GovernanceTables} (id reason : String) (now : Time) (c : EntityResolutionCandidate)
      → find_candidate id t.candidates ≡ some c
      → Change r t (decided c "UNRESOLVED" none none reason now t)
  reverses :
      {t : GovernanceTables} (i : ReverseInput) (now : Time) (c : EntityResolutionCandidate)
      → find_candidate i.candidate_id t.candidates ≡ some c
      → r ≡ true
      → Change r t (
          decided c
            (restored_status i)
            i.restore_canonical
            i.restore_canonical
            "REVERSED"
            now
            (record t { handles = reversed_handles i now c t.handles }))
  registers :
      {t u : GovernanceTables} (n : Normalizers) (id cid name : String) (now : Time) (added : Bool)
      → register_external_artist n id cid name now t ≡ some (added, u)
      → Change r t u
  supersedes :
      {t : GovernanceTables} (rows : List EntitySupersession)
      → (IsFunctional t.supersessions → IsFunctional rows)
      → Change r t (record t { supersessions = rows })
  next : {t u v : GovernanceTables} → Change r t u → Change r u v → Change r t v

-- The tables after a transaction.
abbrev after :
    GovernanceTables → GovernanceResult (CandidateReply × GovernanceTables) → GovernanceTables
after t (refused e) = t
after t (done (r, t')) = t'

accept_found-Change :
    (i : AcceptInput) (now : Time) (target : Bool × Option String) (t : GovernanceTables)
    (o : Option EntityResolutionCandidate)
    → find_candidate i.candidate_id t.candidates ≡ o
    → Change false t (after t (accept_found i now target o t))
unfolding accept_found
accept_found-Change i now target t none h = same
accept_found-Change i now target t (some c) h =
    let P : GovernanceResult (CandidateReply × GovernanceTables) → Type 0 =
      λ r. Change false t (after t r) in
    if_ind P (is_stale i.expected_status c) (λ _. same)
      λ _.
        if_ind P (is_accepted i.canonical_entity_id c) (λ _. same)
          λ _.
            if_ind P (is_missing i target.0) (λ _. same)
              λ _.
                if_ind P (is_mistyped target.1 c) (λ _. same)
                  λ _.
                    if_ind P (is_owned_by_other i.canonical_entity_id c t) (λ _. same)
                      λ free. accepts i now c h free

reject_found-Change :
    (id reason : String) (expected : Option String) (now : Time) (t : GovernanceTables)
    (o : Option EntityResolutionCandidate)
    → find_candidate id t.candidates ≡ o
    → Change false t (after t (reject_found reason expected now o t))
unfolding reject_found
reject_found-Change id reason expected now t none h = same
reject_found-Change id reason expected now t (some c) h =
    if_ind (λ r. Change false t (after t r)) (is_stale expected c) (λ _. same)
      λ _. rejects id reason now c h

unresolve_found-Change :
    (id reason : String) (now : Time) (t : GovernanceTables) (o : Option EntityResolutionCandidate)
    → find_candidate id t.candidates ≡ o
    → Change false t (after t (unresolve_found reason now o t))
unfolding unresolve_found
unresolve_found-Change id reason now t none h = same
unresolve_found-Change id reason now t (some c) h = unresolves id reason now c h

reverse_found-Change :
    (i : ReverseInput) (now : Time) (t : GovernanceTables) (o : Option EntityResolutionCandidate)
    → find_candidate i.candidate_id t.candidates ≡ o
    → Change true t (after t (reverse_found i now o t))
unfolding reverse_found
reverse_found-Change i now t none h = same
reverse_found-Change i now t (some c) h = reverses i now c h refl

module _ {V : Type 0} (k : GraphClient V) where
  transacted-tables :
      (w : Governed V) (r : GovernanceResult (CandidateReply × GovernanceTables))
      → (transacted w r).1.tables ≡ after w.tables r
  transacted-tables w (refused e) = refl
  transacted-tables w (done (r, t)) = refl

  -- The graph is written beside the tables.
  pub write_graph-tables :
      {A : Type 0} (net : Network) (now : Time) (nodes : List (Node V)) (edges : List (EdgeWrite V))
      (a : A) (w : Governed V)
      → (write_graph k net now nodes edges a w).1.tables ≡ w.tables
  unfolding write_graph
  write_graph-tables net now nodes edges a w = ground arith

  publish-tables :
      (net : Network) (now : Time) (cid : String) (r : GovernanceResult CandidateReply)
      (w : Governed V)
      → (publish k net now cid (r, w)).1.tables ≡ w.tables
  unfolding publish
  publish-tables net now cid (refused e) w = refl
  publish-tables net now cid (done r) w = ground (arith, write_graph-tables net now _ _ r w)

  retract-tables :
      (net : Network) (now : Time) (r : GovernanceResult CandidateReply) (w : Governed V)
      → (retract k net now (r, w)).1.tables ≡ w.tables
  unfolding retract
  retract-tables net now (refused e) w = refl
  retract-tables net now (done r) w = ground (arith, write_graph-tables net now _ _ r w)

  accept_target-Change :
      (net : Network) (i : AcceptInput) (now : Time) (r : GovernanceResult (Bool × Option String))
      (w : Governed V)
      → Change false w.tables (accept_target k net i now r w).1.tables
  unfolding accept_target accept_tables
  accept_target-Change net i now (refused e) w = same
  accept_target-Change net i now (done target) w =
      let r =
        accept_found i now target (find_candidate i.candidate_id w.tables.candidates) w.tables in
      rw
        (
          publish-tables net now i.canonical_entity_id (transacted w r).0 (transacted w r).1,
          transacted-tables w r,
        )
        (accept_found-Change i now target w.tables
          (find_candidate i.candidate_id w.tables.candidates) refl)

  pub accept-Change :
      (net : Network) (i : AcceptInput) (now : Time) (w : Governed V)
      → Change false w.tables (accept k net i now w).1.tables
  unfolding accept
  accept-Change net i now w =
      accept_target-Change net i now
        (if i.require_exists
          then node_exists net i.canonical_entity_id w.graph
          else done (true, none))
        w

  pub reverse_accept-Change :
      (net : Network) (i : ReverseInput) (now : Time) (w : Governed V)
      → Change true w.tables (reverse_accept k net i now w).1.tables
  unfolding reverse_accept reverse_tables
  reverse_accept-Change net i now w =
      let o = find_candidate i.candidate_id w.tables.candidates in
      let r = reverse_found i now o w.tables in
      rw (retract-tables net now (transacted w r).0 (transacted w r).1, transacted-tables w r)
        (reverse_found-Change i now w.tables o refl)

  pub reject-Change :
      (id reason : String) (expected : Option String) (now : Time) (w : Governed V)
      → Change false w.tables (transacted w (reject id reason expected now w.tables)).1.tables
  unfolding reject
  reject-Change id reason expected now w =
      let o = find_candidate id w.tables.candidates in
      rw (transacted-tables w (reject_found reason expected now o w.tables))
        (reject_found-Change id reason expected now w.tables o refl)

  pub unresolve-Change :
      (id reason : String) (now : Time) (w : Governed V)
      → Change false w.tables (transacted w (mark_unresolved id reason now w.tables)).1.tables
  unfolding mark_unresolved
  unresolve-Change id reason now w =
      let o = find_candidate id w.tables.candidates in
      rw (transacted-tables w (unresolve_found reason now o w.tables))
        (unresolve_found-Change id reason now w.tables o refl)

  supersede_commit-Change :
      (net : Network) (i : SupersedeInput) (now : Time) (o : Option (List EntitySupersession))
      (w : Governed V)
      → supersede_found i now
          (find_supersession i.legacy_entity_id w.tables.supersessions)
          w.tables.supersessions
        ≡ o
      → str_eq i.legacy_entity_id i.canonical_entity_id ≡ false
      → Change false w.tables (supersede_commit k net i now o w).1.tables
  unfolding supersede_commit
  supersede_commit-Change net i now none w made ne = same
  supersede_commit-Change net i now (some rows) w made ne =
      rw (write_graph-tables net now _ _ tt _) (
        supersedes rows (
          supersede_found-IsFunctional i now
            (find_supersession i.legacy_entity_id w.tables.supersessions) w.tables.supersessions
            rows refl ne made))

  supersede_target-Change :
      (net : Network) (i : SupersedeInput) (now : Time)
      (r : GovernanceResult (Bool × Option String)) (w : Governed V)
      → str_eq i.legacy_entity_id i.canonical_entity_id ≡ false
      → Change false w.tables (supersede_target k net i now r w).1.tables
  unfolding supersede_target
  supersede_target-Change net i now (refused e) w ne = same
  supersede_target-Change net i now (done (found, type)) w ne =
      if_ind (λ (r : GovernanceResult (Unit {0}) × Governed V). Change false w.tables r.1.tables)
        found (λ _. supersede_commit-Change net i now _ w refl ne) (λ _. same)

  pub supersede_legacy-Change :
      (net : Network) (i : SupersedeInput) (now : Time) (w : Governed V)
      → Change false w.tables (supersede_legacy k net i now w).1.tables
  unfolding supersede_legacy
  supersede_legacy-Change net i now w =
      if_ind (λ (r : GovernanceResult (Unit {0}) × Governed V). Change false w.tables r.1.tables)
        (str_eq i.legacy_entity_id i.canonical_entity_id) (λ _. same)
        (λ ne.
          supersede_target-Change net i now (node_exists net i.canonical_entity_id w.graph) w ne)

  pub unsupersede_commit-Change :
      (net : Network) (legacy : String) (now : Time) (o : Option (String × List EntitySupersession))
      (w : Governed V)
      → unsupersede_found now
          (find_supersession legacy w.tables.supersessions)
          w.tables.supersessions
        ≡ o
      → Change false w.tables (unsupersede_commit k net legacy now o w).1.tables
  unfolding unsupersede_commit
  unsupersede_commit-Change net legacy now none w made = same
  unsupersede_commit-Change net legacy now (some (canonical, rows)) w made =
      rw (write_graph-tables net now _ _ true _) (
        supersedes rows (
          unsupersede_found-IsFunctional legacy now
            (find_supersession legacy w.tables.supersessions) canonical w.tables.supersessions rows
            refl made))
