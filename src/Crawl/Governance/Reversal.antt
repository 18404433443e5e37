-- ===== src/Crawl/Governance/Reversal.antt =====
-- services/crawl-service/crawl_service/governance.py: reverse_accept as the inverse of accept.
use n_quark.Prelude.{
  ◌≡◌, ap, refl, ◌+◌, String, Bool, true, false, Option, none, some, List, [], ◌∷◌, ◌++◌, arith,
  str_eq, eq_iff, length, length-append, Option-cases, Bool-cases, inl, inr,
}
use n_quark.Prelude.Time.{Time}
use n_quark.Crawl.Governance.{
  EntityResolutionCandidate, EntitySourceHandle, GovernanceTables, done, CandidateReply,
  find_candidate, put_candidate, find_handle, delete_handle, register_handle, register_found,
  decided, is_handle,
}
use n_quark.Crawl.Governance.Accept.{
  AcceptInput, accept_tables, accept_found, accepted, accepted_row,
}
use n_quark.Crawl.Governance.Withdraw.{
  ReverseInput, reverse_tables, reverse_found, reversed_handles, restored_status,
}
use n_quark.Crawl.Governance.Audit.{find_candidate-put, find_candidate_id}

-- The reversal of what `accept` replied: the earlier status, no canonical entity, and no handle.
abbrev pub undo_of : AcceptInput → String → ReverseInput
undo_of i status = record {
  candidate_id = i.candidate_id;
  restore_status = some status;
  restore_canonical = none;
  remove_handle = true;
}

-- The status and the canonical entity of a candidate.
abbrev standing : Option EntityResolutionCandidate → Option (String × Option String)
standing none = none
standing (some c) = some (c.resolution_status, c.candidate_canonical_entity_id)

-- What stands as before: every handle, and every candidate's status and canonical entity. The
-- history has a row more for each of the two commands.
pub record IsRestored (t u : GovernanceTables) : Type 0 where
  pub handles_back : u.handles ≡ t.handles
  pub candidates_back :
      (id : String)
      → standing (find_candidate id u.candidates) ≡ standing (find_candidate id t.candidates)
  pub logged_twice : length u.history ≡ length t.history + 2

delete-append :
    (source handle : String) (hs : List EntitySourceHandle) (h : EntitySourceHandle)
    → find_handle source handle hs ≡ none
    → is_handle source handle h ≡ true
    → delete_handle source handle (hs ++ h ∷ []) ≡ hs
unfolding delete_handle find_handle
delete-append source handle [] h e k = rw k
delete-append source handle (x ∷ rest) h e k = elim (Bool-cases (is_handle source handle x)) [
  | inl b ↦ cc (rw b at e)
  | inr b ↦ rw b (ap (λ l. x ∷ l) (delete-append source handle rest h (rw b at e) k))
]

register-fresh :
    (c : EntityResolutionCandidate) (cid : String) (now : Time) (method : String)
    (hs : List EntitySourceHandle)
    → find_handle c.source c.source_entity_handle hs ≡ none
    → delete_handle c.source c.source_entity_handle (register_handle c cid now method hs) ≡ hs
unfolding register_handle register_found
register-fresh c cid now method hs e = rw e (
    delete-append c.source c.source_entity_handle hs _ e (
      ground
        (arith, eq_iff c.source c.source, eq_iff c.source_entity_handle c.source_entity_handle)))

put_put :
    (id : String) (a b : EntityResolutionCandidate) (cs : List EntityResolutionCandidate)
    (c : EntityResolutionCandidate)
    → find_candidate id cs ≡ some c
    → a.id ≡ id
    → b.id ≡ id
    → b.resolution_status ≡ c.resolution_status
    → b.candidate_canonical_entity_id ≡ c.candidate_canonical_entity_id
    → (j : String)
    → standing (find_candidate j (put_candidate b (put_candidate a cs)))
      ≡ standing (find_candidate j cs)
put_put id a b cs c h ha hb hs hc j = elim (Option-cases (find_candidate j cs)) [
  | inl e ↦ rw (find_candidate-put j b (put_candidate a cs), find_candidate-put j a cs, e) refl
  | inr (old, e) ↦ ground (
    arith,
    e,
    h,
    find_candidate-put j b (put_candidate a cs),
    find_candidate-put j a cs,
    eq_iff a.id j,
    eq_iff b.id j,
  )
]

-- What an acceptance of an unlinked candidate transacted.
accept_found_lem :
    (i : AcceptInput) (now : Time) (target : Bool × Option String) (t u : GovernanceTables)
    (c : EntityResolutionCandidate) (reply : CandidateReply)
    → c.candidate_canonical_entity_id ≡ none
    → accept_found i now target (some c) t ≡ done (reply, u)
    → (u ≡ accepted i now c t) × (reply.previous_status ≡ c.resolution_status)
unfolding accept_found
accept_found_lem i now target t u c reply free h = ground (arith, free, h)

reversed : ReverseInput → Time → EntityResolutionCandidate → GovernanceTables → GovernanceTables
reversed i now c t =
    decided c (restored_status i) i.restore_canonical i.restore_canonical "REVERSED" now
      (record t { handles = reversed_handles i now c t.handles })

reverse-IsRestored :
    (i : AcceptInput) (now now' : Time) (t : GovernanceTables) (c : EntityResolutionCandidate)
    → find_candidate i.candidate_id t.candidates ≡ some c
    → find_handle c.source c.source_entity_handle t.handles ≡ none
    → c.candidate_canonical_entity_id ≡ none
    → str_eq c.resolution_status "" ≡ false
    → IsRestored t
        (reversed (undo_of i c.resolution_status) now' (accepted_row i now c) (accepted i now c t))
unfolding reversed accepted decided reversed_handles
reverse-IsRestored i now now' t c found fresh free status = record {
  handles_back = register-fresh c i.canonical_entity_id now i.reason_code t.handles fresh;
  candidates_back =
      put_put i.candidate_id _ _ t.candidates c found
        (find_candidate_id i.candidate_id t.candidates c found)
        (find_candidate_id i.candidate_id t.candidates c found) (rw status) (rw free);
  logged_twice = omega (arith, length-append {0});
}

pub accepted-found :
    (i : AcceptInput) (now : Time) (t : GovernanceTables) (c : EntityResolutionCandidate)
    → find_candidate i.candidate_id t.candidates ≡ some c
    → find_candidate i.candidate_id (accepted i now c t).candidates ≡ some (accepted_row i now c)
unfolding accepted decided
accepted-found i now t c found =
    rw
      (
        find_candidate-put i.candidate_id (accepted_row i now c) t.candidates,
        found,
        (eq_iff c.id i.candidate_id).1 (find_candidate_id i.candidate_id t.candidates c found),
      )
      refl

-- Accepting a candidate that had no canonical entity, and whose handle had no owner, and then
-- reversing that with the status which the reply gave and the handle removed, succeeds and leaves
-- every handle, and every candidate's status and canonical entity, as they were before; the
-- history keeps both decisions.
pub accept-reverse :
    (i : AcceptInput) (now now' : Time) (target : Bool × Option String) (t u : GovernanceTables)
    (c : EntityResolutionCandidate) (reply : CandidateReply)
    → find_candidate i.candidate_id t.candidates ≡ some c
    → find_handle c.source c.source_entity_handle t.handles ≡ none
    → c.candidate_canonical_entity_id ≡ none
    → str_eq c.resolution_status "" ≡ false
    → accept_tables i now target t ≡ done (reply, u)
    → (r : CandidateReply) × (v : GovernanceTables) × (reverse_tables
          (undo_of i reply.previous_status)
          now'
          u
        ≡ done (r, v))
      × IsRestored t v
unfolding accept_tables reverse_tables reverse_found reversed
accept-reverse i now now' target t u c reply found fresh free status h =
    let e = accept_found_lem i now target t u c reply free (rw found at h) in
    let restored = reverse-IsRestored i now now' t c found fresh free status in
    rw (e.0, e.1, accepted-found i now t c found) (_, _, refl, restored)
