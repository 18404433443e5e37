-- ===== src/Crawl/Governance/Owners.antt =====
-- services/crawl-service/crawl_service/governance.py: which entity a source handle belongs to.
use n_quark.Prelude.{
  ◌≡◌, refl, String, Bool, false, ◌&&◌, Option, none, some, List, [], ◌∷◌, ◌++◌, arith,
  if◌then◌else◌, str_eq, eq_iff, Bool-cases, inl, inr,
}
use n_quark.Prelude.Time.{Time}
use n_quark.Crawl.Governance.{
  EntityResolutionCandidate, EntitySourceHandle, GovernanceTables, Network, GraphClient, Governed,
  is_handle, find_handle, put_handle, handle_owner, register_handle, register_found, decided,
}
use n_quark.Crawl.Governance.Accept.{AcceptInput, accepted, is_owned_by_other}
use n_quark.Crawl.Governance.Creation.{Normalizers}
use n_quark.Crawl.Governance.Artists.{register_external_artist}
use n_quark.Crawl.Governance.Commands.{Command, run, step}
use n_quark.Crawl.Governance.Changes.{
  Change, same, accepts, rejects, unresolves, reverses, registers, supersedes, next,
}
use n_quark.Crawl.Governance.Steps.{step-Change, is_reversal}

abbrev is_own : EntityResolutionCandidate → String → String → Bool
is_own c source handle = str_eq c.source source && str_eq c.source_entity_handle handle

find_handle-append :
    (source handle : String) (hs : List EntitySourceHandle) (h : EntitySourceHandle)
    → handle_owner source handle (hs ++ h ∷ []) ≡ elim (find_handle source handle hs) [
      | some old ↦ some old.canonical_entity_id
      | none ↦ if is_handle source handle h then some h.canonical_entity_id else none
    ]
unfolding find_handle handle_owner
find_handle-append source handle [] h = ground arith
find_handle-append source handle (x ∷ rest) h =
    ground (arith, find_handle-append source handle rest h)

find_handle-put :
    (source handle : String) (hs : List EntitySourceHandle) (h : EntitySourceHandle)
    → handle_owner source handle (put_handle h hs) ≡ elim (find_handle source handle hs) [
      | some old ↦
          some
            (if is_handle source handle h then h.canonical_entity_id else old.canonical_entity_id)
      | none ↦ none
    ]
unfolding find_handle handle_owner put_handle
find_handle-put source handle [] h = refl
find_handle-put source handle (x ∷ rest) h = ground (
  arith,
  find_handle-put source handle rest h,
  eq_iff x.source h.source,
  eq_iff x.source_entity_handle h.source_entity_handle,
  eq_iff h.source source,
  eq_iff h.source_entity_handle handle,
  eq_iff x.source source,
  eq_iff x.source_entity_handle handle,
)

find_handle_key :
    (source handle : String) (hs : List EntitySourceHandle) (h : EntitySourceHandle)
    → find_handle source handle hs ≡ some h
    → (h.source ≡ source) × (h.source_entity_handle ≡ handle)
unfolding find_handle
find_handle_key source handle [] h e = cc
find_handle_key source handle (x ∷ rest) h e = ground (
  arith,
  find_handle_key source handle rest h,
  eq_iff x.source source,
  eq_iff x.source_entity_handle handle,
)

-- Registering a candidate's handle gives it to the entity, and leaves every other handle.
register_found-owner :
    (c : EntityResolutionCandidate) (cid : String) (now : Time) (method : String)
    (o : Option EntitySourceHandle) (hs : List EntitySourceHandle) (source handle : String)
    → find_handle c.source c.source_entity_handle hs ≡ o
    → handle_owner source handle (register_found c cid now method o hs)
      ≡ (if is_own c source handle then some cid else handle_owner source handle hs)
unfolding register_found handle_owner
register_found-owner c cid now method none hs source handle e = ground (
  arith,
  e,
  find_handle-append source handle hs (record {
    entity_type = c.entity_type;
    source = c.source;
    source_entity_handle = c.source_entity_handle;
    source_url = c.source_url;
    canonical_entity_id = cid;
    resolution_method = method;
    first_seen = now;
    last_seen = now;
  }),
  eq_iff c.source source,
  eq_iff c.source_entity_handle handle,
)
register_found-owner c cid now method (some h) hs source handle e = ground (
  arith,
  e,
  find_handle_key c.source c.source_entity_handle hs h e,
  find_handle-put source handle hs
      (record h { canonical_entity_id = cid; resolution_method = method; last_seen = now }),
  eq_iff c.source source,
  eq_iff c.source_entity_handle handle,
)

handle_owner-register :
    (c : EntityResolutionCandidate) (cid : String) (now : Time) (method : String)
    (hs : List EntitySourceHandle) (source handle : String)
    → handle_owner source handle (register_handle c cid now method hs)
      ≡ (if is_own c source handle then some cid else handle_owner source handle hs)
unfolding register_handle
handle_owner-register c cid now method hs source handle =
    register_found-owner c cid now method (find_handle c.source c.source_entity_handle hs) hs source
      handle refl

register-kept :
    (i : AcceptInput) (now : Time) (c : EntityResolutionCandidate) (t : GovernanceTables)
    (source handle owner : String)
    → is_owned_by_other i.canonical_entity_id c t ≡ false
    → str_eq owner "" ≡ false
    → handle_owner source handle t.handles ≡ some owner
    → handle_owner source handle (accepted i now c t).handles ≡ some owner
unfolding accepted decided
register-kept i now c t source handle owner free nonempty h =
    rw (handle_owner-register c i.canonical_entity_id now i.reason_code t.handles source handle, h)
      (elim (Bool-cases (is_own c source handle)) [
        | inl b ↦ ground (
          arith,
          b,
          h,
          nonempty,
          free,
          eq_iff c.source source,
          eq_iff c.source_entity_handle handle,
          eq_iff owner i.canonical_entity_id,
        )
        | inr b ↦ rw b
      ])

register-handles :
    (n : Normalizers) (id cid name : String) (now : Time) (t u : GovernanceTables) (added : Bool)
    → register_external_artist n id cid name now t ≡ some (added, u)
    → u.handles ≡ t.handles
unfolding register_external_artist
register-handles n id cid name now t u added made = ground (arith, made)

Change-owner :
    {r : Bool} (t u : GovernanceTables) (source handle owner : String)
    → Change r t u
    → r ≡ false
    → str_eq owner "" ≡ false
    → handle_owner source handle t.handles ≡ some owner
    → handle_owner source handle u.handles ≡ some owner
unfolding decided
Change-owner t u source handle owner same f ne h = h
Change-owner t u source handle owner (accepts i now c found free) f ne h =
    register-kept i now c t source handle owner free ne h
Change-owner t u source handle owner (rejects id reason now c found) f ne h = h
Change-owner t u source handle owner (unresolves id reason now c found) f ne h = h
Change-owner t u source handle owner (reverses i now c found allowed) f ne h = cc
Change-owner t u source handle owner (registers n id cid name now added made) f ne h =
    rw (register-handles n id cid name now t u added made) h
Change-owner t u source handle owner (supersedes rows keep) f ne h = h
Change-owner t u source handle owner (next first second) f ne h =
    Change-owner _ u source handle owner second f ne
      (Change-owner t _ source handle owner first f ne h)

-- No command of the list is a reversal.
abbrev HasNoReversal : {V : Type 0} → List (Network × Time × Command V) → Type 0
HasNoReversal [] = Unit
HasNoReversal ((net, now, c) ∷ rest) = (is_reversal c ≡ false) × HasNoReversal rest

module _ {V : Type 0} (n : Normalizers) (k : GraphClient V) where
  -- A source handle that belongs to an entity, by an id that is not empty, belongs to it after any
  -- commands without a reversal, whatever other entity they would accept or create it for.
  pub run-owner :
      (cs : List (Network × Time × Command V)) (w : Governed V) (source handle owner : String)
      → HasNoReversal cs
      → str_eq owner "" ≡ false
      → handle_owner source handle w.tables.handles ≡ some owner
      → handle_owner source handle (run n k cs w).tables.handles ≡ some owner
  unfolding run
  run-owner [] w source handle owner f ne h = h
  run-owner ((net, now, c) ∷ rest) w source handle owner f ne h =
      run-owner rest (step n k net now c w) source handle owner f.1 ne (
        Change-owner w.tables (step n k net now c w).tables source handle owner
          (step-Change n k net now c w) f.0 ne h)
