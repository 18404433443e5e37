-- ===== src/Crawl/Governance/Audit.antt =====
-- services/crawl-service/crawl_service/governance.py: the resolution history as an audit.
use mathlib.Core.List.{append_assoc, append-nil}
use n_quark.Prelude.{
  ◌≡◌, ◌≢◌, sym, ◌∙◌, ap, subst, ◌⊎◌, inl, inr, refl, String, Bool, true, false, Option, none, some,
  List, [], ◌∷◌, ◌++◌, arith, if◌then◌else◌, str_eq, eq_iff, Bool-cases, Option-cases,
}
use n_quark.Prelude.Time.{Time}
use n_quark.Crawl.Governance.{
  EntityResolutionCandidate, EntityResolutionHistory, GovernanceTables, Network, GraphClient,
  Governed, find_candidate, put_candidate, decided, register_handle,
}
use n_quark.Crawl.Governance.Accept.{accepted, gov_version}
use n_quark.Crawl.Governance.Withdraw.{restored_status, reversed_handles}
use n_quark.Crawl.Governance.Creation.{Normalizers}
use n_quark.Crawl.Governance.Artists.{
  register_external_artist, is_registered, external_candidate, first_row,
}
use n_quark.Crawl.Governance.Commands.{Command, run, step}
use n_quark.Crawl.Governance.Changes.{
  Change, same, accepts, rejects, unresolves, reverses, registers, supersedes, next,
}
use n_quark.Crawl.Governance.Steps.{step-Change}

-- The last row of a candidate.
unfoldable pub last_row : String → List EntityResolutionHistory → Option EntityResolutionHistory
last_row id [] = none
last_row id (h ∷ rest) = elim (last_row id rest) [
  | some later ↦ some later
  | none ↦ if str_eq h.candidate_id id then some h else none
]

-- A candidate stands as its last row says; a rejection alone leaves the canonical entity, and its
-- row says none. No row is about a candidate that is not there.
abbrev StandsAs : EntityResolutionCandidate → EntityResolutionHistory → Type 0
StandsAs c h =
    (c.resolution_status ≡ h.new_status)
    × ((c.candidate_canonical_entity_id ≡ h.new_canonical_entity_id) ⊎ (h.new_status ≡ "REJECTED"))

abbrev pub Agrees : Option EntityResolutionCandidate → Option EntityResolutionHistory → Type 0
Agrees (some c) (some h) = StandsAs c h
Agrees (some c) none = Unit
Agrees none (some h) = ⊥
Agrees none none = Unit

-- A row goes on from the status that the row before it left.
abbrev GoesOn : Option EntityResolutionHistory → EntityResolutionHistory → Type 0
GoesOn none h = Unit
GoesOn (some p) h = h.previous_status ≡ some p.new_status

abbrev IsChained : List EntityResolutionHistory → List EntityResolutionHistory → Type 0
IsChained before [] = Unit
IsChained before (h ∷ rest) =
    GoesOn (last_row h.candidate_id before) h × IsChained (before ++ h ∷ []) rest

pub record IsAudited (t : GovernanceTables) : Type 0 where
  pub stands : (id : String) → Agrees (find_candidate id t.candidates) (last_row id t.history)
  pub chained : IsChained [] t.history

last_row-append :
    (id : String) (hs : List EntityResolutionHistory) (h : EntityResolutionHistory)
    → last_row id (hs ++ h ∷ []) ≡ (if str_eq h.candidate_id id then some h else last_row id hs)
unfolding last_row
last_row-append id [] h = ground arith
last_row-append id (x ∷ rest) h = ground (arith, last_row-append id rest h)

pub find_candidate-put :
    (id : String) (c : EntityResolutionCandidate) (cs : List EntityResolutionCandidate)
    → find_candidate id (put_candidate c cs) ≡ elim (find_candidate id cs) [
      | none ↦ none
      | some old ↦ if str_eq c.id id then some c else some old
    ]
unfolding find_candidate put_candidate
find_candidate-put id c [] = refl
find_candidate-put id c (x ∷ rest) =
    ground (arith, find_candidate-put id c rest, eq_iff x.id c.id, eq_iff c.id id, eq_iff x.id id)

pub find_candidate_id :
    (id : String) (cs : List EntityResolutionCandidate) (c : EntityResolutionCandidate)
    → find_candidate id cs ≡ some c
    → c.id ≡ id
unfolding find_candidate
find_candidate_id id [] c h = cc
find_candidate_id id (x ∷ rest) c h = ground (arith, find_candidate_id id rest c, eq_iff x.id id)

find_candidate-append :
    (id : String) (cs : List EntityResolutionCandidate) (c : EntityResolutionCandidate)
    → find_candidate id (cs ++ c ∷ []) ≡ elim (find_candidate id cs) [
      | some old ↦ some old
      | none ↦ if str_eq c.id id then some c else none
    ]
unfolding find_candidate
find_candidate-append id [] c = refl
find_candidate-append id (x ∷ rest) c = ground (arith, find_candidate-append id rest c)

IsChained-append :
    (before hs : List EntityResolutionHistory) (h : EntityResolutionHistory)
    → IsChained before hs
    → GoesOn (last_row h.candidate_id (before ++ hs)) h
    → IsChained before (hs ++ h ∷ [])
IsChained-append before [] h c g = (rw (append-nil before) at g, tt)
IsChained-append before (x ∷ rest) h c g =
    (c.0, IsChained-append (before ++ x ∷ []) rest h c.1 (rw (append_assoc before (x ∷ []) rest) g))

-- The row of a decision goes on from what its candidate stood as.
GoesOn-decided :
    (c : EntityResolutionCandidate) (o : Option EntityResolutionHistory)
    (h : EntityResolutionHistory)
    → Agrees (some c) o
    → h.previous_status ≡ some c.resolution_status
    → GoesOn o h
GoesOn-decided c none h a e = tt
GoesOn-decided c (some p) h a e = e ∙ ap some (a.0)

none-ne-some : {c : EntityResolutionCandidate} → none ≢ some c
none-ne-some h = cc

decided-stands :
    (id : String) (c₀ c : EntityResolutionCandidate) (status : String)
    (canonical logged : Option String) (reason : String) (now : Time) (t : GovernanceTables)
    → find_candidate c.id t.candidates ≡ some c₀
    → (canonical ≡ logged) ⊎ (status ≡ "REJECTED")
    → Agrees (find_candidate id t.candidates) (last_row id t.history)
    → let u = decided c status canonical logged reason now t in
      Agrees (find_candidate id u.candidates) (last_row id u.history)
unfolding decided
decided-stands id c₀ c status canonical logged reason now t found ok a =
    rw (find_candidate-put id _ t.candidates, last_row-append id t.history _)
      (elim (Option-cases (find_candidate id t.candidates)) [
        | inl e ↦ elim (Bool-cases (str_eq c.id id)) [
          | inl b ↦ absurd (
              none-ne-some (
                sym e
                ∙ ap (λ i. find_candidate i t.candidates) (sym ((eq_iff c.id id).0 b))
                ∙ found))
          | inr b ↦ rw (e, b) (rw e at a)
        ]
        | inr (old, e) ↦ elim (Bool-cases (str_eq c.id id)) [
          | inl b ↦ rw (e, b) (refl, ok)
          | inr b ↦ rw (e, b) (rw e at a)
        ]
      ])

decided-IsAudited :
    (c₀ c : EntityResolutionCandidate) (status : String) (canonical logged : Option String)
    (reason : String) (now : Time) (t : GovernanceTables)
    → find_candidate c.id t.candidates ≡ some c₀
    → c.resolution_status ≡ c₀.resolution_status
    → (canonical ≡ logged) ⊎ (status ≡ "REJECTED")
    → IsAudited t
    → IsAudited (decided c status canonical logged reason now t)
unfolding decided
decided-IsAudited c₀ c status canonical logged reason now t found same_status ok a = record {
  stands = λ id. decided-stands id c₀ c status canonical logged reason now t found ok (a.stands id);
  chained = IsChained-append [] t.history _ a.chained (
      GoesOn-decided c₀ (last_row c.id t.history) _ (rw found at (a.stands c.id))
        (ap some same_status));
}

GoesOn-none :
    (o : Option EntityResolutionHistory) (h : EntityResolutionHistory) → Agrees none o → GoesOn o h
GoesOn-none none h a = tt
GoesOn-none (some p) h a = absurd a

same_tables :
    {a b : Bool} {t u : GovernanceTables}
    → ◌≡◌ {A = Option (Bool × GovernanceTables)} (some (a, t)) (some (b, u))
    → t ≡ u
same_tables h = cc

appended-Agrees :
    (here : Bool) (o : Option EntityResolutionCandidate) (l : Option EntityResolutionHistory)
    (c : EntityResolutionCandidate) (h : EntityResolutionHistory)
    → (here ≡ true → o ≡ none)
    → StandsAs c h
    → Agrees o l
    → Agrees
        (elim o [ some old ↦ some old | none ↦ if here then some c else none ])
        (if here then some h else l)
appended-Agrees true none l c h free st a = st
appended-Agrees true (some old) l c h free st a = absurd (none-ne-some (sym (free refl)))
appended-Agrees false none l c h free st a = a
appended-Agrees false (some old) l c h free st a = a

registered-IsAudited :
    (n : Normalizers) (id cid name : String) (now : Time) (t : GovernanceTables)
    → find_candidate id t.candidates ≡ none
    → IsAudited t
    → IsAudited (record t {
      candidates = t.candidates ++ external_candidate n id cid name now ∷ [];
      history = t.history ++ first_row id cid now ∷ [];
    })
registered-IsAudited n id cid name now t free a = record {
  stands = λ j.
      rw
        (
          find_candidate-append j t.candidates (external_candidate n id cid name now),
          last_row-append j t.history (first_row id cid now),
        )
        (appended-Agrees (str_eq id j) (find_candidate j t.candidates) (last_row j t.history)
          (external_candidate n id cid name now) (first_row id cid now)
          (λ b. ap (λ i. find_candidate i t.candidates) (sym ((eq_iff id j).0 b)) ∙ free)
          (refl, inl refl) (a.stands j));
  chained =
      IsChained-append [] t.history (first_row id cid now) a.chained
        (GoesOn-none (last_row id t.history) _ (rw free at (a.stands id)));
}

register-IsAudited :
    (n : Normalizers) (id cid name : String) (now : Time) (t u : GovernanceTables) (added : Bool)
    → register_external_artist n id cid name now t ≡ some (added, u)
    → IsAudited t
    → IsAudited u
unfolding register_external_artist
register-IsAudited n id cid name now t u added made a =
    elim (Bool-cases (is_registered cid t.candidates)) [
      | inl old ↦ subst IsAudited (same_tables (rw old at made)) a
      | inr new ↦ elim (Option-cases (find_candidate id t.candidates)) [
        | inl free ↦
            subst IsAudited (same_tables (rw (new, free) at made))
              (registered-IsAudited n id cid name now t free a)
        | inr (c, taken) ↦ cc (rw (new, taken) at made)
      ]
    ]

found_own :
    (id : String) (cs : List EntityResolutionCandidate) (c : EntityResolutionCandidate)
    → find_candidate id cs ≡ some c
    → find_candidate c.id cs ≡ some c
found_own id cs c h =
    subst (λ j. find_candidate j cs ≡ some c) (sym (find_candidate_id id cs c h)) h

-- Every change of the tables keeps the history an audit.
Change-IsAudited : {r : Bool} (t u : GovernanceTables) → Change r t u → IsAudited t → IsAudited u
unfolding accepted
Change-IsAudited t u same a = a
Change-IsAudited t u (accepts i now c found free) a =
    decided-IsAudited c (record c { resolver_version = gov_version }) "RESOLVED"
      (some i.canonical_entity_id) (some i.canonical_entity_id) i.reason_code now
      (record t { handles = register_handle c i.canonical_entity_id now i.reason_code t.handles })
      (found_own i.candidate_id t.candidates c found) refl (inl refl)
      (record { stands = a.stands; chained = a.chained })
Change-IsAudited t u (rejects id reason now c found) a =
    decided-IsAudited c c "REJECTED" _ none reason now t (found_own id t.candidates c found) refl
      (inr refl) a
Change-IsAudited t u (unresolves id reason now c found) a =
    decided-IsAudited c c "UNRESOLVED" none none reason now t (found_own id t.candidates c found)
      refl (inl refl) a
Change-IsAudited t u (reverses i now c found allowed) a =
    decided-IsAudited c c (restored_status i) i.restore_canonical i.restore_canonical "REVERSED" now
      (record t { handles = reversed_handles i now c t.handles })
      (found_own i.candidate_id t.candidates c found) refl (inl refl)
      (record { stands = a.stands; chained = a.chained })
Change-IsAudited t u (registers n id cid name now added made) a =
    register-IsAudited n id cid name now t u added made a
Change-IsAudited t u (supersedes rows keep) a = record { stands = a.stands; chained = a.chained }
Change-IsAudited t u (next first second) a =
    Change-IsAudited _ u second (Change-IsAudited t _ first a)

module _ {V : Type 0} (n : Normalizers) (k : GraphClient V) where
  -- Whatever commands an operator gives and whatever the network does to them, tables whose history
  -- is an audit keep such a one: each row goes on from the status that the row before it left, no
  -- row is about a candidate that is not there, and every candidate with rows has the status of the
  -- last one, and its canonical entity unless that row rejects it.
  pub run-IsAudited :
      (cs : List (Network × Time × Command V)) (w : Governed V)
      → IsAudited w.tables
      → IsAudited (run n k cs w).tables
  unfolding run
  run-IsAudited [] w a = a
  run-IsAudited ((net, now, c) ∷ rest) w a =
      run-IsAudited rest (step n k net now c w)
        (Change-IsAudited w.tables _ (step-Change n k net now c w) a)
