-- ===== src/ShadowLedger/Observe/Order.antt =====
-- The order of the ledger's states: what a capture appends, and which state is the latest after it.
use n_quark.Prelude.{
  inl, inr, ◌⊎◌, ℕ, ◌≡◌, refl, ◌∙◌, sym, String, Bool, true, false, Option, none, some, [], ◌∷◌,
  ◌++◌, arith, ltb, ◌==◌, str_eq, eq_refl, if_ind,
}
use mathlib.Core.List.{append-nil}
use n_quark.Prelude.Time.{Time}
use n_quark.ShadowLedger.Fields.{CaptureGroup, Env}
use n_quark.ShadowLedger.Rows.{StateRow, Ledger, Capture, Reply, latest, is_forward, is_gone}
use n_quark.ShadowLedger.Rows.Latest.{latest_of-append, is_forward_audit, newest_later, IsBehind}
use n_quark.ShadowLedger.Observe.{
  Prepared, prepare, audit, advance, observe_absent, is_unchanged, settle_present, observe_present,
  observe_forward, observe_against, observe,
}

module _ {F : Type 0} where
  -- The row that a capture appends: keyed as the capture, and, if it is in order, newer than
  -- `prev`.
  pub record IsRowOf (c : Capture F) (p : Prepared F) (prev : Option (StateRow F)) (late : Bool)
      (row : StateRow F) : Type 0 where
    pub event : row.canonical_event_id ≡ c.canonical_event_id
    pub source : row.source_id ≡ c.source_id
    pub source_record : row.source_record_id ≡ c.source_record_id
    pub digest : row.capture_hash ≡ p.capture_hash
    pub instant : row.observed_at ≡ p.observed_at
    pub flag : row.out_of_order ≡ late
    pub ahead : (late ≡ true) ⊎ IsBehind prev row.observed_at

  -- What a capture does to the ledger: nothing, or one appended row with the transitions of the
  -- reply behind those that were there.
  pub data Written (c : Capture F) (p : Prepared F) (prev : Option (StateRow F)) (l : Ledger F)
      (reply : Reply F) (l' : Ledger F) : Type 0 where
    kept : reply.persisted ≡ false → l' ≡ l → Written c p prev l reply l'
    appended :
        (row : StateRow F)
        → reply.persisted ≡ true
        → reply.state ≡ some row
        → l'.states ≡ l.states ++ row ∷ []
        → l'.transitions ≡ l.transitions ++ reply.transitions
        → IsRowOf c p prev reply.out_of_order row
        → Written c p prev l reply l'

module _ {F : Type 0} (env : Env F) (c : Capture F) (p : Prepared F) (l : Ledger F) where
  -- The result of a branch: what it has written, and that it was told so.
  abbrev IsWritten : Option (StateRow F) → Reply F × Ledger F → Type 0
  IsWritten prev (reply, l') = Written c p prev l reply l'

  audit-IsWritten :
      (prev : Option (StateRow F)) (reason : _) → IsWritten prev (audit env c p reason l)
  unfolding audit
  audit-IsWritten prev reason = appended _ refl refl refl (sym (append-nil l.transitions)) (record {
    event = refl;
    source = refl;
    source_record = refl;
    digest = refl;
    instant = refl;
    flag = refl;
    ahead = inl refl;
  })

  advance-IsWritten :
      (prev : Option (StateRow F)) (effective : _) (n : ℕ) (ts : _) (ss : _)
      → IsBehind prev p.observed_at
      → IsWritten prev (advance env c p prev effective n ts ss l)
  unfolding advance
  advance-IsWritten prev effective n ts ss ahead = appended _ refl refl refl refl (record {
    event = refl;
    source = refl;
    source_record = refl;
    digest = refl;
    instant = refl;
    flag = refl;
    ahead = inr ahead;
  })

  observe_absent-IsWritten :
      (prev : Option (StateRow F))
      → IsBehind prev p.observed_at
      → IsWritten prev (observe_absent env c p prev l)
  unfolding observe_absent
  observe_absent-IsWritten prev ahead = advance-IsWritten prev _ _ _ _ ahead

  settle_present-IsWritten :
      (prev : Option (StateRow F)) (ev : _)
      → IsBehind prev p.observed_at
      → IsWritten prev (settle_present env c p prev ev l)
  unfolding settle_present
  settle_present-IsWritten none ev ahead = advance-IsWritten none _ _ _ _ ahead
  settle_present-IsWritten (some row) ev ahead =
      if_ind (IsWritten (some row))
        (is_unchanged env (some row) (is_gone c.disappearance_threshold (some row))
          ev.effective_state)
        (λ h. kept refl refl) (λ h. advance-IsWritten (some row) _ _ _ _ ahead)

  observe_forward-IsWritten :
      (group : CaptureGroup) (prev : Option (StateRow F))
      → IsBehind prev p.observed_at
      → IsWritten prev (observe_forward env group c p prev l)
  unfolding observe_forward observe_present
  observe_forward-IsWritten CaptureGroup.non_authoritative prev ahead = kept refl refl
  observe_forward-IsWritten CaptureGroup.authoritative_absence prev ahead =
      observe_absent-IsWritten prev ahead
  observe_forward-IsWritten CaptureGroup.present prev ahead = settle_present-IsWritten prev _ ahead

  observe_against-IsWritten :
      (prev : Option (StateRow F)) → IsWritten prev (observe_against env c p prev l)
  unfolding observe_against
  observe_against-IsWritten none = observe_forward-IsWritten _ none tt
  observe_against-IsWritten (some row) =
      if_ind (IsWritten (some row)) (ltb p.observed_at row.observed_at)
        (λ h. audit-IsWritten (some row) _)
        (λ old.
          if_ind (IsWritten (some row)) (p.observed_at == row.observed_at)
            (λ same.
              if_ind (IsWritten (some row)) (str_eq row.capture_hash p.capture_hash)
                (λ h. kept refl refl) (λ h. audit-IsWritten (some row) _))
            (λ other. observe_forward-IsWritten _ (some row) (ground arith)))

module _ {F : Type 0} (env : Env F) (c : Capture F) (now : Time) (l : Ledger F) where
  -- The ledger is append-only in both of its tables: a capture leaves it as it is and says so, or it
  -- appends one row with the capture's keys, digest and instant, which is the state of the reply,
  -- and behind the transitions that were there those of the reply; a row in order is newer than the
  -- latest of its key.
  pub observe-IsWritten :
      let (reply, l') = observe env c now l in
      Written c
        (prepare env c now)
        (latest l c.canonical_event_id c.source_id c.source_record_id)
        l
        reply
        l'
  unfolding observe
  observe-IsWritten = observe_against-IsWritten env c (prepare env c now) l _

  -- A capture that is out of order or in conflict leaves the latest state of every key as it was.
  pub observe_audit :
      (event source : String) (record_id : Option String)
      → (observe env c now l).0.out_of_order ≡ true
      → latest (observe env c now l).1 event source record_id ≡ latest l event source record_id
  unfolding latest
  observe_audit event source record_id late = elim observe-IsWritten [
    | kept _ same ↦ rw same refl
    | appended row _ _ grown _ is_row ↦ rw grown (
        rw (latest_of-append (is_forward event source record_id) none l.states row)
          (rw (is_forward_audit event source record_id row (is_row.flag ∙ late)) refl))
  ]

  -- A row of the capture that is in order is a forward row of the capture's key.
  is_forward_own :
      (record_id : Option String) (row : StateRow F)
      → row.canonical_event_id ≡ c.canonical_event_id
      → row.source_id ≡ c.source_id
      → row.source_record_id ≡ record_id
      → row.out_of_order ≡ false
      → is_forward c.canonical_event_id c.source_id record_id row ≡ true
  unfolding is_forward
  is_forward_own none row e s r late =
      rw e (rw s (rw late (rw (eq_refl c.canonical_event_id) (rw (eq_refl c.source_id) refl))))
  is_forward_own (some id) row e s r late = rw e (
      rw s (
        rw r (
          rw late
            (rw (eq_refl c.canonical_event_id) (rw (eq_refl c.source_id) (rw (eq_refl id) refl))))))

  is_behind :
      (prev : Option (StateRow F)) (row : StateRow F)
      → IsRowOf c (prepare env c now) prev (observe env c now l).0.out_of_order row
      → (observe env c now l).0.out_of_order ≡ false
      → IsBehind prev row.observed_at
  is_behind prev row is_row in_order = elim is_row.ahead [
    | inl late ↦ absurd (ground (arith, late, in_order))
    | inr ahead ↦ ahead
  ]

  -- A capture that is persisted in order becomes the latest state of its key.
  pub latest-observe :
      (observe env c now l).0.persisted ≡ true
      → (observe env c now l).0.out_of_order ≡ false
      → latest (observe env c now l).1 c.canonical_event_id c.source_id c.source_record_id
        ≡ (observe env c now l).0.state
  unfolding latest
  latest-observe persisted in_order = elim observe-IsWritten [
    | kept not_persisted _ ↦ ground arith
    | appended row _ shown grown _ is_row ↦ rw grown (
        rw
          (latest_of-append (is_forward c.canonical_event_id c.source_id c.source_record_id) none
            l.states row)
          (rw
            (is_forward_own c.source_record_id row is_row.event is_row.source is_row.source_record
              (is_row.flag ∙ in_order))
            (newest_later _ row (is_behind _ row is_row in_order) ∙ sym shown)))
  ]
