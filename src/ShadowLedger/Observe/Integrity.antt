-- ===== src/ShadowLedger/Observe/Integrity.antt =====
-- What a capture may not do to the ledger: a failed check, and a capture that is sent again.
use n_quark.Prelude.{
  ◌≡◌, refl, ap, ◌⊎◌, inl, inr, ◌∙◌, String, true, false, Option, none, some, List, [], ◌∷◌, ◌&&◌,
  arith, ltb, ◌==◌, str_eq, eq_refl, if_ind,
}
use n_quark.Prelude.Time.{Time}
use n_quark.ShadowLedger.Fields.{CaptureGroup, capture_group, Reason, Env}
use n_quark.ShadowLedger.Rows.{StateRow, Ledger, Capture, Reply, latest, is_forward}
use n_quark.ShadowLedger.Rows.Latest.{latest_of-append}
use n_quark.ShadowLedger.Observe.{
  Prepared, prepare, audit, observe_forward, observe_against, observe,
}
use n_quark.ShadowLedger.Observe.Order.{
  kept, appended, observe-IsWritten, latest-observe, observe_audit,
}

module _ {F : Type 0} (env : Env F) (c : Capture F) where
  -- A result that leaves no forward trace.
  abbrev IsSilent : Ledger F → Reply F × Ledger F → Type 0
  IsSilent l (reply, l') =
      (l'.transitions ≡ l.transitions)
      × (reply.transitions ≡ [])
      × ((l' ≡ l) ⊎ (reply.out_of_order ≡ true))

  forward-IsSilent :
      (p : Prepared F) (prev : Option (StateRow F)) (l : Ledger F) (group : CaptureGroup)
      → group ≡ CaptureGroup.non_authoritative
      → IsSilent l (observe_forward env group c p prev l)
  unfolding observe_forward
  forward-IsSilent p prev l CaptureGroup.non_authoritative h = (refl, refl, inl refl)
  forward-IsSilent p prev l CaptureGroup.authoritative_absence h = ground arith
  forward-IsSilent p prev l CaptureGroup.present h = ground arith

  audit-IsSilent :
      (p : Prepared F) (reason : Reason) (l : Ledger F) → IsSilent l (audit env c p reason l)
  unfolding audit
  audit-IsSilent p reason l = (refl, refl, inr refl)

  against-IsSilent :
      (p : Prepared F) (prev : Option (StateRow F)) (l : Ledger F)
      → capture_group p.status ≡ CaptureGroup.non_authoritative
      → IsSilent l (observe_against env c p prev l)
  unfolding observe_against
  against-IsSilent p none l h = forward-IsSilent p none l (capture_group p.status) h
  against-IsSilent p (some row) l h =
      if_ind (IsSilent l) (ltb p.observed_at row.observed_at)
        (λ _. audit-IsSilent p Reason.out_of_order l)
        (λ _.
          if_ind (IsSilent l) (p.observed_at == row.observed_at)
            (λ _.
              if_ind (IsSilent l) (str_eq row.capture_hash p.capture_hash)
                (λ _. (refl, refl, inl refl))
                (λ _. audit-IsSilent p Reason.conflicting_timestamp l))
            (λ _. forward-IsSilent p (some row) l (capture_group p.status) h))

  -- A capture whose status is not authoritative emits no transition and leaves the latest state of
  -- every key, with its effective values and its count of absences, as it was.
  pub observe_non_authoritative :
      (now : Time) (l : Ledger F) (event source : String) (record_id : Option String)
      → capture_group (prepare env c now).status ≡ CaptureGroup.non_authoritative
      → let (reply, l') = observe env c now l in
        (l'.transitions ≡ l.transitions)
        × (reply.transitions ≡ [])
        × (latest l' event source record_id ≡ latest l event source record_id)
  unfolding observe
  observe_non_authoritative now l event source record_id h =
      let (before, quiet, how) =
        against-IsSilent (prepare env c now)
          (latest l c.canonical_event_id c.source_id c.source_record_id) l h in
      (
        before,
        quiet,
        elim how [
          | inl same ↦ ap (λ k. latest k event source record_id) same
          | inr late ↦ observe_audit env c now l event source record_id late
        ],
      )

  resent :
      (p : Prepared F) (row : StateRow F) (l : Ledger F)
      → row.observed_at ≡ p.observed_at
      → row.capture_hash ≡ p.capture_hash
      → ((observe_against env c p (some row) l).0.noop ≡ true)
        × ((observe_against env c p (some row) l).1 ≡ l)
  unfolding observe_against
  resent p row l t d = ground (arith, eq_refl p.capture_hash)

  -- A capture that finds its own instant and digest in the latest state of its key is a no-op.
  resent_to :
      (now : Time) (l : Ledger F) (row : StateRow F)
      → latest l c.canonical_event_id c.source_id c.source_record_id ≡ some row
      → row.observed_at ≡ (prepare env c now).observed_at
      → row.capture_hash ≡ (prepare env c now).capture_hash
      → ((observe env c now l).0.noop ≡ true) × ((observe env c now l).1 ≡ l)
  unfolding observe
  resent_to now l row found t d = rw found (resent (prepare env c now) row l t d)

  -- What is computed of a capture with an instant of its own does not depend on when it is sent,
  -- but for the instant of the row's creation.
  prepare_again :
      (t now later : Time)
      → c.observed_at ≡ some t
      → ((prepare env c now).observed_at ≡ (prepare env c later).observed_at)
        × ((prepare env c now).capture_hash ≡ (prepare env c later).capture_hash)
  unfolding prepare
  prepare_again t now later h = (rw h refl, refl)

  -- A capture that does not move the latest state of the key of `c`: it is not persisted, it is out
  -- of order, or it is of another event or source.
  abbrev pub IsAside : Capture F → Time → Ledger F → Type 0
  IsAside d at l =
      ((observe env d at l).0.persisted ≡ false)
      ⊎ ((observe env d at l).0.out_of_order ≡ true)
      ⊎ (str_eq d.canonical_event_id c.canonical_event_id && str_eq d.source_id c.source_id ≡ false)

  -- Captures in turn.
  unfoldable pub observe_each : List (Capture F × Time) → Ledger F → Ledger F
  observe_each [] l = l
  observe_each ((d, at) ∷ rest) l = observe_each rest (observe env d at l).1

  unfoldable pub AreAside : List (Capture F × Time) → Ledger F → Type 0
  AreAside [] l = Unit
  AreAside ((d, at) ∷ rest) l = IsAside d at l × AreAside rest (observe env d at l).1

  not_forward :
      (d : Capture F) (record_id : Option String) (row : StateRow F)
      → row.canonical_event_id ≡ d.canonical_event_id
      → row.source_id ≡ d.source_id
      → str_eq d.canonical_event_id c.canonical_event_id && str_eq d.source_id c.source_id ≡ false
      → is_forward c.canonical_event_id c.source_id record_id row ≡ false
  unfolding is_forward
  not_forward d none row e s other = rw (e, s) (ground (arith, other))
  not_forward d (some id) row e s other = rw (e, s) (ground (arith, other))

  aside-latest :
      (d : Capture F) (at : Time) (l : Ledger F)
      → IsAside d at l
      → latest (observe env d at l).1 c.canonical_event_id c.source_id c.source_record_id
        ≡ latest l c.canonical_event_id c.source_id c.source_record_id
  unfolding latest
  aside-latest d at l (inl silent) = elim (observe-IsWritten env d at l) [
    | kept _ same ↦ rw same refl
    | appended row told _ _ _ _ ↦ absurd (ground (arith, silent, told))
  ]
  aside-latest d at l (inr (inl late)) =
      observe_audit env d at l c.canonical_event_id c.source_id c.source_record_id late
  aside-latest d at l (inr (inr other)) = elim (observe-IsWritten env d at l) [
    | kept _ same ↦ rw same refl
    | appended row _ _ grown _ is_row ↦ rw grown (
        rw
          (latest_of-append (is_forward c.canonical_event_id c.source_id c.source_record_id) none
            l.states row)
          (rw (not_forward d c.source_record_id row is_row.event is_row.source other) refl))
  ]

  each-latest :
      (between : List (Capture F × Time)) (l : Ledger F)
      → AreAside between l
      → latest (observe_each between l) c.canonical_event_id c.source_id c.source_record_id
        ≡ latest l c.canonical_event_id c.source_id c.source_record_id
  unfolding observe_each AreAside
  each-latest [] l h = refl
  each-latest ((d, at) ∷ rest) l h =
      each-latest rest (observe env d at l).1 h.1 ∙ aside-latest d at l h.0

  -- Idempotence: a capture with an instant of its own, once persisted in order, is a no-op when it
  -- is sent again, and the ledger stays as it is, after any captures in between that are not
  -- persisted, are out of order, or are of another event or source.
  pub observe_idem :
      (t now later : Time) (l : Ledger F) (between : List (Capture F × Time))
      → c.observed_at ≡ some t
      → (observe env c now l).0.persisted ≡ true
      → (observe env c now l).0.out_of_order ≡ false
      → AreAside between (observe env c now l).1
      → let l' = observe_each between (observe env c now l).1 in
        ((observe env c later l').0.noop ≡ true) × ((observe env c later l').1 ≡ l')
  observe_idem t now later l between h persisted in_order aside =
      elim (observe-IsWritten env c now l) [
        | kept not_persisted _ ↦ ground arith
        | appended row _ shown _ _ is_row ↦
            let again = prepare_again t now later h in
            resent_to later (observe_each between (observe env c now l).1) row
              (each-latest between (observe env c now l).1 aside
                ∙ latest-observe env c now l persisted in_order
                ∙ shown)
              (is_row.instant ∙ again.0) (is_row.digest ∙ again.1)
      ]
