-- ===== src/ShadowLedger/Observe.antt =====
-- services/graph-service/graph_service/shadow_store.py: ShadowStore.observe, the single write path.
pub mod Integrity
pub mod Order
use n_quark.Prelude.{
  ℕ, suc, String, Bool, true, false, not, ◌&&◌, Option, none, some, List, [], ◌∷◌, ◌++◌, ltb, ◌==◌,
  if◌then◌else◌, str_eq, or_else, is_some,
}
use n_quark.Prelude.Time.{Time}
use n_quark.ShadowLedger.Fields.{
  Field, event_reappeared, observed_value, is_observing, CaptureStatus, CaptureGroup, capture_group,
  Reason, Value, RawState, Effective, Statuses, Env, canonical, resolve_field_statuses,
}
use n_quark.ShadowLedger.Detect.{
  Transition, CaptureEvaluation, Suppressed, or_unseen, plain, evaluate_present_capture,
  AbsenceStep, absence_step,
}
use n_quark.ShadowLedger.Rows.{
  StateRow, Ledger, Capture, Reply, derive_capture_status, latest, persist_transitions, id_of,
  effective_of, absences_of, is_gone, is_status_present, unchanged, noop_reply,
}

-- What `observe` computes of a capture before it reads the store.
pub record Prepared (F : Type 0) : Type 0 where
  pub observed_at : Time
  pub now : Time
  pub status : CaptureStatus
  pub statuses : Statuses
  pub capture_hash : String

module _ {F : Type 0} (env : Env F) where
  -- The values that a capture observed: those of the fields with an observing status.
  observed : RawState F → Statuses → Effective F
  observed raw statuses f = if is_observing (statuses f) then canonical env f raw else none

  unfoldable pub prepare : Capture F → Time → Prepared F
  unfolding observed
  prepare c now =
      let statuses = resolve_field_statuses c.raw_state c.field_status in
      record {
        observed_at = or_else c.observed_at now;
        now = now;
        status = derive_capture_status c.present c.absence_reason c.capture_status;
        statuses = statuses;
        capture_hash = env.capture_digest (observed c.raw_state statuses) statuses;
      }

  -- The row that `_insert_state` adds.
  state_row :
      Capture F
      → Prepared F
      → (id : ℕ) → Effective F
      → Option ℕ
      → (out_of_order : Bool) → (absences : ℕ) → StateRow F
  state_row c p id effective previous late absences = record {
    id = id;
    canonical_event_id = c.canonical_event_id;
    source_id = c.source_id;
    source_record_id = c.source_record_id;
    observed_at = p.observed_at;
    state_hash = env.state_digest effective;
    normalized_state = effective;
    previous_state_id = previous;
    created_at = p.now;
    capture_status = p.status;
    field_status = p.statuses;
    capture_hash = p.capture_hash;
    out_of_order = late;
    absence_count = absences;
  }

  -- A row for audit alone: it is out of order, so `_latest` passes over it.
  pub audit : Capture F → Prepared F → Reason → Ledger F → Reply F × Ledger F
  unfolding state_row
  audit c p reason l =
      let shown : Effective F =
        λ f. elim (p.statuses f) [ observed_value ↦ canonical env f c.raw_state | _ ↦ none ] in
      let row = state_row c p l.fresh shown none true 0 in
      (
        record {
          noop = false;
          persisted = true;
          out_of_order = true;
          capture_status = p.status;
          absence_count = 0;
          state = some row;
          transitions = [];
          suppressed = (none, reason) ∷ [];
        },
        record l { states = l.states ++ row ∷ []; fresh = suc l.fresh },
      )

  -- A forward row with its transitions.
  pub advance :
      Capture F
      → Prepared F
      → Option (StateRow F)
      → Effective F
      → ℕ
      → List (Transition F)
      → List Suppressed
      → Ledger F
      → Reply F × Ledger F
  unfolding state_row persist_transitions
  advance c p prev effective absences transitions suppressed l =
      let row = state_row c p l.fresh effective (id_of prev) false absences in
      let new = persist_transitions c (id_of prev) l.fresh p.now transitions in
      (
        record {
          noop = false;
          persisted = true;
          out_of_order = false;
          capture_status = p.status;
          absence_count = absences;
          state = some row;
          transitions = new;
          suppressed = suppressed;
        },
        record {
          states = l.states ++ row ∷ [];
          transitions = l.transitions ++ new;
          fresh = suc l.fresh;
        },
      )

  pub observe_absent : Capture F → Prepared F → Option (StateRow F) → Ledger F → Reply F × Ledger F
  unfolding advance absence_step
  observe_absent c p prev l =
      let gone = is_gone c.disappearance_threshold prev in
      let step : AbsenceStep F =
        absence_step (absences_of prev) gone p.status c.disappearance_threshold in
      advance c p prev (or_unseen (effective_of prev)) step.absence_count step.transitions
        step.suppressed l

  -- The latest row is a present one and has the hash of the new effective state.
  abbrev pub is_unchanged : Option (StateRow F) → Bool → Effective F → Bool
  is_unchanged none gone effective = false
  is_unchanged (some row) gone effective =
      not gone
      && is_status_present row.capture_status
      && str_eq row.state_hash (env.state_digest effective)

  pub settle_present :
      Capture F
      → Prepared F
      → Option (StateRow F)
      → CaptureEvaluation F
      → Ledger F
      → Reply F × Ledger F
  unfolding advance
  settle_present c p none ev l =
      advance c p none ev.effective_state 0 ev.transitions ev.suppressed l
  settle_present c p (some row) ev l =
      let gone = is_gone c.disappearance_threshold (some row) in
      if is_unchanged (some row) gone ev.effective_state
      then (noop_reply row ev.suppressed p.status 0, l)
      else advance c p (some row) ev.effective_state 0
          (if gone && not ev.first_seen
            then plain event_reappeared ∷ ev.transitions
            else ev.transitions)
          ev.suppressed l

  pub observe_present : Capture F → Prepared F → Option (StateRow F) → Ledger F → Reply F × Ledger F
  unfolding settle_present evaluate_present_capture
  observe_present c p prev l =
      settle_present c p prev
        (evaluate_present_capture env (effective_of prev) c.raw_state p.statuses) l

  -- A capture that is not behind the latest state.
  pub observe_forward :
      CaptureGroup → Capture F → Prepared F → Option (StateRow F) → Ledger F → Reply F × Ledger F
  unfolding observe_absent observe_present
  observe_forward CaptureGroup.non_authoritative c p prev l =
      (unchanged (Reason.capture p.status) p.status (absences_of prev), l)
  observe_forward CaptureGroup.authoritative_absence c p prev l = observe_absent c p prev l
  observe_forward CaptureGroup.present c p prev l = observe_present c p prev l

  -- The temporal ordering against the latest row.
  pub observe_against : Capture F → Prepared F → Option (StateRow F) → Ledger F → Reply F × Ledger F
  unfolding audit observe_forward
  observe_against c p none l = observe_forward (capture_group p.status) c p none l
  observe_against c p (some row) l =
      if ltb p.observed_at row.observed_at
      then audit c p Reason.out_of_order l
      else if p.observed_at == row.observed_at
      then (if str_eq row.capture_hash p.capture_hash
          then (noop_reply row ((none, Reason.duplicate_state) ∷ []) p.status row.absence_count, l)
          else audit c p Reason.conflicting_timestamp l)
      else observe_forward (capture_group p.status) c p (some row) l

  unfoldable pub observe : Capture F → Time → Ledger F → Reply F × Ledger F
  unfolding observe_against prepare
  observe c now l =
      observe_against c (prepare c now)
        (latest l c.canonical_event_id c.source_id c.source_record_id) l
