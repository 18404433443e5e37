-- ===== src/ShadowLedger/Rows.antt =====
-- services/graph-service/graph_service/shadow_store.py: the tables of the ledger, the lookup of the
-- latest forward state and the replies.
pub mod Latest
use n_quark.Prelude.{
  ℕ, zero, suc, ◌+◌, String, Bool, true, false, not, ◌&&◌, ◌||◌, Option, none, some, List, [], ◌∷◌,
  ◌++◌, ltb, leb, ◌==◌, if◌then◌else◌, str_eq, opt_str_eq, or_empty, or_else, is_some,
}
use n_quark.Prelude.Time.{Time}
use n_quark.ShadowLedger.Fields.{
  Field, TransitionType, event_reappeared, FieldStatus, observed_value, is_observing, CaptureStatus,
  capture_success_record_present, capture_success_record_absent, source_unavailable, capture_failed,
  parser_failed, not_checked, explicitly_removed, CaptureGroup, capture_group, Reason, Value,
  RawState, Effective, Statuses, Env, canonical, resolve_field_statuses,
}
use n_quark.ShadowLedger.Detect.{
  Transition, CaptureEvaluation, Suppressed, or_unseen, plain, confidence, evaluate_present_capture,
  AbsenceStep, absence_step,
}

pub record StateRow (F : Type 0) : Type 0 where
  pub id : ℕ
  pub canonical_event_id : String
  pub source_id : String
  pub source_record_id : Option String
  pub observed_at : Time
  pub state_hash : String
  pub normalized_state : Effective F
  pub previous_state_id : Option ℕ
  pub created_at : Time
  pub capture_status : CaptureStatus
  pub field_status : Statuses
  pub capture_hash : String
  pub out_of_order : Bool
  pub absence_count : ℕ

pub record TransitionRow (F : Type 0) : Type 0 where
  pub canonical_event_id : String
  pub source_id : String
  pub from_state_id : Option ℕ
  pub to_state_id : ℕ
  pub transition : Transition F
  pub confidence : ℕ
  pub detected_at : Time

-- `fresh` stands for `uuid4`.
pub record Ledger (F : Type 0) : Type 0 where
  pub states : List (StateRow F)
  pub transitions : List (TransitionRow F)
  pub fresh : ℕ

pub record Capture (F : Type 0) : Type 0 where
  pub canonical_event_id : String
  pub source_id : String
  pub raw_state : RawState F
  pub source_record_id : Option String
  pub observed_at : Option Time
  pub field_status : Field → Option FieldStatus
  pub capture_status : Option CaptureStatus
  pub present : Bool
  pub absence_reason : Option String
  pub disappearance_threshold : ℕ

pub record Reply (F : Type 0) : Type 0 where
  pub noop : Bool
  pub persisted : Bool
  pub out_of_order : Bool
  pub capture_status : CaptureStatus
  pub absence_count : ℕ
  pub state : Option (StateRow F)
  pub transitions : List (TransitionRow F)
  pub suppressed : List Suppressed

-- `_REASON_TO_STATUS`
reason_status : String → CaptureStatus
reason_status reason =
    if str_eq reason "record_absent" || str_eq reason "not_found"
    then capture_success_record_absent
    else if str_eq reason "explicitly_removed"
    then explicitly_removed
    else if str_eq reason "capture_failure"
    then capture_failed
    else if str_eq reason "source_unavailable"
    then source_unavailable
    else if str_eq reason "parser_failure"
    then parser_failed
    else not_checked

unfoldable pub derive_capture_status : Bool → Option String → Option CaptureStatus → CaptureStatus
unfolding reason_status
derive_capture_status present reason (some status) = status
derive_capture_status true reason none = capture_success_record_present
derive_capture_status false reason none = reason_status (or_empty reason)

abbrev is_status_removed : CaptureStatus → Bool
is_status_removed explicitly_removed = true
is_status_removed _ = false

abbrev pub is_status_present : CaptureStatus → Bool
is_status_present capture_success_record_present = true
is_status_present _ = false

module _ {F : Type 0} where
  -- The filter of `_latest`: forward rows of the event and source, of one record if it is named.
  unfoldable pub is_forward : String → String → Option String → StateRow F → Bool
  is_forward event source none row =
      str_eq row.canonical_event_id event && str_eq row.source_id source && not row.out_of_order
  is_forward event source (some record_id) row =
      str_eq row.canonical_event_id event
      && str_eq row.source_id source
      && opt_str_eq row.source_record_id (some record_id)
      && not row.out_of_order

  -- `ORDER BY observed_at DESC, created_at DESC, id DESC`
  unfoldable pub is_newer : StateRow F → StateRow F → Bool
  is_newer a b =
      ltb b.observed_at a.observed_at
      || (a.observed_at == b.observed_at
          && (ltb b.created_at a.created_at || (a.created_at == b.created_at && ltb b.id a.id)))

  unfoldable pub newest : Option (StateRow F) → StateRow F → Option (StateRow F)
  newest none row = some row
  newest (some best) row = if is_newer row best then some row else some best

  unfoldable pub latest_of :
      (StateRow F → Bool) → Option (StateRow F) → List (StateRow F) → Option (StateRow F)
  latest_of pick best [] = best
  latest_of pick best (row ∷ rest) =
      latest_of pick (if pick row then newest best row else best) rest

  unfoldable pub latest : Ledger F → String → String → Option String → Option (StateRow F)
  unfolding latest_of newest is_newer is_forward
  latest l event source record_id = latest_of (is_forward event source record_id) none l.states

  unfoldable pub persist_transitions :
      Capture F → Option ℕ → ℕ → Time → List (Transition F) → List (TransitionRow F)
  unfolding confidence
  persist_transitions c from to now [] = []
  persist_transitions c from to now (t ∷ rest) =
      record {
        canonical_event_id = c.canonical_event_id;
        source_id = c.source_id;
        from_state_id = from;
        to_state_id = to;
        transition = t;
        confidence = confidence t.transition_type;
        detected_at = now;
      }
      ∷ persist_transitions c from to now rest

  abbrev pub id_of : Option (StateRow F) → Option ℕ
  id_of none = none
  id_of (some row) = some row.id

  abbrev pub effective_of : Option (StateRow F) → Option (Effective F)
  effective_of none = none
  effective_of (some row) = some row.normalized_state

  abbrev pub absences_of : Option (StateRow F) → ℕ
  absences_of none = 0
  absences_of (some row) = row.absence_count

  -- `prev_disappeared`
  abbrev pub is_gone : ℕ → Option (StateRow F) → Bool
  is_gone threshold none = false
  is_gone threshold (some row) =
      leb threshold row.absence_count || is_status_removed row.capture_status

  abbrev pub unchanged : Reason → CaptureStatus → ℕ → Reply F
  unchanged reason status absences = record {
    noop = false;
    persisted = false;
    out_of_order = false;
    capture_status = status;
    absence_count = absences;
    state = none;
    transitions = [];
    suppressed = (none, reason) ∷ [];
  }

  abbrev pub noop_reply : StateRow F → List Suppressed → CaptureStatus → ℕ → Reply F
  noop_reply row suppressed status absences = record {
    noop = true;
    persisted = false;
    out_of_order = false;
    capture_status = status;
    absence_count = absences;
    state = some row;
    transitions = [];
    suppressed = suppressed;
  }
