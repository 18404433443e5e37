-- ===== src/ShadowLedger/Detect.antt =====
-- services/graph-service/graph_service/shadow_ledger.py: the merge of a present capture onto the
-- effective state with its transitions, and the bookkeeping of absences.
pub mod Merge
pub mod Once
pub mod Absences
use n_quark.Prelude.{
  ℕ, ◌+◌, max, Bool, true, false, not, ◌&&◌, ◌||◌, Option, none, some, List, [], ◌∷◌, ◌++◌, leb,
  ◌==◌, if◌then◌else◌,
}
use n_quark.ShadowLedger.Fields.{
  Field, price_min, currency, field_specs, TransitionType, event_first_seen, public_price_changed,
  event_disappeared, event_reappeared, transition_type, explicit_null_allowed, is_price,
  FieldStatus, observed_value, observed_null, not_observed, extraction_failed, not_supported,
  is_observing, CaptureStatus, explicitly_removed, Reason, Value, RawState, Effective, Statuses,
  Env, canonical, same_value,
}

-- `previous_value` and `current_value`: a value, the dict of price and currency, or the dict of
-- the capture status.
pub data Shown (F : Type 0) : Type 0 where
  value : Option (Value F) → Shown F
  price : (amount unit : Option (Value F)) → Shown F
  capture_status : CaptureStatus → Shown F

pub record Transition (F : Type 0) : Type 0 where
  pub transition_type : TransitionType
  pub field_name : Option Field
  pub previous_value : Shown F
  pub current_value : Shown F

-- `_DEFAULT_CONFIDENCE`, in hundredths; 0.9 for the other types.
unfoldable pub confidence : TransitionType → ℕ
confidence event_first_seen = 95
confidence event_disappeared = 70
confidence event_reappeared = 80
confidence _ = 90

abbrev pub Suppressed : Type 0
Suppressed = Option Field × Reason

pub record CaptureEvaluation (F : Type 0) : Type 0 where
  pub effective_state : Effective F
  pub transitions : List (Transition F)
  pub suppressed : List Suppressed
  pub first_seen : Bool

abbrev pub or_unseen : {F : Type 0} → Option (Effective F) → Effective F
or_unseen none = λ f. none
or_unseen (some e) = e

module _ {F : Type 0} (env : Env F) where
  -- One field of the effective state.
  pub merge_field :
      FieldStatus → Field → (previous : Option (Value F)) → RawState F → Option (Value F)
  merge_field observed_value f previous raw = canonical env f raw
  merge_field observed_null f previous raw = if explicit_null_allowed f then none else previous
  merge_field _ f previous raw = previous

  pub merge : Effective F → RawState F → Statuses → Effective F
  merge prev raw statuses f = merge_field (statuses f) f (prev f) raw

abbrev first_reason : FieldStatus → Field → List Suppressed
first_reason observed_value f = []
first_reason observed_null f =
    if explicit_null_allowed f then [] else (some f, Reason.explicit_null_not_allowed) ∷ []
first_reason not_observed f = (some f, Reason.field_not_observed) ∷ []
first_reason extraction_failed f = (some f, Reason.extraction_failed) ∷ []
first_reason not_supported f = []

merge_reasons : Statuses → List Field → List Suppressed
merge_reasons statuses [] = []
merge_reasons statuses (f ∷ rest) = first_reason (statuses f) f ++ merge_reasons statuses rest

-- `st in _OBSERVING`, less the nulls that were suppressed by the merge.
abbrev pub is_compared : FieldStatus → Field → Bool
is_compared observed_value f = true
is_compared observed_null f = explicit_null_allowed f
is_compared _ f = false

module _ {F : Type 0} (env : Env F) (prev effective : Effective F) (statuses : Statuses) where
  pub price_step : List (Transition F) × List Suppressed
  price_step =
      let observing = is_observing (statuses price_min) || is_observing (statuses currency) in
      let changed =
        not (same_value env (effective price_min) (prev price_min))
        || not (same_value env (effective currency) (prev currency)) in
      if observing && changed
      then (
        record {
          transition_type = public_price_changed;
          field_name = some price_min;
          previous_value = price (prev price_min) (prev currency);
          current_value = price (effective price_min) (effective currency);
        }
            ∷ [],
        [],
      )
      else (
        [],
        if observing && not changed then (some price_min, Reason.no_value_change) ∷ [] else [],
      )

  pub field_step : Field → List (Transition F) × List Suppressed
  field_step f =
      if is_price f || not (is_compared (statuses f) f)
      then ([], [])
      else if not (same_value env (prev f) (effective f))
      then (
        record {
          transition_type = transition_type f;
          field_name = some f;
          previous_value = value (prev f);
          current_value = value (effective f);
        }
            ∷ [],
        [],
      )
      else ([], (some f, Reason.no_value_change) ∷ [])

  pub field_steps : List Field → List (Transition F) × List Suppressed
  field_steps [] = ([], [])
  field_steps (f ∷ rest) =
      let (ts, ss) = field_step f in let (ts', ss') = field_steps rest in (ts ++ ts', ss ++ ss')

abbrev pub plain : {F : Type 0} → TransitionType → Transition F
plain t = record {
  transition_type = t;
  field_name = none;
  previous_value = value none;
  current_value = value none;
}

module _ {F : Type 0} (env : Env F) where
  pub compare_states : Effective F → RawState F → Statuses → CaptureEvaluation F
  unfolding merge merge_field merge_reasons price_step field_step field_steps
  compare_states prev raw statuses =
      let effective = merge env prev raw statuses in
      let (price_ts, price_ss) = price_step env prev effective statuses in
      let (ts, ss) = field_steps env prev effective statuses field_specs in
      record {
        effective_state = effective;
        transitions = price_ts ++ ts;
        suppressed = merge_reasons statuses field_specs ++ (price_ss ++ ss);
        first_seen = false;
      }

  first_capture : RawState F → Statuses → CaptureEvaluation F
  unfolding merge merge_field merge_reasons
  first_capture raw statuses = record {
    effective_state = merge env (λ f. none) raw statuses;
    transitions = plain event_first_seen ∷ [];
    suppressed = merge_reasons statuses field_specs;
    first_seen = true;
  }

  unfoldable pub evaluate_present_capture :
      Option (Effective F) → RawState F → Statuses → CaptureEvaluation F
  unfolding compare_states first_capture
  evaluate_present_capture none raw statuses = first_capture raw statuses
  evaluate_present_capture (some prev) raw statuses = compare_states prev raw statuses

abbrev pub disappeared : {F : Type 0} → CaptureStatus → Transition F
disappeared st = record {
  transition_type = event_disappeared;
  field_name = none;
  previous_value = value none;
  current_value = capture_status st;
}

pub record AbsenceStep (F : Type 0) : Type 0 where
  pub absence_count : ℕ
  pub now_disappeared : Bool
  pub transitions : List (Transition F)
  pub suppressed : List Suppressed

abbrev not_met : List Suppressed
not_met = (none, Reason.disappearance_threshold_not_met) ∷ []

abbrev is_removed : CaptureStatus → Bool
is_removed explicitly_removed = true
is_removed _ = false

unfoldable pub absence_step :
    {F : Type 0} → (absences : ℕ) → Bool → CaptureStatus → (threshold : ℕ) → AbsenceStep F
absence_step absences gone st threshold =
    if is_removed st
    then record {
      absence_count = max absences threshold;
      now_disappeared = true;
      transitions = if gone then [] else disappeared st ∷ [];
      suppressed = if gone then not_met else [];
    }
    else (let count = absences + 1 in
        if count == threshold && not gone
        then record {
          absence_count = count;
          now_disappeared = true;
          transitions = disappeared st ∷ [];
          suppressed = [];
        }
        else record {
          absence_count = count;
          now_disappeared = leb threshold count;
          transitions = [];
          suppressed = if leb threshold count then [] else not_met;
        })
