-- ===== src/ShadowLedger/Examples.antt =====
-- The theorems on the ledger at concrete captures of one show, with ℕ in place of floats.
use mathlib.Core.List.{Memᴰ}
use n_quark.Prelude.{
  ℕ, ◌+◌, ◌≤◌, ◌≡◌, refl, ◌⊎◌, String, true, false, Option, none, some, List, [], ◌∷◌, ◌==◌, leb,
  length, inl, inr, Every,
}
use n_quark.ShadowLedger.Fields.{
  Field, event_disappeared, status, venue, FieldStatus, observed_value, observed_null,
  CaptureStatus, capture_success_record_absent, capture_failed, CaptureGroup, capture_group, text,
  RawState, Effective, Statuses, Env, same_value, canonical,
}
use n_quark.ShadowLedger.Detect.{evaluate_present_capture}
use n_quark.ShadowLedger.Detect.Once.{IsOnceEach}
use n_quark.ShadowLedger.Detect.Merge.{
  change, IsChanged, IsPriceChange, evaluate_present_capture_complete,
  evaluate_present_capture_sound,
}
use n_quark.ShadowLedger.Detect.Absences.{one_if, absences, absences_lem}
use n_quark.ShadowLedger.Rows.{Ledger, Capture, derive_capture_status, latest}
use n_quark.ShadowLedger.Observe.{prepare, observe}
use n_quark.ShadowLedger.Observe.Order.{Written, observe-IsWritten, observe_audit, latest-observe}
use n_quark.ShadowLedger.Observe.Integrity.{
  observe_non_authoritative, observe_idem, observe_each, AreAside,
}

abbrev env : Env ℕ
env = record {
  round_money = λ x. x;
  round_ratio = λ x. x;
  same_float = λ a b. a == b;
  strip = λ s. s;
  iso_instant = λ s. s;
  state_digest = λ e. elim (e status) [ some (text t) ↦ t | _ ↦ "" ];
  capture_digest = λ e s. elim (e status) [ some (text t) ↦ t | _ ↦ "" ];
}

abbrev raw : Option String → RawState ℕ
raw st = record {
  price_min = none;
  currency = none;
  capacity = none;
  tickets_sold = none;
  fill_ratio = none;
  availability = none;
  starts_at = none;
  ends_at = none;
  event_date = none;
  venue = none;
  status = st;
  provider_lifecycle = none;
}

abbrev capture : Option String → ℕ → Capture ℕ
capture st at = record {
  canonical_event_id = "e";
  source_id = "s";
  raw_state = raw st;
  source_record_id = none;
  observed_at = some at;
  field_status = λ f. none;
  capture_status = none;
  present = true;
  absence_reason = none;
  disappearance_threshold = 3;
}

abbrev failed : Capture ℕ
failed = record (capture none 50) { capture_status = some capture_failed }

abbrev empty_ledger : Ledger ℕ
empty_ledger = record { states = []; transitions = []; fresh = 0 }

abbrev filled : Ledger ℕ
filled = (observe env (capture (some "onsale") 20) 21 empty_ledger).1

observe-IsWritten_example :
    Written
      (capture (some "sold") 30)
      (prepare env (capture (some "sold") 30) 31)
      (latest filled "e" "s" none)
      filled
      (observe env (capture (some "sold") 30) 31 filled).0
      (observe env (capture (some "sold") 30) 31 filled).1
observe-IsWritten_example = observe-IsWritten env (capture (some "sold") 30) 31 filled

late_lem : (observe env (capture (some "sold") 10) 31 filled).0.out_of_order ≡ true
unfolding observe latest derive_capture_status
late_lem = refl

observe_audit_example :
    latest (observe env (capture (some "sold") 10) 31 filled).1 "e" "s" none
    ≡ latest filled "e" "s" none
observe_audit_example = observe_audit env (capture (some "sold") 10) 31 filled "e" "s" none late_lem

stored_lem :
    ((observe env (capture (some "onsale") 20) 21 empty_ledger).0.persisted ≡ true)
    × ((observe env (capture (some "onsale") 20) 21 empty_ledger).0.out_of_order ≡ false)
unfolding observe latest derive_capture_status
stored_lem = (refl, refl)

latest-observe_example :
    latest filled "e" "s" none ≡ (observe env (capture (some "onsale") 20) 21 empty_ledger).0.state
latest-observe_example =
    latest-observe env (capture (some "onsale") 20) 21 empty_ledger stored_lem.0 stored_lem.1

aside_lem :
    AreAside env
      (capture (some "onsale") 20)
      ((failed, 51) ∷ (capture (some "sold") 10, 52) ∷ [])
      filled
unfolding AreAside observe derive_capture_status latest
aside_lem = (inl refl, (inr (inl refl), tt))

observe_idem_example :
    let l' =
      observe_each env
        (capture (some "onsale") 20)
        ((failed, 51) ∷ (capture (some "sold") 10, 52) ∷ [])
        filled in
    ((observe env (capture (some "onsale") 20) 90 l').0.noop ≡ true)
    × ((observe env (capture (some "onsale") 20) 90 l').1 ≡ l')
observe_idem_example =
    observe_idem env (capture (some "onsale") 20) 20 21 90 empty_ledger
      ((failed, 51) ∷ (capture (some "sold") 10, 52) ∷ []) refl stored_lem.0 stored_lem.1 aside_lem

failed_lem : capture_group (prepare env failed 51).status ≡ CaptureGroup.non_authoritative
unfolding prepare derive_capture_status
failed_lem = refl

observe_non_authoritative_example :
    let (reply, l') = observe env failed 51 filled in
    (l'.transitions ≡ filled.transitions)
    × (reply.transitions ≡ [])
    × (latest l' "e" "s" none ≡ latest filled "e" "s" none)
observe_non_authoritative_example =
    observe_non_authoritative env failed 51 filled "e" "s" none failed_lem

abbrev before : Effective ℕ
before venue = some (text "hall")
before status = some (text "onsale")
before _ = none

abbrev seen : Statuses
seen status = observed_value
seen venue = observed_null
seen _ = FieldStatus.not_observed

changed_lem :
    let ev = evaluate_present_capture env (some before) (raw (some "sold")) seen in
    IsChanged env before (raw (some "sold")) seen ev.effective_state status
unfolding evaluate_present_capture same_value canonical
changed_lem = (refl, refl, refl)

evaluate_present_capture_complete_example :
    let ev = evaluate_present_capture env (some before) (raw (some "sold")) seen in
    Memᴰ (change before ev.effective_state status) ev.transitions
evaluate_present_capture_complete_example =
    evaluate_present_capture_complete env before (raw (some "sold")) seen status changed_lem

evaluate_present_capture_sound_example :
    let ev = evaluate_present_capture env (some before) (raw (some "sold")) seen in
    (IsPriceChange env before
        (raw (some "sold"))
        seen
        ev.effective_state
        (change before ev.effective_state status)
      ⊎ ((f : Field) × ((change before ev.effective_state status
              ≡ change before ev.effective_state f)
            × IsChanged env before (raw (some "sold")) seen ev.effective_state f)))
    × IsOnceEach ev.transitions
evaluate_present_capture_sound_example =
    evaluate_present_capture_sound env before (raw (some "sold")) seen
      (change before
        (evaluate_present_capture env (some before) (raw (some "sold")) seen).effective_state
        status)
      evaluate_present_capture_complete_example

abbrev missed : List CaptureStatus
missed =
    capture_success_record_absent ∷ capture_success_record_absent ∷ capture_success_record_absent
    ∷ []

absences_lem_example :
    let (n', gone', ts) = absences ℕ 3 0 false missed in
    (gone' ≡ leb 3 n')
    × (0 ≤ n')
    × (length ts + one_if false ≡ one_if gone')
    × Every (λ t. t.transition_type ≡ event_disappeared) ts
absences_lem_example = absences_lem ℕ 3 0 false missed refl
