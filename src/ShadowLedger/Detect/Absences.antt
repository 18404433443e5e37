-- ===== src/ShadowLedger/Detect/Absences.antt =====
-- The bookkeeping of absences over any sequence of authoritative absences.
use n_quark.Prelude.{
  ℕ, ◌+◌, ◌≤◌, ◌≡◌, Bool, true, false, List, [], ◌∷◌, ◌++◌, arith, leb, length, length-append,
  Every, Every-append,
}
use n_quark.ShadowLedger.Fields.{CaptureStatus, event_disappeared}
use n_quark.ShadowLedger.Detect.{Transition, AbsenceStep, absence_step}

abbrev pub one_if : Bool → ℕ
one_if true = 1
one_if false = 0

module _ (F : Type 0) (threshold : ℕ) where
  -- The count, whether the event has disappeared, and the transitions of a sequence of absences.
  pub absences : ℕ → Bool → List CaptureStatus → ℕ × Bool × List (Transition F)
  absences n gone [] = (n, gone, [])
  absences n gone (st ∷ rest) =
      let step : AbsenceStep F = absence_step n gone st threshold in
      let (n', gone', ts) = absences step.absence_count step.now_disappeared rest in
      (n', gone', step.transitions ++ ts)

  step_types :
      (n : ℕ) (gone : Bool) (st : CaptureStatus)
      → let step : AbsenceStep F = absence_step n gone st threshold in
        Every (λ t. t.transition_type ≡ event_disappeared) step.transitions
  unfolding absence_step
  step_types n gone st = ground arith

  step_lem :
      (n : ℕ) (gone : Bool) (st : CaptureStatus)
      → gone ≡ leb threshold n
      → let step : AbsenceStep F = absence_step n gone st threshold in
        (step.now_disappeared ≡ leb threshold step.absence_count)
        × (length step.transitions + one_if gone ≡ one_if step.now_disappeared)
        × (n ≤ step.absence_count)
        × Every (λ t. t.transition_type ≡ event_disappeared) step.transitions
  unfolding absence_step
  step_lem n gone st h = ground (arith, step_types n gone st)

  -- Over any sequence of absences, from bookkeeping in which the event counts as disappeared
  -- exactly from the threshold on: that stays so, the count does not fall, one transition is emitted
  -- if the event passes from visible to disappeared and none otherwise, and it is an
  -- EVENT_DISAPPEARED.
  pub absences_lem :
      (n : ℕ) (gone : Bool) (history : List CaptureStatus)
      → gone ≡ leb threshold n
      → let (n', gone', ts) = absences n gone history in
        (gone' ≡ leb threshold n')
        × (n ≤ n')
        × (length ts + one_if gone ≡ one_if gone')
        × Every (λ t. t.transition_type ≡ event_disappeared) ts
  unfolding absences
  absences_lem n gone [] h = (h, omega arith, omega arith, tt)
  absences_lem n gone (st ∷ rest) h =
      let step : AbsenceStep F = absence_step n gone st threshold in
      let (kept, counted, grows, types) = step_lem n gone st h in
      let (n', gone', ts) = absences step.absence_count step.now_disappeared rest in
      let (k, g, c, more) = absences_lem step.absence_count step.now_disappeared rest kept in
      (
        k,
        omega arith,
        omega (arith, length-append step.transitions ts, counted, c),
        Every-append _ step.transitions ts types more,
      )
