-- ===== src/ShadowLedger/Detect/Merge.antt =====
-- The comparison of a present capture with the effective state: what is carried, what is emitted.
use mathlib.Core.List.Memᴰ
use mathlib.Core.List.{Memᴰ}
use n_quark.Prelude.{
  ◌≡◌, refl, subst, true, false, not, ◌&&◌, ◌||◌, some, List, [], ◌∷◌, arith, ◌⊎◌, inl, inr, if_ind,
}
use n_quark.ShadowLedger.Detect.Once.{
  IsOnceEach, slots_once, occurs-append, field_steps_once, price_step_once,
}
use n_quark.ShadowLedger.Fields.{
  Field, price_min, currency, capacity, tickets_sold, fill_ratio, availability, starts_at, ends_at,
  event_date, venue, status, provider_lifecycle, field_specs, transition_type, public_price_changed,
  is_observing, is_price, RawState, Effective, Statuses, Env, same_value,
}
use n_quark.ShadowLedger.Detect.{
  value, price, Transition, Suppressed, is_compared, merge_field, merge, price_step, field_step,
  field_steps, compare_states, evaluate_present_capture,
}

-- The transition of a field from one state to another.
abbrev pub change : {F : Type 0} → (prev effective : Effective F) → Field → Transition F
change prev effective f = record {
  transition_type = transition_type f;
  field_name = some f;
  previous_value = value (prev f);
  current_value = value (effective f);
}

abbrev at_head : {f : Field} {fs : List Field} → Memᴰ f (f ∷ fs)
at_head = Memᴰ.head refl

-- Every field is in the registry.
in_field_specs : (f : Field) → Memᴰ f field_specs
in_field_specs price_min = at_head
in_field_specs currency = Memᴰ.tail at_head
in_field_specs capacity = Memᴰ.tail (Memᴰ.tail at_head)
in_field_specs tickets_sold = Memᴰ.tail (Memᴰ.tail (Memᴰ.tail at_head))
in_field_specs fill_ratio = Memᴰ.tail (Memᴰ.tail (Memᴰ.tail (Memᴰ.tail at_head)))
in_field_specs availability = Memᴰ.tail (Memᴰ.tail (Memᴰ.tail (Memᴰ.tail (Memᴰ.tail at_head))))
in_field_specs starts_at =
    Memᴰ.tail (Memᴰ.tail (Memᴰ.tail (Memᴰ.tail (Memᴰ.tail (Memᴰ.tail at_head)))))
in_field_specs ends_at =
    Memᴰ.tail (Memᴰ.tail (Memᴰ.tail (Memᴰ.tail (Memᴰ.tail (Memᴰ.tail (Memᴰ.tail at_head))))))
in_field_specs event_date =
    Memᴰ.tail
      (Memᴰ.tail (Memᴰ.tail (Memᴰ.tail (Memᴰ.tail (Memᴰ.tail (Memᴰ.tail (Memᴰ.tail at_head)))))))
in_field_specs venue = Memᴰ.tail (
    Memᴰ.tail
      (Memᴰ.tail (Memᴰ.tail (Memᴰ.tail (Memᴰ.tail (Memᴰ.tail (Memᴰ.tail (Memᴰ.tail at_head))))))))
in_field_specs status = Memᴰ.tail (
    Memᴰ.tail (
      Memᴰ.tail (
        Memᴰ.tail (Memᴰ.tail (Memᴰ.tail (Memᴰ.tail (Memᴰ.tail (Memᴰ.tail (Memᴰ.tail at_head)))))))))
in_field_specs provider_lifecycle = Memᴰ.tail (
    Memᴰ.tail (
      Memᴰ.tail (
        Memᴰ.tail (
          Memᴰ.tail
            (Memᴰ.tail (Memᴰ.tail (Memᴰ.tail (Memᴰ.tail (Memᴰ.tail (Memᴰ.tail at_head))))))))))

-- The transition of the price, one for its two fields.
abbrev price_change : {F : Type 0} → (prev effective : Effective F) → Transition F
price_change prev effective = record {
  transition_type = public_price_changed;
  field_name = some price_min;
  previous_value = price (prev price_min) (prev currency);
  current_value = price (effective price_min) (effective currency);
}

module _ {F : Type 0} (env : Env F) (prev : Effective F) (raw : RawState F)
    (statuses : Statuses) where
  -- A field that the capture does not compare keeps its effective value.
  evaluate_present_capture_carried :
      (f : Field)
      → is_compared (statuses f) f ≡ false
      → (evaluate_present_capture env (some prev) raw statuses).effective_state f ≡ prev f
  unfolding evaluate_present_capture merge merge_field
  evaluate_present_capture_carried f h = ground arith

  -- The fields that are compared, are not of the price and differ between the two states.
  abbrev pub IsChanged : (effective : Effective F) → Field → Type 0
  IsChanged effective f =
      (is_price f ≡ false)
      × (is_compared (statuses f) f ≡ true)
      × (same_value env (prev f) (effective f) ≡ false)

  abbrev pub IsPriceChange : (effective : Effective F) → Transition F → Type 0
  IsPriceChange effective t =
      (t ≡ price_change prev effective)
      × (is_observing (statuses price_min) || is_observing (statuses currency) ≡ true)
      × (same_value env (effective price_min) (prev price_min)
            && same_value env (effective currency) (prev currency)
          ≡ false)

  field_step_changed :
      (effective : Effective F) (f x : Field)
      → IsChanged effective f
      → f ≡ x
      → Memᴰ (change prev effective f) (field_step env prev effective statuses x).0
  unfolding field_step
  field_step_changed effective f x (a, b, d) e =
      subst (λ y. Memᴰ (change prev effective f) (field_step env prev effective statuses y).0) e
        (rw a (rw b (rw d (Memᴰ.head refl))))

  field_steps_complete :
      (effective : Effective F) (f : Field) (fs : List Field)
      → IsChanged effective f
      → Memᴰ f fs
      → Memᴰ (change prev effective f) (field_steps env prev effective statuses fs).0
  unfolding field_steps field_step
  field_steps_complete effective f [] h m = absurd (Memᴰ.not-nil m)
  field_steps_complete effective f (x ∷ fs) h (Memᴰ.head e) =
      Memᴰ.append_left (field_steps env prev effective statuses fs).0
        (field_step_changed effective f x h e)
  field_steps_complete effective f (x ∷ fs) h (Memᴰ.tail m) =
      Memᴰ.append_right (field_step env prev effective statuses x).0
        (field_steps_complete effective f fs h m)

  field_step_sound :
      (effective : Effective F) (t : Transition F) (x : Field)
      → Memᴰ t (field_step env prev effective statuses x).0
      → (t ≡ change prev effective x) × IsChanged effective x
  unfolding field_step
  field_step_sound effective t x =
      if_ind
        (λ (r : List (Transition F) × List Suppressed).
          Memᴰ t r.0 → (t ≡ change prev effective x) × IsChanged effective x)
        (is_price x || not (is_compared (statuses x) x)) (λ _ m. absurd (Memᴰ.not-nil m))
        (λ seen.
          if_ind
            (λ (r : List (Transition F) × List Suppressed).
              Memᴰ t r.0 → (t ≡ change prev effective x) × IsChanged effective x)
            (not (same_value env (prev x) (effective x)))
            (λ other m. (Memᴰ.eq_of_singleton m, (ground arith, ground arith, ground arith)))
            (λ _ m. absurd (Memᴰ.not-nil m)))

  field_steps_sound :
      (effective : Effective F) (t : Transition F) (fs : List Field)
      → Memᴰ t (field_steps env prev effective statuses fs).0
      → (f : Field) × ((t ≡ change prev effective f) × IsChanged effective f)
  unfolding field_steps
  field_steps_sound effective t [] m = absurd (Memᴰ.not-nil m)
  field_steps_sound effective t (x ∷ fs) m =
      elim (Memᴰ.append_cases (field_step env prev effective statuses x).0 m) [
        | inl now ↦ (x, field_step_sound effective t x now)
        | inr later ↦ field_steps_sound effective t fs later
      ]

  -- A present capture emits the transition of every field it compares that differs from the
  -- previous effective value, the fields of the price apart.
  pub evaluate_present_capture_complete :
      (f : Field)
      → let ev = evaluate_present_capture env (some prev) raw statuses in
        IsChanged ev.effective_state f → Memᴰ (change prev ev.effective_state f) ev.transitions
  unfolding evaluate_present_capture compare_states
  evaluate_present_capture_complete f h =
      let effective = merge env prev raw statuses in
      Memᴰ.append_right (price_step env prev effective statuses).0
        (field_steps_complete effective f field_specs h (in_field_specs f))

  price_step_sound :
      (effective : Effective F) (t : Transition F)
      → Memᴰ t (price_step env prev effective statuses).0
      → IsPriceChange effective t
  unfolding price_step
  price_step_sound effective t =
      if_ind (λ (r : List (Transition F) × List Suppressed). Memᴰ t r.0 → IsPriceChange effective t)
        ((is_observing (statuses price_min) || is_observing (statuses currency))
          && (not (same_value env (effective price_min) (prev price_min))
              || not (same_value env (effective currency) (prev currency))))
        (λ other m. (Memᴰ.eq_of_singleton m, ground arith, ground arith))
        (λ _ m. absurd (Memᴰ.not-nil m))

  -- A present capture that is compared with an effective state emits nothing else: each transition
  -- of the comparison is the change of a field it compares that differs, or the change of the price
  -- when it observes one of its fields and one of them differs; and no field, nor the price, has two
  -- transitions.
  pub evaluate_present_capture_sound :
      (t : Transition F)
      → let ev = evaluate_present_capture env (some prev) raw statuses in
        Memᴰ t ev.transitions
        → (IsPriceChange ev.effective_state t
            ⊎ ((f : Field) × ((t ≡ change prev ev.effective_state f)
                  × IsChanged ev.effective_state f)))
          × IsOnceEach ev.transitions
  unfolding evaluate_present_capture compare_states
  evaluate_present_capture_sound t m =
      let effective = merge env prev raw statuses in
      let price_ts = (price_step env prev effective statuses).0 in
      let ts = (field_steps env prev effective statuses field_specs).0 in
      (
        elim (Memᴰ.append_cases price_ts m) [
          | inl p ↦ inl (price_step_sound effective t p)
          | inr f ↦ inr (field_steps_sound effective t field_specs f)
        ],
        λ f. omega (
          arith,
          occurs-append env prev statuses f price_ts ts,
          price_step_once env prev statuses effective f,
          field_steps_once env prev statuses effective f field_specs,
          slots_once f,
        ),
      )
