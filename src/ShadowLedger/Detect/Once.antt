-- ===== src/ShadowLedger/Detect/Once.antt =====
-- The comparison of a present capture with the effective state emits at most one transition for a
-- field.
use n_quark.Prelude.{
  ℕ, ◌+◌, ◌≤◌, ◌≡◌, ◌==◌, false, not, ◌&&◌, ◌||◌, Option, none, some, List, [], ◌∷◌, ◌++◌, Bool,
  if◌then◌else◌, arith, if_ind,
}
use n_quark.ShadowLedger.Fields.{
  Field, price_min, currency, capacity, tickets_sold, fill_ratio, availability, starts_at, ends_at,
  event_date, venue, status, provider_lifecycle, field_specs, is_observing, is_price, Effective,
  Statuses, Env, same_value,
}
use n_quark.ShadowLedger.Detect.{
  Transition, Suppressed, is_compared, price_step, field_step, field_steps,
}

-- The place of a field in the registry.
abbrev place : Field → ℕ
place price_min = 0
place currency = 1
place capacity = 2
place tickets_sold = 3
place fill_ratio = 4
place availability = 5
place starts_at = 6
place ends_at = 7
place event_date = 8
place venue = 9
place status = 10
place provider_lifecycle = 11

abbrev is_of : Field → Option Field → Bool
is_of f none = false
is_of f (some x) = place f == place x

-- How many transitions are of a field.
abbrev pub occurs : {F : Type 0} → Field → List (Transition F) → ℕ
occurs f [] = 0
occurs f (t ∷ rest) = (if is_of f t.field_name then 1 else 0) + occurs f rest

-- No two transitions are of one field; that of the price is of its amount.
abbrev pub IsOnceEach : {F : Type 0} → List (Transition F) → Type 0
IsOnceEach ts = (f : Field) → occurs f ts ≤ 1

abbrev slot : (f x : Field) → ℕ
slot f x = if not (is_price x) && (place f == place x) then 1 else 0

abbrev pub slots : Field → List Field → ℕ
slots f [] = 0
slots f (x ∷ rest) = slot f x + slots f rest

abbrev pub price_slot : Field → ℕ
price_slot f = if place f == 0 then 1 else 0

pub slots_once : (f : Field) → price_slot f + slots f field_specs ≤ 1
slots_once price_min = omega arith
slots_once currency = omega arith
slots_once capacity = omega arith
slots_once tickets_sold = omega arith
slots_once fill_ratio = omega arith
slots_once availability = omega arith
slots_once starts_at = omega arith
slots_once ends_at = omega arith
slots_once event_date = omega arith
slots_once venue = omega arith
slots_once status = omega arith
slots_once provider_lifecycle = omega arith

module _ {F : Type 0} (env : Env F) (prev : Effective F) (statuses : Statuses) where
  pub occurs-append :
      (f : Field) (xs ys : List (Transition F)) → occurs f (xs ++ ys) ≡ occurs f xs + occurs f ys
  occurs-append f [] ys = omega arith
  occurs-append f (x ∷ xs) ys = omega (arith, occurs-append f xs ys)

  field_step_once :
      (effective : Effective F) (f x : Field)
      → occurs f (field_step env prev effective statuses x).0 ≤ slot f x
  unfolding field_step
  field_step_once effective f x =
      if_ind (λ (r : List (Transition F) × List Suppressed). occurs f r.0 ≤ slot f x)
        (is_price x || not (is_compared (statuses x) x)) (λ _. omega arith)
        (λ seen.
          if_ind (λ (r : List (Transition F) × List Suppressed). occurs f r.0 ≤ slot f x)
            (not (same_value env (prev x) (effective x))) (λ _. ground (arith, seen))
            (λ _. omega arith))

  pub field_steps_once :
      (effective : Effective F) (f : Field) (fs : List Field)
      → occurs f (field_steps env prev effective statuses fs).0 ≤ slots f fs
  unfolding field_steps
  field_steps_once effective f [] = omega arith
  field_steps_once effective f (x ∷ fs) =
      let now = (field_step env prev effective statuses x).0 in
      let later = (field_steps env prev effective statuses fs).0 in
      omega (
        arith,
        occurs-append f now later,
        field_step_once effective f x,
        field_steps_once effective f fs,
      )

  pub price_step_once :
      (effective : Effective F) (f : Field)
      → occurs f (price_step env prev effective statuses).0 ≤ price_slot f
  unfolding price_step
  price_step_once effective f =
      if_ind (λ (r : List (Transition F) × List Suppressed). occurs f r.0 ≤ price_slot f)
        ((is_observing (statuses price_min) || is_observing (statuses currency))
          && (not (same_value env (effective price_min) (prev price_min))
              || not (same_value env (effective currency) (prev currency))))
        (λ _. omega arith) (λ _. omega arith)
