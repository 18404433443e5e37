-- ===== src/ShadowLedger/Fields.antt =====
-- services/graph-service/graph_service/shadow_ledger.py: the vocabulary, the field registry, the
-- normalization of values and the observation status of each field.
use n_quark.Prelude.{
  ℕ, String, Bool, true, false, Option, none, some, List, [], ◌∷◌, ◌==◌, if◌then◌else◌, str_eq,
}

pub data Field : Type 0 where
  price_min currency capacity tickets_sold fill_ratio availability : Field
  starts_at ends_at event_date venue status provider_lifecycle : Field

-- The registry, in the order of `FIELD_SPECS`.
abbrev pub field_specs : List Field
field_specs =
    price_min ∷ currency ∷ capacity ∷ tickets_sold ∷ fill_ratio ∷ availability ∷ starts_at ∷ ends_at
    ∷ event_date ∷ venue ∷ status ∷ provider_lifecycle ∷ []

pub data TransitionType : Type 0 where
  event_first_seen public_price_changed public_capacity_changed : TransitionType
  public_tickets_sold_changed public_fill_ratio_changed : TransitionType
  public_availability_changed event_date_changed venue_changed : TransitionType
  event_status_changed event_disappeared event_reappeared : TransitionType

abbrev pub transition_type : Field → TransitionType
transition_type price_min = public_price_changed
transition_type currency = public_price_changed
transition_type capacity = public_capacity_changed
transition_type tickets_sold = public_tickets_sold_changed
transition_type fill_ratio = public_fill_ratio_changed
transition_type availability = public_availability_changed
transition_type starts_at = event_date_changed
transition_type ends_at = event_date_changed
transition_type event_date = event_date_changed
transition_type venue = venue_changed
transition_type status = event_status_changed
transition_type provider_lifecycle = event_status_changed

abbrev pub explicit_null_allowed : Field → Bool
explicit_null_allowed availability = true
explicit_null_allowed status = true
explicit_null_allowed provider_lifecycle = true
explicit_null_allowed _ = false

-- `spec.name in _PRICE_FIELDS`
abbrev pub is_price : Field → Bool
is_price price_min = true
is_price currency = true
is_price _ = false

pub data FieldStatus : Type 0 where
  observed_value observed_null not_observed extraction_failed not_supported : FieldStatus

abbrev pub is_observing : FieldStatus → Bool
is_observing observed_value = true
is_observing observed_null = true
is_observing _ = false

pub data CaptureStatus : Type 0 where
  capture_success_record_present capture_success_record_absent : CaptureStatus
  source_unavailable capture_failed parser_failed not_checked explicitly_removed : CaptureStatus

pub data CaptureGroup : Type 0 where
  present authoritative_absence non_authoritative : CaptureGroup

-- The frozensets `AUTHORITATIVE_ABSENCE` and `NON_AUTHORITATIVE`.
abbrev pub capture_group : CaptureStatus → CaptureGroup
capture_group capture_success_record_present = CaptureGroup.present
capture_group capture_success_record_absent = authoritative_absence
capture_group explicitly_removed = authoritative_absence
capture_group source_unavailable = non_authoritative
capture_group capture_failed = non_authoritative
capture_group parser_failed = non_authoritative
capture_group not_checked = non_authoritative

pub data Reason : Type 0 where
  field_not_observed extraction_failed out_of_order no_value_change : Reason
  duplicate_state explicit_null_not_allowed disappearance_threshold_not_met : Reason
  conflicting_timestamp : Reason
  capture : CaptureStatus → Reason

-- Python's `int`; `negsuc n` is -(n + 1).
pub data ℤ : Type 0 where
  pos : ℕ → ℤ
  negsuc : ℕ → ℤ

-- A canonical value; `F` stands for Python's `float`.
pub data Value (F : Type 0) : Type 0 where
  number : F → Value F
  whole : ℤ → Value F
  text : String → Value F

-- The raw fields of a capture, typed as the request schema types them.
pub record RawState (F : Type 0) : Type 0 where
  pub price_min : Option F
  pub currency : Option String
  pub capacity : Option ℤ
  pub tickets_sold : Option ℤ
  pub fill_ratio : Option F
  pub availability : Option String
  pub starts_at : Option String
  pub ends_at : Option String
  pub event_date : Option String
  pub venue : Option String
  pub status : Option String
  pub provider_lifecycle : Option String

-- An effective state by `.get`: a missing key reads as None.
abbrev pub Effective : Type 0 → Type 0
Effective F = Field → Option (Value F)

abbrev pub Statuses : Type 0
Statuses = Field → FieldStatus

-- What the detector takes from floats, text processing and hashing.
pub record Env (F : Type 0) : Type 0 where
  pub round_money : F → F
  pub round_ratio : F → F
  pub same_float : F → F → Bool
  pub strip : String → String
  pub iso_instant : String → String
  pub state_digest : Effective F → String
  pub capture_digest : Effective F → Statuses → String

module _ {F : Type 0} (env : Env F) where
  norm_number : (F → F) → Option F → Option (Value F)
  norm_number round none = none
  norm_number round (some v) = some (number (round v))

  norm_int : Option ℤ → Option (Value F)
  norm_int none = none
  norm_int (some n) = some (whole n)

  -- `_norm_str` and, with `iso_instant` for `shown`, `_norm_dt`: blank texts are None.
  norm_text : (String → String) → Option String → Option (Value F)
  norm_text shown none = none
  norm_text shown (some t) =
      if str_eq (env.strip t) "" then none else some (text (shown (env.strip t)))

  -- `spec.normalizer(values.get(spec.source_field))`
  unfoldable pub canonical : Field → RawState F → Option (Value F)
  unfolding norm_number norm_int norm_text
  canonical price_min raw = norm_number env.round_money raw.price_min
  canonical currency raw = norm_text (λ t. t) raw.currency
  canonical capacity raw = norm_int raw.capacity
  canonical tickets_sold raw = norm_int raw.tickets_sold
  canonical fill_ratio raw = norm_number env.round_ratio raw.fill_ratio
  canonical availability raw = norm_text (λ t. t) raw.availability
  canonical starts_at raw = norm_text env.iso_instant raw.starts_at
  canonical ends_at raw = norm_text env.iso_instant raw.ends_at
  canonical event_date raw = norm_text (λ t. t) raw.event_date
  canonical venue raw = norm_text (λ t. t) raw.venue
  canonical status raw = norm_text (λ t. t) raw.status
  canonical provider_lifecycle raw = norm_text (λ t. t) raw.provider_lifecycle

  same_int : ℤ → ℤ → Bool
  same_int (pos m) (pos n) = m == n
  same_int (negsuc m) (negsuc n) = m == n
  same_int _ _ = false

  -- `a == b` on canonical values of one field.
  unfoldable pub same_value : Option (Value F) → Option (Value F) → Bool
  unfolding same_int
  same_value none none = true
  same_value (some (number x)) (some (number y)) = env.same_float x y
  same_value (some (whole m)) (some (whole n)) = same_int m n
  same_value (some (text s)) (some (text t)) = str_eq s t
  same_value _ _ = false

abbrev given : {A : Type 0} → Option A → FieldStatus
given none = not_observed
given (some a) = observed_value

module _ {F : Type 0} where
  inferred : RawState F → Statuses
  inferred raw price_min = given raw.price_min
  inferred raw currency = given raw.currency
  inferred raw capacity = given raw.capacity
  inferred raw tickets_sold = given raw.tickets_sold
  inferred raw fill_ratio = given raw.fill_ratio
  inferred raw availability = given raw.availability
  inferred raw starts_at = given raw.starts_at
  inferred raw ends_at = given raw.ends_at
  inferred raw event_date = given raw.event_date
  inferred raw venue = given raw.venue
  inferred raw status = given raw.status
  inferred raw provider_lifecycle = given raw.provider_lifecycle

  -- Explicit statuses win; a missing value is never taken for an observed null.
  unfoldable pub resolve_field_statuses : RawState F → (Field → Option FieldStatus) → Statuses
  unfolding inferred
  resolve_field_statuses raw provided f = elim (provided f) [
    | some explicit ↦ explicit
    | none ↦ inferred raw f
  ]
