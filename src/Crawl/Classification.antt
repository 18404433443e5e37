-- ===== src/Crawl/Classification.antt =====
-- services/crawl-service/crawl_service/classification.py: what a capture result means, and
-- whether and when the capture is tried again.
pub mod Laws
use n_quark.Prelude.{
  ℕ, ◌-◌, ◌*◌, ◌^◌, min, String, Bool, true, false, ◌&&◌, Option, none, some, leb, ltb,
  if◌then◌else◌,
}

pub data ResultCode : Type 0 where
  success_record_present success_record_absent : ResultCode
  source_unavailable rate_limited timeout : ResultCode
  parser_failed invalid_response terminal_event : ResultCode
  other : String → ResultCode

pub data Group : Type 0 where
  success terminal parser backoff unknown : Group

-- The frozensets `_SUCCESS`, `_PARSER` and `_BACKOFF`.
abbrev pub group : ResultCode → Group
group success_record_present = Group.success
group success_record_absent = Group.success
group source_unavailable = Group.backoff
group rate_limited = Group.backoff
group timeout = Group.backoff
group parser_failed = Group.parser
group invalid_response = Group.parser
group terminal_event = Group.terminal
group (other _) = Group.unknown

pub record RetryDecision : Type 0 where
  pub is_success : Bool
  pub should_retry : Bool
  pub backoff_seconds : Option ℕ
  pub terminal : Bool
  pub needs_review : Bool
  pub is_authoritative_absence : Bool

pub record Policy : Type 0 where
  pub max_attempts : ℕ
  pub parser_retry_limit : ℕ
  pub backoff_base : ℕ
  pub backoff_cap : ℕ

unfoldable pub backoff_seconds : ℕ → (base cap : ℕ) → ℕ
backoff_seconds attempt base cap = min (base * 2 ^ (attempt - 1)) cap

abbrev is_absent : ResultCode → Bool
is_absent success_record_absent = true
is_absent _ = false

abbrev is_rate_limited : ResultCode → Bool
is_rate_limited rate_limited = true
is_rate_limited _ = false

abbrev give_up : Bool → RetryDecision
give_up review = record {
  is_success = false;
  should_retry = false;
  backoff_seconds = none;
  terminal = true;
  needs_review = review;
  is_authoritative_absence = false;
}

abbrev retry_in : ℕ → RetryDecision
retry_in delay = record {
  is_success = false;
  should_retry = true;
  backoff_seconds = some delay;
  terminal = false;
  needs_review = false;
  is_authoritative_absence = false;
}

-- `retry_after_seconds if result_code == RATE_LIMITED and retry_after_seconds else backoff`
delay_for : ResultCode → Option ℕ → ℕ → ℕ
delay_for code none computed = computed
delay_for code (some after) computed =
    if is_rate_limited code && ltb 0 after then after else computed

by_group : Group → ResultCode → (attempt : ℕ) → Policy → Option ℕ → RetryDecision
unfolding backoff_seconds delay_for
by_group Group.success code attempt p after = record {
  is_success = true;
  should_retry = false;
  backoff_seconds = none;
  terminal = false;
  needs_review = false;
  is_authoritative_absence = is_absent code;
}
by_group Group.terminal code attempt p after = give_up false
by_group Group.parser code attempt p after =
    if leb p.parser_retry_limit attempt
    then give_up true
    else retry_in (backoff_seconds attempt p.backoff_base p.backoff_cap)
by_group Group.backoff code attempt p after =
    if leb p.max_attempts attempt
    then give_up false
    else retry_in (delay_for code after (backoff_seconds attempt p.backoff_base p.backoff_cap))
by_group Group.unknown code attempt p after =
    if leb p.max_attempts attempt
    then give_up true
    else retry_in (backoff_seconds attempt p.backoff_base p.backoff_cap)

unfoldable pub decide_retry : ResultCode → (attempt : ℕ) → Policy → Option ℕ → RetryDecision
unfolding by_group
decide_retry code attempt p after = by_group (group code) code attempt p after

-- `SHADOW_CAPTURE_STATUS`: the results that are submitted to the Shadow Ledger.
pub data ShadowStatus : Type 0 where
  capture_success_record_absent source_unavailable capture_failed parser_failed : ShadowStatus

pub shadow_capture_status : ResultCode → Option ShadowStatus
shadow_capture_status success_record_absent = some ShadowStatus.capture_success_record_absent
shadow_capture_status ResultCode.source_unavailable = some ShadowStatus.source_unavailable
shadow_capture_status rate_limited = some ShadowStatus.source_unavailable
shadow_capture_status timeout = some ShadowStatus.capture_failed
shadow_capture_status ResultCode.parser_failed = some ShadowStatus.parser_failed
shadow_capture_status invalid_response = some ShadowStatus.parser_failed
shadow_capture_status success_record_present = none
shadow_capture_status terminal_event = none
shadow_capture_status (other _) = none
