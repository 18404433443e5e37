-- ===== src/Crawl/Examples.antt =====
-- The theorems on results, cadence and priority at concrete inputs.
use n_quark.Prelude.{◌≡◌, refl, none, some, [], ◌∷◌, arith}
use n_quark.Prelude.Time.{days}
use n_quark.Crawl.Lifecycle.{Calendar, Lifecycle, provider_lifecycle, temporal_state}
use n_quark.Crawl.Classification.{rate_limited, Policy, decide_retry}
use n_quark.Crawl.Cadence.{
  TrackingStatus, default_config, Timing, lifecycle_of, state_of, compute_cadence,
}
use n_quark.Crawl.Cadence.Laws.{IsPositive, IsDueBy}
use n_quark.Crawl.Priority.{Signals}

abbrev policy : Policy
policy = record { max_attempts = 5; parser_retry_limit = 2; backoff_base = 60; backoff_cap = 3600 }

named : (decide_retry rate_limited 1 policy (some 7200)).backoff_seconds ≡ some 7200
unfolding decide_retry
named = refl

-- A calendar that reads no text, in UTC.
abbrev calendar : Calendar
calendar = record {
  stripped_length = λ s. 0;
  parse_moment = λ s. none;
  parse_day = λ s. none;
  local_day = λ zone_name t. 0;
}

abbrev show : Timing
show = record {
  starts_at = some (days 20);
  ends_at = none;
  event_date = none;
  local_timezone = none;
  on_sale_at = none;
  tracking_status = TrackingStatus.active;
  provider_lifecycle = none;
  lifecycle_observed_at = none;
}

default_config-IsPositive : IsPositive default_config
default_config-IsPositive = record {
  far_future = omega arith;
  mid = omega arith;
  final = omega arith;
  onsale_burst = omega arith;
  event_day = omega arith;
  postponed = omega arith;
}

show_unknown : lifecycle_of show ≡ Lifecycle.unknown
unfolding lifecycle_of provider_lifecycle
show_unknown = refl

abbrev ended : Timing
ended = record show { ends_at = some (days 21) }

ended_unknown : lifecycle_of ended ≡ Lifecycle.unknown
unfolding lifecycle_of provider_lifecycle
ended_unknown = refl

due : IsDueBy (compute_cadence calendar default_config show 0) (days 1)
unfolding compute_cadence lifecycle_of state_of provider_lifecycle temporal_state
due = omega arith

abbrev signals : Signals
signals = record {
  starts_at = some (days 2);
  on_sale_at = none;
  last_state_change_at = some (days 1);
  consecutive_failures = 2;
  city = some "Lisboa";
  city_allowlist = "lisboa" ∷ [];
}
