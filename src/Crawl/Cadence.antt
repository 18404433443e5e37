-- ===== src/Crawl/Cadence.antt =====
-- services/crawl-service/crawl_service/cadence.py: when an event is captured next, and why.
pub mod Laws
use n_quark.Prelude.{
  ℕ, ◌+◌, String, Bool, true, false, ◌&&◌, Option, none, some, List, [], ◌∷◌, ltb, leb,
  if◌then◌else◌, or_else, or_text,
}
use n_quark.Prelude.Time.{Time, hours, days}
use n_quark.Crawl.Lifecycle.{
  Calendar, Moment, Temporal, TemporalState, Lifecycle, temporal_state, provider_lifecycle,
}

pub data CadenceReason : Type 0 where
  far_future mid final event_day onsale_burst post_event post_event_complete : CadenceReason
  no_date tracking_stopped cancelled_confirmation postponed_monitoring ongoing : CadenceReason
  terminal retry_backoff city_not_in_allowlist : CadenceReason

pub data TrackingStatus : Type 0 where
  active post_event stopped needs_review cancelled : TrackingStatus

abbrev status_text : TrackingStatus → String
status_text TrackingStatus.active = "ACTIVE"
status_text TrackingStatus.post_event = "POST_EVENT"
status_text TrackingStatus.stopped = "STOPPED"
status_text TrackingStatus.needs_review = "NEEDS_REVIEW"
status_text TrackingStatus.cancelled = "CANCELLED"

abbrev pub is_terminal : TrackingStatus → Bool
is_terminal TrackingStatus.stopped = true
is_terminal TrackingStatus.needs_review = true
is_terminal _ = false

pub record CadenceConfig : Type 0 where
  pub far_future_hours : ℕ
  pub mid_hours : ℕ
  pub final_hours : ℕ
  pub onsale_burst_hours : ℕ
  pub event_day_hours : ℕ
  pub post_event_offsets_days : List ℕ
  pub cancelled_confirmation_hours : ℕ
  pub postponed_hours : ℕ

-- The dataclass defaults.
abbrev pub default_config : CadenceConfig
default_config = record {
  far_future_hours = 24;
  mid_hours = 12;
  final_hours = 4;
  onsale_burst_hours = 2;
  event_day_hours = 2;
  post_event_offsets_days = 1 ∷ 3 ∷ 7 ∷ [];
  cancelled_confirmation_hours = 24;
  postponed_hours = 48;
}

-- The keyword arguments of `compute_cadence`.
pub record Timing : Type 0 where
  pub starts_at : Option Time
  pub ends_at : Option Time
  pub event_date : Option String
  pub local_timezone : Option String
  pub on_sale_at : Option Time
  pub tracking_status : TrackingStatus
  pub provider_lifecycle : Option String
  pub lifecycle_observed_at : Option Time

abbrev pub Plan : Type 0
Plan = Option Time × CadenceReason

abbrev moment : Option Time → Moment
moment none = Moment.absent
moment (some t) = Moment.aware t

-- The loop over the follow-up offsets: the first one that is still to come.
unfoldable pub follow_up : (anchor now : Time) → List ℕ → Plan
follow_up anchor now [] = (none, post_event_complete)
follow_up anchor now (d ∷ rest) =
    let later = follow_up anchor now rest in
    if ltb now (anchor + days d) then (some (anchor + days d), post_event) else later

abbrev first_time : Option Time → Option Time → Option Time
first_time none b = b
first_time (some a) b = some a

after_event : CadenceConfig → Timing → Time → Plan
unfolding follow_up
after_event cfg t now = elim (first_time t.ends_at t.starts_at) [
  | none ↦ (none, post_event_complete)
  | some anchor ↦ follow_up anchor now cfg.post_event_offsets_days
]

-- `on_sale_at is not None and on_sale_at <= now <= on_sale_at + 48h`
abbrev pub in_onsale_burst : Option Time → Time → Bool
in_onsale_burst none now = false
in_onsale_burst (some s) now = leb s now && leb now (s + hours 48)

before_event : CadenceConfig → Timing → Time → Option Time → Plan
before_event cfg t now none = (some (now + hours cfg.far_future_hours), no_date)
before_event cfg t now (some start) =
    if ltb start (now + days 1)
    then (some (now + hours cfg.event_day_hours), event_day)
    else if in_onsale_burst t.on_sale_at now
    then (some (now + hours cfg.onsale_burst_hours), onsale_burst)
    else if leb start (now + days 14)
    then (some (now + hours cfg.final_hours), final)
    else if leb start (now + days 30)
    then (some (now + hours cfg.mid_hours), mid)
    else (some (now + hours cfg.far_future_hours), far_future)

by_state : TemporalState → CadenceConfig → Timing → Time → Plan
unfolding after_event before_event
by_state TemporalState.ongoing cfg t now = (some (now + hours cfg.event_day_hours), ongoing)
by_state TemporalState.past cfg t now = after_event cfg t now
by_state _ cfg t now = before_event cfg t now t.starts_at

cancelled_plan : CadenceConfig → Timing → Time → Plan
cancelled_plan cfg t now =
    let due = or_else t.lifecycle_observed_at now + hours cfg.cancelled_confirmation_hours in
    if ltb now due then (some due, cancelled_confirmation) else (none, tracking_stopped)

by_lifecycle : Lifecycle → TemporalState → CadenceConfig → Timing → Time → Plan
unfolding by_state cancelled_plan
by_lifecycle Lifecycle.cancelled s cfg t now = cancelled_plan cfg t now
by_lifecycle Lifecycle.postponed s cfg t now =
    (some (now + hours cfg.postponed_hours), postponed_monitoring)
by_lifecycle _ s cfg t now = by_state s cfg t now

-- `normalize_lifecycle(provider_lifecycle or tracking_status)`
unfoldable pub lifecycle_of : Timing → Lifecycle
lifecycle_of t =
    provider_lifecycle (or_text t.provider_lifecycle (some (status_text t.tracking_status)))

unfoldable pub state_of : Calendar → Timing → Time → TemporalState
state_of cal t now =
    let found =
      temporal_state cal (moment t.starts_at) (moment t.ends_at) t.event_date now
        t.local_timezone in
    found.temporal_state

unfoldable pub compute_cadence : Calendar → CadenceConfig → Timing → Time → Plan
unfolding by_lifecycle
compute_cadence cal cfg t now =
    if is_terminal t.tracking_status
    then (none, tracking_stopped)
    else by_lifecycle (lifecycle_of t) (state_of cal t now) cfg t now
