-- ===== src/ArtistCadence.antt =====
-- services/artist-intelligence-service/artist_intelligence_service/cadence.py: how often the
-- channels,
-- the videos and the events of an artist are looked at, and the priority class of an artist.
pub mod Laws
use n_quark.Prelude.{ℕ, Bool, true, false, ◌&&◌, Option, none, some, ltb, leb, if◌then◌else◌}
use n_quark.Prelude.Time.{days}

-- A signed number of days, in microseconds; `behind 0` is 0 days as well.
pub data Days : Type 0 where
  ahead behind : ℕ → Days

-- The cadence settings, in seconds.
pub record Cadence : Type 0 where
  pub channel_event_imminent : ℕ
  pub channel_active : ℕ
  pub channel_standard : ℕ
  pub channel_longtail : ℕ
  pub video_fresh : ℕ
  pub video_recent : ℕ
  pub video_mature : ℕ
  pub video_old : ℕ
  pub event_t60 : ℕ
  pub event_t30 : ℕ
  pub event_t14 : ℕ
  pub event_t3 : ℕ
  pub event_post : ℕ

-- The defaults of config.py.
abbrev pub default_cadence : Cadence
default_cadence = record {
  channel_event_imminent = 14400;
  channel_active = 21600;
  channel_standard = 86400;
  channel_longtail = 259200;
  video_fresh = 3600;
  video_recent = 14400;
  video_mature = 86400;
  video_old = 604800;
  event_t60 = 86400;
  event_t30 = 21600;
  event_t14 = 14400;
  event_t3 = 7200;
  event_post = 7200;
}

-- `days_to_event is not None and days_to_event >= -3`
abbrev is_imminent : Option Days → Bool
is_imminent none = false
is_imminent (some (ahead d)) = true
is_imminent (some (behind d)) = leb d (days 3)

unfoldable pub channel_cadence_seconds : Cadence → Option Days → Bool → ℕ
channel_cadence_seconds c to_event recently_active =
    if is_imminent to_event
    then c.channel_event_imminent
    else if recently_active
    then c.channel_active
    else c.channel_standard

channel_longtail_seconds : Cadence → ℕ
channel_longtail_seconds c = c.channel_longtail

unfoldable pub video_cadence_seconds : Cadence → (age : Days) → ℕ
video_cadence_seconds c (behind age) = c.video_fresh
video_cadence_seconds c (ahead age) =
    if leb age (days 3)
    then c.video_fresh
    else if leb age (days 14)
    then c.video_recent
    else if leb age (days 90)
    then c.video_mature
    else c.video_old

unfoldable pub event_band_seconds : Cadence → Option Days → Option ℕ
event_band_seconds c none = none
event_band_seconds c (some (behind d)) =
    if ltb (days 3) d then none else if leb d 0 then some c.event_t3 else some c.event_post
event_band_seconds c (some (ahead d)) =
    if ltb (days 60) d
    then none
    else if ltb (days 30) d
    then some c.event_t60
    else if ltb (days 14) d
    then some c.event_t30
    else if ltb (days 3) d
    then some c.event_t14
    else some c.event_t3

-- `0 <= days_to_event <= 60`
abbrev pub is_upcoming : Option Days → Bool
is_upcoming none = false
is_upcoming (some (ahead d)) = leb d (days 60)
is_upcoming (some (behind d)) = leb d 0

unfoldable pub priority_for : Option Days → (independent_references : ℕ) → Bool → Bool → ℕ
priority_for to_event references confirmed_or_strong from_youtube =
    if is_upcoming to_event
    then 0
    else if leb 2 references
    then 10
    else if confirmed_or_strong
    then 20
    else if from_youtube
    then 30
    else 40
