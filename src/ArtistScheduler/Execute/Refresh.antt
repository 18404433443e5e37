-- ===== src/ArtistScheduler/Execute/Refresh.antt =====
-- scheduler.py, `_next_refresh_for` and the priority of a search: urgency under events.
use n_quark.Prelude.{
  ℕ, ◌+◌, ◌≤◌, ◌≡◌, refl, true, is_some, String, Bool, not, ◌&&◌, ◌||◌, Option, none, some, arith,
  leb,
}
use n_quark.Prelude.Time.{Time, seconds}
use n_quark.ArtistCadence.{
  Days, Cadence, is_upcoming, channel_cadence_seconds, event_band_seconds, priority_for,
}
use n_quark.ArtistScheduler.{JobType, DemandSettings, Surroundings}
use n_quark.ArtistScheduler.Execute.{tightened, next_refresh_for, is_high_priority}

-- The interval for an imminent event is the shortest of a channel.
pub record IsUrgent (c : Cadence) : Type 0 where
  pub imminent_active : c.channel_event_imminent ≤ c.channel_active
  pub imminent_standard : c.channel_event_imminent ≤ c.channel_standard

-- Both absent, or the first no later than the second.
abbrev pub NotLater : Option Time → Option Time → Type 0
NotLater none none = Unit
NotLater (some a) (some b) = a ≤ b
NotLater _ _ = ⊥

-- A channel or a video is refreshed, and at most the seconds of the band from now, where there is a
-- band; a catalogue at its own interval, any other job never.
abbrev pub IsInBand : DemandSettings → Time → JobType → Option ℕ → Option Time → Type 0
IsInBand cfg now JobType.channel (some band) (some at) = at ≤ now + seconds band
IsInBand cfg now JobType.video (some band) (some at) = at ≤ now + seconds band
IsInBand cfg now JobType.channel band at = is_some at ≡ true
IsInBand cfg now JobType.video band at = is_some at ≡ true
IsInBand cfg now JobType.catalogue band at = at ≡ some (now + seconds cfg.catalogue_interval)
IsInBand cfg now _ band at = at ≡ none

module _ (out : Surroundings) (c : Cadence) (cfg : DemandSettings) (now : Time) where
  tightened_event :
      (base plain : ℕ) (band : Option ℕ)
      → base ≤ plain
      → now + seconds (tightened base band) ≤ now + seconds plain
  tightened_event base plain none h = omega (arith, h)
  tightened_event base plain (some s) h = omega (arith, h)

  channel_band :
      (base : ℕ) (band : Option ℕ)
      → IsInBand cfg now JobType.channel band (some (now + seconds (tightened base band)))
  channel_band base none = refl
  channel_band base (some s) = omega arith

  video_band :
      (base : ℕ) (band : Option ℕ)
      → IsInBand cfg now JobType.video band (some (now + seconds (tightened base band)))
  video_band base none = refl
  video_band base (some s) = omega arith

  channel_event :
      (to_event : Option Days) (active : Bool)
      → IsUrgent c
      → channel_cadence_seconds c to_event active ≤ channel_cadence_seconds c none active
  unfolding channel_cadence_seconds
  channel_event to_event active h = ground (arith, h.imminent_active, h.imminent_standard)

  -- Where the interval of a channel with an imminent event is at most that of an active and that of
  -- a standard channel, an event at whatever distance never makes the next refresh of a job later
  -- than it is when no event is known, nor makes or takes one; and where the distance has a band,
  -- the refresh of a channel or of a video is at most the seconds of the band away. A catalogue has
  -- its interval whatever the event is, and no other job is refreshed.
  pub next_refresh_for_event :
      (job_type : JobType) (artist : String) (to_event : Option Days)
      → IsUrgent c
      → NotLater
          (next_refresh_for out c cfg now job_type artist to_event)
          (next_refresh_for out c cfg now job_type artist none)
        × IsInBand cfg now job_type
            (event_band_seconds c to_event)
            (next_refresh_for out c cfg now job_type artist to_event)
  unfolding next_refresh_for event_band_seconds
  next_refresh_for_event JobType.channel artist to_event h = (
    tightened_event _ _ (event_band_seconds c to_event) (channel_event to_event _ h),
    channel_band _ (event_band_seconds c to_event),
  )
  next_refresh_for_event JobType.video artist to_event h = (
    tightened_event _ _ (event_band_seconds c to_event) (omega arith),
    video_band _ (event_band_seconds c to_event),
  )
  next_refresh_for_event JobType.identity artist to_event h = (tt, refl)
  next_refresh_for_event JobType.catalogue artist to_event h = (omega arith, refl)
  next_refresh_for_event (JobType.other name) artist to_event h = (tt, refl)

  -- A search draws on the reserve exactly where the artist has two references or strong evidence and
  -- no upcoming event: the priority class of an upcoming event, 0, does not count as high.
  is_high_priority_lem :
      (to_event : Option Days) (references : ℕ) (strong from_youtube : Bool)
      → is_high_priority out c cfg now (priority_for to_event references strong from_youtube)
        ≡ (not (is_upcoming to_event) && (leb 2 references || strong))
  unfolding is_high_priority priority_for
  is_high_priority_lem to_event references strong from_youtube = ground arith
