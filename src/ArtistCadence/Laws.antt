-- ===== src/ArtistCadence/Laws.antt =====
-- Nearer events are looked at more often, and an upcoming event is seen by every part of the
-- cadence.
use n_quark.Prelude.{ℕ, ◌≤◌, ◌≡◌, Bool, Option, none, some, arith}
use n_quark.ArtistCadence.{ahead, Cadence, video_cadence_seconds, event_band_seconds, priority_for}

-- The intervals do not grow as the event comes nearer, and not as a video is newer.
pub record IsGraded (c : Cadence) : Type 0 where
  pub t3_t14 : c.event_t3 ≤ c.event_t14
  pub t14_t30 : c.event_t14 ≤ c.event_t30
  pub t30_t60 : c.event_t30 ≤ c.event_t60
  pub fresh_recent : c.video_fresh ≤ c.video_recent
  pub recent_mature : c.video_recent ≤ c.video_mature
  pub mature_old : c.video_mature ≤ c.video_old

-- The interval of an event band is no longer than a bound.
abbrev IsWithin : ℕ → Option ℕ → Type 0
IsWithin limit none = ⊥
IsWithin limit (some s) = s ≤ limit

-- Under a graded configuration, where an event ahead has a band, a nearer one has a band whose
-- interval is no longer and the priority class of upcoming events, 0, whatever else is known; and a
-- video that is as much newer is refreshed at an interval no longer.
event_band_nearer :
    (c : Cadence) (near far interval references : ℕ) (strong from_youtube : Bool)
    → IsGraded c
    → near ≤ far
    → event_band_seconds c (some (ahead far)) ≡ some interval
    → IsWithin interval (event_band_seconds c (some (ahead near)))
      × (video_cadence_seconds c (ahead near) ≤ video_cadence_seconds c (ahead far))
      × (priority_for (some (ahead near)) references strong from_youtube ≡ 0)
unfolding event_band_seconds video_cadence_seconds priority_for
event_band_nearer c near far interval references strong from_youtube g le band = ground arith
