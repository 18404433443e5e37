-- ===== src/Crawl/Cadence/Laws.antt =====
-- The cadence: the next capture lies ahead, nearer events come sooner, past ones come to an end.
use n_quark.Prelude.{
  ℕ, ◌+◌, ◌≤◌, ◌<◌, ◌≡◌, refl, ◌≢◌, ◌⊎◌, false, Option, none, some, List, [], ◌∷◌, arith, or_else,
}
use n_quark.Prelude.Time.{Time, days}
use n_quark.Crawl.Lifecycle.{Calendar, Lifecycle, TemporalState, temporal_state}
use n_quark.Crawl.Cadence.{
  post_event, post_event_complete, CadenceConfig, Timing, Plan, is_terminal, follow_up, by_state,
  by_lifecycle, lifecycle_of, state_of, compute_cadence, after_event, before_event,
}

-- Every interval of the configuration is positive.
pub record IsPositive (cfg : CadenceConfig) : Type 0 where
  pub far_future : 0 < cfg.far_future_hours
  pub mid : 0 < cfg.mid_hours
  pub final : 0 < cfg.final_hours
  pub onsale_burst : 0 < cfg.onsale_burst_hours
  pub event_day : 0 < cfg.event_day_hours
  pub postponed : 0 < cfg.postponed_hours

-- A plan that names an instant names one that is still to come.
abbrev pub IsAhead : Time → Plan → Type 0
IsAhead now (none, reason) = Unit
IsAhead now (some t, reason) = now < t

follow_up-IsAhead :
    (anchor now : Time) (offsets : List ℕ) → IsAhead now (follow_up anchor now offsets)
unfolding follow_up
follow_up-IsAhead anchor now [] = tt
follow_up-IsAhead anchor now (d ∷ rest) = ground (arith, follow_up-IsAhead anchor now rest)

module _ (cfg : CadenceConfig) (t : Timing) (now : Time) (pos : IsPositive cfg) where
  after_event-IsAhead : IsAhead now (after_event cfg t now)
  unfolding after_event
  after_event-IsAhead = ground (
    arith,
    follow_up-IsAhead (or_else t.ends_at (or_else t.starts_at 0)) now cfg.post_event_offsets_days,
  )

  before_event-IsAhead : (start : Option Time) → IsAhead now (before_event cfg t now start)
  unfolding before_event
  before_event-IsAhead none = ground arith
  before_event-IsAhead (some s) = ground arith

  by_state-IsAhead : (s : TemporalState) → IsAhead now (by_state s cfg t now)
  unfolding by_state
  by_state-IsAhead TemporalState.past = after_event-IsAhead
  by_state-IsAhead TemporalState.ongoing = ground arith
  by_state-IsAhead _ = before_event-IsAhead t.starts_at

  by_lifecycle-IsAhead :
      (l : Lifecycle) (s : TemporalState) → IsAhead now (by_lifecycle l s cfg t now)
  unfolding by_lifecycle
  by_lifecycle-IsAhead Lifecycle.cancelled s = ground arith
  by_lifecycle-IsAhead Lifecycle.postponed s = ground arith
  by_lifecycle-IsAhead _ s = by_state-IsAhead s

-- Whatever the timing of an event, a next capture is planned strictly after `now`, provided that
-- every interval of the configuration is positive.
pub compute_cadence-IsAhead :
    (cal : Calendar) (cfg : CadenceConfig) (t : Timing) (now : Time)
    → IsPositive cfg
    → IsAhead now (compute_cadence cal cfg t now)
unfolding compute_cadence
compute_cadence-IsAhead cal cfg t now pos =
    ground (arith, by_lifecycle-IsAhead cfg t now pos (lifecycle_of t) (state_of cal t now))

-- What the loop over the offsets returns, in terms of the offsets alone.
abbrev IsFollowUp : (anchor now : Time) → List ℕ → Plan → Type 0
IsFollowUp anchor now [] plan = plan ≡ (none, post_event_complete)
IsFollowUp anchor now (d ∷ rest) plan =
    ((now < anchor + days d) × (plan ≡ (some (anchor + days d), post_event)))
    ⊎ ((anchor + days d ≤ now) × IsFollowUp anchor now rest plan)

follow_up-IsFollowUp :
    (anchor now : Time) (offsets : List ℕ)
    → IsFollowUp anchor now offsets (follow_up anchor now offsets)
unfolding follow_up
follow_up-IsFollowUp anchor now [] = refl
follow_up-IsFollowUp anchor now (d ∷ rest) = ground (arith, follow_up-IsFollowUp anchor now rest)

-- A tracked event whose end has passed, that is neither cancelled nor postponed and not stopped,
-- is followed up at the first configured offset from its end that is still to come, all offsets
-- before it being over, and is complete when all offsets are over.
compute_cadence_past :
    (cal : Calendar) (cfg : CadenceConfig) (t : Timing) (now start end : Time)
    → is_terminal t.tracking_status ≡ false
    → lifecycle_of t ≢ Lifecycle.cancelled
    → lifecycle_of t ≢ Lifecycle.postponed
    → t.starts_at ≡ some start
    → t.ends_at ≡ some end
    → end < now
    → IsFollowUp end now cfg.post_event_offsets_days (compute_cadence cal cfg t now)
unfolding compute_cadence state_of temporal_state after_event by_state by_lifecycle
compute_cadence_past cal cfg t now start end live nc np s e over =
    ground (arith, follow_up-IsFollowUp end now cfg.post_event_offsets_days)

-- The intervals do not grow as the event comes nearer.
pub record IsGraded (cfg : CadenceConfig) : Type 0 where
  pub day_burst : cfg.event_day_hours ≤ cfg.onsale_burst_hours
  pub day_final : cfg.event_day_hours ≤ cfg.final_hours
  pub final_mid : cfg.final_hours ≤ cfg.mid_hours
  pub mid_far : cfg.mid_hours ≤ cfg.far_future_hours

abbrev pub IsDueBy : Plan → Time → Type 0
IsDueBy (none, reason) limit = ⊥
IsDueBy (some t, reason) limit = t ≤ limit

-- Of two events that differ in their start alone, both still to come and of unknown end, the one
-- that starts first is captured no later than the other, under a graded configuration.
compute_cadence_nearer :
    (cal : Calendar) (cfg : CadenceConfig) (t : Timing) (now near far limit : Time)
    → IsGraded cfg
    → is_terminal t.tracking_status ≡ false
    → lifecycle_of t ≢ Lifecycle.cancelled
    → lifecycle_of t ≢ Lifecycle.postponed
    → t.starts_at ≡ some far
    → t.ends_at ≡ none
    → now < near
    → near ≤ far
    → IsDueBy (compute_cadence cal cfg t now) limit
    → IsDueBy (compute_cadence cal cfg (record t { starts_at = some near }) now) limit
unfolding compute_cadence state_of lifecycle_of temporal_state before_event by_state by_lifecycle
compute_cadence_nearer cal cfg t now near far limit g live nc np s e ahead le due = ground arith
