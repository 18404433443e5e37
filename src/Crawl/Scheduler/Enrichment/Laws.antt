-- ===== src/Crawl/Scheduler/Enrichment/Laws.antt =====
-- _apply_enrichment: what enrichment may change in a row.
use n_quark.Prelude.{
  ◌<◌, ◌≡◌, refl, ◌⊎◌, inl, inr, String, Bool, true, false, not, ◌&&◌, ◌||◌, Option, none, some,
  arith, if◌then◌else◌, if_ind, truthy, eq_iff, opt_str_eq, Bool-cases,
}
use n_quark.Prelude.Time.{Time}
use n_quark.Crawl.Lifecycle.{Calendar}
use n_quark.Crawl.Cadence.{TrackingStatus, Plan, compute_cadence, city_not_in_allowlist}
use n_quark.Crawl.Cadence.Laws.{IsPositive, IsAhead, compute_cadence-IsAhead}
use n_quark.Crawl.Scheduler.Store.{find_tracked, TrackedEvent, Store, Settings, timing_of}
use n_quark.Crawl.Scheduler.Enrollment.{outside_allowlist}
use n_quark.Crawl.Scheduler.Jobs.{is_trackable}
use n_quark.Crawl.Scheduler.Enrollment.Rows.{find_tracked-put_tracked, find_tracked_key}
use n_quark.Crawl.Scheduler.Enrichment.{
  Resolved, parsed, is_changed, date_changed, status_changed, merged, enriched, is_empty,
  apply_found, apply_enrichment,
}

-- An instant that was read takes the place of the one before; otherwise that stays.
abbrev pub TakesTime : (new old read : Option Time) → Type 0
TakesTime new old none = new ≡ old
TakesTime new old (some at) = new ≡ some at

-- A text that is given and not empty takes the place of the one before; otherwise that stays.
abbrev pub TakesText : (new old given : Option String) → Type 0
TakesText new old given =
    ((truthy given ≡ true) × (new ≡ given)) ⊎ ((truthy given ≡ false) × (new ≡ old))

-- A start of the sale that is given is taken as it is read, so that one that cannot be read empties
-- the field; otherwise the one before stays.
abbrev pub TakesSale :
    (new old : Option Time) → (given : Option String) → (read : Option Time) → Type 0
TakesSale new old given read =
    ((truthy given ≡ true) × (new ≡ read)) ⊎ ((truthy given ≡ false) × (new ≡ old))

-- No capture is planned, or one strictly ahead.
abbrev IsPlannedAhead : Time → Option Time → Type 0
IsPlannedAhead now none = Unit
IsPlannedAhead now (some at) = now < at

first_ahead : (now : Time) (plan : Plan) → IsAhead now plan → IsPlannedAhead now plan.0
first_ahead now (none, reason) h = tt
first_ahead now (some at, reason) h = h

-- The dates and the status of a row are the same in both.
abbrev SameEvent : (before after : TrackedEvent) → Type 0
SameEvent before after =
    (after.starts_at ≡ before.starts_at)
    × (after.ends_at ≡ before.ends_at)
    × (after.event_status ≡ before.event_status)

-- The plan of a row: stopped outside of the allow-list. Inside of it the status of the tracking
-- stays, and either the plan is as it was, of a row that is not trackable or has the same dates and
-- the same status, or it is computed from the new row, and is empty or strictly ahead.
abbrev pub IsReplanned : Calendar → Settings → Time → (before after : TrackedEvent) → Type 0
IsReplanned cal cfg now before after =
    ((outside_allowlist cfg.city_allowlist after.city ≡ true)
      × (after.tracking_status ≡ TrackingStatus.stopped)
      × (after.next_capture_at ≡ none)
      × (after.cadence_reason ≡ some city_not_in_allowlist))
    ⊎ ((outside_allowlist cfg.city_allowlist after.city ≡ false)
        × (after.tracking_status ≡ before.tracking_status)
        × ((((is_trackable before.tracking_status ≡ false) ⊎ SameEvent before after)
              × (after.next_capture_at ≡ before.next_capture_at)
              × (after.cadence_reason ≡ before.cadence_reason))
            ⊎ ((after.next_capture_at ≡ (compute_cadence cal cfg.cadence (timing_of after) now).0)
                × (after.cadence_reason
                    ≡ some (compute_cadence cal cfg.cadence (timing_of after) now).1)
                × IsPlannedAhead now after.next_capture_at)))

module _ (parse : String → Option Time) (cal : Calendar) (cfg : Settings) (r : Resolved)
    (now : Time) (te : TrackedEvent) where
  abbrev row : TrackedEvent
  row = merged parse r now te

  -- The fields of a row, and what was resolved for them.
  abbrev pub HasTaken : TrackedEvent → Type 0
  HasTaken x =
      (x.source ≡ te.source)
      × (x.source_record_id ≡ te.source_record_id)
      × TakesTime x.starts_at te.starts_at (parsed parse r.starts_at)
      × TakesTime x.ends_at te.ends_at (parsed parse r.end_at)
      × TakesText x.city te.city r.city
      × TakesText x.region_id te.region_id r.region_id
      × TakesText x.event_status te.event_status r.event_status
      × TakesSale x.source_on_sale_at te.source_on_sale_at r.source_on_sale_at
          (parsed parse r.source_on_sale_at)
      × (x.capture_count ≡ te.capture_count)
      × (x.consecutive_failures ≡ te.consecutive_failures)
      × (x.consecutive_absences ≡ te.consecutive_absences)

  taken_time : (old new : Option Time) → TakesTime (if is_changed old new then new else old) old new
  taken_time old none = refl
  taken_time none (some at) = refl
  taken_time (some was) (some at) = ground arith

  taken :
      {A : Type 0} (b : Bool) (old new : Option A)
      → ((b ≡ true) × ((if b then new else old) ≡ new))
        ⊎ ((b ≡ false) × ((if b then new else old) ≡ old))
  taken true old new = inl (refl, refl)
  taken false old new = inr (refl, refl)

  merged-HasTaken : HasTaken row
  unfolding merged
  merged-HasTaken = (
    refl,
    refl,
    taken_time te.starts_at (parsed parse r.starts_at),
    taken_time te.ends_at (parsed parse r.end_at),
    taken (truthy r.city) te.city r.city,
    taken (truthy r.region_id) te.region_id r.region_id,
    taken (truthy r.event_status) te.event_status r.event_status,
    taken (truthy r.source_on_sale_at) te.source_on_sale_at (parsed parse r.source_on_sale_at),
    refl,
    refl,
    refl,
  )

  enriched-HasTaken : HasTaken (enriched parse cal cfg r now te)
  unfolding enriched
  enriched-HasTaken =
      if_ind HasTaken (outside_allowlist cfg.city_allowlist row.city) (λ _. merged-HasTaken)
        (λ _.
          if_ind HasTaken
            ((date_changed parse r te || status_changed parse r te)
              && is_trackable te.tracking_status)
            (λ _. merged-HasTaken) (λ _. merged-HasTaken))

  same_text :
      (old given : Option String)
      → truthy given && not (opt_str_eq old given) ≡ false
      → (if truthy given then given else old) ≡ old
  same_text none none h = refl
  same_text (some a) none h = refl
  same_text none (some b) h = ground (arith, h)
  same_text (some a) (some b) h = ground (arith, h, eq_iff a b)

  -- Where nothing changed, the plan may stay.
  stays :
      (date_changed parse r te || status_changed parse r te) && is_trackable te.tracking_status
        ≡ false
      → (is_trackable te.tracking_status ≡ false) ⊎ SameEvent te row
  unfolding merged date_changed
  stays h = elim (Bool-cases (is_trackable te.tracking_status)) [
    | inl trackable ↦ inr (
      ground (arith, h, trackable),
      ground (arith, h, trackable),
      same_text te.event_status r.event_status (ground (arith, h, trackable)),
    )
    | inr other ↦ inl other
  ]

  plan_ahead :
      IsPositive cfg.cadence
      → IsPlannedAhead now (compute_cadence cal cfg.cadence (timing_of row) now).0
  plan_ahead pos =
      first_ahead now (compute_cadence cal cfg.cadence (timing_of row) now)
        (compute_cadence-IsAhead cal cfg.cadence (timing_of row) now pos)

  enriched-IsReplanned :
      IsPositive cfg.cadence → IsReplanned cal cfg now te (enriched parse cal cfg r now te)
  unfolding enriched merged
  enriched-IsReplanned pos =
      if_ind (IsReplanned cal cfg now te) (outside_allowlist cfg.city_allowlist row.city)
        (λ e. inl (e, refl, refl, refl))
        (λ e.
          if_ind (IsReplanned cal cfg now te)
            ((date_changed parse r te || status_changed parse r te)
              && is_trackable te.tracking_status)
            (λ _. inr (e, refl, inr (refl, refl, plan_ahead pos)))
            (λ same. inr (e, refl, inl (stays same, refl, refl))))

  -- With positive intervals, applying resolved fields to a tracked event replaces its row by one in
  -- which the start, the end, the city, the region and the status of the event hold what was resolved
  -- for them, and are kept where that is missing, empty or, for an instant, cannot be read; the start
  -- of the sale is kept only where none is given. The keys and the counts of captures, failures and
  -- absences are kept. Outside of the allow-list the plan is that of a stop. Inside of it the status
  -- of the tracking stays, and either the plan is as it was, and the row is not trackable or has the
  -- same dates and the same status of the event, or the plan is computed anew from the new row, and
  -- is empty or strictly ahead. No job changes.
  pub apply_enrichment_lem :
      (source sid : String) (s : Store)
      → IsPositive cfg.cadence
      → is_empty r ≡ false
      → find_tracked source sid s.tracked ≡ some te
      → let s' = apply_enrichment parse cal cfg r now source sid s in
        ((x : TrackedEvent) × (find_tracked source sid s'.tracked ≡ some x)
          × HasTaken x
          × IsReplanned cal cfg now te x)
        × (s'.jobs ≡ s.jobs)
  unfolding apply_enrichment apply_found
  apply_enrichment_lem source sid s pos given found =
      let x = enriched parse cal cfg r now te in
      let taken = enriched-HasTaken in
      rw given (
        rw found (
          (
            x,
            ground (
              arith,
              find_tracked-put_tracked source sid x s.tracked,
              find_tracked_key source sid s.tracked te found,
              taken,
            ),
            taken,
            enriched-IsReplanned pos,
          ),
          refl,
        ))
