-- ===== src/Crawl/Scheduler/Enrichment/Repeat.antt =====
-- _apply_enrichment a second time: fields that have been applied change nothing.
use n_quark.Prelude.{
  ◌≡◌, refl, ap, ◌∙◌, ◌⊎◌, inl, inr, String, false, not, ◌&&◌, ◌||◌, Option, some, arith,
  if◌then◌else◌, if_ind, is_some, truthy, or_empty, eq_refl,
}
use n_quark.Prelude.Time.{Time}
use n_quark.Crawl.Lifecycle.{Calendar}
use n_quark.Crawl.Scheduler.Store.{TrackedEvent, Settings}
use n_quark.Crawl.Scheduler.Enrollment.{outside_allowlist}
use n_quark.Crawl.Scheduler.Jobs.{is_trackable}
use n_quark.Crawl.Scheduler.Enrichment.{
  Resolved, parsed, is_changed, date_changed, status_changed, merged, stop, replanned, enriched,
}

module _ (parse : String → Option Time) (cal : Calendar) (cfg : Settings) (r : Resolved)
    (now : Time) (te : TrackedEvent) where
  abbrev row : TrackedEvent
  row = merged parse r now te

  -- A row that has what was resolved.
  abbrev IsMerged : TrackedEvent → Type 0
  IsMerged x =
      (is_changed x.starts_at (parsed parse r.starts_at) ≡ false)
      × (is_changed x.ends_at (parsed parse r.end_at) ≡ false)
      × (status_changed parse r x ≡ false)
      × ((if truthy r.city then r.city else x.city) ≡ x.city)
      × ((if truthy r.region_id then r.region_id else x.region_id) ≡ x.region_id)
      × ((if truthy r.event_status then r.event_status else x.event_status) ≡ x.event_status)
      × ((if truthy r.source_on_sale_at
            then parsed parse r.source_on_sale_at
            else x.source_on_sale_at)
          ≡ x.source_on_sale_at)
      × ((if truthy r.first_ticket_state_seen_at && not (is_some x.first_ticket_state_seen_at)
            then parsed parse r.first_ticket_state_seen_at
            else x.first_ticket_state_seen_at)
          ≡ x.first_ticket_state_seen_at)
      × (x.last_enriched_at ≡ some now)
      × (x.enrichment_status ≡ some "APPLIED")
      × (x.updated_at ≡ now)

  merged_fixed : (x : TrackedEvent) → IsMerged x → merged parse r now x ≡ x
  unfolding merged
  merged_fixed x h = ground (arith, h)

  row-IsMerged : IsMerged row
  unfolding merged
  row-IsMerged = (
    ground arith,
    ground arith,
    ground (arith, eq_refl (or_empty r.event_status)),
    ground arith,
    ground arith,
    ground arith,
    ground arith,
    ground arith,
    refl,
    refl,
    refl,
  )

  -- Fields that have been applied change no date and no status.
  IsMerged-unchanged :
      (x : TrackedEvent)
      → IsMerged x
      → (date_changed parse r x || status_changed parse r x) && is_trackable x.tracking_status
        ≡ false
  unfolding date_changed
  IsMerged-unchanged x h = ground (arith, h)

  -- A merged row that is inside of the allow-list, or stopped for it, stands.
  merged_stands :
      (x : TrackedEvent)
      → IsMerged x
      → (outside_allowlist cfg.city_allowlist x.city ≡ false) ⊎ (stop parse cal cfg x ≡ x)
      → enriched parse cal cfg r now x ≡ x
  unfolding enriched
  merged_stands x h inside =
      let changed =
        (date_changed parse r x || status_changed parse r x) && is_trackable x.tracking_status in
      ap
        (λ (m : TrackedEvent).
          if outside_allowlist cfg.city_allowlist m.city
          then stop parse cal cfg m
          else if changed
          then replanned parse cal cfg now m
          else m)
        (merged_fixed x h)
      ∙ if_ind (λ y. y ≡ x) (outside_allowlist cfg.city_allowlist x.city)
          (λ e. elim inside [ inl i ↦ ground (arith, e, i) | inr stopped ↦ stopped ])
          (λ e.
            if_ind (λ y. y ≡ x) changed (λ e'. ground (arith, e', IsMerged-unchanged x h))
              (λ e'. refl))

  -- Applying the same fields again at the same instant changes nothing: neither the row nor its
  -- plan.
  enriched_twice :
      enriched parse cal cfg r now (enriched parse cal cfg r now te)
      ≡ enriched parse cal cfg r now te
  unfolding enriched
  enriched_twice =
      if_ind (λ x. enriched parse cal cfg r now x ≡ x)
        (outside_allowlist cfg.city_allowlist row.city)
        (λ e. merged_stands (stop parse cal cfg row) row-IsMerged (inr refl))
        (λ e.
          if_ind (λ x. enriched parse cal cfg r now x ≡ x)
            ((date_changed parse r te || status_changed parse r te)
              && is_trackable te.tracking_status)
            (λ _. merged_stands (replanned parse cal cfg now row) row-IsMerged (inl e))
            (λ _. merged_stands row row-IsMerged (inl e)))
