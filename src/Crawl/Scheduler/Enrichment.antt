-- ===== src/Crawl/Scheduler/Enrichment.antt =====
-- SchedulerService._apply_enrichment: what the resolved fields of an event change in its row.
pub mod Laws
pub mod Repeat
use n_quark.Prelude.{
  String, Bool, true, false, not, ◌&&◌, ◌||◌, Option, none, some, ◌==◌, if◌then◌else◌, is_some,
  truthy, opt_str_eq,
}
use n_quark.Prelude.Time.{Time}
use n_quark.Crawl.Lifecycle.{Calendar}
use n_quark.Crawl.Cadence.{
  CadenceReason, city_not_in_allowlist, TrackingStatus, Plan, compute_cadence,
}
use n_quark.Crawl.Scheduler.Store.{
  TrackedEvent, Store, Settings, find_tracked, put_tracked, timing_of,
}
use n_quark.Crawl.Scheduler.Enrollment.{outside_allowlist}
use n_quark.Crawl.Scheduler.Jobs.{is_trackable}

-- The keys of `resolved` that are read, and whether it has others.
pub record Resolved : Type 0 where
  pub starts_at : Option String
  pub end_at : Option String
  pub city : Option String
  pub region_id : Option String
  pub event_status : Option String
  pub source_on_sale_at : Option String
  pub first_ticket_state_seen_at : Option String
  pub has_others : Bool

-- `not resolved`
abbrev pub is_empty : Resolved → Bool
is_empty r =
    not (is_some r.starts_at)
    && not (is_some r.end_at)
    && not (is_some r.city)
    && not (is_some r.region_id)
    && not (is_some r.event_status)
    && not (is_some r.source_on_sale_at)
    && not (is_some r.first_ticket_state_seen_at)
    && not r.has_others

-- `new is not None and old != new`
abbrev pub is_changed : (old new : Option Time) → Bool
is_changed old none = false
is_changed none (some new) = true
is_changed (some old) (some new) = not (old == new)

-- `parse` stands for `datetime.fromisoformat`, none where it raises.
module _ (parse : String → Option Time) where
  abbrev pub parsed : Option String → Option Time
  parsed none = none
  parsed (some v) = parse v

  pub date_changed : Resolved → TrackedEvent → Bool
  date_changed r te =
      is_changed te.starts_at (parsed r.starts_at) || is_changed te.ends_at (parsed r.end_at)

  abbrev pub status_changed : Resolved → TrackedEvent → Bool
  status_changed r te = truthy r.event_status && not (opt_str_eq te.event_status r.event_status)

  pub merged : Resolved → Time → TrackedEvent → TrackedEvent
  merged r now te = record te {
    starts_at =
        if is_changed te.starts_at (parsed r.starts_at) then parsed r.starts_at else te.starts_at;
    ends_at = if is_changed te.ends_at (parsed r.end_at) then parsed r.end_at else te.ends_at;
    city = if truthy r.city then r.city else te.city;
    region_id = if truthy r.region_id then r.region_id else te.region_id;
    event_status = if truthy r.event_status then r.event_status else te.event_status;
    last_state_change_at = if status_changed r te then some now else te.last_state_change_at;
    source_on_sale_at =
        if truthy r.source_on_sale_at then parsed r.source_on_sale_at else te.source_on_sale_at;
    first_ticket_state_seen_at =
        if truthy r.first_ticket_state_seen_at && not (is_some te.first_ticket_state_seen_at)
        then parsed r.first_ticket_state_seen_at
        else te.first_ticket_state_seen_at;
    last_enriched_at = some now;
    enrichment_status = some "APPLIED";
    updated_at = now;
  }

  module _ (cal : Calendar) (cfg : Settings) where
    abbrev pub stop : TrackedEvent → TrackedEvent
    stop te = record te {
      tracking_status = TrackingStatus.stopped;
      next_capture_at = none;
      cadence_reason = some city_not_in_allowlist;
    }

    abbrev pub replanned : Time → TrackedEvent → TrackedEvent
    replanned now te =
        let (next, reason) = compute_cadence cal cfg.cadence (timing_of te) now in
        record te { next_capture_at = next; cadence_reason = some reason }

    pub enriched : Resolved → Time → TrackedEvent → TrackedEvent
    unfolding merged date_changed
    enriched r now te =
        let row = merged r now te in
        if outside_allowlist cfg.city_allowlist row.city
        then stop row
        else if (date_changed r te || status_changed r te) && is_trackable te.tracking_status
        then replanned now row
        else row

    pub apply_found : Resolved → Time → Option TrackedEvent → Store → Store
    unfolding enriched
    apply_found r now none s = s
    apply_found r now (some te) s = record s { tracked = put_tracked (enriched r now te) s.tracked }

    unfoldable pub apply_enrichment : Resolved → Time → String → String → Store → Store
    unfolding apply_found
    apply_enrichment r now source sid s =
        if is_empty r then s else apply_found r now (find_tracked source sid s.tracked) s
