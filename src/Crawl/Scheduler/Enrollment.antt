-- ===== src/Crawl/Scheduler/Enrollment.antt =====
-- SchedulerService.enroll and sync_from_refs.
pub mod Rows
pub mod Laws
use n_quark.Prelude.{
  ℕ, suc, ◌+◌, String, Bool, true, false, not, ◌&&◌, Option, none, some, List, [], ◌∷◌, ◌++◌, leb,
  if◌then◌else◌, is_some, length, truthy, or_empty, member, is_nil, lowered_member, lower,
}
use n_quark.Prelude.Time.{Time}
use n_quark.Crawl.Cadence.{TrackingStatus}
use n_quark.Crawl.Scheduler.Store.{TrackedEvent, Store, Settings, find_tracked, put_tracked}

pub record Enrollment : Type 0 where
  pub source : String
  pub source_record_id : String
  pub city : Option String
  pub starts_at : Option Time
  pub on_sale_at : Option Time
  pub canonical_event_id : Option String

-- `allow and city and city.lower() not in allow`
pub outside_allowlist : List String → Option String → Bool
unfolding lower
outside_allowlist allow city =
    not (is_nil allow) && truthy city && not (lowered_member (or_empty city) allow)

abbrev pub new_event : ℕ → Enrollment → Time → TrackedEvent
new_event id e now = record {
  id = id;
  source = e.source;
  source_record_id = e.source_record_id;
  canonical_event_id = e.canonical_event_id;
  city = e.city;
  starts_at = e.starts_at;
  ends_at = none;
  event_date = none;
  source_timezone = none;
  on_sale_at = e.on_sale_at;
  tracking_status = TrackingStatus.active;
  first_tracked_at = now;
  last_attempt_at = none;
  last_success_at = none;
  last_record_present_at = none;
  last_state_change_at = none;
  next_capture_at = none;
  cadence_reason = none;
  priority = 0;
  priority_reason = none;
  consecutive_failures = 0;
  consecutive_absences = 0;
  capture_count = 0;
  distinct_state_count = 0;
  transition_count = 0;
  last_capture_status = none;
  created_at = now;
  updated_at = now;
  event_status = none;
  region_id = none;
  source_on_sale_at = none;
  first_ticket_state_seen_at = none;
  last_enriched_at = none;
  enrichment_status = none;
}

-- Known fields are filled in; nothing else of an existing row changes.
pub fill_in : Enrollment → Time → TrackedEvent → TrackedEvent
fill_in e now te = record te {
  city = if truthy e.city && not (truthy te.city) then e.city else te.city;
  starts_at =
      if is_some e.starts_at && not (is_some te.starts_at) then e.starts_at else te.starts_at;
  updated_at = now;
}

pub place : Settings → Enrollment → Time → Store → Option TrackedEvent → Option ℕ × Store
unfolding fill_in
place cfg e now s (some te) =
    (some te.id, record s { tracked = put_tracked (fill_in e now te) s.tracked })
place cfg e now s none = if leb cfg.max_tracked (length s.tracked) then (none, s) else (
  some s.fresh,
  record s { tracked = s.tracked ++ new_event s.fresh e now ∷ []; fresh = suc s.fresh },
)

unfoldable pub enroll : Settings → Enrollment → Time → Store → Option ℕ × Store
unfolding place outside_allowlist
enroll cfg e now s =
    if not (member e.source cfg.capture_sources)
    then (none, s)
    else if outside_allowlist cfg.city_allowlist e.city
    then (none, s)
    else place cfg e now s (find_tracked e.source e.source_record_id s.tracked)

abbrev ref : String → String → Enrollment
ref source sid = record {
  source = source;
  source_record_id = sid;
  city = none;
  starts_at = none;
  on_sale_at = none;
  canonical_event_id = none;
}

-- The number of references that were enrolled or already tracked.
unfoldable sync_from_refs : Settings → String → List String → Time → Store → ℕ × Store
sync_from_refs cfg source [] now s = (0, s)
sync_from_refs cfg source (sid ∷ rest) now s =
    let (id, s') = enroll cfg (ref source sid) now s in
    let (n, s'') = sync_from_refs cfg source rest now s' in ((if is_some id then suc n else n), s'')
