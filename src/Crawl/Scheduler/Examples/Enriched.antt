-- ===== src/Crawl/Scheduler/Examples/Enriched.antt =====
-- The theorems on enrichment at the tracked show, with a new date and status.
use n_quark.Prelude.{◌≡◌, refl, String, false, Option, none, some}
use n_quark.Prelude.Time.{Time, days}
use n_quark.Crawl.Scheduler.Store.{TrackedEvent, find_tracked}
use n_quark.Crawl.Scheduler.Enrichment.{Resolved, apply_enrichment}
use n_quark.Crawl.Scheduler.Enrichment.Laws.{HasTaken, IsReplanned, apply_enrichment_lem}
use n_quark.Crawl.Scheduler.Examples.{calendar, settings, show, one_show, settings-IsPositive}

-- A new date and a status that differs.
abbrev resolved : Resolved
resolved = record {
  starts_at = some "later";
  end_at = none;
  city = none;
  region_id = none;
  event_status = some "onsale";
  source_on_sale_at = none;
  first_ticket_state_seen_at = none;
  has_others = false;
}

abbrev later : String → Option Time
later v = some (days 12)

apply_enrichment_lem_example :
    let s' = apply_enrichment later calendar settings resolved 9 "ticketing" "42" one_show in
    ((x : TrackedEvent) × (find_tracked "ticketing" "42" s'.tracked ≡ some x)
      × HasTaken later calendar settings resolved 9 show x
      × IsReplanned calendar settings 9 show x)
    × (s'.jobs ≡ one_show.jobs)
unfolding find_tracked
apply_enrichment_lem_example =
    apply_enrichment_lem later calendar settings resolved 9 show "ticketing" "42" one_show
      settings-IsPositive refl refl
