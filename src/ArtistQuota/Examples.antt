-- ===== src/ArtistQuota/Examples.antt =====
-- The theorems on the quota at concrete tables: one read and one search of a day.
use n_quark.Prelude.{◌+◌, ◌≤◌, ◌≡◌, refl, ◌⊎◌, ◌*◌, ◌/◌, ℕ, true, false, some, [], ◌∷◌, arith}
use n_quark.ArtistQuota.{Kind, Bucket, record_call, search_call}
use n_quark.ArtistQuota.Tables.{QuotaTables, record_meter}
use n_quark.ArtistQuota.Budget.{
  Fraction, QuotaSettings, bucket_used, general_used, bucket_budget, usable_units, can_spend,
  can_spend_search, search_calls_used, search_purpose_used, search_purpose_budget,
  search_reserve_calls,
}
use n_quark.ArtistQuota.Ledger.{MeterUse, meter_of}
use n_quark.ArtistQuota.Ledger.Reconciled.{
  IsReconciled, empty-IsReconciled, record_meter-IsReconciled,
}
use n_quark.ArtistQuota.Unique.{IsUnique}
use n_quark.ArtistQuota.Spending.{buckets_after, can_spend-pool, can_spend_search-reserve}

abbrev empty_tables : QuotaTables
empty_tables = record { days = []; buckets = [] }

-- Fractions as hundredths.
abbrev hundredths : ℕ → Fraction → ℕ
hundredths n f = n * f / 100

abbrev settings : QuotaSettings
settings = record {
  youtube_search_daily_calls = 100;
  youtube_daily_quota_units = 10000;
  youtube_quota_target_utilization = 95;
  youtube_quota_reserve_fraction = 5;
  youtube_bucket_fraction_general_read = 60;
  youtube_bucket_fraction_video_batch = 35;
  youtube_search_alloc_unresolved = 40;
  youtube_search_alloc_discovery = 40;
  youtube_search_alloc_ambiguity = 15;
  youtube_search_alloc_reserve = 5;
  youtube_search_allocation_enforced = true;
}

empty-IsUnique : IsUnique empty_tables.buckets
empty-IsUnique = record { one_row = λ p d b. omega arith }

record_meter-IsReconciled_example :
    let (left, t') =
      record_meter "YOUTUBE" 5 7
        (meter_of (MeterUse.reads 1 true ∷ MeterUse.searches false true (some "discovery") ∷ []) [])
        empty_tables in
    (left ≡ []) × IsReconciled t'
record_meter-IsReconciled_example =
    record_meter-IsReconciled "YOUTUBE" 5 7
      (MeterUse.reads 1 true ∷ MeterUse.searches false true (some "discovery") ∷ []) empty_tables
      empty-IsReconciled

can_spend-pool_example :
    let rows =
      buckets_after "YOUTUBE" 5 7
        (record_call Kind.read 3 Bucket.general_read true false [])
        empty_tables in
    (bucket_used "YOUTUBE" 5 Bucket.general_read rows
      ≤ bucket_budget hundredths settings Bucket.general_read)
    × (general_used "YOUTUBE" 5 rows ≤ usable_units hundredths settings)
    × (search_calls_used "YOUTUBE" 5 rows ≡ search_calls_used "YOUTUBE" 5 empty_tables.buckets)
unfolding can_spend
can_spend-pool_example =
    can_spend-pool hundredths settings "YOUTUBE" 5 7 Kind.read Bucket.general_read 3 true false
      empty_tables refl refl empty-IsUnique refl

can_spend_search-reserve_example :
    let rows =
      buckets_after "YOUTUBE" 5 7 (search_call true false (some "discovery") []) empty_tables in
    let free = (settings.youtube_search_allocation_enforced ≡ false) ⊎ (false ≡ true) in
    let calls = search_calls_used "YOUTUBE" 5 rows in
    (calls ≤ settings.youtube_search_daily_calls)
    × (general_used "YOUTUBE" 5 rows ≡ general_used "YOUTUBE" 5 empty_tables.buckets)
    × (free
        ⊎ (false ≡ true)
        ⊎ (calls + search_reserve_calls hundredths settings ≤ settings.youtube_search_daily_calls))
    × (free
        ⊎ (true ≡ false)
        ⊎ (search_purpose_used "YOUTUBE" 5 "discovery" rows
            ≤ search_purpose_budget hundredths settings "discovery"))
unfolding can_spend_search
can_spend_search-reserve_example =
    can_spend_search-reserve hundredths settings "YOUTUBE" 5 7 "discovery" true false true false
      false empty_tables refl empty-IsUnique refl
