-- ===== src/ArtistQuota/Snapshot.antt =====
-- quota.py: `bucket_snapshot` and `search_allocation_snapshot`, the numbers of the diagnostics.
use n_quark.Prelude.{ℕ, ◌+◌, ◌-◌, String, Bool, Option, none, some, List, ◌==◌}
use n_quark.ArtistQuota.{Bucket}
use n_quark.ArtistQuota.Tables.{Date, BucketDay, find_bucket}
use n_quark.ArtistQuota.Budget.{
  Fraction, QuotaSettings, general_used, bucket_budget, reserve_units, usable_units,
  search_purpose_used, search_purpose_budget, search_reserve_calls,
}

pub record BucketReport : Type 0 where
  pub used : ℕ
  pub budget : ℕ
  pub remaining : ℕ
  pub requests : ℕ
  pub successful_calls : ℕ
  pub failed_calls : ℕ
  pub quota_errors : ℕ

pub record PurposeReport : Type 0 where
  pub budget : ℕ
  pub used : ℕ
  pub remaining : ℕ
  pub borrowed : ℕ

pub record QuotaReport : Type 0 where
  pub search_calls : ℕ
  pub remaining_calls : ℕ
  pub reserve_calls : ℕ
  pub usable : ℕ
  pub reserve : ℕ
  pub pool_used : ℕ
  pub remaining_usable : ℕ
  pub reconciles : Bool
  pub search_bucket : BucketReport
  pub general_read_bucket : BucketReport
  pub video_bucket : BucketReport
  pub unresolved : PurposeReport
  pub discovery : PurposeReport
  pub ambiguity : PurposeReport

module _ (scale : ℕ → Fraction → ℕ) (cfg : QuotaSettings) (provider : String) (date : Date) where
  unfoldable pub report_of : Bucket → Option BucketDay → BucketReport
  unfolding bucket_budget
  report_of bucket none = record {
    used = 0;
    budget = bucket_budget scale cfg bucket;
    remaining = bucket_budget scale cfg bucket - 0;
    requests = 0;
    successful_calls = 0;
    failed_calls = 0;
    quota_errors = 0;
  }
  report_of bucket (some row) = record {
    used = row.units;
    budget = bucket_budget scale cfg bucket;
    remaining = bucket_budget scale cfg bucket - row.units;
    requests = row.requests;
    successful_calls = row.successful_calls;
    failed_calls = row.failed_calls;
    quota_errors = row.quota_errors;
  }

  unfoldable search_allocation_of : String → List BucketDay → PurposeReport
  unfolding search_purpose_used search_purpose_budget
  search_allocation_of purpose rows =
      let used = search_purpose_used provider date purpose rows in
      let budget = search_purpose_budget scale cfg purpose in
      record { budget = budget; used = used; remaining = budget - used; borrowed = used - budget }

  unfoldable pub bucket_snapshot : List BucketDay → QuotaReport
  unfolding report_of search_allocation_of general_used usable_units reserve_units
      search_reserve_calls find_bucket
  bucket_snapshot rows =
      let searches = report_of Bucket.search (find_bucket provider date Bucket.search rows) in
      let reads =
        report_of Bucket.general_read (find_bucket provider date Bucket.general_read rows) in
      let batches =
        report_of Bucket.video_stats_batch
          (find_bucket provider date Bucket.video_stats_batch rows) in
      let pool = general_used provider date rows in
      record {
        search_calls = searches.requests;
        remaining_calls = cfg.youtube_search_daily_calls - searches.requests;
        reserve_calls = search_reserve_calls scale cfg;
        usable = usable_units scale cfg;
        reserve = reserve_units scale cfg;
        pool_used = pool;
        remaining_usable = usable_units scale cfg - pool;
        reconciles = pool == reads.used + batches.used;
        search_bucket = searches;
        general_read_bucket = reads;
        video_bucket = batches;
        unresolved = search_allocation_of "unresolved" rows;
        discovery = search_allocation_of "discovery" rows;
        ambiguity = search_allocation_of "ambiguity" rows;
      }
