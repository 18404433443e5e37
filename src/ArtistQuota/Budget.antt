-- ===== src/ArtistQuota/Budget.antt =====
-- quota.py: the budgets, the use of the buckets, and the tests before a call is made. A setting that
-- is a fraction is a float, by its bits; `scale n f` is Python's `int(n * f)`.
use n_quark.Prelude.{
  ℕ, ◌+◌, ◌-◌, String, Bool, true, false, not, ◌&&◌, ◌||◌, none, some, List, [], ◌∷◌, ltb, leb,
  if◌then◌else◌, str_eq,
}
use n_quark.ArtistQuota.{Bucket}
use n_quark.ArtistQuota.Tables.{Date, BucketDay, is_bucket, find_bucket}

abbrev pub Fraction : Type 0
Fraction = ℕ

pub record QuotaSettings : Type 0 where
  pub youtube_search_daily_calls : ℕ
  pub youtube_daily_quota_units : ℕ
  pub youtube_quota_target_utilization : Fraction
  pub youtube_quota_reserve_fraction : Fraction
  pub youtube_bucket_fraction_general_read : Fraction
  pub youtube_bucket_fraction_video_batch : Fraction
  pub youtube_search_alloc_unresolved : Fraction
  pub youtube_search_alloc_discovery : Fraction
  pub youtube_search_alloc_ambiguity : Fraction
  pub youtube_search_alloc_reserve : Fraction
  pub youtube_search_allocation_enforced : Bool

-- The float 0.0 has the bits 0.
abbrev bucket_fraction : QuotaSettings → Bucket → Fraction
bucket_fraction cfg Bucket.general_read = cfg.youtube_bucket_fraction_general_read
bucket_fraction cfg Bucket.video_stats_batch = cfg.youtube_bucket_fraction_video_batch
bucket_fraction cfg _ = 0

abbrev search_alloc_fraction : QuotaSettings → String → Fraction
search_alloc_fraction cfg purpose =
    if str_eq purpose "unresolved"
    then cfg.youtube_search_alloc_unresolved
    else if str_eq purpose "discovery"
    then cfg.youtube_search_alloc_discovery
    else if str_eq purpose "ambiguity"
    then cfg.youtube_search_alloc_ambiguity
    else 0

-- `local_seconds` is the second of the day in the provider's time zone, or in UTC without one.
unfoldable near_provider_reset : (local_seconds within_seconds : ℕ) → Bool
near_provider_reset local_seconds within_seconds = leb (86400 - local_seconds) within_seconds

unfoldable pub bucket_used : String → Date → Bucket → List BucketDay → ℕ
unfolding find_bucket
bucket_used provider date bucket rows = elim (find_bucket provider date bucket rows) [
  | some row ↦ row.units
  | none ↦ 0
]

unfoldable pub bucket_requests : String → Date → Bucket → List BucketDay → ℕ
unfolding find_bucket
bucket_requests provider date bucket rows = elim (find_bucket provider date bucket rows) [
  | some row ↦ row.requests
  | none ↦ 0
]

-- `bucket.in_(GENERAL_POOL_BUCKETS)`
abbrev in_general_pool : String → Date → BucketDay → Bool
in_general_pool provider date row =
    is_bucket provider date Bucket.general_read row
    || is_bucket provider date Bucket.video_stats_batch row

-- `SUM(units)` of the general pool, 0 where it has no row.
unfoldable pub general_used : String → Date → List BucketDay → ℕ
general_used provider date [] = 0
general_used provider date (row ∷ rest) =
    let used = general_used provider date rest in
    if in_general_pool provider date row then row.units + used else used

unfoldable pub search_calls_used : String → Date → List BucketDay → ℕ
unfolding bucket_requests
search_calls_used provider date rows = bucket_requests provider date Bucket.search rows

unfoldable pub search_purpose_used : String → Date → String → List BucketDay → ℕ
unfolding bucket_requests
search_purpose_used provider date purpose rows =
    bucket_requests provider date (Bucket.search_for purpose) rows

module _ (scale : ℕ → Fraction → ℕ) (cfg : QuotaSettings) where
  unfoldable pub bucket_budget : Bucket → ℕ
  bucket_budget Bucket.search = cfg.youtube_search_daily_calls
  bucket_budget Bucket.general_read =
      scale cfg.youtube_daily_quota_units (bucket_fraction cfg Bucket.general_read)
  bucket_budget Bucket.video_stats_batch =
      scale cfg.youtube_daily_quota_units (bucket_fraction cfg Bucket.video_stats_batch)
  bucket_budget (Bucket.search_for purpose) =
      scale cfg.youtube_daily_quota_units (bucket_fraction cfg (Bucket.search_for purpose))

  unfoldable pub reserve_units : ℕ
  reserve_units = scale cfg.youtube_daily_quota_units cfg.youtube_quota_reserve_fraction

  unfoldable pub usable_units : ℕ
  usable_units = scale cfg.youtube_daily_quota_units cfg.youtube_quota_target_utilization

  unfoldable pub search_purpose_budget : String → ℕ
  unfolding bucket_budget
  search_purpose_budget purpose =
      scale (bucket_budget Bucket.search) (search_alloc_fraction cfg purpose)

  unfoldable pub search_reserve_calls : ℕ
  search_reserve_calls = scale cfg.youtube_search_daily_calls cfg.youtube_search_alloc_reserve

  module _ (provider : String) (date : Date) where
    -- A bucket of the general pool: its own budget and what the pool may spend.
    abbrev can_spend_general : Bucket → ℕ → List BucketDay → Bool
    can_spend_general bucket units rows =
        if ltb (bucket_budget bucket) (bucket_used provider date bucket rows + units)
        then false
        else if ltb usable_units (general_used provider date rows + units)
        then false
        else true

    unfoldable pub can_spend : Bucket → ℕ → List BucketDay → Bool
    unfolding bucket_used general_used bucket_budget usable_units search_calls_used
    can_spend Bucket.search units rows =
        leb (search_calls_used provider date rows + units) cfg.youtube_search_daily_calls
    can_spend Bucket.general_read units rows = can_spend_general Bucket.general_read units rows
    can_spend Bucket.video_stats_batch units rows =
        can_spend_general Bucket.video_stats_batch units rows
    can_spend (Bucket.search_for purpose) units rows =
        can_spend_general (Bucket.search_for purpose) units rows

    -- The reserve is kept: `used + units > daily - reserve` with the difference of integers.
    unfoldable pub takes_reserve : ℕ → List BucketDay → Bool
    unfolding search_calls_used search_reserve_calls
    takes_reserve units rows =
        ltb cfg.youtube_search_daily_calls
          (search_calls_used provider date rows + units + search_reserve_calls)

    unfoldable pub can_spend_search :
        (purpose : String)
        → (units : ℕ) → (others_have_backlog near_reset high_priority : Bool) → List BucketDay
        → Bool
    unfolding can_spend takes_reserve search_purpose_used search_purpose_budget
    can_spend_search purpose units others_have_backlog near_reset high_priority rows =
        if not cfg.youtube_search_allocation_enforced
        then can_spend Bucket.search units rows
        else if not (can_spend Bucket.search units rows)
        then false
        else if not high_priority && not near_reset && takes_reserve units rows
        then false
        else if leb (search_purpose_used provider date purpose rows + units)
            (search_purpose_budget purpose)
        then true
        else near_reset || not others_have_backlog
