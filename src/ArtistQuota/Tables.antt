-- ===== src/ArtistQuota/Tables.antt =====
-- quota.py: the rows of provider_quota_day and provider_quota_bucket_day, made where they are missing,
-- and `record_meter`. A row's id is a digest of its unique key and is left out; the instants that one
-- call reads from the clock are one instant.
use n_quark.Prelude.{
  ℕ, ◌+◌, String, Bool, true, false, ◌&&◌, Option, none, some, List, [], ◌∷◌, ◌++◌, ◌==◌,
  if◌then◌else◌, or_else, str_eq, truthy, is_nil,
}
use n_quark.Prelude.Time.{Time}
use n_quark.ArtistQuota.{Kind, Bucket, same_bucket, QuotaCall, QuotaMeter, drain}

-- A calendar day by its number.
abbrev pub Date : Type 0
Date = ℕ

abbrev provider_youtube : String
provider_youtube = "YOUTUBE"

-- `reset_date` and `utc_date` stand for the dates of an instant in the provider's time zone and in UTC.
unfoldable quota_date_for :
    (Time → Date) → (Time → Date) → String → (on : Option Date) → (now : Time) → Date
quota_date_for reset_date utc_date provider (some on) now = on
quota_date_for reset_date utc_date provider none now =
    if str_eq provider provider_youtube then reset_date now else utc_date now

pub record QuotaDay : Type 0 where
  pub provider : String
  pub quota_date : Date
  pub requests : ℕ
  pub search_requests : ℕ
  pub non_search_quota_units : ℕ
  pub search_quota_units : ℕ
  pub successful_calls : ℕ
  pub failed_calls : ℕ
  pub quota_errors : ℕ
  pub created_at : Time
  pub updated_at : Time

pub record BucketDay : Type 0 where
  pub provider : String
  pub quota_date : Date
  pub bucket : Bucket
  pub requests : ℕ
  pub units : ℕ
  pub successful_calls : ℕ
  pub failed_calls : ℕ
  pub quota_errors : ℕ
  pub created_at : Time
  pub updated_at : Time

pub record QuotaTables : Type 0 where
  pub days : List QuotaDay
  pub buckets : List BucketDay

abbrev pub is_day : String → Date → QuotaDay → Bool
is_day provider date row = str_eq row.provider provider && row.quota_date == date

unfoldable pub find_day : String → Date → List QuotaDay → Option QuotaDay
find_day provider date [] = none
find_day provider date (row ∷ rest) =
    if is_day provider date row then some row else find_day provider date rest

abbrev pub new_day : String → Date → Time → QuotaDay
new_day provider date now = record {
  provider = provider;
  quota_date = date;
  requests = 0;
  search_requests = 0;
  non_search_quota_units = 0;
  search_quota_units = 0;
  successful_calls = 0;
  failed_calls = 0;
  quota_errors = 0;
  created_at = now;
  updated_at = now;
}

unfoldable pub get_or_create_day : String → Date → Time → List QuotaDay → QuotaDay × List QuotaDay
unfolding find_day
get_or_create_day provider date now days = elim (find_day provider date days) [
  | some row ↦ (row, days)
  | none ↦ (new_day provider date now, days ++ new_day provider date now ∷ [])
]

-- The flush of a changed row of the day.
unfoldable pub put_day : QuotaDay → List QuotaDay → List QuotaDay
put_day row [] = []
put_day row (x ∷ rest) =
    if is_day row.provider row.quota_date x then row ∷ rest else x ∷ put_day row rest

unfoldable search_calls_today : String → Date → QuotaTables → ℕ
unfolding find_day
search_calls_today provider date t = elim (find_day provider date t.days) [
  | some row ↦ row.search_requests
  | none ↦ 0
]

abbrev pub is_bucket : String → Date → Bucket → BucketDay → Bool
is_bucket provider date bucket row =
    str_eq row.provider provider && row.quota_date == date && same_bucket row.bucket bucket

unfoldable pub find_bucket : String → Date → Bucket → List BucketDay → Option BucketDay
find_bucket provider date bucket [] = none
find_bucket provider date bucket (row ∷ rest) =
    if is_bucket provider date bucket row then some row else find_bucket provider date bucket rest

abbrev pub new_bucket : String → Date → Bucket → Time → BucketDay
new_bucket provider date bucket now = record {
  provider = provider;
  quota_date = date;
  bucket = bucket;
  requests = 0;
  units = 0;
  successful_calls = 0;
  failed_calls = 0;
  quota_errors = 0;
  created_at = now;
  updated_at = now;
}

unfoldable pub get_or_create_bucket :
    String → Date → Bucket → Time → List BucketDay → BucketDay × List BucketDay
unfolding find_bucket
get_or_create_bucket provider date bucket now rows = elim (find_bucket provider date bucket rows) [
  | some row ↦ (row, rows)
  | none ↦ (new_bucket provider date bucket now, rows ++ new_bucket provider date bucket now ∷ [])
]

unfoldable pub put_bucket : BucketDay → List BucketDay → List BucketDay
put_bucket row [] = []
put_bucket row (x ∷ rest) =
    if is_bucket row.provider row.quota_date row.bucket x
    then row ∷ rest
    else x ∷ put_bucket row rest

abbrev pub is_search : Kind → Bool
is_search Kind.search = true
is_search _ = false

-- `1 if b else 0`
abbrev pub one_if : Bool → ℕ
one_if true = 1
one_if false = 0

-- What the loop adds to the row of the day.
unfoldable pub count_call : QuotaCall → QuotaDay → QuotaDay
count_call c day = record day {
  requests = day.requests + 1;
  search_requests = day.search_requests + one_if (is_search c.kind);
  search_quota_units = day.search_quota_units + (if is_search c.kind then c.units else 0);
  non_search_quota_units = day.non_search_quota_units + (if is_search c.kind then 0 else c.units);
  successful_calls = day.successful_calls + one_if c.ok;
  failed_calls = day.failed_calls + (if c.ok then 0 else 1);
  quota_errors = day.quota_errors + one_if c.quota_error;
}

unfoldable pub count_in_bucket : Time → QuotaCall → BucketDay → BucketDay
count_in_bucket now c row = record row {
  requests = row.requests + 1;
  units = row.units + c.units;
  successful_calls = row.successful_calls + one_if c.ok;
  failed_calls = row.failed_calls + (if c.ok then 0 else 1);
  quota_errors = row.quota_errors + one_if c.quota_error;
  updated_at = now;
}

-- The row of a purpose does not count quota errors.
unfoldable pub count_in_purpose : Time → QuotaCall → BucketDay → BucketDay
count_in_purpose now c row = record row {
  requests = row.requests + 1;
  units = row.units + c.units;
  successful_calls = row.successful_calls + one_if c.ok;
  failed_calls = row.failed_calls + (if c.ok then 0 else 1);
  updated_at = now;
}

module _ (provider : String) (date : Date) (now : Time) where
  -- A bucket's row, made where it is missing, with a change.
  unfoldable pub charge : Bucket → (BucketDay → BucketDay) → List BucketDay → List BucketDay
  unfolding get_or_create_bucket put_bucket
  charge bucket change rows =
      let (row, all) = get_or_create_bucket provider date bucket now rows in
      put_bucket (change row) all

  -- What one call changes in the buckets.
  unfoldable pub charge_call : QuotaCall → List BucketDay → List BucketDay
  unfolding charge count_in_bucket count_in_purpose
  charge_call c rows =
      let charged = charge c.bucket (count_in_bucket now c) rows in
      if is_search c.kind && truthy c.purpose
      then charge (Bucket.search_for (or_else c.purpose "")) (count_in_purpose now c) charged
      else charged

  unfoldable pub charge_calls : List QuotaCall → List BucketDay → List BucketDay
  unfolding charge_call
  charge_calls [] rows = rows
  charge_calls (c ∷ calls) rows = charge_calls calls (charge_call c rows)

  unfoldable pub count_calls : List QuotaCall → QuotaDay → QuotaDay
  unfolding count_call
  count_calls [] day = day
  count_calls (c ∷ calls) day = count_calls calls (count_call c day)

  -- The meter that is left, and the tables.
  unfoldable pub record_meter : QuotaMeter → QuotaTables → QuotaMeter × QuotaTables
  unfolding drain charge_calls count_calls get_or_create_day put_day
  record_meter meter t =
      let (calls, left) = drain meter in
      let (day, days) = get_or_create_day provider date now t.days in
      if is_nil calls then (left, t) else (
        left,
        record {
          days = put_day (record (count_calls calls day) { updated_at = now }) days;
          buckets = charge_calls calls t.buckets;
        },
      )
