-- ===== src/ArtistQuota/Ledger.antt =====
-- quota.py: what providers put in a meter, and the balance of the row of a day with its buckets.
pub mod Steps
pub mod Reconciled
pub mod Batches
use n_quark.Prelude.{
  ℕ, ◌+◌, ◌≤◌, ◌≡◌, refl, ◌∙◌, inl, inr, String, Bool, true, false, not, ◌&&◌, Option, none, some,
  List, [], ◌∷◌, ◌++◌, arith, ◌==◌, if◌then◌else◌, or_else, str_eq, eq_refl, truthy, count_if,
  count_if-append, Bool-cases, Option-cases,
}
use n_quark.Prelude.Time.{Time}
use n_quark.ArtistQuota.{
  Kind, Bucket, same_bucket, QuotaCall, QuotaMeter, read_call, search_call, video_batch_call,
  record_call, search_of,
}
use n_quark.ArtistQuota.Tables.{
  Date, QuotaDay, BucketDay, QuotaTables, is_day, find_day, new_day, get_or_create_day, put_day,
  is_bucket, new_bucket, charge, is_search, one_if, count_call, count_in_bucket, count_in_purpose,
  charge_call, charge_calls, count_calls, record_meter,
}
use n_quark.ArtistQuota.Charges.{IsCharge, number_of, number_of-charge}

-- What a provider does with its meter.
pub data MeterUse : Type 0 where
  reads : (units : ℕ) → (ok : Bool) → MeterUse
  searches : (ok quota_error : Bool) → (purpose : Option String) → MeterUse
  batches : (units : ℕ) → (ok : Bool) → MeterUse

unfoldable use_meter : MeterUse → QuotaMeter → QuotaMeter
unfolding read_call search_call video_batch_call
use_meter (MeterUse.reads units ok) meter = read_call units ok meter
use_meter (MeterUse.searches ok quota_error purpose) meter =
    search_call ok quota_error purpose meter
use_meter (MeterUse.batches units ok) meter = video_batch_call units ok meter

unfoldable pub meter_of : List MeterUse → QuotaMeter → QuotaMeter
unfolding use_meter
meter_of [] meter = meter
meter_of (use_ ∷ uses) meter = meter_of uses (use_meter use_ meter)

-- The bucket is that of the kind of call.
abbrev pub is_metered : QuotaCall → Bool
is_metered c = elim c.kind [
  | Kind.search ↦ same_bucket c.bucket Bucket.search
  | Kind.read ↦ same_bucket c.bucket Bucket.general_read
  | Kind.video_batch ↦ same_bucket c.bucket Bucket.video_stats_batch
]

abbrev pub unmetered : QuotaMeter → ℕ
unmetered calls = count_if (λ c. not (is_metered c)) calls

append_metered :
    (meter : QuotaMeter) (c : QuotaCall)
    → is_metered c ≡ true
    → unmetered (meter ++ c ∷ []) ≡ unmetered meter
append_metered meter c h = ground (arith, count_if-append (λ c. not (is_metered c)) meter (c ∷ []))

pub meter_of-unmetered :
    (uses : List MeterUse) (meter : QuotaMeter)
    → unmetered meter ≡ 0
    → unmetered (meter_of uses meter) ≡ 0
unfolding meter_of use_meter read_call search_call video_batch_call search_of record_call
meter_of-unmetered [] meter h = h
meter_of-unmetered (MeterUse.reads units ok ∷ uses) meter h =
    meter_of-unmetered uses (read_call units ok meter) (append_metered meter _ refl ∙ h)
meter_of-unmetered (MeterUse.searches ok quota_error purpose ∷ uses) meter h =
    meter_of-unmetered uses (search_call ok quota_error purpose meter)
      (append_metered meter _ refl ∙ h)
meter_of-unmetered (MeterUse.batches units ok ∷ uses) meter h =
    meter_of-unmetered uses (video_batch_call units ok meter) (append_metered meter _ refl ∙ h)

-- The three buckets that calls are made in.
abbrev pub is_main : Bucket → Bool
is_main (Bucket.search_for purpose) = false
is_main _ = true

module _ (provider : String) (date : Date) where
  -- The sum of a number over the three buckets.
  abbrev pub spread : (BucketDay → ℕ) → List BucketDay → ℕ
  spread g rows =
      number_of g provider date Bucket.search rows
      + number_of g provider date Bucket.general_read rows
      + number_of g provider date Bucket.video_stats_batch rows

  -- The day's row adds up the buckets, and no purpose has more searches than there were.
  abbrev pub Balance : QuotaDay → List BucketDay → Type 0
  Balance day rows =
      (day.requests ≡ spread (λ r. r.requests) rows)
      × (day.successful_calls ≡ spread (λ r. r.successful_calls) rows)
      × (day.failed_calls ≡ spread (λ r. r.failed_calls) rows)
      × (day.quota_errors ≡ spread (λ r. r.quota_errors) rows)
      × (day.search_requests ≡ number_of (λ r. r.requests) provider date Bucket.search rows)
      × (day.search_quota_units ≡ number_of (λ r. r.units) provider date Bucket.search rows)
      × (day.non_search_quota_units
          ≡ number_of (λ r. r.units) provider date Bucket.general_read rows
            + number_of (λ r. r.units) provider date Bucket.video_stats_batch rows)
      × (day.requests ≡ day.successful_calls + day.failed_calls)
      × ((purpose : String)
          → number_of (λ r. r.requests) provider date (Bucket.search_for purpose) rows
            ≤ number_of (λ r. r.requests) provider date Bucket.search rows)
