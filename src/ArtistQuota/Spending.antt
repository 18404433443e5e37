-- ===== src/ArtistQuota/Spending.antt =====
-- quota.py: a call that the tests let through stays within what they protect.
use n_quark.Prelude.{
  ℕ, ◌+◌, ◌≤◌, ◌≡◌, refl, ◌⊎◌, String, Bool, true, false, ◌&&◌, none, some, List, [], ◌∷◌, arith,
  if◌then◌else◌, or_else, eq_refl, truthy,
}
use n_quark.Prelude.Time.{Time}
use n_quark.ArtistQuota.{
  Kind, Bucket, same_bucket, QuotaCall, QuotaMeter, record_call, search_of, search_call,
}
use n_quark.ArtistQuota.Tables.{
  Date, BucketDay, QuotaTables, is_search, charge_call, charge_calls, record_meter, count_in_bucket,
  count_in_purpose,
}
use n_quark.ArtistQuota.Budget.{
  Fraction, QuotaSettings, bucket_used, bucket_requests, general_used, bucket_budget, usable_units,
  search_calls_used, search_purpose_used, search_purpose_budget, search_reserve_calls, can_spend,
  can_spend_search, takes_reserve,
}
use n_quark.ArtistQuota.Charges.{number_of}
use n_quark.ArtistQuota.Ledger.{is_main}
use n_quark.ArtistQuota.Ledger.Steps.{number_of-after, requests-main, units-main, own_key}
use n_quark.ArtistQuota.Unique.{
  IsUnique, charge_call-IsUnique, general_used-split, record_meter-buckets,
}

abbrev in_pool : Bucket → Bool
in_pool Bucket.general_read = true
in_pool Bucket.video_stats_batch = true
in_pool _ = false

-- The rows of the buckets after a meter is recorded.
abbrev pub buckets_after : String → Date → Time → QuotaMeter → QuotaTables → List BucketDay
buckets_after provider date now meter t = (record_meter provider date now meter t).1.buckets

module _ (provider : String) (date : Date) (now : Time) (c : QuotaCall) where
  units-after :
      (b : Bucket) (rows : List BucketDay)
      → is_main b ≡ true
      → bucket_used provider date b (charge_call provider date now c rows)
        ≡ bucket_used provider date b rows + (if same_bucket c.bucket b then c.units else 0)
  unfolding bucket_used number_of
  units-after b rows h = units-main provider date now c b rows h

  calls-after :
      (rows : List BucketDay)
      → search_calls_used provider date (charge_call provider date now c rows)
        ≡ search_calls_used provider date rows
          + (if same_bucket c.bucket Bucket.search then 1 else 0)
  unfolding search_calls_used bucket_requests number_of
  calls-after rows = requests-main provider date now c Bucket.search rows refl

  purpose-after :
      (purpose : String) (rows : List BucketDay)
      → is_main c.bucket ≡ true
      → is_search c.kind && truthy c.purpose ≡ true
      → or_else c.purpose "" ≡ purpose
      → search_purpose_used provider date purpose (charge_call provider date now c rows)
        ≡ search_purpose_used provider date purpose rows + 1
  unfolding search_purpose_used bucket_requests number_of count_in_bucket count_in_purpose
  purpose-after purpose rows h h' e = ground (
    arith,
    number_of-after provider date now c (λ r. r.requests) 1 1 (λ row. refl) (λ row. refl)
        (λ b. refl) provider date (Bucket.search_for purpose) rows,
    own_key provider date now (Bucket.search_for purpose) c.bucket,
    own_key provider date now (Bucket.search_for purpose)
        (Bucket.search_for (or_else c.purpose "")),
    eq_refl purpose,
  )

  pool-after :
      (rows : List BucketDay)
      → IsUnique rows
      → general_used provider date (charge_call provider date now c rows)
        ≡ general_used provider date rows + (if in_pool c.bucket then c.units else 0)
  pool-after rows h = ground (
    arith,
    general_used-split provider date rows h,
    general_used-split provider date (charge_call provider date now c rows)
        (charge_call-IsUnique provider date now c rows h),
    units-after Bucket.general_read rows refl,
    units-after Bucket.video_stats_batch rows refl,
  )

module _ (scale : ℕ → Fraction → ℕ) (cfg : QuotaSettings) (provider : String) (date : Date)
    (now : Time) where
  -- A call of the general pool that `can_spend` lets through leaves, once it is recorded, its bucket
  -- within its budget and the pool within the usable units, and does not touch the search quota.
  pub can_spend-pool :
      (kind : Kind) (b : Bucket) (units : ℕ) (ok quota_error : Bool) (t : QuotaTables)
      → is_search kind ≡ false
      → in_pool b ≡ true
      → IsUnique t.buckets
      → can_spend scale cfg provider date b units t.buckets ≡ true
      → let rows = buckets_after provider date now (record_call kind units b ok quota_error []) t in
        (bucket_used provider date b rows ≤ bucket_budget scale cfg b)
        × (general_used provider date rows ≤ usable_units scale cfg)
        × (search_calls_used provider date rows ≡ search_calls_used provider date t.buckets)
  unfolding can_spend record_call charge_calls bucket_budget
  can_spend-pool kind b units ok quota_error t not_search pool unique can =
      rw (record_meter-buckets provider date now (call ∷ []) t) (
        ground (
          arith,
          units-after provider date now call b t.buckets,
          calls-after provider date now call t.buckets,
          pool-after provider date now call t.buckets unique,
        ))
    where
      call : QuotaCall
      call = record {
        kind = kind;
        bucket = b;
        units = units;
        ok = ok;
        quota_error = quota_error;
        purpose = none;
      }

  -- A search that `can_spend_search` lets through for a purpose leaves, once it is recorded, the
  -- calls of the day within the search quota and the general pool as it was. Work that is not of
  -- high priority leaves the reserve unless the day is near its reset, and the purpose stays within
  -- its own slice unless the day is near its reset or no other purpose has work; where the
  -- allocation is not enforced, only the quota holds.
  pub can_spend_search-reserve :
      (purpose : String) (ok quota_error others near high : Bool) (t : QuotaTables)
      → truthy (some purpose) ≡ true
      → IsUnique t.buckets
      → can_spend_search scale cfg provider date purpose 1 others near high t.buckets ≡ true
      → let rows =
          buckets_after provider date now (search_call ok quota_error (some purpose) []) t in
        let free = (cfg.youtube_search_allocation_enforced ≡ false) ⊎ (near ≡ true) in
        let calls = search_calls_used provider date rows in
        (calls ≤ cfg.youtube_search_daily_calls)
        × (general_used provider date rows ≡ general_used provider date t.buckets)
        × (free
            ⊎ (high ≡ true)
            ⊎ (calls + search_reserve_calls scale cfg ≤ cfg.youtube_search_daily_calls))
        × (free
            ⊎ (others ≡ false)
            ⊎ (search_purpose_used provider date purpose rows
                ≤ search_purpose_budget scale cfg purpose))
  unfolding can_spend_search can_spend takes_reserve search_call search_of charge_calls
  can_spend_search-reserve purpose ok quota_error others near high t named unique can =
      rw (record_meter-buckets provider date now (call ∷ []) t) (
        ground (
          arith,
          calls-after provider date now call t.buckets,
          pool-after provider date now call t.buckets unique,
          purpose-after provider date now call purpose t.buckets refl named refl,
        ))
    where
      call : QuotaCall
      call = search_of ok quota_error (some purpose)
