-- ===== src/ArtistQuota/Ledger/Steps.antt =====
-- quota.py, `record_meter`: one call keeps the balance of its day and touches no other day.
use n_quark.Prelude.{
  ℕ, ◌+◌, ◌≤◌, ◌≡◌, refl, ap, sym, ◌∙◌, String, true, false, ◌&&◌, List, [], ◌∷◌, arith,
  if◌then◌else◌, or_else, eq_refl, truthy,
}
use n_quark.Prelude.Time.{Time}
use n_quark.ArtistQuota.{Bucket, same_bucket, QuotaCall, QuotaMeter}
use n_quark.ArtistQuota.Tables.{
  Date, QuotaDay, BucketDay, is_bucket, new_bucket, charge, is_search, one_if, count_call,
  count_in_bucket, count_in_purpose, charge_call, charge_calls, count_calls,
}
use n_quark.ArtistQuota.Charges.{IsCharge, number_of, number_of-charge}
use n_quark.ArtistQuota.Ledger.{is_metered, unmetered, is_main, spread, Balance}

module _ (provider : String) (date : Date) (now : Time) where
  pub own_key :
      (b b' : Bucket)
      → is_bucket provider date b (new_bucket provider date b' now) ≡ same_bucket b' b
  own_key b b' = ground (arith, eq_refl provider)

  purpose_main :
      (purpose : String) (b : Bucket)
      → is_main b ≡ true
      → same_bucket (Bucket.search_for purpose) b ≡ false
  purpose_main purpose b h = ground arith

  metered_main : (c : QuotaCall) → is_metered c ≡ true → is_main c.bucket ≡ true
  metered_main c h = ground arith

  abbrev after : QuotaCall → List BucketDay → List BucketDay
  after c rows = charge_call provider date now c rows

  module _ (c : QuotaCall) (g : BucketDay → ℕ) (n m : ℕ)
      (main : (row : BucketDay) → g (count_in_bucket now c row) ≡ g row + n)
      (sub : (row : BucketDay) → g (count_in_purpose now c row) ≡ g row + m)
      (zeroed : (b : Bucket) → g (new_bucket provider date b now) ≡ 0) where
    main-IsCharge : IsCharge (count_in_bucket now c) g n
    unfolding count_in_bucket
    main-IsCharge = record {
      provider_kept = λ row. refl;
      date_kept = λ row. refl;
      bucket_kept = λ row. refl;
      adds = main;
    }

    sub-IsCharge : IsCharge (count_in_purpose now c) g m
    unfolding count_in_purpose
    sub-IsCharge = record {
      provider_kept = λ row. refl;
      date_kept = λ row. refl;
      bucket_kept = λ row. refl;
      adds = sub;
    }

    -- The number of a bucket after one call.
    pub number_of-after :
        (p : String) (d : Date) (b : Bucket) (rows : List BucketDay)
        → number_of g p d b (after c rows)
          ≡ number_of g p d b rows
            + (if is_bucket p d b (new_bucket provider date c.bucket now) then n else 0)
            + (if is_search c.kind
                  && truthy c.purpose
                  && is_bucket p d b
                      (new_bucket provider date (Bucket.search_for (or_else c.purpose "")) now)
                then m
                else 0)
    unfolding charge_call
    number_of-after p d b rows = ground (
      arith,
      number_of-charge provider date c.bucket now (count_in_bucket now c) main-IsCharge p d b rows
          (zeroed c.bucket),
      number_of-charge provider date (Bucket.search_for (or_else c.purpose "")) now
          (count_in_purpose now c) sub-IsCharge p d b
          (charge provider date now c.bucket (count_in_bucket now c) rows)
          (zeroed (Bucket.search_for (or_else c.purpose ""))),
    )

    number_of-main :
        (b : Bucket) (rows : List BucketDay)
        → is_main b ≡ true
        → number_of g provider date b (after c rows)
          ≡ number_of g provider date b rows + (if same_bucket c.bucket b then n else 0)
    number_of-main b rows h = ground (
      arith,
      number_of-after provider date b rows,
      own_key b c.bucket,
      own_key b (Bucket.search_for (or_else c.purpose "")),
      purpose_main (or_else c.purpose "") b h,
    )

    spread-after :
        (rows : List BucketDay)
        → is_main c.bucket ≡ true
        → spread provider date g (after c rows) ≡ spread provider date g rows + n
    spread-after rows h = ground (
      arith,
      number_of-main Bucket.search rows refl,
      number_of-main Bucket.general_read rows refl,
      number_of-main Bucket.video_stats_batch rows refl,
    )

  module _ (c : QuotaCall) where
    pub requests-main :
        (b : Bucket) (rows : List BucketDay)
        → is_main b ≡ true
        → number_of (λ r. r.requests) provider date b (after c rows)
          ≡ number_of (λ r. r.requests) provider date b rows
            + (if same_bucket c.bucket b then 1 else 0)
    unfolding count_in_bucket count_in_purpose
    requests-main = number_of-main c (λ r. r.requests) 1 1 (λ row. refl) (λ row. refl) (λ b. refl)

    pub units-main :
        (b : Bucket) (rows : List BucketDay)
        → is_main b ≡ true
        → number_of (λ r. r.units) provider date b (after c rows)
          ≡ number_of (λ r. r.units) provider date b rows
            + (if same_bucket c.bucket b then c.units else 0)
    unfolding count_in_bucket count_in_purpose
    units-main =
        number_of-main c (λ r. r.units) c.units c.units (λ row. refl) (λ row. refl) (λ b. refl)

    -- The sums over the three buckets.
    spreads :
        (rows : List BucketDay)
        → is_main c.bucket ≡ true
        → (spread provider date (λ r. r.requests) (after c rows)
            ≡ spread provider date (λ r. r.requests) rows + 1)
          × (spread provider date (λ r. r.successful_calls) (after c rows)
              ≡ spread provider date (λ r. r.successful_calls) rows + one_if c.ok)
          × (spread provider date (λ r. r.failed_calls) (after c rows)
              ≡ spread provider date (λ r. r.failed_calls) rows + (if c.ok then 0 else 1))
          × (spread provider date (λ r. r.quota_errors) (after c rows)
              ≡ spread provider date (λ r. r.quota_errors) rows + one_if c.quota_error)
    unfolding count_in_bucket count_in_purpose
    spreads rows h = (
      spread-after c (λ r. r.requests) 1 1 (λ row. refl) (λ row. refl) (λ b. refl) rows h,
      spread-after c (λ r. r.successful_calls) (one_if c.ok) (one_if c.ok) (λ row. refl)
          (λ row. refl) (λ b. refl) rows h,
      spread-after c (λ r. r.failed_calls) (if c.ok then 0 else 1) (if c.ok then 0 else 1)
          (λ row. refl) (λ row. refl) (λ b. refl) rows h,
      spread-after c (λ r. r.quota_errors) (one_if c.quota_error) 0 (λ row. refl)
          (λ row. ground arith) (λ b. refl) rows h,
    )

    overlay :
        (purpose : String) (rows : List BucketDay)
        → is_metered c ≡ true
        → number_of (λ r. r.requests) provider date (Bucket.search_for purpose) rows
          ≤ number_of (λ r. r.requests) provider date Bucket.search rows
        → number_of (λ r. r.requests) provider date (Bucket.search_for purpose) (after c rows)
          ≤ number_of (λ r. r.requests) provider date Bucket.search (after c rows)
    unfolding count_in_bucket count_in_purpose
    overlay purpose rows h few = ground (
      arith,
      number_of-after c (λ r. r.requests) 1 1 (λ row. refl) (λ row. refl) (λ b. refl) provider date
          (Bucket.search_for purpose) rows,
      own_key (Bucket.search_for purpose) c.bucket,
      own_key (Bucket.search_for purpose) (Bucket.search_for (or_else c.purpose "")),
      requests-main Bucket.search rows refl,
    )

  Balance-step :
      (c : QuotaCall) (day : QuotaDay) (rows : List BucketDay)
      → is_metered c ≡ true
      → Balance provider date day rows
      → Balance provider date (count_call c day) (after c rows)
  unfolding count_call
  Balance-step c day rows h balance =
      let (a, b, d, e, f, g, i, j, few) = balance in
      let (a', b', d', e') = spreads c rows (metered_main c h) in
      (
        ap (λ n. n + 1) a ∙ sym a',
        ap (λ n. n + one_if c.ok) b ∙ sym b',
        ap (λ n. n + (if c.ok then 0 else 1)) d ∙ sym d',
        ap (λ n. n + one_if c.quota_error) e ∙ sym e',
        ground (arith, f, requests-main c Bucket.search rows refl),
        ground (arith, g, units-main c Bucket.search rows refl),
        ground (
          arith,
          i,
          units-main c Bucket.general_read rows refl,
          units-main c Bucket.video_stats_batch rows refl,
        ),
        ground (arith, j),
        λ purpose. overlay c purpose rows h (few purpose),
      )

  pub Balance-steps :
      (calls : QuotaMeter) (day : QuotaDay) (rows : List BucketDay)
      → unmetered calls ≡ 0
      → Balance provider date day rows
      → Balance provider date
          (count_calls provider date now calls day)
          (charge_calls provider date now calls rows)
  unfolding count_calls charge_calls
  Balance-steps [] day rows h balance = balance
  Balance-steps (c ∷ calls) day rows h balance =
      Balance-steps calls (count_call c day) (after c rows) (ground (arith, h))
        (Balance-step c day rows (ground (arith, h)) balance)
