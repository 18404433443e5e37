-- ===== src/ArtistQuota/Unique.antt =====
-- quota.py: one row to a bucket of a day, and what the pool's sum is then.
use n_quark.Prelude.{
  ℕ, ◌+◌, ◌≤◌, ◌≡◌, refl, sym, subst, String, true, List, [], ◌∷◌, arith, or_else, count_if,
}
use n_quark.Prelude.Time.{Time}
use n_quark.ArtistQuota.{Bucket, QuotaCall, QuotaMeter, drain}
use n_quark.ArtistQuota.Tables.{
  Date, BucketDay, QuotaTables, is_bucket, find_bucket, charge, count_in_bucket, count_in_purpose,
  charge_call, charge_calls, record_meter,
}
use n_quark.ArtistQuota.Budget.{Fraction, QuotaSettings, bucket_used, general_used}
use n_quark.ArtistQuota.Charges.{count-charge}
use n_quark.ArtistQuota.Snapshot.{bucket_snapshot, report_of}

pub record IsUnique (rows : List BucketDay) : Type 0 where
  pub one_row : (p : String) (d : Date) (b : Bucket) → count_if (is_bucket p d b) rows ≤ 1

module _ (provider : String) (date : Date) (now : Time) where
  pub charge_call-IsUnique :
      (c : QuotaCall) (rows : List BucketDay)
      → IsUnique rows
      → IsUnique (charge_call provider date now c rows)
  unfolding charge_call count_in_bucket count_in_purpose
  charge_call-IsUnique c rows h = record {
    one_row = λ p d b. ground (
      arith,
      h.one_row p d b,
      count-charge provider date c.bucket now (count_in_bucket now c) {g = λ row. 0} {n = 0}
          (record {
            provider_kept = λ row. refl;
            date_kept = λ row. refl;
            bucket_kept = λ row. refl;
            adds = λ row. refl;
          })
          p d b rows,
      count-charge provider date (Bucket.search_for (or_else c.purpose "")) now
          (count_in_purpose now c) {g = λ row. 0} {n = 0}
          (record {
            provider_kept = λ row. refl;
            date_kept = λ row. refl;
            bucket_kept = λ row. refl;
            adds = λ row. refl;
          })
          p d b (charge provider date now c.bucket (count_in_bucket now c) rows),
    );
  }

  charge_calls-IsUnique :
      (calls : QuotaMeter) (rows : List BucketDay)
      → IsUnique rows
      → IsUnique (charge_calls provider date now calls rows)
  unfolding charge_calls
  charge_calls-IsUnique [] rows h = h
  charge_calls-IsUnique (c ∷ calls) rows h =
      charge_calls-IsUnique calls (charge_call provider date now c rows)
        (charge_call-IsUnique c rows h)

bucket_used-none :
    (p : String) (d : Date) (b : Bucket) (rows : List BucketDay)
    → count_if (is_bucket p d b) rows ≡ 0
    → bucket_used p d b rows ≡ 0
unfolding bucket_used find_bucket
bucket_used-none p d b [] h = refl
bucket_used-none p d b (x ∷ rest) h = ground (arith, bucket_used-none p d b rest)

-- The sum of the pool is that of its two buckets.
general_used-buckets :
    (p : String) (d : Date) (rows : List BucketDay)
    → count_if (is_bucket p d Bucket.general_read) rows ≤ 1
    → count_if (is_bucket p d Bucket.video_stats_batch) rows ≤ 1
    → general_used p d rows
      ≡ bucket_used p d Bucket.general_read rows + bucket_used p d Bucket.video_stats_batch rows
unfolding general_used bucket_used find_bucket
general_used-buckets p d [] h h' = refl
general_used-buckets p d (x ∷ rest) h h' = ground (
  arith,
  general_used-buckets p d rest,
  bucket_used-none p d Bucket.general_read rest,
  bucket_used-none p d Bucket.video_stats_batch rest,
)

pub general_used-split :
    (p : String) (d : Date) (rows : List BucketDay)
    → IsUnique rows
    → general_used p d rows
      ≡ bucket_used p d Bucket.general_read rows + bucket_used p d Bucket.video_stats_batch rows
general_used-split p d rows h =
    general_used-buckets p d rows (h.one_row p d Bucket.general_read)
      (h.one_row p d Bucket.video_stats_batch)

-- What a meter changes in the buckets.
pub record_meter-buckets :
    (provider : String) (date : Date) (now : Time) (meter : QuotaMeter) (t : QuotaTables)
    → (record_meter provider date now meter t).1.buckets
      ≡ charge_calls provider date now meter t.buckets
unfolding record_meter drain charge_calls
record_meter-buckets provider date now [] t = refl
record_meter-buckets provider date now (c ∷ calls) t = refl

module _ (scale : ℕ → Fraction → ℕ) (cfg : QuotaSettings) (p : String) (d : Date) where
  report_of-used :
      (b : Bucket) (rows : List BucketDay)
      → (report_of scale cfg p d b (find_bucket p d b rows)).used ≡ bucket_used p d b rows
  unfolding report_of bucket_used
  report_of-used b rows = ground arith

  bucket_snapshot-pool :
      (rows : List BucketDay)
      → IsUnique rows
      → let report = bucket_snapshot scale cfg p d rows in
        report.pool_used ≡ report.general_read_bucket.used + report.video_bucket.used
  unfolding bucket_snapshot
  bucket_snapshot-pool rows h = omega (
    arith,
    general_used-split p d rows h,
    report_of-used Bucket.general_read rows,
    report_of-used Bucket.video_stats_batch rows,
  )

  bucket_snapshot-reconciles :
      (rows : List BucketDay)
      → IsUnique rows
      → (bucket_snapshot scale cfg p d rows).reconciles ≡ true
  unfolding bucket_snapshot
  bucket_snapshot-reconciles rows h = ground (arith, bucket_snapshot-pool rows h)

module _ (scale : ℕ → Fraction → ℕ) (cfg : QuotaSettings) (provider : String) (date : Date)
    (now : Time) where
  -- From tables with at most one row to a bucket of a day, recording any meter leaves such tables,
  -- and the snapshot of any provider and day reconciles: what the pool has used is the sum of what
  -- its two buckets report, and the searches of every kind are outside it.
  pub record_meter-reconciles :
      (meter : QuotaMeter) (t : QuotaTables) (p : String) (d : Date)
      → IsUnique t.buckets
      → let rows = (record_meter provider date now meter t).1.buckets in
        let report = bucket_snapshot scale cfg p d rows in
        IsUnique rows
        × (report.reconciles ≡ true)
        × (report.pool_used ≡ report.general_read_bucket.used + report.video_bucket.used)
  record_meter-reconciles meter t p d h =
      let unique =
        subst IsUnique (sym (record_meter-buckets provider date now meter t))
          (charge_calls-IsUnique provider date now meter t.buckets h) in
      (
        unique,
        bucket_snapshot-reconciles scale cfg p d (record_meter provider date now meter t).1.buckets
            unique,
        bucket_snapshot-pool scale cfg p d (record_meter provider date now meter t).1.buckets
            unique,
      )
