-- ===== src/ArtistQuota/Charges.antt =====
-- quota.py: what charging a bucket does to the numbers of that bucket and of every other one.
use n_quark.Prelude.{
  ℕ, ◌+◌, ◌≡◌, refl, ◌↔◌, ◌∙◌, inl, inr, max, String, Bool, true, false, none, some, List, [], ◌∷◌,
  ◌++◌, arith, if◌then◌else◌, eq_iff, count_if, Bool-cases, Option-cases,
}
use n_quark.Prelude.Time.{Time}
use n_quark.ArtistQuota.{Bucket, same_bucket}
use n_quark.ArtistQuota.Tables.{
  Date, BucketDay, is_bucket, find_bucket, new_bucket, get_or_create_bucket, put_bucket, charge,
}

same_bucket_iff : (a b : Bucket) → (same_bucket a b ≡ true) ↔ (a ≡ b)
same_bucket_iff Bucket.search b = ground arith
same_bucket_iff Bucket.general_read b = ground arith
same_bucket_iff Bucket.video_stats_batch b = ground arith
same_bucket_iff (Bucket.search_for p) Bucket.search = ground arith
same_bucket_iff (Bucket.search_for p) Bucket.general_read = ground arith
same_bucket_iff (Bucket.search_for p) Bucket.video_stats_batch = ground arith
same_bucket_iff (Bucket.search_for p) (Bucket.search_for q) = ground (arith, eq_iff p q)

is_bucket_iff :
    (provider : String) (date : Date) (bucket : Bucket) (row : BucketDay)
    → (is_bucket provider date bucket row ≡ true)
      ↔ ((row.provider ≡ provider) × (row.quota_date ≡ date) × (row.bucket ≡ bucket))
is_bucket_iff provider date bucket row =
    ground (arith, eq_iff row.provider provider, same_bucket_iff row.bucket bucket)

-- A change of a row that keeps its key and adds `n` to the number `g`.
pub record IsCharge (change : BucketDay → BucketDay) (g : BucketDay → ℕ) (n : ℕ) : Type 0 where
  pub provider_kept : (row : BucketDay) → (change row).provider ≡ row.provider
  pub date_kept : (row : BucketDay) → (change row).quota_date ≡ row.quota_date
  pub bucket_kept : (row : BucketDay) → (change row).bucket ≡ row.bucket
  pub adds : (row : BucketDay) → g (change row) ≡ g row + n

-- The number `g` of a bucket, 0 where it has no row.
unfoldable pub number_of : (BucketDay → ℕ) → String → Date → Bucket → List BucketDay → ℕ
unfolding find_bucket
number_of g provider date bucket rows = elim (find_bucket provider date bucket rows) [
  | some row ↦ g row
  | none ↦ 0
]

find_bucket-is_bucket :
    (provider : String) (date : Date) (bucket : Bucket) (rows : List BucketDay) (row : BucketDay)
    → find_bucket provider date bucket rows ≡ some row
    → is_bucket provider date bucket row ≡ true
unfolding find_bucket
find_bucket-is_bucket provider date bucket [] row e = ground arith
find_bucket-is_bucket provider date bucket (x ∷ rest) row e =
    ground (arith, find_bucket-is_bucket provider date bucket rest row)

module _ (provider : String) (date : Date) (bucket : Bucket) (now : Time)
    (change : BucketDay → BucketDay) {g : BucketDay → ℕ} {n : ℕ} (is : IsCharge change g n) where
  keyed :
      (row x : BucketDay)
      → is_bucket provider date bucket row ≡ true
      → is_bucket (change row).provider (change row).quota_date (change row).bucket x
        ≡ is_bucket provider date bucket x
  keyed row x h =
      let (p, d, b) = (is_bucket_iff provider date bucket row).0 h in
      rw (is.provider_kept row)
        (rw (is.date_kept row) (rw (is.bucket_kept row) (rw p (rw d (rw b refl)))))

  new_keyed : is_bucket provider date bucket (new_bucket provider date bucket now) ≡ true
  new_keyed =
      (is_bucket_iff provider date bucket (new_bucket provider date bucket now)).1
        (refl, refl, refl)

  charge-nil :
      charge provider date now bucket change [] ≡ change (new_bucket provider date bucket now) ∷ []
  unfolding charge get_or_create_bucket put_bucket find_bucket
  charge-nil =
      rw
        (keyed (new_bucket provider date bucket now) (new_bucket provider date bucket now) new_keyed
          ∙ new_keyed)
        refl

  put_bucket-change :
      (row x : BucketDay) (rest : List BucketDay)
      → is_bucket provider date bucket row ≡ true
      → put_bucket (change row) (x ∷ rest) ≡ (
          if is_bucket provider date bucket x
          then change row ∷ rest
          else x ∷ put_bucket (change row) rest)
  unfolding put_bucket
  put_bucket-change row x rest h = rw (keyed row x h) refl

  charge-cons :
      (x : BucketDay) (rest : List BucketDay)
      → charge provider date now bucket change (x ∷ rest) ≡ (
          if is_bucket provider date bucket x
          then change x ∷ rest
          else x ∷ charge provider date now bucket change rest)
  unfolding charge get_or_create_bucket find_bucket
  charge-cons x rest = elim (Option-cases (find_bucket provider date bucket rest)) [
    | inl e ↦ ground (
      arith,
      put_bucket-change x x rest,
      put_bucket-change (new_bucket provider date bucket now) x
          (rest ++ new_bucket provider date bucket now ∷ []) new_keyed,
    )
    | inr (row, e) ↦ ground (
      arith,
      put_bucket-change x x rest,
      put_bucket-change row x rest (find_bucket-is_bucket provider date bucket rest row e),
    )
  ]

  -- The key that is read is the charged one.
  abbrev is_charged : String → Date → Bucket → Bool
  is_charged p d b = is_bucket p d b (new_bucket provider date bucket now)

  is_bucket-change :
      (p : String) (d : Date) (b : Bucket) (row : BucketDay)
      → is_bucket p d b (change row) ≡ is_bucket p d b row
  is_bucket-change p d b row =
      rw (is.provider_kept row) (rw (is.date_kept row) (rw (is.bucket_kept row) refl))

  is_bucket-charged :
      (p : String) (d : Date) (b : Bucket) (row : BucketDay)
      → is_bucket provider date bucket row ≡ true
      → is_bucket p d b row ≡ is_charged p d b
  is_bucket-charged p d b row h =
      let (e, e', e'') = (is_bucket_iff provider date bucket row).0 h in rw e (rw e' (rw e'' refl))

  is_charged-is_bucket :
      (p : String) (d : Date) (b : Bucket) (row : BucketDay)
      → is_charged p d b ≡ true
      → is_bucket p d b row ≡ is_bucket provider date bucket row
  is_charged-is_bucket p d b row h =
      let (e, e', e'') = (is_bucket_iff p d b (new_bucket provider date bucket now)).0 h in
      rw e (rw e' (rw e'' refl))

  -- A charge adds to the number of its own bucket, and to no other one.
  pub number_of-charge :
      (p : String) (d : Date) (b : Bucket) (rows : List BucketDay)
      → g (new_bucket provider date bucket now) ≡ 0
      → number_of g p d b (charge provider date now bucket change rows)
        ≡ number_of g p d b rows + (if is_charged p d b then n else 0)
  unfolding number_of find_bucket
  number_of-charge p d b [] zeroed = rw charge-nil (
      ground (
        arith,
        is.adds (new_bucket provider date bucket now),
        is_bucket-change p d b (new_bucket provider date bucket now),
      ))
  number_of-charge p d b (x ∷ rest) zeroed =
      rw (charge-cons x rest) (elim (Bool-cases (is_bucket provider date bucket x)) [
        | inl here ↦
            rw here
              (ground (arith, is.adds x, is_bucket-change p d b x, is_bucket-charged p d b x here))
        | inr away ↦
            rw away
              (ground (arith, is_charged-is_bucket p d b x, number_of-charge p d b rest zeroed))
      ])

  -- A charge makes a row only for a bucket that has none.
  pub count-charge :
      (p : String) (d : Date) (b : Bucket) (rows : List BucketDay)
      → count_if (is_bucket p d b) (charge provider date now bucket change rows) ≡ (
          if is_charged p d b
          then max 1 (count_if (is_bucket p d b) rows)
          else count_if (is_bucket p d b) rows)
  count-charge p d b [] =
      rw charge-nil (ground (arith, is_bucket-change p d b (new_bucket provider date bucket now)))
  count-charge p d b (x ∷ rest) =
      rw (charge-cons x rest) (elim (Bool-cases (is_bucket provider date bucket x)) [
        | inl here ↦
            rw here (ground (arith, is_bucket-change p d b x, is_bucket-charged p d b x here))
        | inr away ↦ rw away (ground (arith, is_charged-is_bucket p d b x, count-charge p d b rest))
      ])

  -- The row of every other bucket stands as it was.
  pub find_bucket-charge :
      (p : String) (d : Date) (b : Bucket) (rows : List BucketDay)
      → is_charged p d b ≡ false
      → find_bucket p d b (charge provider date now bucket change rows) ≡ find_bucket p d b rows
  unfolding find_bucket
  find_bucket-charge p d b [] other =
      rw charge-nil (ground (arith, is_bucket-change p d b (new_bucket provider date bucket now)))
  find_bucket-charge p d b (x ∷ rest) other =
      rw (charge-cons x rest) (elim (Bool-cases (is_bucket provider date bucket x)) [
        | inl here ↦
            rw here (ground (arith, is_bucket-change p d b x, is_bucket-charged p d b x here))
        | inr away ↦ rw away (ground (arith, find_bucket-charge p d b rest other))
      ])
