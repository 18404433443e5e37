-- ===== src/ArtistQuota/Ledger/Reconciled.antt =====
-- quota.py, `record_meter`: the two tables agree on every day of every provider.
use n_quark.Prelude.{
  ℕ, ◌≡◌, refl, ◌↔◌, sym, ◌∙◌, inl, inr, String, true, false, none, some, List, [], ◌∷◌, ◌++◌,
  arith, if◌then◌else◌, or_else, eq_refl, eq_iff, is_some, if_ind, is_nil, Bool-cases, subst,
}
use n_quark.Prelude.Time.{Time}
use n_quark.ArtistQuota.{Bucket, QuotaCall, QuotaMeter, drain}
use n_quark.ArtistQuota.Tables.{
  Date, QuotaDay, BucketDay, QuotaTables, is_day, find_day, new_day, get_or_create_day, put_day,
  find_bucket, charge, count_call, count_in_bucket, count_in_purpose, charge_call, charge_calls,
  count_calls, record_meter,
}
use n_quark.ArtistQuota.Charges.{number_of, find_bucket-charge}
use n_quark.ArtistQuota.Ledger.{MeterUse, spread, meter_of, unmetered, meter_of-unmetered, Balance}
use n_quark.ArtistQuota.Ledger.Steps.{Balance-steps}

-- The row of a day, or the row that would be made for it.
unfoldable pub day_at : String → Date → Time → List QuotaDay → QuotaDay
unfolding find_day
day_at provider date now days = elim (find_day provider date days) [
  | some row ↦ row
  | none ↦ new_day provider date now
]

-- On every day of every provider, the row of the day balances with its buckets.
pub record IsReconciled (t : QuotaTables) : Type 0 where
  pub balanced :
      (provider : String) (date : Date) (now : Time)
      → Balance provider date (day_at provider date now t.days) t.buckets

find_day-append :
    (p : String) (d : Date) (days : List QuotaDay) (row : QuotaDay)
    → find_day p d (days ++ row ∷ []) ≡ (elim (find_day p d days) [
      | some x ↦ some x
      | none ↦ if is_day p d row then some row else none
    ])
unfolding find_day
find_day-append p d [] row = ground arith
find_day-append p d (x ∷ days) row = ground (arith, find_day-append p d days row)

is_day_iff :
    (p : String) (d : Date) (row : QuotaDay)
    → (is_day p d row ≡ true) ↔ ((row.provider ≡ p) × (row.quota_date ≡ d))
is_day_iff p d row = ground (arith, eq_iff row.provider p)

find_day-put :
    (p : String) (d : Date) (row : QuotaDay) (days : List QuotaDay)
    → is_some (find_day row.provider row.quota_date days) ≡ true
    → find_day p d (put_day row days) ≡ (if is_day p d row then some row else find_day p d days)
unfolding find_day put_day
find_day-put p d row [] h = ground arith
find_day-put p d row (x ∷ days) h = ground (
  arith,
  find_day-put p d row days,
  is_day_iff p d row,
  is_day_iff p d x,
  is_day_iff row.provider row.quota_date x,
)

module _ (provider : String) (date : Date) (now : Time) where
  pub count_calls-key :
      (calls : QuotaMeter) (day : QuotaDay)
      → ((count_calls provider date now calls day).provider ≡ day.provider)
        × ((count_calls provider date now calls day).quota_date ≡ day.quota_date)
  unfolding count_calls count_call
  count_calls-key [] day = (refl, refl)
  count_calls-key (c ∷ calls) day = count_calls-key calls (count_call c day)

  get_or_create_day-find :
      (days : List QuotaDay)
      → is_some (find_day provider date (get_or_create_day provider date now days).1) ≡ true
  unfolding get_or_create_day
  get_or_create_day-find days =
      ground
        (arith, find_day-append provider date days (new_day provider date now), eq_refl provider)

  get_or_create_day-other :
      (p : String) (d : Date) (days : List QuotaDay)
      → is_day p d (new_day provider date now) ≡ false
      → find_day p d (get_or_create_day provider date now days).1 ≡ find_day p d days
  unfolding get_or_create_day
  get_or_create_day-other p d days other =
      ground (arith, find_day-append p d days (new_day provider date now))

  pub get_or_create_day-at :
      (days : List QuotaDay)
      → (get_or_create_day provider date now days).0 ≡ day_at provider date now days
  unfolding get_or_create_day day_at
  get_or_create_day-at days = ground arith

  pub day_at-key :
      (days : List QuotaDay)
      → ((day_at provider date now days).provider ≡ provider)
        × ((day_at provider date now days).quota_date ≡ date)
  unfolding day_at find_day
  day_at-key [] = (refl, refl)
  day_at-key (x ∷ days) = ground (arith, day_at-key days, is_day_iff provider date x)

  -- The days after a row of this day is written.
  pub written :
      (p : String) (d : Date) (days : List QuotaDay) (row : QuotaDay)
      → row.provider ≡ provider
      → row.quota_date ≡ date
      → find_day p d (put_day row (get_or_create_day provider date now days).1)
        ≡ (if is_day p d (new_day provider date now) then some row else find_day p d days)
  written p d days row e e' = ground (
    arith,
    find_day-put p d row (get_or_create_day provider date now days).1,
    get_or_create_day-find days,
    get_or_create_day-other p d days,
    e,
    e',
  )

  -- The buckets of every other day.
  charge_call-other :
      (p : String) (d : Date) (b : Bucket) (c : QuotaCall) (rows : List BucketDay)
      → is_day p d (new_day provider date now) ≡ false
      → find_bucket p d b (charge_call provider date now c rows) ≡ find_bucket p d b rows
  unfolding charge_call count_in_bucket count_in_purpose
  charge_call-other p d b c rows other = ground (
    arith,
    find_bucket-charge provider date c.bucket now (count_in_bucket now c) {g = λ row. 0} {n = 0}
        (record {
          provider_kept = λ row. refl;
          date_kept = λ row. refl;
          bucket_kept = λ row. refl;
          adds = λ row. refl;
        })
        p d b rows (ground (arith, other)),
    find_bucket-charge provider date (Bucket.search_for (or_else c.purpose "")) now
        (count_in_purpose now c) {g = λ row. 0} {n = 0}
        (record {
          provider_kept = λ row. refl;
          date_kept = λ row. refl;
          bucket_kept = λ row. refl;
          adds = λ row. refl;
        })
        p d b (charge provider date now c.bucket (count_in_bucket now c) rows)
        (ground (arith, other)),
  )

  charge_calls-other :
      (p : String) (d : Date) (b : Bucket) (calls : QuotaMeter) (rows : List BucketDay)
      → is_day p d (new_day provider date now) ≡ false
      → find_bucket p d b (charge_calls provider date now calls rows) ≡ find_bucket p d b rows
  unfolding charge_calls
  charge_calls-other p d b [] rows other = refl
  charge_calls-other p d b (c ∷ calls) rows other =
      charge_calls-other p d b calls (charge_call provider date now c rows) other
      ∙ charge_call-other p d b c rows other

-- A day whose buckets stand as they were is balanced as it was.
Balance-same :
    (p : String) (d : Date) (day : QuotaDay) (rows rows' : List BucketDay)
    → ((b : Bucket) → find_bucket p d b rows' ≡ find_bucket p d b rows)
    → Balance p d day rows
    → Balance p d day rows'
unfolding number_of
Balance-same p d day rows rows' same balance =
    let (a, b, c, e, f, g, h, i, few) = balance in
    (
      a ∙ sym (spread_eq (λ r. r.requests)),
      b ∙ sym (spread_eq (λ r. r.successful_calls)),
      c ∙ sym (spread_eq (λ r. r.failed_calls)),
      e ∙ sym (spread_eq (λ r. r.quota_errors)),
      f ∙ sym (eq (λ r. r.requests) Bucket.search),
      g ∙ sym (eq (λ r. r.units) Bucket.search),
      omega (
        arith,
        h,
        eq (λ r. r.units) Bucket.general_read,
        eq (λ r. r.units) Bucket.video_stats_batch,
      ),
      i,
      λ purpose.
          rw (eq (λ r. r.requests) (Bucket.search_for purpose))
            (rw (eq (λ r. r.requests) Bucket.search) (few purpose)),
    )
  where
    eq : (g : BucketDay → ℕ) (b : Bucket) → number_of g p d b rows' ≡ number_of g p d b rows
    eq g b = rw (number_of, same b) refl

    spread_eq : (g : BucketDay → ℕ) → spread p d g rows' ≡ spread p d g rows
    spread_eq g =
        omega (arith, eq g Bucket.search, eq g Bucket.general_read, eq g Bucket.video_stats_batch)

module _ (provider : String) (date : Date) (now : Time) where
  -- The two tables after the calls are folded in.
  unfoldable pub folded : QuotaMeter → QuotaTables → QuotaTables
  folded calls t = record {
    days =
        put_day
          (record (count_calls provider date now calls
            (get_or_create_day provider date now t.days).0) { updated_at = now })
          (get_or_create_day provider date now t.days).1;
    buckets = charge_calls provider date now calls t.buckets;
  }

  folded-find :
      (calls : QuotaMeter) (t : QuotaTables) (p : String) (d : Date)
      → find_day p d (folded calls t).days ≡ (
          if is_day p d (new_day provider date now)
          then some
              (record (count_calls provider date now calls (day_at provider date now t.days)) {
                updated_at = now;
              })
          else find_day p d t.days)
  unfolding folded
  folded-find calls t p d =
      let (e, e') = count_calls-key provider date now calls (day_at provider date now t.days) in
      let (f, f') = day_at-key provider date now t.days in
      rw (get_or_create_day-at provider date now t.days) (
        written provider date now p d t.days
          (record (count_calls provider date now calls (day_at provider date now t.days)) {
            updated_at = now;
          })
          (e ∙ f) (e' ∙ f'))

  folded-own :
      (calls : QuotaMeter) (t : QuotaTables) (at : Time)
      → day_at provider date at (folded calls t).days
        ≡ record (count_calls provider date now calls (day_at provider date now t.days)) {
          updated_at = now;
        }
  unfolding day_at
  folded-own calls t at = ground (arith, folded-find calls t provider date, eq_refl provider)

  folded-other :
      (calls : QuotaMeter) (t : QuotaTables) (p : String) (d : Date) (at : Time)
      → is_day p d (new_day provider date now) ≡ false
      → day_at p d at (folded calls t).days ≡ day_at p d at t.days
  unfolding day_at
  folded-other calls t p d at other = ground (arith, folded-find calls t p d)

  folded-balanced :
      (calls : QuotaMeter) (t : QuotaTables) (at : Time)
      → unmetered calls ≡ 0
      → IsReconciled t
      → Balance provider date
          (day_at provider date at (folded calls t).days)
          (folded calls t).buckets
  unfolding folded
  folded-balanced calls t at few h =
      subst (λ day. Balance provider date day (folded calls t).buckets)
        (sym (folded-own calls t at))
        (Balance-steps provider date now calls (day_at provider date now t.days) t.buckets few
          (h.balanced provider date now))

  folded-IsReconciled :
      (calls : QuotaMeter) (t : QuotaTables)
      → unmetered calls ≡ 0
      → IsReconciled t
      → IsReconciled (folded calls t)
  unfolding folded
  folded-IsReconciled calls t few h = record {
    balanced = λ p d at. elim (Bool-cases (is_day p d (new_day provider date now))) [
      | inl own ↦
          let (e, e') = (is_day_iff p d (new_day provider date now)).0 own in
          subst (λ p. Balance p d (day_at p d at (folded calls t).days) (folded calls t).buckets) e
            (subst
              (λ d.
                Balance provider d (day_at provider d at (folded calls t).days)
                  (folded calls t).buckets)
              e' (folded-balanced calls t at few h))
      | inr other ↦
          subst (λ day. Balance p d day (folded calls t).buckets)
            (sym (folded-other calls t p d at other))
            (Balance-same p d (day_at p d at t.days) t.buckets (folded calls t).buckets
              (λ b. charge_calls-other provider date now p d b calls t.buckets other)
              (h.balanced p d at))
    ];
  }

  -- Whatever a provider reads, searches and reads in batches, with whatever outcome, folding its
  -- meter into reconciled tables leaves them reconciled, on every day of every provider, and the
  -- meter empty: the day's row is the sum of its buckets, the searches stand apart from the pool,
  -- each call has one outcome, and no purpose has more searches than there were.
  pub record_meter-IsReconciled :
      (uses : List MeterUse) (t : QuotaTables)
      → IsReconciled t
      → let (left, t') = record_meter provider date now (meter_of uses []) t in
        (left ≡ []) × IsReconciled t'
  unfolding record_meter drain folded
  record_meter-IsReconciled uses t h =
      if_ind (λ (left, t'). (left ≡ []) × IsReconciled t') (is_nil (meter_of uses []))
        (λ e. (refl, h))
        (λ e. (refl, folded-IsReconciled (meter_of uses []) t (meter_of-unmetered uses [] refl) h))

-- Tables without rows are reconciled.
pub empty-IsReconciled : IsReconciled (record { days = []; buckets = [] })
unfolding day_at find_day number_of find_bucket
empty-IsReconciled = record {
  balanced = λ p d at. (refl, refl, refl, refl, refl, refl, refl, refl, λ purpose. omega arith);
}
