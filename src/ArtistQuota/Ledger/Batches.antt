-- ===== src/ArtistQuota/Ledger/Batches.antt =====
-- quota.py, `record_meter`: how the calls are cut into meters does not matter.
use n_quark.Prelude.{◌≡◌, refl, ap, sym, ◌∙◌, String, some, List, [], ◌∷◌, ◌++◌, arith, eq_refl}
use mathlib.Core.List.{append-nil}
use n_quark.Prelude.Time.{Time}
use n_quark.ArtistQuota.{QuotaMeter, drain}
use n_quark.ArtistQuota.Tables.{
  Date, QuotaDay, BucketDay, QuotaTables, find_day, get_or_create_day, put_day, count_call,
  charge_call, charge_calls, count_calls, record_meter,
}
use n_quark.ArtistQuota.Ledger.Reconciled.{
  get_or_create_day-at, day_at-key, count_calls-key, written,
}

put_day-put :
    (row row' : QuotaDay) (days : List QuotaDay)
    → row.provider ≡ row'.provider
    → row.quota_date ≡ row'.quota_date
    → put_day row' (put_day row days) ≡ put_day row' days
unfolding put_day
put_day-put row row' [] e e' = refl
put_day-put row row' (x ∷ days) e e' =
    ground (arith, put_day-put row row' days e e', eq_refl row'.provider)

abbrev stamped : Time → QuotaDay → QuotaDay
stamped at day = record day { updated_at = at }

abbrev tables : List QuotaDay → List BucketDay → QuotaTables
tables days buckets = record { days = days; buckets = buckets }

module _ (provider : String) (date : Date) (now : Time) where
  charge_calls-append :
      (m m' : QuotaMeter) (rows : List BucketDay)
      → charge_calls provider date now (m ++ m') rows
        ≡ charge_calls provider date now m' (charge_calls provider date now m rows)
  unfolding charge_calls
  charge_calls-append [] m' rows = refl
  charge_calls-append (c ∷ m) m' rows =
      charge_calls-append m m' (charge_call provider date now c rows)

  count_calls-append :
      (m m' : QuotaMeter) (day : QuotaDay)
      → count_calls provider date now (m ++ m') day
        ≡ count_calls provider date now m' (count_calls provider date now m day)
  unfolding count_calls
  count_calls-append [] m' day = refl
  count_calls-append (c ∷ m) m' day = count_calls-append m m' (count_call c day)

  -- Counting reads no instant.
  count_calls-stamp :
      (m : QuotaMeter) (day : QuotaDay) (at : Time)
      → record (count_calls provider date now m (record day { updated_at = at })) {
        updated_at = at;
      }
        ≡ record (count_calls provider date now m day) { updated_at = at }
  unfolding count_calls count_call
  count_calls-stamp [] day at = refl
  count_calls-stamp (c ∷ m) day at = count_calls-stamp m (count_call c day) at

  get_or_create_day-known :
      (days : List QuotaDay) (row : QuotaDay)
      → find_day provider date days ≡ some row
      → get_or_create_day provider date now days ≡ (row, days)
  unfolding get_or_create_day
  get_or_create_day-known days row e = rw (get_or_create_day, e) refl

  -- The row of the day that the calls leave.
  abbrev counted : QuotaMeter → List QuotaDay → QuotaDay
  counted m days =
      record (count_calls provider date now m (get_or_create_day provider date now days).0) {
        updated_at = now;
      }

  abbrev rewritten : QuotaMeter → List QuotaDay → List QuotaDay
  rewritten m days = put_day (counted m days) (get_or_create_day provider date now days).1

  counted-key :
      (m : QuotaMeter) (days : List QuotaDay)
      → ((counted m days).provider ≡ provider) × ((counted m days).quota_date ≡ date)
  counted-key m days =
      let (e, e') =
        count_calls-key provider date now m (get_or_create_day provider date now days).0 in
      let (f, f') = day_at-key provider date now days in
      (
        e ∙ ap (λ row. row.provider) (get_or_create_day-at provider date now days) ∙ f,
        e' ∙ ap (λ row. row.quota_date) (get_or_create_day-at provider date now days) ∙ f',
      )

  rewritten-known :
      (m : QuotaMeter) (days : List QuotaDay)
      → get_or_create_day provider date now (rewritten m days) ≡ (counted m days, rewritten m days)
  rewritten-known m days =
      let (e, e') = counted-key m days in
      get_or_create_day-known (rewritten m days) (counted m days) (
        ground (
          arith,
          written provider date now provider date days (counted m days) e e',
          eq_refl provider,
        ))

  rewritten-append :
      (m m' : QuotaMeter) (days : List QuotaDay)
      → rewritten m' (rewritten m days) ≡ rewritten (m ++ m') days
  rewritten-append m m' days =
      let (row, all) = get_or_create_day provider date now days in
      let (e, e') = counted-key m days in
      let (f, f') = count_calls-key provider date now m' (counted m days) in
      ap
        (λ (x : QuotaDay × List QuotaDay).
          put_day (record (count_calls provider date now m' x.0) { updated_at = now }) x.1)
        (rewritten-known m days)
      ∙ put_day-put (counted m days)
          (record (count_calls provider date now m' (counted m days)) { updated_at = now }) all
          (sym f) (sym f')
      ∙ ap (λ x. put_day x all)
          (count_calls-stamp m' (count_calls provider date now m row) now
            ∙ ap (stamped now) (sym (count_calls-append m m' row)))

  -- Folding two meters in, one after the other, is folding in one meter that has all their calls.
  pub record_meter-append :
      (m m' : QuotaMeter) (t : QuotaTables)
      → (record_meter provider date now m' (record_meter provider date now m t).1).1
        ≡ (record_meter provider date now (m ++ m') t).1
  unfolding record_meter drain
  record_meter-append [] m' t = refl
  record_meter-append (c ∷ m) [] t =
      ap (λ calls. (record_meter provider date now calls t).1) (sym (append-nil (c ∷ m)))
  record_meter-append (c ∷ m) (c' ∷ m') t =
      ap
        (λ days. tables days (
          charge_calls provider date now (c' ∷ m')
            (charge_calls provider date now (c ∷ m) t.buckets)))
        (rewritten-append (c ∷ m) (c' ∷ m') t.days)
      ∙ ap (tables (rewritten ((c ∷ m) ++ c' ∷ m') t.days))
          (sym (charge_calls-append (c ∷ m) (c' ∷ m') t.buckets))
