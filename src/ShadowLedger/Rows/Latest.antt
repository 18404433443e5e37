-- ===== src/ShadowLedger/Rows/Latest.antt =====
-- The latest forward row when a row is appended.
use n_quark.Prelude.{
  ◌<◌, ◌≡◌, refl, Bool, true, false, Option, none, some, List, [], ◌∷◌, ◌++◌, arith, String,
  if◌then◌else◌,
}
use n_quark.Prelude.Time.{Time}
use n_quark.ShadowLedger.Rows.{StateRow, is_forward, is_newer, newest, latest_of}

-- A state, if there is one, that was observed before an instant.
abbrev pub IsBehind : {F : Type 0} → Option (StateRow F) → Time → Type 0
IsBehind none t = Unit
IsBehind (some q) t = q.observed_at < t

module _ {F : Type 0} where
  pub latest_of-append :
      (pick : StateRow F → Bool) (best : Option (StateRow F)) (rows : List (StateRow F))
      (row : StateRow F)
      → latest_of pick best (rows ++ row ∷ [])
        ≡ (if pick row then newest (latest_of pick best rows) row else latest_of pick best rows)
  unfolding latest_of
  latest_of-append pick best [] row = refl
  latest_of-append pick best (x ∷ rows) row =
      latest_of-append pick (if pick x then newest best x else best) rows row

  -- A row that is out of order is not picked, whatever is asked for.
  pub is_forward_audit :
      (event source : String) (record_id : Option String) (row : StateRow F)
      → row.out_of_order ≡ true
      → is_forward event source record_id row ≡ false
  unfolding is_forward
  is_forward_audit event source none row h = ground arith
  is_forward_audit event source (some r) row h = ground arith

  -- A row observed later than the latest one replaces it.
  pub newest_later :
      (prev : Option (StateRow F)) (row : StateRow F)
      → IsBehind prev row.observed_at
      → newest prev row ≡ some row
  unfolding newest is_newer
  newest_later none row h = refl
  newest_later (some p) row h = ground arith
