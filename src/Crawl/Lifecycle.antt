-- ===== src/Crawl/Lifecycle.antt =====
-- services/crawl-service/crawl_service/lifecycle.py: the temporal state of an event and the
-- normalized lifecycle that a provider reports.
use n_quark.Prelude.{
  ℕ, String, Option, none, some, List, [], ◌∷◌, map, ltb, leb, ◌==◌, if◌then◌else◌, truthy,
  or_empty, codes, upper, same_codes,
}
use n_quark.Prelude.Time.{Time}

pub data TemporalState : Type 0 where
  past upcoming ongoing unknown : TemporalState

pub data Basis : Type 0 where
  start_end_datetime start_datetime_only date_only unknown : Basis

pub record Temporal : Type 0 where
  pub temporal_state : TemporalState
  pub temporal_basis : Basis
  pub effective_start_at : Option Time
  pub effective_end_at : Option Time
  pub evaluated_at : Time

-- An instant as a caller hands it over.
pub data Moment : Type 0 where
  absent naive : Moment
  aware : Time → Moment
  text : String → Moment

-- What the standard library reads from a text, and the day of an instant in a time time_zone.
pub record Calendar : Type 0 where
  pub stripped_length : String → ℕ
  pub parse_moment : String → Option Time
  pub parse_day : String → Option ℕ
  pub local_day : String → Time → ℕ

module _ (cal : Calendar) where
  to_moment : Moment → Option Time
  to_moment absent = none
  to_moment naive = none
  to_moment (aware t) = some t
  to_moment (text s) = if leb (cal.stripped_length s) 10 then none else cal.parse_moment s

  to_day : Option String → Option ℕ
  to_day none = none
  to_day (some s) = cal.parse_day s

  -- `_day(starts_at)` where `starts_at` is a bare date.
  bare_day : Moment → Option ℕ
  bare_day (text s) = if cal.stripped_length s == 10 then cal.parse_day s else none
  bare_day _ = none

  event_day : Option String → Moment → Option ℕ
  unfolding to_day bare_day
  event_day date start = elim (to_day date) [ some d ↦ some d | none ↦ bare_day start ]

  by_day : Option ℕ → Option String → Time → TemporalState × Basis
  by_day (some day) time_zone now =
      let today = cal.local_day (or_empty time_zone) now in
      if truthy time_zone
      then (
        (if ltb day today
            then TemporalState.past
            else if ltb today day
            then TemporalState.upcoming
            else TemporalState.unknown),
        Basis.date_only,
      )
      else (TemporalState.unknown, Basis.unknown)
  by_day none time_zone now = (TemporalState.unknown, Basis.unknown)

  classify :
      Option Time
      → Option Time
      → Moment
      → Option String
      → Time
      → Option String
      → TemporalState × Basis
  unfolding by_day event_day
  classify (some start) (some end) starts_at event_date now time_zone = (
    (if ltb end now
        then TemporalState.past
        else if ltb now start
        then TemporalState.upcoming
        else TemporalState.ongoing),
    Basis.start_end_datetime,
  )
  classify (some start) none starts_at event_date now time_zone = (
    (if ltb now start then TemporalState.upcoming else TemporalState.past),
    Basis.start_datetime_only,
  )
  classify none end starts_at event_date now time_zone =
      by_day (event_day event_date starts_at) time_zone now

  unfoldable pub temporal_state :
      (starts_at ends_at : Moment) → Option String → Time → Option String → Temporal
  unfolding classify to_moment
  temporal_state starts_at ends_at event_date now time_zone =
      let start = to_moment starts_at in
      let end = to_moment ends_at in
      let found = classify start end starts_at event_date now time_zone in
      record {
        temporal_state = found.0;
        temporal_basis = found.1;
        effective_start_at = start;
        effective_end_at = end;
        evaluated_at = now;
      }

pub data Lifecycle : Type 0 where
  scheduled cancelled postponed rescheduled unknown : Lifecycle

-- `raw.rsplit("/", 1)[-1]`; the second argument holds what follows the last `/` so far.
after_slash : List ℕ → List ℕ → List ℕ
after_slash [] found = found
after_slash (c ∷ rest) found = after_slash rest (if c == b'/' then rest else found)

remove_prefix : List ℕ → List ℕ → List ℕ → List ℕ
remove_prefix [] rest whole = rest
remove_prefix (p ∷ ps) [] whole = whole
remove_prefix (p ∷ ps) (c ∷ cs) whole =
    let cut = remove_prefix ps cs whole in if p == c then cut else whole

known_lifecycle : List ℕ → Lifecycle
known_lifecycle raw =
    if same_codes raw (codes "SCHEDULED")
    then scheduled
    else if same_codes raw (codes "CANCELLED")
    then cancelled
    else if same_codes raw (codes "POSTPONED")
    then postponed
    else if same_codes raw (codes "RESCHEDULED")
    then rescheduled
    else Lifecycle.unknown

unfoldable pub provider_lifecycle : Option String → Lifecycle
unfolding after_slash remove_prefix known_lifecycle upper
provider_lifecycle value =
    let whole = codes (or_empty value) in
    let raw = map upper (after_slash whole whole) in
    known_lifecycle (remove_prefix (codes "EVENT") raw raw)
