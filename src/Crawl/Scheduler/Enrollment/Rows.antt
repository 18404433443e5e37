-- ===== src/Crawl/Scheduler/Enrollment/Rows.antt =====
-- The lookup, the write and the append on the tracked rows.
use n_quark.Prelude.{
  ◌≡◌, refl, String, true, ◌&&◌, none, some, List, [], ◌∷◌, ◌++◌, arith, length, count_if, eq_iff,
  eq_refl, if◌then◌else◌, is_some,
}
use n_quark.Crawl.Scheduler.Store.{TrackedEvent, find_tracked, put_tracked, is_event}

-- Two rows of one event are in each other's place under the index.
is_event_of_same :
    (source sid : String) (row te : TrackedEvent)
    → is_event row.source row.source_record_id te ≡ true
    → is_event source sid te ≡ is_event source sid row
is_event_of_same source sid row te h =
    ground (arith, eq_iff te.source row.source, eq_iff te.source_record_id row.source_record_id)

pub count-put_tracked :
    (source sid : String) (row : TrackedEvent) (l : List TrackedEvent)
    → count_if (is_event source sid) (put_tracked row l) ≡ count_if (is_event source sid) l
unfolding put_tracked
count-put_tracked source sid row [] = refl
count-put_tracked source sid row (te ∷ rest) =
    ground (arith, count-put_tracked source sid row rest, is_event_of_same source sid row te)

pub length-put_tracked :
    (row : TrackedEvent) (l : List TrackedEvent) → length (put_tracked row l) ≡ length l
unfolding put_tracked
length-put_tracked row [] = refl
length-put_tracked row (te ∷ rest) = ground (arith, length-put_tracked row rest)

-- Reading after a write: the row itself under its own key, the old row under any other.
pub find_tracked-put_tracked :
    (source sid : String) (row : TrackedEvent) (l : List TrackedEvent)
    → find_tracked source sid (put_tracked row l) ≡ (
        if is_event source sid row && is_some (find_tracked source sid l)
        then some row
        else find_tracked source sid l)
unfolding find_tracked put_tracked
find_tracked-put_tracked source sid row [] = ground arith
find_tracked-put_tracked source sid row (te ∷ rest) = ground (
  arith,
  find_tracked-put_tracked source sid row rest,
  is_event_of_same source sid row te,
  is_event_of_same row.source row.source_record_id te row,
  eq_refl row.source,
  eq_refl row.source_record_id,
  eq_iff te.source row.source,
  eq_iff te.source_record_id row.source_record_id,
  eq_iff te.source source,
  eq_iff te.source_record_id sid,
  eq_iff row.source source,
  eq_iff row.source_record_id sid,
)

pub count_of_find_none :
    (source sid : String) (l : List TrackedEvent)
    → find_tracked source sid l ≡ none
    → count_if (is_event source sid) l ≡ 0
unfolding find_tracked
count_of_find_none source sid [] h = refl
count_of_find_none source sid (te ∷ rest) h = ground (arith, count_of_find_none source sid rest)

pub find_tracked-append :
    (source sid : String) (l : List TrackedEvent) (row : TrackedEvent)
    → find_tracked source sid (l ++ row ∷ []) ≡ (
        if is_some (find_tracked source sid l)
        then find_tracked source sid l
        else if is_event source sid row
        then some row
        else none)
unfolding find_tracked
find_tracked-append source sid [] row = ground arith
find_tracked-append source sid (te ∷ rest) row =
    ground (arith, find_tracked-append source sid rest row)

pub find_tracked_key :
    (source sid : String) (l : List TrackedEvent) (te : TrackedEvent)
    → find_tracked source sid l ≡ some te
    → is_event source sid te ≡ true
unfolding find_tracked
find_tracked_key source sid [] te h = cc
find_tracked_key source sid (x ∷ rest) te h = ground (arith, find_tracked_key source sid rest te)
