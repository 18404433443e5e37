-- ===== src/Crawl/Scheduler/Enrollment/Laws.antt =====
-- Enrollment: one row to an event, a bounded table, and rows that are never resurrected.
use n_quark.Prelude.{
  ℕ, ◌≤◌, max, ◌≡◌, refl, inl, inr, String, not, Option, none, some, [], ◌∷◌, arith, length,
  length-append, count_if, count_if-append, eq_iff, eq_refl, Bool-cases, if◌then◌else◌, member, leb,
  if_ind,
}
use n_quark.Prelude.Time.{Time}
use n_quark.Crawl.Scheduler.Store.{TrackedEvent, Store, Settings, find_tracked, is_event}
use n_quark.Crawl.Scheduler.Enrollment.{
  Enrollment, new_event, fill_in, place, outside_allowlist, enroll,
}
use n_quark.Crawl.Scheduler.Enrollment.Rows.{
  count-put_tracked, length-put_tracked, find_tracked-put_tracked, count_of_find_none,
  find_tracked-append, find_tracked_key,
}

-- What an enrollment does to one event's row: it is the same row by id, status and next capture.
abbrev IsKept : TrackedEvent → Option TrackedEvent → Type 0
IsKept te none = ⊥
IsKept te (some te') =
    (te'.id ≡ te.id)
    × (te'.tracking_status ≡ te.tracking_status)
    × (te'.next_capture_at ≡ te.next_capture_at)
    × (te'.consecutive_failures ≡ te.consecutive_failures)

-- The reply and the table agree: a refusal changes nothing, an id is the id of the event's row.
abbrev pub Agrees : Enrollment → Store → Option ℕ → Store → Type 0
Agrees e s none s' = s' ≡ s
Agrees e s (some id) s' =
    (te : TrackedEvent) × (find_tracked e.source e.source_record_id s'.tracked ≡ some te)
    × (te.id ≡ id)

module _ (cfg : Settings) (e : Enrollment) (now : Time) (s : Store) where
  fill_in_event :
      (te : TrackedEvent) (source sid : String)
      → (is_event source sid (fill_in e now te) ≡ is_event source sid te)
        × ((fill_in e now te).id ≡ te.id)
        × ((fill_in e now te).tracking_status ≡ te.tracking_status)
        × ((fill_in e now te).next_capture_at ≡ te.next_capture_at)
        × ((fill_in e now te).consecutive_failures ≡ te.consecutive_failures)
  unfolding fill_in
  fill_in_event te source sid = (refl, refl, refl, refl, refl)

  -- Where the event is tracked already.
  known-Agrees :
      (te : TrackedEvent)
      → find_tracked e.source e.source_record_id s.tracked ≡ some te
      → Agrees e s (place cfg e now s (some te)).0 (place cfg e now s (some te)).1
  unfolding place
  known-Agrees te found = (
    fill_in e now te,
    ground (
      arith,
      find_tracked-put_tracked e.source e.source_record_id (fill_in e now te) s.tracked,
      find_tracked_key e.source e.source_record_id s.tracked te,
      fill_in_event te e.source e.source_record_id,
    ),
    (fill_in_event te e.source e.source_record_id).1,
  )

  new-Agrees :
      find_tracked e.source e.source_record_id s.tracked ≡ none
      → Agrees e s (place cfg e now s none).0 (place cfg e now s none).1
  unfolding place
  new-Agrees missing = elim (Bool-cases (leb cfg.max_tracked (length s.tracked))) [
    | inl full ↦ rw full refl
    | inr room ↦ rw room (
      new_event s.fresh e now,
      ground (
        arith,
        find_tracked-append e.source e.source_record_id s.tracked (new_event s.fresh e now),
        eq_refl e.source,
        eq_refl e.source_record_id,
      ),
      refl,
    )
  ]

  placed-Agrees :
      (found : Option TrackedEvent)
      → find_tracked e.source e.source_record_id s.tracked ≡ found
      → Agrees e s (place cfg e now s found).0 (place cfg e now s found).1
  placed-Agrees none h = new-Agrees h
  placed-Agrees (some te) h = known-Agrees te h

  -- The two guards, and then the placement.
  enroll_ind :
      (P : Option ℕ × Store → Type 0)
      → P (none, s)
      → P (place cfg e now s (find_tracked e.source e.source_record_id s.tracked))
      → P (enroll cfg e now s)
  unfolding enroll
  enroll_ind P refused placed =
      let put = place cfg e now s (find_tracked e.source e.source_record_id s.tracked) in
      let outside = outside_allowlist cfg.city_allowlist e.city in
      if_ind P (not (member e.source cfg.capture_sources)) {x = (none, s)}
        {y = if outside then (none, s) else put} (λ _. refused)
        (λ _. if_ind P outside (λ _. refused) (λ _. placed))

  -- An enrollment that is refused (no id) leaves the store as it was; one that returns an id
  -- leaves the event with a tracked row of that id.
  pub enroll-Agrees : Agrees e s (enroll cfg e now s).0 (enroll cfg e now s).1
  enroll-Agrees = enroll_ind (λ r. Agrees e s r.0 r.1) refl (placed-Agrees _ refl)

  place_table :
      (found : Option TrackedEvent)
      → find_tracked e.source e.source_record_id s.tracked ≡ found
      → ((source sid : String) → count_if (is_event source sid) s.tracked ≤ 1)
      → let s' = (place cfg e now s found).1 in
        ((source sid : String) → count_if (is_event source sid) s'.tracked ≤ 1)
        × (length s'.tracked ≤ max (length s.tracked) cfg.max_tracked)
  unfolding place
  place_table (some te) found one = (
    λ source sid. rw (count-put_tracked source sid (fill_in e now te) s.tracked) (one source sid),
    omega (arith, length-put_tracked (fill_in e now te) s.tracked),
  )
  place_table none missing one = elim (Bool-cases (leb cfg.max_tracked (length s.tracked))) [
    | inl full ↦ rw full (one, omega arith)
    | inr room ↦ rw room (
      (λ source sid. ground (
        arith,
        one source sid,
        count_if-append (is_event source sid) s.tracked (new_event s.fresh e now ∷ []),
        count_of_find_none e.source e.source_record_id s.tracked,
        eq_iff e.source source,
        eq_iff e.source_record_id sid,
      )),
      ground (arith, length-append s.tracked (new_event s.fresh e now ∷ [])),
    )
  ]

  -- From a table with at most one row to each event, an enrollment leaves such a table, and the
  -- table does not grow past the cap (or past what it was, where it was above the cap).
  pub enroll_table :
      ((source sid : String) → count_if (is_event source sid) s.tracked ≤ 1)
      → let s' = (enroll cfg e now s).1 in
        ((source sid : String) → count_if (is_event source sid) s'.tracked ≤ 1)
        × (length s'.tracked ≤ max (length s.tracked) cfg.max_tracked)
  enroll_table one =
      enroll_ind
        (λ r.
          ((source sid : String) → count_if (is_event source sid) r.1.tracked ≤ 1)
          × (length r.1.tracked ≤ max (length s.tracked) cfg.max_tracked))
        (one, omega arith) (place_table _ refl one)

  place-IsKept :
      (own : Option TrackedEvent) (source sid : String) (te : TrackedEvent)
      → find_tracked e.source e.source_record_id s.tracked ≡ own
      → find_tracked source sid s.tracked ≡ some te
      → IsKept te (find_tracked source sid (place cfg e now s own).1.tracked)
  unfolding place
  place-IsKept none source sid te own found =
      elim (Bool-cases (leb cfg.max_tracked (length s.tracked))) [
        | inl full ↦ rw (full, found) (refl, refl, refl, refl)
        | inr room ↦
            rw (room, find_tracked-append source sid s.tracked (new_event s.fresh e now), found)
              (refl, refl, refl, refl)
      ]
  place-IsKept (some old) source sid te own found = ground (
    arith,
    find_tracked-put_tracked source sid (fill_in e now old) s.tracked,
    find_tracked_key e.source e.source_record_id s.tracked old,
    fill_in_event old source sid,
    eq_iff old.source source,
    eq_iff old.source_record_id sid,
    eq_iff old.source e.source,
    eq_iff old.source_record_id e.source_record_id,
  )

  -- A tracked event keeps its id, its tracking status, its next capture and its failures through
  -- any enrollment, of itself or of another event: a stopped event is never resurrected.
  enroll-IsKept :
      (source sid : String) (te : TrackedEvent)
      → find_tracked source sid s.tracked ≡ some te
      → IsKept te (find_tracked source sid (enroll cfg e now s).1.tracked)
  enroll-IsKept source sid te found =
      enroll_ind (λ r. IsKept te (find_tracked source sid r.1.tracked))
        (rw found (refl, refl, refl, refl)) (place-IsKept _ source sid te refl found)
