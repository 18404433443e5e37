-- ===== src/Crawl/Scheduler/Jobs/Unique.antt =====
-- generate_due_jobs: one active job to an event, and no second job for a capture window.
use n_quark.Prelude.{
  ℕ, suc, ◌≤◌, ◌≡◌, refl, inl, inr, String, Bool, true, false, ◌&&◌, some, List, [], ◌∷◌, ◌++◌,
  arith, str_eq, eq_iff, count_if, count_if-append, Bool-cases,
}
use n_quark.Prelude.Time.{Time}
use mathlib.Core.List.{append_assoc, append-nil}
use n_quark.Crawl.Scheduler.Store.{TrackedEvent, Job, Store, Settings, is_active, is_event}
use n_quark.Crawl.Scheduler.Jobs.{
  has_active, insert_all, is_due, prioritised, job_for, due_rows, generate_due_jobs,
}

-- An active job of one event.
abbrev is_active_for : String → String → Job → Bool
is_active_for source sid job =
    str_eq job.source source && str_eq job.source_record_id sid && is_active job.status

has_active_iff :
    (source sid : String) (jobs : List Job)
    → has_active source sid jobs ≡ false
    → count_if (is_active_for source sid) jobs ≡ 0
unfolding has_active
has_active_iff source sid [] h = refl
has_active_iff source sid (job ∷ rest) h = ground (arith, has_active_iff source sid rest)

insert_all-append : (new jobs all : List Job) → insert_all new jobs ≡ some all → all ≡ jobs ++ new
unfolding insert_all
insert_all-append [] jobs all h = ground (arith, append-nil jobs)
insert_all-append (job ∷ new) jobs all h =
    ground (arith, insert_all-append new (jobs ++ job ∷ []) all, append_assoc jobs (job ∷ []) new)

module _ (iso : Time → String) (cfg : Settings) (now : Time) (source sid : String)
    (jobs : List Job) where
  job_for-active :
      (id : ℕ) (te : TrackedEvent)
      → is_active_for source sid (job_for iso cfg now id te) ≡ is_event source sid te
  unfolding job_for
  job_for-active id te = ground arith

  -- New active jobs of an event: at most one to a tracked row, none where one is active already.
  due_rows-count :
      (id : ℕ) (rows : List TrackedEvent)
      → count_if (is_active_for source sid) (due_rows iso cfg now jobs id rows).1
        ≤ count_if (is_event source sid) rows
  unfolding due_rows
  due_rows-count id [] = omega arith
  due_rows-count id (te ∷ rest) =
      ground (arith, due_rows-count id rest, due_rows-count (suc id) rest, job_for-active id te)

  is_due-false :
      (te : TrackedEvent)
      → has_active source sid jobs ≡ true
      → is_event source sid te ≡ true
      → is_due iso cfg now jobs te ≡ false
  unfolding is_due
  is_due-false te h e = ground (arith, eq_iff te.source source, eq_iff te.source_record_id sid)

  due_rows-none :
      (id : ℕ) (rows : List TrackedEvent)
      → has_active source sid jobs ≡ true
      → count_if (is_active_for source sid) (due_rows iso cfg now jobs id rows).1 ≡ 0
  unfolding due_rows
  due_rows-none id [] h = refl
  due_rows-none id (te ∷ rest) h = ground (
    arith,
    due_rows-none id rest,
    due_rows-none (suc id) rest,
    is_due-false te h,
    job_for-active id te,
  )

  prioritised-event :
      (te : TrackedEvent)
      → is_event source sid (prioritised iso cfg now te) ≡ is_event source sid te
  unfolding prioritised
  prioritised-event te = refl

  due_rows-kept :
      (id : ℕ) (rows : List TrackedEvent)
      → count_if (is_event source sid) (due_rows iso cfg now jobs id rows).0
        ≡ count_if (is_event source sid) rows
  unfolding due_rows
  due_rows-kept id [] = refl
  due_rows-kept id (te ∷ rest) =
      ground (arith, due_rows-kept id rest, due_rows-kept (suc id) rest, prioritised-event te)

  -- What the loop adds to the active jobs of the event.
  due_rows_active :
      (id : ℕ) (rows : List TrackedEvent)
      → count_if (is_event source sid) rows ≤ 1
      → count_if (is_active_for source sid) jobs ≤ 1
      → count_if (is_active_for source sid) (jobs ++ (due_rows iso cfg now jobs id rows).1) ≤ 1
  due_rows_active id rows one few = elim (Bool-cases (has_active source sid jobs)) [
    | inl busy ↦ omega (
      arith,
      count_if-append (is_active_for source sid) jobs (due_rows iso cfg now jobs id rows).1,
      due_rows-none id rows busy,
    )
    | inr idle ↦ omega (
      arith,
      count_if-append (is_active_for source sid) jobs (due_rows iso cfg now jobs id rows).1,
      due_rows-count id rows,
      has_active_iff source sid jobs idle,
    )
  ]

-- At most one tracked row and at most one active job to each event.
pub record IsExclusive (s : Store) : Type 0 where
  pub one_row : (source sid : String) → count_if (is_event source sid) s.tracked ≤ 1
  pub one_active : (source sid : String) → count_if (is_active_for source sid) s.jobs ≤ 1

module _ (iso : Time → String) (cfg : Settings) (now : Time) where
  -- What a successful commit holds.
  pub committed :
      (s s' : Store) (ids : List ℕ)
      → generate_due_jobs iso cfg now s ≡ some (ids, s')
      → (s'.tracked ≡ (due_rows iso cfg now s.jobs s.fresh s.tracked).0)
        × (s'.jobs ≡ s.jobs ++ (due_rows iso cfg now s.jobs s.fresh s.tracked).1)
  unfolding generate_due_jobs
  committed s s' ids e =
      ground
        (arith, insert_all-append (due_rows iso cfg now s.jobs s.fresh s.tracked).1 s.jobs s'.jobs)

  -- Making due jobs keeps an exclusive store exclusive: an event with a pending or running job
  -- gets no other one, and no two rows of one event arise.
  pub generate_due_jobs-IsExclusive :
      (s s' : Store) (ids : List ℕ)
      → IsExclusive s
      → generate_due_jobs iso cfg now s ≡ some (ids, s')
      → IsExclusive s'
  generate_due_jobs-IsExclusive s s' ids h e =
      let (rows, jobs) = committed s s' ids e in
      record {
        one_row = λ source sid. rw rows (
            rw (due_rows-kept iso cfg now source sid s.jobs s.fresh s.tracked)
              (h.one_row source sid));
        one_active = λ source sid. rw jobs (
            due_rows_active iso cfg now source sid s.jobs s.fresh s.tracked (h.one_row source sid)
              (h.one_active source sid));
      }
