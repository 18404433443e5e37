-- ===== src/Crawl/Scheduler/Jobs/Repeat.antt =====
-- generate_due_jobs against a duplicate cron run.
use n_quark.Prelude.{
  ℕ, suc, ◌≡◌, refl, inl, inr, String, true, false, ◌||◌, some, List, [], ◌∷◌, ◌++◌, arith, eq_refl,
  Bool-cases,
}
use n_quark.Prelude.Time.{Time}
use n_quark.Crawl.Scheduler.Store.{TrackedEvent, Job, Store, Settings, has_key}
use n_quark.Crawl.Scheduler.Jobs.{
  has_active, dedup_of, is_due, prioritised, job_for, due_rows, commit_jobs, generate_due_jobs,
}
use n_quark.Crawl.Scheduler.Jobs.Unique.{committed}

has_key-append :
    (key : String) (xs ys : List Job) → has_key key (xs ++ ys) ≡ (has_key key xs || has_key key ys)
unfolding has_key
has_key-append key [] ys = refl
has_key-append key (x ∷ xs) ys = ground (arith, has_key-append key xs ys)

has_key-cons :
    (key : String) (job : Job) (jobs : List Job)
    → has_key key jobs ≡ true
    → has_key key (job ∷ jobs) ≡ true
unfolding has_key
has_key-cons key job jobs h = ground arith

has_active-append :
    (source sid : String) (xs ys : List Job)
    → has_active source sid (xs ++ ys) ≡ (has_active source sid xs || has_active source sid ys)
unfolding has_active
has_active-append source sid [] ys = refl
has_active-append source sid (x ∷ xs) ys = ground (arith, has_active-append source sid xs ys)

module _ (iso : Time → String) (cfg : Settings) (now : Time) where
  -- No row of the list is due.
  abbrev IsIdle : List Job → List TrackedEvent → Type 0
  IsIdle jobs [] = Unit
  IsIdle jobs (te ∷ rest) = (is_due iso cfg now jobs te ≡ false) × IsIdle jobs rest

  due_rows_of_IsIdle :
      (jobs : List Job) (id : ℕ) (rows : List TrackedEvent)
      → IsIdle jobs rows
      → due_rows iso cfg now jobs id rows ≡ (rows, [])
  unfolding due_rows
  due_rows_of_IsIdle jobs id [] h = refl
  due_rows_of_IsIdle jobs id (te ∷ rest) h = ground (arith, due_rows_of_IsIdle jobs id rest)

  -- More jobs make no row due that was not.
  is_due-append :
      (jobs more : List Job) (te : TrackedEvent)
      → is_due iso cfg now jobs te ≡ false
      → is_due iso cfg now (jobs ++ more) te ≡ false
  unfolding is_due
  is_due-append jobs more te h = ground (
    arith,
    has_key-append (dedup_of iso cfg now te) jobs more,
    has_active-append te.source te.source_record_id jobs more,
  )

  -- Nor is a row due whose key is taken, and the priority is not part of the key.
  is_due_taken :
      (jobs : List Job) (te : TrackedEvent)
      → has_key (dedup_of iso cfg now te) jobs ≡ true
      → is_due iso cfg now jobs (prioritised iso cfg now te) ≡ false
  unfolding is_due prioritised
  is_due_taken jobs te h = ground arith

  has_key-job_for :
      (id : ℕ) (te : TrackedEvent) (rest : List Job)
      → has_key (dedup_of iso cfg now te) (job_for iso cfg now id te ∷ rest) ≡ true
  unfolding has_key job_for
  has_key-job_for id te rest = ground (arith, eq_refl (dedup_of iso cfg now te))

  due_rows-due :
      (jobs : List Job) (id : ℕ) (te : TrackedEvent) (rest : List TrackedEvent)
      → is_due iso cfg now jobs te ≡ true
      → due_rows iso cfg now jobs id (te ∷ rest) ≡ (
        prioritised iso cfg now te ∷ (due_rows iso cfg now jobs (suc id) rest).0,
        job_for iso cfg now id te ∷ (due_rows iso cfg now jobs (suc id) rest).1,
      )
  unfolding due_rows
  due_rows-due jobs id te rest due = rw due

  due_rows-idle :
      (jobs : List Job) (id : ℕ) (te : TrackedEvent) (rest : List TrackedEvent)
      → is_due iso cfg now jobs te ≡ false
      → due_rows iso cfg now jobs id (te ∷ rest)
        ≡ (te ∷ (due_rows iso cfg now jobs id rest).0, (due_rows iso cfg now jobs id rest).1)
  unfolding due_rows
  due_rows-idle jobs id te rest idle = rw idle

  -- Every row of the pass is idle beside the jobs `all` that hold the old and the new ones.
  IsIdle-due_rows :
      (jobs all : List Job) (id : ℕ) (rows : List TrackedEvent)
      → ((te : TrackedEvent)
          → is_due iso cfg now jobs te ≡ false
          → is_due iso cfg now all te ≡ false)
      → ((key : String)
          → has_key key (due_rows iso cfg now jobs id rows).1 ≡ true
          → has_key key all ≡ true)
      → IsIdle all (due_rows iso cfg now jobs id rows).0
  unfolding due_rows
  IsIdle-due_rows jobs all id [] old new = tt
  IsIdle-due_rows jobs all id (te ∷ rest) old new = elim (Bool-cases (is_due iso cfg now jobs te)) [
    | inl due ↦
        let e = due_rows-due jobs id te rest due in
        let new' = λ (key : String). rw e at (new key) in
        rw e (
          is_due_taken all te (new' (dedup_of iso cfg now te) (has_key-job_for id te _)),
          IsIdle-due_rows jobs all (suc id) rest old
              (λ key m. new' key (has_key-cons key (job_for iso cfg now id te) _ m)),
        )
    | inr idle ↦
        let e = due_rows-idle jobs id te rest idle in
        rw e (old te idle, IsIdle-due_rows jobs all id rest old (λ key. rw e at (new key)))
  ]

  generate_due_jobs_lem :
      (s : Store)
      → generate_due_jobs iso cfg now s
        ≡ commit_jobs iso cfg now s
            (due_rows iso cfg now s.jobs s.fresh s.tracked).0
            (due_rows iso cfg now s.jobs s.fresh s.tracked).1
  unfolding generate_due_jobs
  generate_due_jobs_lem s = refl

  commit_jobs-nil : (s : Store) → commit_jobs iso cfg now s s.tracked [] ≡ some ([], s)
  unfolding commit_jobs
  commit_jobs-nil s = refl

  committed-IsIdle :
      (s s' : Store) (ids : List ℕ)
      → generate_due_jobs iso cfg now s ≡ some (ids, s')
      → IsIdle s'.jobs s'.tracked
  committed-IsIdle s s' ids e =
      let (rows, jobs) = committed iso cfg now s s' ids e in
      let new = (due_rows iso cfg now s.jobs s.fresh s.tracked).1 in
      rw rows (
        IsIdle-due_rows s.jobs s'.jobs s.fresh s.tracked
          (λ te h. rw jobs (is_due-append s.jobs new te h))
          (λ key m. rw jobs (ground (arith, has_key-append key s.jobs new))))

  -- A second pass at the same instant, over the store that a first one left, creates no job and
  -- changes nothing.
  pub generate_due_jobs_idem :
      (s s' : Store) (ids : List ℕ)
      → generate_due_jobs iso cfg now s ≡ some (ids, s')
      → generate_due_jobs iso cfg now s' ≡ some ([], s')
  generate_due_jobs_idem s s' ids e = rw (generate_due_jobs_lem s') (
      rw (due_rows_of_IsIdle s'.jobs s'.fresh s'.tracked (committed-IsIdle s s' ids e))
        (commit_jobs-nil s'))
