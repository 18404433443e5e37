-- ===== src/Crawl/Scheduler/Jobs.antt =====
-- SchedulerService.generate_due_jobs, recover_expired_locks, claim_jobs and _claim_specific.
pub mod Unique
pub mod Repeat
pub mod Claims
pub mod Due
use n_quark.Prelude.{
  ℕ, zero, suc, ◌+◌, String, Bool, true, false, not, ◌&&◌, ◌||◌, Option, none, some, List, [], ◌∷◌,
  ◌++◌, ltb, leb, ◌==◌, if◌then◌else◌, or_else, str_eq, append, member, is_nil,
}
use n_quark.Prelude.Time.{Time, seconds}
use n_quark.Crawl.Cadence.{TrackingStatus}
use n_quark.Crawl.Priority.{Signals, compute_priority}
use n_quark.Crawl.Scheduler.Store.{
  JobStatus, TrackedEvent, Job, Store, Settings, has_key, is_active, is_pending, is_running,
}

-- `source.in_(tuple(sources) or ("",))`
abbrev in_sources : List String → String → Bool
in_sources sources source = if is_nil sources then str_eq source "" else member source sources

abbrev pub is_trackable : TrackingStatus → Bool
is_trackable TrackingStatus.active = true
is_trackable TrackingStatus.post_event = true
is_trackable _ = false

pub has_active : String → String → List Job → Bool
has_active source sid [] = false
has_active source sid (job ∷ rest) =
    (str_eq job.source source && str_eq job.source_record_id sid && is_active job.status)
    || has_active source sid rest

-- `next_capture_at is not None and next_capture_at > now`
abbrev is_waiting : Option Time → Time → Bool
is_waiting none now = false
is_waiting (some t) now = ltb now t

abbrev signals_of : Settings → TrackedEvent → Signals
signals_of cfg te = record {
  starts_at = te.starts_at;
  on_sale_at = te.on_sale_at;
  last_state_change_at = te.last_state_change_at;
  consecutive_failures = te.consecutive_failures;
  city = te.city;
  city_allowlist = cfg.city_allowlist;
}

-- Unique index on `dedup_key`: a row whose key is there already fails the transaction.
pub insert_all : List Job → List Job → Option (List Job)
insert_all [] jobs = some jobs
insert_all (job ∷ new) jobs =
    let inserted = insert_all new (jobs ++ job ∷ []) in
    if has_key job.dedup_key jobs then none else inserted

module _ (iso : Time → String) (cfg : Settings) (now : Time) where
  abbrev window : Option Time → String
  window none = "initial"
  window (some t) = iso t

  pub dedup_of : TrackedEvent → String
  dedup_of te =
      append te.source
        (append ":" (append te.source_record_id (append ":" (window te.next_capture_at))))

  -- The tests of the loop, made against the rows that were there before it (autoflush is off).
  pub is_due : List Job → TrackedEvent → Bool
  unfolding has_active dedup_of
  is_due jobs te =
      in_sources cfg.capture_sources te.source
      && is_trackable te.tracking_status
      && not (is_waiting te.next_capture_at now)
      && not (has_key (dedup_of te) jobs)
      && not (has_active te.source te.source_record_id jobs)

  pub prioritised : TrackedEvent → TrackedEvent
  prioritised te =
      let (score, reason, parts) = compute_priority now (signals_of cfg te) in
      record te { priority = score; priority_reason = some (reason, parts); updated_at = now }

  unfoldable pub job_for : ℕ → TrackedEvent → Job
  unfolding dedup_of
  job_for id te = record {
    id = id;
    dedup_key = dedup_of te;
    source = te.source;
    source_record_id = te.source_record_id;
    canonical_event_id = te.canonical_event_id;
    status = JobStatus.pending;
    priority = (compute_priority now (signals_of cfg te)).0;
    scheduled_at = or_else te.next_capture_at now;
    started_at = none;
    completed_at = none;
    next_capture_at = none;
    attempt_count = 0;
    consecutive_failures = te.consecutive_failures;
    last_error_code = none;
    result_code = none;
    worker_id = none;
    lock_expires_at = none;
    created_at = now;
    updated_at = now;
  }

  -- The loop over the tracked rows: the rows and the new jobs, `id` being the next fresh id.
  pub due_rows : List Job → ℕ → List TrackedEvent → List TrackedEvent × List Job
  due_rows jobs id [] = ([], [])
  due_rows jobs id (te ∷ rest) =
      let due = is_due jobs te in
      let (rows, new) = due_rows jobs (if due then suc id else id) rest in
      if due then (prioritised te ∷ rows, job_for id te ∷ new) else (te ∷ rows, new)

  ids_of : List Job → List ℕ
  ids_of [] = []
  ids_of (job ∷ rest) = job.id ∷ ids_of rest

  abbrev last_id : ℕ → List Job → ℕ
  last_id id [] = id
  last_id id (job ∷ rest) = last_id (suc id) rest

  pub commit_jobs : Store → List TrackedEvent → List Job → Option (List ℕ × Store)
  unfolding insert_all ids_of
  commit_jobs s rows new = elim (insert_all new s.jobs) [
    | none ↦ none
    | some jobs ↦
        some (ids_of new, record { tracked = rows; jobs = jobs; fresh = last_id s.fresh new })
  ]

  -- The ids of the created jobs, or `none` where the commit violates the unique index.
  unfoldable pub generate_due_jobs : Store → Option (List ℕ × Store)
  unfolding due_rows is_due prioritised job_for commit_jobs
  generate_due_jobs s =
      let (rows, new) = due_rows s.jobs s.fresh s.tracked in commit_jobs s rows new

abbrev is_expired : Option Time → Time → Bool
is_expired none now = false
is_expired (some at) now = ltb at now

abbrev pub has_expired : Time → Job → Bool
has_expired now job = is_running job.status && is_expired job.lock_expires_at now

pub release : Time → Job → Job
release now job = record job {
  status = JobStatus.pending;
  worker_id = none;
  lock_expires_at = none;
  updated_at = now;
}

pub recover : Time → List Job → ℕ × List Job
unfolding release
recover now [] = (0, [])
recover now (job ∷ rest) =
    let (n, jobs) = recover now rest in
    if has_expired now job then (suc n, release now job ∷ jobs) else (n, job ∷ jobs)

unfoldable pub recover_expired_locks : Time → Store → ℕ × Store
unfolding recover
recover_expired_locks now s = let (n, jobs) = recover now s.jobs in (n, record s { jobs = jobs })

unfoldable pub lease : Settings → Time → String → Job → Job
lease cfg now worker job = record job {
  status = JobStatus.running;
  worker_id = some worker;
  lock_expires_at = some (now + seconds cfg.lock_ttl_seconds);
  started_at = some now;
  attempt_count = job.attempt_count + 1;
  updated_at = now;
}

-- `UPDATE … WHERE id = :id AND status = 'PENDING'`: the rows after it and whether one matched.
pub claim_row : Settings → Time → String → ℕ → List Job → Bool × List Job
unfolding lease
claim_row cfg now worker id [] = (false, [])
claim_row cfg now worker id (job ∷ rest) =
    let (found, jobs) = claim_row cfg now worker id rest in
    if job.id == id && is_pending job.status
    then (true, lease cfg now worker job ∷ jobs)
    else (found, job ∷ jobs)

-- `_claim_specific`, and one round of the loop of `claim_jobs`.
unfoldable pub claim_specific : Settings → Time → String → ℕ → Store → Bool × Store
unfolding claim_row
claim_specific cfg now worker id s =
    let (found, jobs) = claim_row cfg now worker id s.jobs in (found, record s { jobs = jobs })

-- `ORDER BY priority DESC, scheduled_at ASC`
abbrev before : Job → Job → Bool
before a b =
    ltb b.priority a.priority || (a.priority == b.priority && leb a.scheduled_at b.scheduled_at)

pub insert_ordered : Job → List Job → List Job
insert_ordered job [] = job ∷ []
insert_ordered job (x ∷ xs) =
    let later = x ∷ insert_ordered job xs in if before job x then job ∷ x ∷ xs else later

pub pending_ordered : List Job → List Job
unfolding insert_ordered
pending_ordered [] = []
pending_ordered (job ∷ rest) =
    let sorted = pending_ordered rest in
    if is_pending job.status then insert_ordered job sorted else sorted

pub due_ids : Time → List Job → List ℕ
due_ids now [] = []
due_ids now (job ∷ rest) =
    let ids = due_ids now rest in if leb job.scheduled_at now then job.id ∷ ids else ids

-- The loop over the due ids, `limit` being the claims that are left.
pub claim_loop : Settings → Time → String → ℕ → List ℕ → Store → List ℕ × Store
claim_loop cfg now worker zero ids s = ([], s)
claim_loop cfg now worker (suc limit) [] s = ([], s)
claim_loop cfg now worker (suc limit) (id ∷ ids) s =
    let (found, s') = claim_specific cfg now worker id s in
    elim found [
      | true ↦ let (claimed, s'') = claim_loop cfg now worker limit ids s' in (id ∷ claimed, s'')
      | false ↦ claim_loop cfg now worker (suc limit) ids s'
    ]

unfoldable pub claim_jobs : Settings → Time → String → ℕ → Store → List ℕ × Store
unfolding pending_ordered due_ids claim_loop claim_specific
claim_jobs cfg now worker limit s =
    claim_loop cfg now worker limit (due_ids now (pending_ordered s.jobs)) s
