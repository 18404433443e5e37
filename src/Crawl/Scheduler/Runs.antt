-- ===== src/Crawl/Scheduler/Runs.antt =====
-- SchedulerService.capture_now and run_once: whole passes over the store. What an exception ends
-- keeps the transactions that were committed before it.
pub mod Retries
use n_quark.Prelude.{
  ℕ, zero, suc, ◌+◌, ◌-◌, ◌%◌, String, Bool, true, false, Option, none, some, List, [], ◌∷◌, ◌++◌,
  ◌==◌, if◌then◌else◌, length, or_text, append, str_eq,
}
use n_quark.Prelude.Time.{Time}
use n_quark.Crawl.Lifecycle.{Calendar}
use n_quark.Crawl.Scheduler.Store.{JobStatus, TrackedEvent, Job, Store, Settings, find_tracked}
use n_quark.Crawl.Scheduler.Jobs.{
  generate_due_jobs, recover_expired_locks, claim_specific, claim_jobs,
}
use n_quark.Crawl.Scheduler.Process.{CaptureOutcome, process_job}

pub data CaptureReply : Type 0 where
  event_not_tracked raised : CaptureReply
  already_claimed captured : (job_id : ℕ) → (dedup_hit : Bool) → CaptureReply

-- `now.replace(second=0, microsecond=0)`
abbrev minute_of : Time → Time
minute_of now = now - now % 60000000

find_key : String → List Job → Option Job
find_key key [] = none
find_key key (job ∷ rest) = if str_eq job.dedup_key key then some job else find_key key rest

module _ (cal : Calendar) (iso : Time → String) (cfg : Settings) (now : Time) where
  now_key : String → String → String
  now_key source sid =
      append source (append ":" (append sid (append ":capture-now:" (iso (minute_of now)))))

  now_job : ℕ → String → String → Option String → TrackedEvent → Job
  unfolding now_key
  now_job id source sid canonical te = record {
    id = id;
    dedup_key = now_key source sid;
    source = source;
    source_record_id = sid;
    canonical_event_id = or_text te.canonical_event_id canonical;
    status = JobStatus.pending;
    priority = 100;
    scheduled_at = now;
    started_at = none;
    completed_at = none;
    next_capture_at = none;
    attempt_count = 0;
    consecutive_failures = te.consecutive_failures;
    last_error_code = none;
    result_code = none;
    worker_id = none;
    lock_expires_at = none;
    created_at = now;
    updated_at = now;
  }

  -- The job of this minute, found or made, and whether it was found.
  now_row : String → String → Option String → TrackedEvent → Option Job → Store → (ℕ × Bool) × Store
  unfolding now_job
  now_row source sid canonical te (some job) s = ((job.id, true), s)
  now_row source sid canonical te none s = (
    (s.fresh, false),
    record s { jobs = s.jobs ++ now_job s.fresh source sid canonical te ∷ []; fresh = suc s.fresh },
  )

  module _ (capture : ℕ → String → String → Option String → CaptureOutcome) where
    process_claimed : ℕ → Bool → Bool → Store → CaptureReply × Store
    process_claimed id hit false s = (already_claimed id hit, s)
    process_claimed id hit true s = elim (process_job cal cfg capture id now s) [
      | none ↦ (raised, s)
      | some s' ↦ (captured id hit, s')
    ]

    capture_tracked :
        String
        → String
        → Option String
        → String
        → Option TrackedEvent
        → Store
        → CaptureReply × Store
    unfolding now_row now_key find_key process_claimed
    capture_tracked source sid canonical worker none s = (event_not_tracked, s)
    capture_tracked source sid canonical worker (some te) s =
        let ((id, hit), s') =
          now_row source sid canonical te (find_key (now_key source sid) s.jobs) s in
        let (claimed, s'') = claim_specific cfg now worker id s' in
        process_claimed id hit claimed s''

    unfoldable pub capture_now :
        String → String → Option String → String → Store → CaptureReply × Store
    unfolding capture_tracked
    capture_now source sid canonical worker s =
        capture_tracked source sid canonical worker (find_tracked source sid s.tracked) s

    -- Processes the claimed jobs in turn: how many were, and whether all were.
    process_all : List ℕ → Store → (ℕ × Bool) × Store
    process_all [] s = ((0, true), s)
    process_all (id ∷ ids) s = elim (process_job cal cfg capture id now s) [
      | none ↦ ((0, false), s)
      | some s' ↦ let ((n, all), s'') = process_all ids s' in ((suc n, all), s'')
    ]

    pub record Summary : Type 0 where
      pub recovered_locks : ℕ
      pub jobs_created : ℕ
      pub jobs_claimed : ℕ
      pub processed : ℕ

    run_created : String → ℕ → ℕ → Option (List ℕ × Store) → Store → Option Summary × Store
    unfolding process_all
    run_created worker limit recovered none s = (none, s)
    run_created worker limit recovered (some (created, s')) s =
        let (claimed, s'') = claim_jobs cfg now worker limit s' in
        let ((n, all), after) = process_all claimed s'' in
        (
          if all
              then some (record {
                recovered_locks = recovered;
                jobs_created = length created;
                jobs_claimed = length claimed;
                processed = n;
              })
              else none,
          after,
        )

    -- `limit or settings.scheduled_capture_max_jobs`; no summary where an exception ends the pass.
    unfoldable pub run_once : String → ℕ → Store → Option Summary × Store
    unfolding run_created
    run_once worker limit s =
        let (recovered, s') = recover_expired_locks now s in
        run_created worker (if limit == 0 then cfg.max_jobs else limit) recovered
          (generate_due_jobs iso cfg now s') s'
