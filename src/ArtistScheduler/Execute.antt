-- ===== src/ArtistScheduler/Execute.antt =====
-- scheduler.py: `execute` with its typed outcomes, and `run_once`.
pub mod Outcomes
pub mod Attempts
pub mod Refresh
pub mod Passes
use n_quark.Prelude.{
  ℕ, suc, ◌+◌, ◌-◌, ◌*◌, ◌^◌, min, String, Bool, true, false, ◌&&◌, ◌||◌, Option, none, some, List,
  [], ◌∷◌, ltb, leb, ◌==◌, if◌then◌else◌, str_eq, opt_str_eq, truthy, or_empty, or_else, is_some,
  length,
}
use n_quark.Prelude.Time.{Time, seconds, days}
use n_quark.ArtistCadence.{
  Days, ahead, behind, Cadence, channel_cadence_seconds, video_cadence_seconds, event_band_seconds,
}
use n_quark.ArtistScheduler.{
  JobType, DemandStatus, Result, Detail, DemandJob, Identity, DemandSettings, Surroundings,
}
use n_quark.ArtistScheduler.Enqueue.{
  enqueue_due, enqueue_identity_reattempts, enqueue_catalogue_backfill,
}
use n_quark.ArtistScheduler.Claim.{claim}

-- What the scheduler asks of the service.
pub data Request : Type 0 where
  snapshot_youtube snapshot_videos_registry backfill_catalogue : (artist : String) → Request
  discover_identity :
      (artist display_name purpose : String)
      → (others_have_backlog near_reset high_priority : Bool) → Request

pub data Reply : Type 0 where
  raised : (error text : String) → Reply
  replied : (result : Result) → Reply

pub data Outcome : Type 0 where
  succeeded deferred failed_retryable failed_terminal : Outcome

unfoldable pub terminal : Time → String → DemandJob → DemandJob
terminal now code job = record job {
  status = DemandStatus.failed_terminal;
  result_code = some code;
  completed_at = some now;
  lock_expires_at = none;
  updated_at = now;
}

-- The seconds until the next attempt.
unfoldable pub backoff_seconds : DemandSettings → (attempt_count : ℕ) → ℕ
backoff_seconds cfg attempts =
    min (cfg.backoff_base_seconds * 2 ^ (attempts - 1)) cfg.backoff_max_seconds

-- A failure is counted and noted.
unfoldable pub noted : Surroundings → String → String → DemandJob → DemandJob
noted out error text job = record job {
  consecutive_failures = job.consecutive_failures + 1;
  last_error_code = some error;
  detail = record job.detail { last_error = some (out.cut text) };
}

unfoldable pub retried : DemandSettings → Time → DemandJob → DemandJob
unfolding backoff_seconds
retried cfg now job = record job {
  status = DemandStatus.failed_retryable;
  result_code = some "RETRY";
  scheduled_at = now + seconds (backoff_seconds cfg job.attempt_count);
  lock_expires_at = none;
  updated_at = now;
}

unfoldable pub fail :
    Surroundings → DemandSettings → Time → String → String → DemandJob → Outcome × DemandJob
unfolding noted terminal retried
fail out cfg now error text job =
    let job' = noted out error text job in
    if leb cfg.max_attempts job.attempt_count
    then (Outcome.failed_terminal, terminal now "MAX_ATTEMPTS" job')
    else (Outcome.failed_retryable, retried cfg now job')

unfoldable pub defer : DemandSettings → Time → String → DemandJob → DemandJob
defer cfg now code job = record job {
  status = DemandStatus.pending;
  result_code = some code;
  attempt_count = job.attempt_count - 1;
  scheduled_at = now + seconds cfg.backoff_base_seconds;
  lock_expires_at = none;
  updated_at = now;
}

-- Some observation of the artist is not older than three days.
abbrev recently_active : Time → List Time → Bool
recently_active now [] = false
recently_active now (at ∷ rest) = leb now (at + days 3) || recently_active now rest

-- 9999 days where no video is known, and never below 0.
abbrev freshest_video_age : Time → Option Time → Days
freshest_video_age now none = ahead (days 9999)
freshest_video_age now (some newest) = ahead (now - newest)

abbrev pub tightened : ℕ → Option ℕ → ℕ
tightened base none = base
tightened base (some band) = min base band

module _ (out : Surroundings) (c : Cadence) (cfg : DemandSettings) (now : Time) where
  unfoldable pub next_refresh_for : JobType → String → Option Days → Option Time
  next_refresh_for JobType.channel artist to_event = some (
      now
      + seconds (
          tightened
            (channel_cadence_seconds c to_event (recently_active now (out.observed_at artist)))
            (event_band_seconds c to_event)))
  next_refresh_for JobType.video artist to_event = some (
      now
      + seconds (
          tightened (video_cadence_seconds c (freshest_video_age now (out.newest_video artist)))
            (event_band_seconds c to_event)))
  next_refresh_for JobType.catalogue artist to_event = some (now + seconds cfg.catalogue_interval)
  next_refresh_for _ artist to_event = none

  unfoldable pub succeed : Result → Option Days → DemandJob → DemandJob
  unfolding next_refresh_for
  succeed result to_event job = record job {
    status = DemandStatus.succeeded;
    result_code = some (if truthy result.status then or_empty result.status else "OK");
    completed_at = some now;
    consecutive_failures = 0;
    lock_expires_at = none;
    next_refresh_at = next_refresh_for job.job_type job.canonical_artist_id to_event;
    detail = record job.detail { last_result = some result };
    updated_at = now;
  }

  abbrev unavailable : DemandJob → Outcome × DemandJob
  unavailable job = fail out cfg now "RuntimeError" "verification unavailable (transient)" job

  -- What `execute` makes of the reply to a refresh.
  unfoldable pub finish_refresh : Option Days → Reply → DemandJob → Outcome × DemandJob
  unfolding fail terminal succeed
  finish_refresh to_event (raised error text) job = fail out cfg now error text job
  finish_refresh to_event (replied result) job =
      if opt_str_eq result.status (some "NO_RESOLVED_IDENTITY")
      then (Outcome.failed_terminal, terminal now "NO_RESOLVED_IDENTITY" job)
      else if opt_str_eq result.status (some "PROVIDER_ID_NOT_FOUND")
      then (Outcome.failed_terminal, terminal now "PROVIDER_ID_NOT_FOUND" job)
      else if opt_str_eq result.status (some "VERIFICATION_UNAVAILABLE")
      then unavailable job
      else (Outcome.succeeded, succeed result to_event job)

  -- `(job.priority or P4_GLOBAL_CANDIDATE) <= P2_CONFIRMED_OR_STRONG`; the priority 0 is not true.
  unfoldable pub is_high_priority : ℕ → Bool
  is_high_priority priority = leb (if priority == 0 then 40 else priority) 20

  unfoldable pub identity_request : DemandJob → Request
  unfolding is_high_priority
  identity_request job =
      let ambiguous = out.ambiguous job.canonical_artist_id in
      Request.discover_identity job.canonical_artist_id
        (if truthy job.detail.display_name
          then or_empty job.detail.display_name
          else job.canonical_artist_id)
        (if ambiguous then "ambiguity" else "unresolved") ambiguous out.near_reset
        (is_high_priority job.priority)

  -- The backfill's table, or a failure where its query raises.
  unfoldable pub finish_resolved :
      Result
      → DemandJob
      → List DemandJob
      → Option (Bool × List DemandJob)
      → (Outcome × DemandJob) × List DemandJob
  unfolding fail succeed
  finish_resolved result job jobs none = (
    fail out cfg now "MultipleResultsFound" "Multiple rows were found when one or none was required"
        job,
    jobs,
  )
  finish_resolved result job jobs (some (made, jobs')) =
      ((Outcome.succeeded, succeed result none job), jobs')

  -- The outcome, the job, and the table with a backfill where the identity is resolved.
  unfoldable pub finish_identity :
      Reply → DemandJob → List DemandJob → (Outcome × DemandJob) × List DemandJob
  unfolding fail defer succeed finish_resolved enqueue_catalogue_backfill
  finish_identity (raised error text) job jobs = (fail out cfg now error text job, jobs)
  finish_identity (replied result) job jobs =
      if opt_str_eq result.status (some "QUOTA_EXHAUSTED")
      then ((Outcome.deferred, defer cfg now "QUOTA_EXHAUSTED" job), jobs)
      else if opt_str_eq result.status (some "RESOLVED")
      then finish_resolved result job jobs (
          enqueue_catalogue_backfill out cfg now job.canonical_artist_id result.identity_id 20 jobs)
      else if opt_str_eq result.status (some "VERIFICATION_UNAVAILABLE")
      then (unavailable job, jobs)
      else ((Outcome.succeeded, succeed result none job), jobs)

  module _ (ask : Request → Reply) where
    unfoldable pub execute_as :
        JobType → DemandJob → List DemandJob → (Outcome × DemandJob) × List DemandJob
    unfolding finish_refresh identity_request finish_identity terminal
    execute_as JobType.channel job jobs = (
      finish_refresh (out.event_proximity_days job.canonical_artist_id)
          (ask (Request.snapshot_youtube job.canonical_artist_id)) job,
      jobs,
    )
    execute_as JobType.video job jobs = (
      finish_refresh (out.event_proximity_days job.canonical_artist_id)
          (ask (Request.snapshot_videos_registry job.canonical_artist_id)) job,
      jobs,
    )
    execute_as JobType.identity job jobs = finish_identity (ask (identity_request job)) job jobs
    execute_as JobType.catalogue job jobs =
        (finish_refresh none (ask (Request.backfill_catalogue job.canonical_artist_id)) job, jobs)
    execute_as (JobType.other name) job jobs =
        ((Outcome.failed_terminal, terminal now "UNKNOWN_JOB_TYPE" job), jobs)

    unfoldable pub execute : DemandJob → List DemandJob → (Outcome × DemandJob) × List DemandJob
    unfolding execute_as
    execute job jobs = execute_as job.job_type job jobs

    -- The flush of a changed job.
    unfoldable pub put_job : DemandJob → List DemandJob → List DemandJob
    put_job job [] = []
    put_job job (x ∷ rest) =
        (if str_eq x.dedup_key job.dedup_key then job else x) ∷ put_job job rest

    -- The claimed jobs in turn: their outcomes and the table.
    unfoldable pub execute_all : List DemandJob → List DemandJob → List Outcome × List DemandJob
    unfolding execute put_job
    execute_all [] jobs = ([], jobs)
    execute_all (job ∷ rest) jobs =
        let ((outcome, job'), jobs') = execute job jobs in
        let (outcomes, jobs'') = execute_all rest (put_job job' jobs') in
        (outcome ∷ outcomes, jobs'')

    -- The outcomes of the claimed jobs and the table that is committed; none where an exception ends
    -- the pass, which commits nothing.
    unfoldable pub run_once :
        String → List Identity → List DemandJob → Option (List Outcome × List DemandJob)
    unfolding enqueue_due enqueue_identity_reattempts claim execute_all
    run_once worker identities jobs = elim (enqueue_due out cfg now identities jobs) [
      | none ↦ none
      | some (counts, enqueued) ↦
          elim (enqueue_identity_reattempts out cfg now identities enqueued) [
            | none ↦ none
            | some all ↦
                let (claimed, leased) = claim cfg now worker 0 all in
                some (execute_all claimed leased)
          ]
    ]
