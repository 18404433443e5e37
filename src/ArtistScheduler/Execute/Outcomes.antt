-- ===== src/ArtistScheduler/Execute/Outcomes.antt =====
-- scheduler.py, `execute`: what each outcome of a claimed job leaves in its row.
use n_quark.Prelude.{
  ◌+◌, ◌<◌, ◌≡◌, refl, String, Bool, Option, none, some, List, arith, if_ind, leb, opt_str_eq,
}
use n_quark.Prelude.Time.{Time, seconds}
use n_quark.ArtistCadence.{Days, Cadence}
use n_quark.ArtistScheduler.{JobType, DemandStatus, DemandJob, DemandSettings, Surroundings, Result}
use n_quark.ArtistScheduler.Enqueue.{enqueue_catalogue_backfill}
use n_quark.ArtistScheduler.Claim.{lease_job}
use n_quark.ArtistScheduler.Execute.{
  Request, Reply, Outcome, terminal, backoff_seconds, noted, retried, fail, defer, succeed,
  finish_refresh, finish_resolved, finish_identity, identity_request, execute_as, execute,
}

-- The row `after` that an outcome leaves of a job that was `before` when it was claimed.
abbrev Left : DemandSettings → Time → Outcome → (before after : DemandJob) → Type 0
Left cfg now Outcome.succeeded before after =
    (after.status ≡ DemandStatus.succeeded)
    × (after.completed_at ≡ some now)
    × (after.consecutive_failures ≡ 0)
    × (after.attempt_count ≡ before.attempt_count + 1)
Left cfg now Outcome.deferred before after =
    (after.status ≡ DemandStatus.pending)
    × (after.scheduled_at ≡ now + seconds cfg.backoff_base_seconds)
    × (after.consecutive_failures ≡ before.consecutive_failures)
    × (after.attempt_count ≡ before.attempt_count)
Left cfg now Outcome.failed_retryable before after =
    (after.status ≡ DemandStatus.failed_retryable)
    × (after.scheduled_at ≡ now + seconds (backoff_seconds cfg after.attempt_count))
    × (after.consecutive_failures ≡ before.consecutive_failures + 1)
    × (after.attempt_count ≡ before.attempt_count + 1)
    × (after.attempt_count < cfg.max_attempts)
Left cfg now Outcome.failed_terminal before after =
    (after.status ≡ DemandStatus.failed_terminal)
    × (after.completed_at ≡ some now)
    × (after.attempt_count ≡ before.attempt_count + 1)

-- The row besides: its key, its lease and its next attempt.
abbrev pub IsLeft : DemandSettings → Time → DemandJob → Outcome × DemandJob → Type 0
IsLeft cfg now before (outcome, after) =
    (after.dedup_key ≡ before.dedup_key)
    × (after.lock_expires_at ≡ none)
    × Left cfg now outcome before after

module _ (out : Surroundings) (c : Cadence) (cfg : DemandSettings) (now : Time) (worker : String)
    (job : DemandJob) where
  abbrev leased : DemandJob
  leased = lease_job cfg now worker job

  fail-IsLeft : (error text : String) → IsLeft cfg now job (fail out cfg now error text leased)
  unfolding fail lease_job terminal noted retried
  fail-IsLeft error text =
      if_ind (IsLeft cfg now job) (leb cfg.max_attempts (job.attempt_count + 1))
        (λ e. (refl, refl, (refl, refl, refl)))
        (λ e. (refl, refl, (refl, refl, refl, refl, ground arith)))

  terminal-IsLeft :
      (code : String) → IsLeft cfg now job (Outcome.failed_terminal, terminal now code leased)
  unfolding terminal lease_job
  terminal-IsLeft code = (refl, refl, (refl, refl, refl))

  succeed-IsLeft :
      (result : Result) (to_event : Option Days)
      → IsLeft cfg now job (Outcome.succeeded, succeed out c cfg now result to_event leased)
  unfolding succeed lease_job
  succeed-IsLeft result to_event = (refl, refl, (refl, refl, refl, refl))

  defer-IsLeft : (code : String) → IsLeft cfg now job (Outcome.deferred, defer cfg now code leased)
  unfolding defer lease_job
  defer-IsLeft code = (refl, refl, (refl, refl, refl, omega arith))

  finish_refresh-IsLeft :
      (to_event : Option Days) (reply : Reply)
      → IsLeft cfg now job (finish_refresh out c cfg now to_event reply leased)
  unfolding finish_refresh
  finish_refresh-IsLeft to_event (Reply.raised error text) = fail-IsLeft error text
  finish_refresh-IsLeft to_event (Reply.replied result) =
      if_ind (IsLeft cfg now job) (opt_str_eq result.status (some "NO_RESOLVED_IDENTITY"))
        (λ _. terminal-IsLeft "NO_RESOLVED_IDENTITY")
        (λ _.
          if_ind (IsLeft cfg now job) (opt_str_eq result.status (some "PROVIDER_ID_NOT_FOUND"))
            (λ _. terminal-IsLeft "PROVIDER_ID_NOT_FOUND")
            (λ _.
              if_ind (IsLeft cfg now job)
                (opt_str_eq result.status (some "VERIFICATION_UNAVAILABLE"))
                (λ _. fail-IsLeft "RuntimeError" "verification unavailable (transient)")
                (λ _. succeed-IsLeft result to_event)))

  finish_resolved-IsLeft :
      (result : Result) (jobs : List DemandJob) (made : Option (Bool × List DemandJob))
      → IsLeft cfg now job (finish_resolved out c cfg now result leased jobs made).0
  unfolding finish_resolved
  finish_resolved-IsLeft result jobs none =
      fail-IsLeft "MultipleResultsFound" "Multiple rows were found when one or none was required"
  finish_resolved-IsLeft result jobs (some (made, jobs')) = succeed-IsLeft result none

  finish_identity-IsLeft :
      (reply : Reply) (jobs : List DemandJob)
      → IsLeft cfg now job (finish_identity out c cfg now reply leased jobs).0
  unfolding finish_identity lease_job
  finish_identity-IsLeft (Reply.raised error text) jobs = fail-IsLeft error text
  finish_identity-IsLeft (Reply.replied result) jobs =
      if_ind (λ (r, t). IsLeft cfg now job r) (opt_str_eq result.status (some "QUOTA_EXHAUSTED"))
        (λ _. defer-IsLeft "QUOTA_EXHAUSTED")
        (λ _.
          if_ind (λ (r, t). IsLeft cfg now job r) (opt_str_eq result.status (some "RESOLVED"))
            (λ _. finish_resolved-IsLeft result jobs (
              enqueue_catalogue_backfill out cfg now job.canonical_artist_id result.identity_id 20
                jobs))
            (λ _.
              if_ind (λ (r, t). IsLeft cfg now job r)
                (opt_str_eq result.status (some "VERIFICATION_UNAVAILABLE"))
                (λ _. fail-IsLeft "RuntimeError" "verification unavailable (transient)")
                (λ _. succeed-IsLeft result none)))

  execute_as-IsLeft :
      (ask : Request → Reply) (jobs : List DemandJob) (job_type : JobType)
      → IsLeft cfg now job (execute_as out c cfg now ask job_type leased jobs).0
  unfolding execute_as
  execute_as-IsLeft ask jobs JobType.channel =
      finish_refresh-IsLeft (out.event_proximity_days leased.canonical_artist_id)
        (ask (Request.snapshot_youtube leased.canonical_artist_id))
  execute_as-IsLeft ask jobs JobType.video =
      finish_refresh-IsLeft (out.event_proximity_days leased.canonical_artist_id)
        (ask (Request.snapshot_videos_registry leased.canonical_artist_id))
  execute_as-IsLeft ask jobs JobType.identity =
      finish_identity-IsLeft (ask (identity_request out c cfg now leased)) jobs
  execute_as-IsLeft ask jobs JobType.catalogue =
      finish_refresh-IsLeft none (ask (Request.backfill_catalogue leased.canonical_artist_id))
  execute_as-IsLeft ask jobs (JobType.other name) = terminal-IsLeft "UNKNOWN_JOB_TYPE"

  -- Whatever the service replies to a job that was just claimed, the row that `execute` leaves keeps
  -- its key and holds no lease, and agrees with the outcome: a success is complete and clears the
  -- failures; a deferral waits for the base delay and takes neither an attempt nor a failure; a
  -- failure that is retried has attempts left and waits for its backoff; a terminal failure is
  -- complete.
  pub execute-IsLeft :
      (ask : Request → Reply) (jobs : List DemandJob)
      → IsLeft cfg now job (execute out c cfg now ask (lease_job cfg now worker job) jobs).0
  unfolding execute lease_job
  execute-IsLeft ask jobs = execute_as-IsLeft ask jobs job.job_type
