-- ===== src/Crawl/Scheduler/Process/Laws.antt =====
-- finish_job: the end of a capture, on its two rows.
use n_quark.Prelude.{
  ℕ, ◌+◌, ◌<◌, ◌≡◌, refl, ◌⊎◌, inl, inr, Bool, true, false, none, some, arith, ◌↔◌, if◌then◌else◌,
  Bool-cases,
}
use n_quark.Prelude.Time.{Time, seconds}
use n_quark.Crawl.Lifecycle.{Calendar}
use n_quark.Crawl.Classification.{
  ResultCode, success_record_present, success_record_absent, RetryDecision, decide_retry,
}
use n_quark.Crawl.Cadence.{Plan, is_terminal, compute_cadence}
use n_quark.Crawl.Cadence.Laws.{IsPositive, IsAhead, compute_cadence-IsAhead}
use n_quark.Crawl.Scheduler.Store.{JobStatus, TrackedEvent, Job, Settings, is_active, timing_of}
use n_quark.Crawl.Scheduler.Process.{
  CaptureOutcome, delay_or_base, failed_row, retried_row, present_row, absent_row, planned,
  plan_row, finish_failure, finish_code, finish_job, attempted,
}

-- An event is either due again at an instant ahead, or its tracking has ended.
abbrev pub IsPlanned : Time → TrackedEvent → Type 0
IsPlanned now te =
    ((t : Time) × (te.next_capture_at ≡ some t) × (now < t))
    ⊎ ((te.next_capture_at ≡ none) × (is_terminal te.tracking_status ≡ true))

planned-IsPlanned :
    (now : Time) (plan : Plan) (te : TrackedEvent)
    → IsAhead now plan
    → IsPlanned now (planned plan te)
unfolding planned
planned-IsPlanned now (none, reason) te h = inr (refl, refl)
planned-IsPlanned now (some t, reason) te h = inl (t, refl, h)

module _ (cal : Calendar) (cfg : Settings) (o : CaptureOutcome) (now : Time) (job : Job) where
  plan_row-IsPlanned :
      (te : TrackedEvent) → IsPositive cfg.cadence → IsPlanned now (plan_row cal cfg now te)
  unfolding plan_row
  plan_row-IsPlanned te pos =
      planned-IsPlanned now (compute_cadence cal cfg.cadence (timing_of te) now) te
        (compute_cadence-IsAhead cal cfg.cadence (timing_of te) now pos)

  failed_row-IsPlanned : (d : RetryDecision) (te : TrackedEvent) → IsPlanned now (failed_row d te)
  unfolding failed_row
  failed_row-IsPlanned d te = inr (refl, ground arith)

  retried_row-IsPlanned :
      (d : RetryDecision) (te : TrackedEvent)
      → 0 < cfg.policy.backoff_base
      → IsPlanned now (retried_row cfg d now te)
  unfolding retried_row
  retried_row-IsPlanned d te base =
      inl (
        now + seconds (delay_or_base d.backoff_seconds cfg.policy.backoff_base),
        refl,
        ground arith,
      )

  finish_failure-IsPlanned :
      (d : RetryDecision) (te : TrackedEvent)
      → 0 < cfg.policy.backoff_base
      → IsPlanned now (finish_failure cal cfg o d now job te).1
  unfolding finish_failure
  finish_failure-IsPlanned d te base = elim (Bool-cases d.terminal) [
    | inl over ↦ rw over (failed_row-IsPlanned d te)
    | inr again ↦ rw again (retried_row-IsPlanned d te base)
  ]

  finish_code-IsPlanned :
      (code : ResultCode) (d : RetryDecision) (te : TrackedEvent)
      → IsPositive cfg.cadence
      → 0 < cfg.policy.backoff_base
      → IsPlanned now (finish_code cal cfg code o d now job te).1
  unfolding finish_code
  finish_code-IsPlanned success_record_present d te pos base =
      plan_row-IsPlanned (present_row o now te) pos
  finish_code-IsPlanned success_record_absent d te pos base =
      plan_row-IsPlanned (absent_row now te) pos
  finish_code-IsPlanned _ d te pos base = finish_failure-IsPlanned d te base

  -- After any outcome the event is due again at an instant strictly ahead, or it has no next
  -- capture and its tracking status is terminal; the intervals and the base delay are positive.
  pub finish_job-IsPlanned :
      (te : TrackedEvent)
      → IsPositive cfg.cadence
      → 0 < cfg.policy.backoff_base
      → IsPlanned now (finish_job cal cfg o now job te).1
  unfolding finish_job
  finish_job-IsPlanned te pos base =
      finish_code-IsPlanned o.result_code
        (decide_retry o.result_code job.attempt_count cfg.policy o.retry_after_seconds)
        (attempted o.result_code now te) pos base

abbrev pub is_success : ResultCode → Bool
is_success success_record_present = true
is_success success_record_absent = true
is_success _ = false

-- The count of absences in a row after a result: only a success touches it.
abbrev pub absences_after : ResultCode → ℕ → ℕ
absences_after success_record_present n = 0
absences_after success_record_absent n = n + 1
absences_after _ n = n

module _ (cal : Calendar) (cfg : Settings) (o : CaptureOutcome) (now : Time) (job : Job) where
  finish_code_health :
      (code : ResultCode) (d : RetryDecision) (te : TrackedEvent)
      → let (job', te') = finish_code cal cfg code o d now job te in
        (te'.consecutive_absences ≡ absences_after code te.consecutive_absences)
        × (te'.consecutive_failures ≡ (if is_success code then 0 else te.consecutive_failures + 1))
        × (te'.capture_count ≡ (if is_success code then te.capture_count + 1 else te.capture_count))
        × (job'.consecutive_failures ≡ te'.consecutive_failures)
        × ((job'.status ≡ JobStatus.succeeded) ↔ (is_success code ≡ true))
        × (is_active job'.status ≡ false)
        × (job'.lock_expires_at ≡ none)
        × (job'.dedup_key ≡ job.dedup_key)
  unfolding finish_code finish_failure plan_row planned present_row absent_row failed_row
      retried_row
  finish_code_health success_record_present d te = ground arith
  finish_code_health success_record_absent d te = ground arith
  finish_code_health _ d te = ground arith

  -- A failed request never counts as an absence: absences are counted up by
  -- SUCCESS_RECORD_ABSENT alone, reset by SUCCESS_RECORD_PRESENT alone and kept by any other
  -- result. Failures are reset by the two successes and counted up by any other result, on the row
  -- and on the job; captures are counted for the successes. The job ends as SUCCEEDED exactly for
  -- a success, is no longer active, has no lease and keeps its key.
  pub finish_job_health :
      (te : TrackedEvent)
      → let code = o.result_code in
        let (job', te') = finish_job cal cfg o now job te in
        (te'.consecutive_absences ≡ absences_after code te.consecutive_absences)
        × (te'.consecutive_failures ≡ (if is_success code then 0 else te.consecutive_failures + 1))
        × (te'.capture_count ≡ (if is_success code then te.capture_count + 1 else te.capture_count))
        × (job'.consecutive_failures ≡ te'.consecutive_failures)
        × ((job'.status ≡ JobStatus.succeeded) ↔ (is_success code ≡ true))
        × (is_active job'.status ≡ false)
        × (job'.lock_expires_at ≡ none)
        × (job'.dedup_key ≡ job.dedup_key)
  unfolding finish_job
  finish_job_health te =
      finish_code_health o.result_code
        (decide_retry o.result_code job.attempt_count cfg.policy o.retry_after_seconds)
        (attempted o.result_code now te)
