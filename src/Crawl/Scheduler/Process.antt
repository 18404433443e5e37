-- ===== src/Crawl/Scheduler/Process.antt =====
-- SchedulerService.process_job, capture_now and run_once.
pub mod Laws
use n_quark.Prelude.{
  ℕ, zero, suc, ◌+◌, ◌-◌, ◌%◌, String, Bool, true, false, not, ◌&&◌, Option, none, some, List, [],
  ◌∷◌, ◌++◌, ltb, ◌==◌, if◌then◌else◌, is_some, truthy, or_text, append,
}
use n_quark.Prelude.Time.{Time, seconds}
use n_quark.Crawl.Lifecycle.{Calendar}
use n_quark.Crawl.Classification.{
  ResultCode, success_record_present, success_record_absent, RetryDecision, decide_retry,
}
use n_quark.Crawl.Cadence.{
  CadenceReason, terminal, retry_backoff, TrackingStatus, Plan, compute_cadence,
}
use n_quark.Crawl.Scheduler.Store.{
  JobStatus, TrackedEvent, Job, Store, Settings, find_tracked, put_tracked, find_job, put_job,
  timing_of,
}
use n_quark.Crawl.Scheduler.Jobs.{
  insert_all, generate_due_jobs, recover_expired_locks, claim_specific, claim_jobs,
}

-- What the ingest route says of the Shadow Ledger: the number of transitions is all that is read.
pub record ShadowResult : Type 0 where
  pub noop : Bool
  pub persisted : Bool
  pub transitions : ℕ

pub record CaptureOutcome : Type 0 where
  pub result_code : ResultCode
  pub retry_after_seconds : Option ℕ
  pub shadow_result : Option ShadowResult
  pub canonical_event_id : Option String

-- `sr and not sr.get("noop") and sr.get("persisted")`
abbrev new_state : Option ShadowResult → Bool
new_state none = false
new_state (some r) = not r.noop && r.persisted

abbrev transition_count_of : Option ShadowResult → ℕ
transition_count_of none = 0
transition_count_of (some r) = r.transitions

abbrev pub attempted : ResultCode → Time → TrackedEvent → TrackedEvent
attempted code now te = record te { last_attempt_at = some now; last_capture_status = some code }

pub present_row : CaptureOutcome → Time → TrackedEvent → TrackedEvent
present_row o now te =
    let trs = transition_count_of o.shadow_result in
    record te {
      consecutive_failures = 0;
      consecutive_absences = 0;
      last_success_at = some now;
      last_record_present_at = some now;
      capture_count = te.capture_count + 1;
      canonical_event_id = or_text o.canonical_event_id te.canonical_event_id;
      distinct_state_count =
          (if new_state o.shadow_result
            then te.distinct_state_count + 1
            else te.distinct_state_count);
      transition_count = te.transition_count + trs;
      last_state_change_at = if ltb 0 trs then some now else te.last_state_change_at;
    }

pub absent_row : Time → TrackedEvent → TrackedEvent
absent_row now te = record te {
  consecutive_failures = 0;
  consecutive_absences = te.consecutive_absences + 1;
  capture_count = te.capture_count + 1;
  last_success_at = some now;
}

-- A successful request: the row is planned by the cadence, and stops where that plans nothing.
planned : Plan → TrackedEvent → TrackedEvent
planned (next, reason) te = record te {
  next_capture_at = next;
  cadence_reason = some reason;
  tracking_status = if is_some next then te.tracking_status else TrackingStatus.stopped;
}

pub failed_row : RetryDecision → TrackedEvent → TrackedEvent
failed_row d te = record te {
  consecutive_failures = te.consecutive_failures + 1;
  tracking_status = if d.needs_review then TrackingStatus.needs_review else TrackingStatus.stopped;
  next_capture_at = none;
  cadence_reason = some terminal;
}

-- `decision.backoff_seconds or settings.backoff_base`
abbrev pub delay_or_base : Option ℕ → ℕ → ℕ
delay_or_base none base = base
delay_or_base (some d) base = if d == 0 then base else d

pub retried_row : Settings → RetryDecision → Time → TrackedEvent → TrackedEvent
retried_row cfg d now te = record te {
  consecutive_failures = te.consecutive_failures + 1;
  next_capture_at = some (now + seconds (delay_or_base d.backoff_seconds cfg.policy.backoff_base));
  cadence_reason = some retry_backoff;
}

-- The job at the end: `error` is set on the failing branches only.
abbrev pub settled : JobStatus → ResultCode → Bool → Time → TrackedEvent → Job → Job
settled status code failed now te job = record job {
  status = status;
  result_code = some code;
  completed_at = some now;
  lock_expires_at = none;
  updated_at = now;
  last_error_code = if failed then some code else job.last_error_code;
  next_capture_at = elim status [
    | JobStatus.failed_terminal ↦ job.next_capture_at
    | _ ↦ te.next_capture_at
  ];
  consecutive_failures = te.consecutive_failures;
}

module _ (cal : Calendar) (cfg : Settings) where
  plan_row : Time → TrackedEvent → TrackedEvent
  unfolding planned
  plan_row now te = planned (compute_cadence cal cfg.cadence (timing_of te) now) te

  -- A failed request: given up, or put off, and in neither case an absence.
  finish_failure : CaptureOutcome → RetryDecision → Time → Job → TrackedEvent → Job × TrackedEvent
  unfolding failed_row retried_row
  finish_failure o d now job te =
      if d.terminal
      then (let te' = failed_row d te in
          (settled JobStatus.failed_terminal o.result_code true now te' job, te'))
      else (let te' = retried_row cfg d now te in
          (settled JobStatus.failed_retryable o.result_code true now te' job, te'))

  unfoldable pub finish_code :
      ResultCode → CaptureOutcome → RetryDecision → Time → Job → TrackedEvent → Job × TrackedEvent
  unfolding plan_row present_row absent_row finish_failure
  finish_code success_record_present o d now job te =
      let te' = plan_row now (present_row o now te) in
      (
        record (settled JobStatus.succeeded o.result_code false now te' job) {
          canonical_event_id = or_text o.canonical_event_id job.canonical_event_id;
        },
        te',
      )
  finish_code success_record_absent o d now job te =
      let te' = plan_row now (absent_row now te) in
      (settled JobStatus.succeeded o.result_code false now te' job, te')
  finish_code _ o d now job te = finish_failure o d now job te

  -- The second transaction of `process_job` on its two rows.
  unfoldable pub finish_job : CaptureOutcome → Time → Job → TrackedEvent → Job × TrackedEvent
  finish_job o now job te =
      let d = decide_retry o.result_code job.attempt_count cfg.policy o.retry_after_seconds in
      let (job', te') = finish_code o.result_code o d now job (attempted o.result_code now te) in
      (job', record te' { updated_at = now })

  abbrev canonical_of : Option TrackedEvent → Job → Option String
  canonical_of none job = job.canonical_event_id
  canonical_of (some te) job = te.canonical_event_id

  finish_rows : CaptureOutcome → Time → Job → Option TrackedEvent → Store → Option Store
  unfolding finish_job finish_code decide_retry
  finish_rows o now job none s = none
  finish_rows o now job (some te) s =
      let (job', te') = finish_job o now job te in
      some (record s { jobs = put_job job' s.jobs; tracked = put_tracked te' s.tracked })

  module _ (capture : ℕ → String → String → Option String → CaptureOutcome) where
    process_row : Time → Option Job → Store → Option Store
    unfolding finish_rows
    process_row now none s = none
    process_row now (some job) s =
        let te = find_tracked job.source job.source_record_id s.tracked in
        finish_rows (capture job.id job.source job.source_record_id (canonical_of te job)) now job
          te s

    -- `none` where a row is missing, which raises. `capture` is told the job by its id, as the
    -- answers of the sources change between the calls.
    unfoldable pub process_job : ℕ → Time → Store → Option Store
    unfolding process_row find_job find_tracked put_job put_tracked
    process_job id now s = process_row now (find_job id s.jobs) s
