-- ===== src/Crawl/Scheduler/Examples.antt =====
-- The theorems on the scheduler at a concrete store: one tracked show and its job.
mod Enriched
use n_quark.Prelude.{
  ◌+◌, ◌≤◌, ◌≡◌, refl, ◌↔◌, max, map, String, true, false, none, some, List, [], ◌∷◌, arith, ◌==◌,
  if◌then◌else◌, length, count_if,
}
use n_quark.Prelude.Time.{Time, days}
use n_quark.Crawl.Lifecycle.{Calendar}
use n_quark.Crawl.Classification.{ResultCode, timeout, parser_failed}
use n_quark.Crawl.Cadence.{default_config}
use n_quark.Crawl.Cadence.Laws.{IsPositive}
use n_quark.Crawl.Scheduler.Store.{
  JobStatus, TrackedEvent, Job, Store, Settings, is_event, find_tracked, has_key, is_active,
}
use n_quark.Crawl.Scheduler.Enrollment.{Enrollment, new_event, enroll}
use n_quark.Crawl.Scheduler.Enrollment.Laws.{Agrees, enroll-Agrees, enroll_table}
use n_quark.Crawl.Scheduler.Jobs.{
  job_for, lease, generate_due_jobs, recover_expired_locks, has_expired, release,
}
use n_quark.Crawl.Scheduler.Jobs.Unique.{IsExclusive, generate_due_jobs-IsExclusive}
use n_quark.Crawl.Scheduler.Jobs.Repeat.{generate_due_jobs_idem}
use n_quark.Crawl.Scheduler.Jobs.Claims.{Attempt, contend, contend_once, recover_expired_locks_lem}
use n_quark.Crawl.Scheduler.Process.{CaptureOutcome, finish_job}
use n_quark.Crawl.Scheduler.Process.Laws.{
  IsPlanned, is_success, absences_after, finish_job-IsPlanned, finish_job_health,
}
use n_quark.Crawl.Scheduler.Runs.Retries.{Failures, rounds, rounds_failure}

abbrev settings : Settings
settings = record {
  capture_sources = "ticketing" ∷ [];
  city_allowlist = [];
  max_tracked = 2;
  max_jobs = 20;
  lock_ttl_seconds = 600;
  policy = record {
    max_attempts = 5;
    parser_retry_limit = 2;
    backoff_base = 60;
    backoff_cap = 3600;
  };
  cadence = default_config;
}

-- A calendar that reads no text.
abbrev calendar : Calendar
calendar = record {
  stripped_length = λ s. 0;
  parse_moment = λ s. none;
  parse_day = λ s. none;
  local_day = λ zone_name t. 0;
}

abbrev iso : Time → String
iso t = "instant"

abbrev wanted : Enrollment
wanted = record {
  source = "ticketing";
  source_record_id = "42";
  city = some "Lisboa";
  starts_at = some (days 9);
  on_sale_at = none;
  canonical_event_id = none;
}

abbrev show : TrackedEvent
show = new_event 0 wanted 5

abbrev one_show : Store
one_show = record { tracked = show ∷ []; jobs = []; fresh = 1 }

abbrev one_job : Store
one_job = record one_show { jobs = job_for iso settings 10 1 show ∷ []; fresh = 2 }

abbrev leased : Store
leased = record one_show {
  jobs = lease settings 10 "w" (job_for iso settings 10 1 show) ∷ [];
  fresh = 2;
}

one_show-one_row : (source sid : String) → count_if (is_event source sid) one_show.tracked ≤ 1
one_show-one_row source sid = ground arith

enroll_table_example :
    let s' = (enroll settings wanted 6 one_show).1 in
    ((source sid : String) → count_if (is_event source sid) s'.tracked ≤ 1)
    × (length s'.tracked ≤ max (length one_show.tracked) 2)
enroll_table_example = enroll_table settings wanted 6 one_show one_show-one_row

found_show : find_tracked "ticketing" "42" one_show.tracked ≡ some show
unfolding find_tracked
found_show = refl

abbrev generated : Store
generated = elim (generate_due_jobs iso settings 10 one_show) [
  | none ↦ one_show
  | some (ids, s) ↦ s
]

generated_lem : generate_due_jobs iso settings 10 one_show ≡ some (1 ∷ [], generated)
unfolding generate_due_jobs has_key
generated_lem = refl

generate_due_jobs-IsExclusive_example : IsExclusive generated
generate_due_jobs-IsExclusive_example =
    generate_due_jobs-IsExclusive iso settings 10 one_show generated (1 ∷ [])
      (record { one_row = one_show-one_row; one_active = λ source sid. ground arith }) generated_lem

generate_due_jobs_idem_example : generate_due_jobs iso settings 10 generated ≡ some ([], generated)
generate_due_jobs_idem_example =
    generate_due_jobs_idem iso settings 10 one_show generated (1 ∷ []) generated_lem

abbrev attempts : List Attempt
attempts =
    record { worker = "a"; at = 11; job_id = 1 } ∷ record { worker = "b"; at = 11; job_id = 1 } ∷ []

contend_once_example : count_if (λ k. k == 1) (contend settings attempts one_job).0 ≤ 1
contend_once_example = contend_once settings attempts one_job 1

abbrev failed_with : ResultCode → CaptureOutcome
failed_with code = record {
  result_code = code;
  retry_after_seconds = none;
  shadow_result = none;
  canonical_event_id = none;
}

abbrev job : Job
job = lease settings 10 "w" (job_for iso settings 10 1 show)

settings-IsPositive : IsPositive default_config
settings-IsPositive = record {
  far_future = omega arith;
  mid = omega arith;
  final = omega arith;
  onsale_burst = omega arith;
  event_day = omega arith;
  postponed = omega arith;
}

finish_job-IsPlanned_example :
    IsPlanned 12 (finish_job calendar settings (failed_with timeout) 12 job show).1
finish_job-IsPlanned_example =
    finish_job-IsPlanned calendar settings (failed_with timeout) 12 job show settings-IsPositive
      (omega arith)

finish_job_health_example :
    let (job', te') = finish_job calendar settings (failed_with timeout) 12 job show in
    (te'.consecutive_absences ≡ absences_after timeout 0)
    × (te'.consecutive_failures ≡ (if is_success timeout then 0 else 0 + 1))
    × (te'.capture_count ≡ (if is_success timeout then 0 + 1 else 0))
    × (job'.consecutive_failures ≡ te'.consecutive_failures)
    × ((job'.status ≡ JobStatus.succeeded) ↔ (is_success timeout ≡ true))
    × (is_active job'.status ≡ false)
    × (job'.lock_expires_at ≡ none)
    × (job'.dedup_key ≡ job.dedup_key)
finish_job_health_example = finish_job_health calendar settings (failed_with timeout) 12 job show

abbrev failures : Failures
failures = (12, 2, failed_with timeout) ∷ (13, 3, failed_with parser_failed) ∷ []
