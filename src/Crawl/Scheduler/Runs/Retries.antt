-- ===== src/Crawl/Scheduler/Runs/Retries.antt =====
-- The retry budget across the jobs of one event.
use n_quark.Prelude.{ℕ, ◌+◌, ◌<◌, ◌≡◌, refl, ◌≢◌, String, List, [], ◌∷◌, arith, length}
use n_quark.Prelude.Time.{Time}
use n_quark.Crawl.Lifecycle.{Calendar}
use n_quark.Crawl.Classification.{
  ResultCode, success_record_present, success_record_absent, terminal_event, decide_retry,
}
use n_quark.Crawl.Scheduler.Store.{TrackedEvent, Settings}
use n_quark.Crawl.Scheduler.Jobs.{job_for, lease}
use n_quark.Crawl.Scheduler.Process.{CaptureOutcome, finish_job, finish_code}

-- A result that is neither a success nor TERMINAL_EVENT.
abbrev IsFailure : ResultCode → Type 0
IsFailure code =
    (code ≢ success_record_present) × (code ≢ success_record_absent) × (code ≢ terminal_event)

module _ (cal : Calendar) (iso : Time → String) (cfg : Settings) (worker : String) where
  -- One capture of an event: a new job, its lease and its end.
  pub round : Time → ℕ → CaptureOutcome → TrackedEvent → TrackedEvent
  round now id o te =
      (finish_job cal cfg o now (lease cfg now worker (job_for iso cfg now id te)) te).1

  round_failure :
      (now : Time) (id : ℕ) (o : CaptureOutcome) (te : TrackedEvent)
      → IsFailure o.result_code
      → 1 < cfg.policy.max_attempts
      → 1 < cfg.policy.parser_retry_limit
      → let te' = round now id o te in
        (te'.tracking_status ≡ te.tracking_status)
        × (te'.consecutive_failures ≡ te.consecutive_failures + 1)
  unfolding round finish_job finish_code decide_retry lease job_for
  round_failure now id o te f m p = ground arith

-- One failed capture after another, each with its instant, the id of its job and its outcome.
abbrev pub Failures : Type 0
Failures = List (Time × ℕ × CaptureOutcome)

abbrev AllFail : Failures → Type 0
AllFail [] = Unit
AllFail ((now, id, o) ∷ rest) = IsFailure o.result_code × AllFail rest

module _ (cal : Calendar) (iso : Time → String) (cfg : Settings) (worker : String) where
  pub rounds : Failures → TrackedEvent → TrackedEvent
  rounds [] te = te
  rounds ((now, id, o) ∷ rest) te = rounds rest (round cal iso cfg worker now id o te)

  -- However many captures of an event fail in a row, each through a job of its own that is claimed
  -- once, the tracking status stays what it was and the failures are counted: where both limits
  -- are above 1 no failure is ever terminal, since each job starts again with no attempts.
  pub rounds_failure :
      (failures : Failures) (te : TrackedEvent)
      → AllFail failures
      → 1 < cfg.policy.max_attempts
      → 1 < cfg.policy.parser_retry_limit
      → ((rounds failures te).tracking_status ≡ te.tracking_status)
        × ((rounds failures te).consecutive_failures ≡ te.consecutive_failures + length failures)
  unfolding rounds
  rounds_failure [] te f m p = (refl, omega arith)
  rounds_failure ((now, id, o) ∷ rest) te f m p = ground (
    arith,
    round_failure cal iso cfg worker now id o te f.0 m p,
    rounds_failure rest (round cal iso cfg worker now id o te) f.1 m p,
  )
