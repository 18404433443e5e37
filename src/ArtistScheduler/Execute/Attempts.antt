-- ===== src/ArtistScheduler/Execute/Attempts.antt =====
-- scheduler.py, `claim` and `execute` in turn: how often a job that keeps failing is attempted.
use n_quark.Prelude.{
  ◌+◌, ◌≤◌, ◌≡◌, refl, ap, sym, subst, ◌∙◌, ◌⊎◌, inl, inr, String, Bool, true, false, Option, none,
  some, List, [], ◌∷◌, arith, if◌then◌else◌, ltb, leb, length, if_ind, Every, opt_str_eq, eq_iff,
}
use n_quark.Prelude.Time.{Time, seconds}
use n_quark.ArtistCadence.{Days, Cadence}
use n_quark.ArtistScheduler.{JobType, DemandStatus, DemandJob, DemandSettings, Surroundings}
use n_quark.ArtistScheduler.Claim.{is_claimable, lease_job}
use n_quark.ArtistScheduler.Execute.{
  Request, Reply, Outcome, backoff_seconds, terminal, noted, retried, fail, finish_refresh,
  finish_identity, execute_as, execute,
}

abbrev is_known : JobType → Bool
is_known (JobType.other name) = false
is_known _ = true

-- An exception, or a verification that is unavailable.
abbrev pub IsFailing : Reply → Type 0
IsFailing (Reply.raised error text) = Unit
IsFailing (Reply.replied result) = opt_str_eq result.status (some "VERIFICATION_UNAVAILABLE") ≡ true

-- Waiting for a first attempt or for a further one.
abbrev pub IsWaiting : DemandJob → Type 0
IsWaiting job = (job.status ≡ DemandStatus.pending) ⊎ (job.status ≡ DemandStatus.failed_retryable)

-- The first instant is not before this one, and each next one is at least the longest backoff later.
abbrev pub IsSpaced : DemandSettings → Time → List (Time × (Request → Reply)) → Type 0
IsSpaced cfg from [] = Unit
IsSpaced cfg from ((at, ask) ∷ rest) =
    (from ≤ at) × IsSpaced cfg (at + seconds cfg.backoff_max_seconds) rest

IsSpaced-earlier :
    (cfg : DemandSettings) (from earlier : Time) (turns : List (Time × (Request → Reply)))
    → earlier ≤ from
    → IsSpaced cfg from turns
    → IsSpaced cfg earlier turns
IsSpaced-earlier cfg from earlier [] h spaced = tt
IsSpaced-earlier cfg from earlier ((at, ask) ∷ rest) h spaced =
    (omega (arith, h, spaced.0), spaced.1)

waiting-claimable :
    (at : Time) (job : DemandJob)
    → job.scheduled_at ≤ at
    → IsWaiting job
    → is_claimable at job ≡ true
waiting-claimable at job h (inl e) = rw e (ground arith)
waiting-claimable at job h (inr e) = rw e (ground arith)

status_is : (o : Option String) (t : String) → opt_str_eq o (some t) ≡ true → o ≡ some t
status_is none t h = ground (arith, h)
status_is (some a) t h = ap some ((eq_iff a t).0 h)

module _ (out : Surroundings) (c : Cadence) (cfg : DemandSettings) (worker : String) where
  -- At each of the instants the job is claimed and executed at once, if it can be claimed.
  unfoldable pub attempts : List DemandJob → List (Time × (Request → Reply)) → DemandJob → DemandJob
  unfolding execute lease_job
  attempts jobs [] job = job
  attempts jobs ((at, ask) ∷ rest) job = attempts jobs rest (
      if is_claimable at job
      then (execute out c cfg at ask (lease_job cfg at worker job) jobs).0.1
      else job)

  attempts_claimed :
      (jobs : List DemandJob) (at : Time) (ask : Request → Reply)
      (rest : List (Time × (Request → Reply))) (job : DemandJob)
      → is_claimable at job ≡ true
      → attempts jobs ((at, ask) ∷ rest) job
        ≡ attempts jobs rest (execute out c cfg at ask (lease_job cfg at worker job) jobs).0.1
  unfolding attempts
  attempts_claimed jobs at ask rest job h =
      let job' = (execute out c cfg at ask (lease_job cfg at worker job) jobs).0.1 in
      ap (λ b. attempts jobs rest (if b then job' else job)) h

  -- A result is a failure.
  abbrev Fails : Time → DemandJob → Outcome × DemandJob → Type 0
  Fails at job r = (error : String) × (text : String) × (r ≡ fail out cfg at error text job)

  refresh-Fails :
      (at : Time) (to_event : Option Days) (job : DemandJob) (reply : Reply)
      → IsFailing reply
      → Fails at job (finish_refresh out c cfg at to_event reply job)
  unfolding finish_refresh
  refresh-Fails at to_event job (Reply.raised error text) h = (error, text, refl)
  refresh-Fails at to_event job (Reply.replied result) h =
      rw (status_is result.status "VERIFICATION_UNAVAILABLE" h)
        ("RuntimeError", "verification unavailable (transient)", refl)

  identity-Fails :
      (at : Time) (job : DemandJob) (jobs : List DemandJob) (reply : Reply)
      → IsFailing reply
      → Fails at job (finish_identity out c cfg at reply job jobs).0
  unfolding finish_identity
  identity-Fails at job jobs (Reply.raised error text) h = (error, text, refl)
  identity-Fails at job jobs (Reply.replied result) h =
      rw (status_is result.status "VERIFICATION_UNAVAILABLE" h)
        ("RuntimeError", "verification unavailable (transient)", refl)

  execute_as-Fails :
      (at : Time) (ask : Request → Reply) (jobs : List DemandJob) (job_type : JobType)
      (job : DemandJob)
      → is_known job_type ≡ true
      → ((q : Request) → IsFailing (ask q))
      → Fails at job (execute_as out c cfg at ask job_type job jobs).0
  unfolding execute_as
  execute_as-Fails at ask jobs JobType.channel job h bad = refresh-Fails at _ job _ (bad _)
  execute_as-Fails at ask jobs JobType.video job h bad = refresh-Fails at _ job _ (bad _)
  execute_as-Fails at ask jobs JobType.identity job h bad = identity-Fails at job jobs _ (bad _)
  execute_as-Fails at ask jobs JobType.catalogue job h bad = refresh-Fails at _ job _ (bad _)
  execute_as-Fails at ask jobs (JobType.other name) job h bad = ground arith

  -- What one failed attempt leaves of a job.
  abbrev IsFailed : Time → (before after : DemandJob) → Type 0
  IsFailed at job job' =
      (job'.job_type ≡ job.job_type)
      × (job'.attempt_count ≡ job.attempt_count + 1)
      × (job'.consecutive_failures ≡ job.consecutive_failures + 1)
      × (job'.status ≡ (
          if ltb (job.attempt_count + 1) cfg.max_attempts
          then DemandStatus.failed_retryable
          else DemandStatus.failed_terminal))
      × (job'.scheduled_at ≤ at + seconds cfg.backoff_max_seconds)

  fail-IsFailed :
      (at : Time) (error text : String) (job : DemandJob)
      → job.scheduled_at ≤ at
      → IsFailed at job (fail out cfg at error text (lease_job cfg at worker job)).1
  unfolding fail lease_job noted retried terminal backoff_seconds
  fail-IsFailed at error text job h =
      if_ind (λ (r : Outcome × DemandJob). IsFailed at job r.1)
        (leb cfg.max_attempts (job.attempt_count + 1))
        (λ e. (refl, refl, refl, ground arith, omega (arith, h)))
        (λ e. (refl, refl, refl, ground arith, omega arith))

  failed :
      (at : Time) (ask : Request → Reply) (jobs : List DemandJob) (job : DemandJob)
      → is_known job.job_type ≡ true
      → ((q : Request) → IsFailing (ask q))
      → job.scheduled_at ≤ at
      → IsFailed at job (execute out c cfg at ask (lease_job cfg at worker job) jobs).0.1
  unfolding execute lease_job
  failed at ask jobs job h bad due =
      let (error, text, is_fail) =
        execute_as-Fails at ask jobs job.job_type (lease_job cfg at worker job) h bad in
      rw is_fail (fail-IsFailed at error text job due)

  -- A job of a known type that waits, and of which each attempt fails, by whatever exception or by a
  -- verification that is unavailable: at instants that are at least the longest
  -- backoff apart, the first not
  -- before the job is due, and at most as many as the limit on attempts leaves, the job can be
  -- claimed at every one of them, and each attempt and each failure is counted; it can still be
  -- retried before the limit and is terminal at it.
  pub attempts_end :
      (jobs : List DemandJob) (at : Time) (ask : Request → Reply)
      (rest : List (Time × (Request → Reply))) (job : DemandJob)
      → is_known job.job_type ≡ true
      → IsWaiting job
      → IsSpaced cfg job.scheduled_at ((at, ask) ∷ rest)
      → Every (λ turn. (q : Request) → IsFailing (turn.1 q)) ((at, ask) ∷ rest)
      → job.attempt_count + length ((at, ask) ∷ rest) ≤ cfg.max_attempts
      → let job' = attempts jobs ((at, ask) ∷ rest) job in
        (job'.attempt_count ≡ job.attempt_count + length ((at, ask) ∷ rest))
        × (job'.consecutive_failures ≡ job.consecutive_failures + length ((at, ask) ∷ rest))
        × (job'.status ≡ (
            if ltb (job.attempt_count + length ((at, ask) ∷ rest)) cfg.max_attempts
            then DemandStatus.failed_retryable
            else DemandStatus.failed_terminal))
  unfolding attempts
  attempts_end jobs at ask [] job h waits spaced bad le =
      let (_, a, f, s, _) = failed at ask jobs job h bad.0 spaced.0 in
      rw (waiting-claimable at job spaced.0 waits) (a, f, s)
  attempts_end jobs at ask ((next, ask') ∷ rest) job h waits spaced bad le =
      let turns : List (Time × (Request → Reply)) = (at, ask) ∷ (next, ask') ∷ rest in
      let (t, a, f, s, due) = failed at ask jobs job h bad.0 spaced.0 in
      let job' = (execute out c cfg at ask (lease_job cfg at worker job) jobs).0.1 in
      let (a', f', s') =
        attempts_end jobs next ask' rest job' (ap is_known t ∙ h) (inr (ground (arith, s, le)))
          (IsSpaced-earlier cfg (at + seconds cfg.backoff_max_seconds) job'.scheduled_at
            ((next, ask') ∷ rest) due spaced.1)
          bad.1 (omega (arith, a, le)) in
      subst
        (λ (last : DemandJob).
          (last.attempt_count ≡ job.attempt_count + length turns)
          × (last.consecutive_failures ≡ job.consecutive_failures + length turns)
          × (last.status ≡ (
              if ltb (job.attempt_count + length turns) cfg.max_attempts
              then DemandStatus.failed_retryable
              else DemandStatus.failed_terminal)))
        (sym (
          attempts_claimed jobs at ask ((next, ask') ∷ rest) job
            (waiting-claimable at job spaced.0 waits)))
        (omega (arith, a, a'), omega (arith, f, f'), ground (arith, a, s'))
