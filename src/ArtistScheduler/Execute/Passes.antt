-- ===== src/ArtistScheduler/Execute/Passes.antt =====
-- scheduler.py, `claim` and then `execute` of every claimed job, as in `run_once`: no claimed job is
-- left running.
use n_quark.Prelude.{
  ℕ, suc, ◌≡◌, refl, ap, String, Bool, true, false, ◌&&◌, ◌||◌, Option, none, some, List, [], ◌∷◌,
  map, arith, if_ind, length, str_eq, opt_str_eq, member, Every, Every-append, Every-mono,
  Every-all,
}
use n_quark.Prelude.Time.{Time}
use n_quark.ArtistCadence.{Cadence}
use n_quark.ArtistScheduler.{
  JobType, DemandStatus, DemandJob, DemandSettings, Surroundings, Result, new_job,
}
use n_quark.ArtistScheduler.Enqueue.{enqueue_catalogue_backfill, add_unless}
use n_quark.ArtistScheduler.Claim.{lease_job, keys_of, claim, chosen}
use n_quark.ArtistScheduler.Claim.Leases.{leased-keys}
use n_quark.ArtistScheduler.Execute.{
  Request, Reply, Outcome, finish_resolved, finish_identity, identity_request, execute_as, execute,
  put_job, execute_all,
}
use n_quark.ArtistScheduler.Execute.Outcomes.{IsLeft, execute-IsLeft}

abbrev is_running : DemandStatus → Bool
is_running DemandStatus.running = true
is_running _ = false

-- No row of these keys is running.
abbrev pub AreIdle : List String → List DemandJob → Type 0
AreIdle keys jobs = Every (λ x. is_running x.status && member x.dedup_key keys ≡ false) jobs

IsLeft-idle :
    (cfg : DemandSettings) (now : Time) (before : DemandJob) (r : Outcome × DemandJob)
    → IsLeft cfg now before r
    → is_running r.1.status ≡ false
IsLeft-idle cfg now before (Outcome.succeeded, after) h = ap is_running h.2.0
IsLeft-idle cfg now before (Outcome.deferred, after) h = ap is_running h.2.0
IsLeft-idle cfg now before (Outcome.failed_retryable, after) h = ap is_running h.2.0
IsLeft-idle cfg now before (Outcome.failed_terminal, after) h = ap is_running h.2.0

module _ (out : Surroundings) (c : Cadence) (cfg : DemandSettings) (now : Time)
    (ask : Request → Reply) where
  put_job-AreIdle :
      (job : DemandJob) (keys : List String) (jobs : List DemandJob)
      → is_running job.status ≡ false
      → AreIdle keys jobs
      → AreIdle (job.dedup_key ∷ keys) (put_job out c cfg now ask job jobs)
  unfolding put_job
  put_job-AreIdle job keys [] idle h = tt
  put_job-AreIdle job keys (x ∷ rest) idle h = (
    if_ind
        (λ (x : DemandJob).
          is_running x.status && member x.dedup_key (job.dedup_key ∷ keys) ≡ false)
        (str_eq x.dedup_key job.dedup_key) (λ e. ground (arith, idle))
        (λ e. ground (arith, e, h.0)),
    put_job-AreIdle job keys rest idle h.1,
  )

  resolved-AreIdle :
      (keys : List String) (jobs : List DemandJob) (active : Option Bool) (exists : Bool)
      (result : Result) (job new : DemandJob)
      → is_running new.status ≡ false
      → AreIdle keys jobs
      → AreIdle keys
          (finish_resolved out c cfg now result job jobs (add_unless active exists new jobs)).1
  unfolding finish_resolved add_unless
  resolved-AreIdle keys jobs none exists result job new idle h = h
  resolved-AreIdle keys jobs (some true) exists result job new idle h = h
  resolved-AreIdle keys jobs (some false) true result job new idle h = h
  resolved-AreIdle keys jobs (some false) false result job new idle h =
      Every-append _ jobs (new ∷ []) h (ground (arith, idle), tt)

  identity-AreIdle :
      (keys : List String) (jobs : List DemandJob) (reply : Reply) (job : DemandJob)
      → AreIdle keys jobs
      → AreIdle keys (finish_identity out c cfg now reply job jobs).1
  unfolding finish_identity enqueue_catalogue_backfill new_job
  identity-AreIdle keys jobs (Reply.raised error text) job h = h
  identity-AreIdle keys jobs (Reply.replied result) job h =
      if_ind (λ (r, t). AreIdle keys t) (opt_str_eq result.status (some "QUOTA_EXHAUSTED")) (λ _. h)
        (λ _.
          if_ind (λ (r, t). AreIdle keys t) (opt_str_eq result.status (some "RESOLVED"))
            (λ _. resolved-AreIdle keys jobs _ _ result job _ refl h)
            (λ _.
              if_ind (λ (r, t). AreIdle keys t)
                (opt_str_eq result.status (some "VERIFICATION_UNAVAILABLE")) (λ _. h) (λ _. h)))

  execute_as-AreIdle :
      (keys : List String) (jobs : List DemandJob) (job_type : JobType) (job : DemandJob)
      → AreIdle keys jobs
      → AreIdle keys (execute_as out c cfg now ask job_type job jobs).1
  unfolding execute_as
  execute_as-AreIdle keys jobs JobType.channel job h = h
  execute_as-AreIdle keys jobs JobType.video job h = h
  execute_as-AreIdle keys jobs JobType.identity job h =
      identity-AreIdle keys jobs (ask (identity_request out c cfg now job)) job h
  execute_as-AreIdle keys jobs JobType.catalogue job h = h
  execute_as-AreIdle keys jobs (JobType.other name) job h = h

  -- What is left once the jobs of `rows`, leased, have been executed.
  execute_all-AreIdle :
      (worker : String) (rows : List DemandJob) (done : List String) (jobs : List DemandJob)
      → AreIdle done jobs
      → Every
          (λ x.
            is_running x.status && (member x.dedup_key (keys_of rows) || member x.dedup_key done)
            ≡ false)
          (execute_all out c cfg now ask (map (lease_job cfg now worker) rows) jobs).1
  unfolding execute_all execute
  execute_all-AreIdle worker [] done jobs h = Every-mono _ _ jobs (λ x k. ground (arith, k)) h
  execute_all-AreIdle worker (row ∷ rows) done jobs h =
      let job = lease_job cfg now worker row in
      let (r, t) = execute_as out c cfg now ask job.job_type job jobs in
      let left = execute-IsLeft out c cfg now worker row ask jobs in
      let idle =
        put_job-AreIdle r.1 done t (IsLeft-idle cfg now row r left)
          (execute_as-AreIdle done jobs job.job_type job h) in
      Every-mono _ _ _ (λ x k. ground (arith, k, left.0))
        (execute_all-AreIdle worker rows (r.1.dedup_key ∷ done) (put_job out c cfg now ask r.1 t)
          idle)

  execute_all-length :
      (claimed jobs : List DemandJob)
      → length (execute_all out c cfg now ask claimed jobs).0 ≡ length claimed
  unfolding execute_all
  execute_all-length [] jobs = refl
  execute_all-length (job ∷ rest) jobs = ap suc (execute_all-length rest _)

  -- Claiming and then executing what was claimed, whatever the service replies, gives one outcome
  -- for each claimed job and leaves no row of a claimed job running.
  pub execute_all-settles :
      (worker : String) (limit : ℕ) (jobs : List DemandJob)
      → let (claimed, leased) = claim cfg now worker limit jobs in
        let (outcomes, after) = execute_all out c cfg now ask claimed leased in
        (length outcomes ≡ length claimed) × AreIdle (keys_of claimed) after
  unfolding claim
  execute_all-settles worker limit jobs =
      let rows = chosen cfg now limit jobs in
      let (claimed, leased) = claim cfg now worker limit jobs in
      (
        execute_all-length claimed leased,
        rw (leased-keys cfg now worker rows) (
            Every-mono _ _ _ (λ x k. ground (arith, k))
              (execute_all-AreIdle worker rows [] leased (Every-all _ leased (λ x. ground arith)))),
      )
