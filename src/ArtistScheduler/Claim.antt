-- ===== src/ArtistScheduler/Claim.antt =====
-- scheduler.py, `claim`: leases on the due jobs, the most urgent first.
pub mod Order
pub mod Leases
use n_quark.Prelude.{
  ℕ, zero, suc, ◌+◌, String, Bool, true, false, ◌&&◌, ◌||◌, Option, none, some, List, [], ◌∷◌, map,
  ltb, leb, ◌==◌, if◌then◌else◌, str_eq, member,
}
use n_quark.Prelude.Time.{Time, seconds}
use n_quark.ArtistScheduler.{DemandStatus, DemandJob, DemandSettings}

-- `lock_expires_at < now`; NULL compares as not true.
abbrev is_over : Option Time → Time → Bool
is_over none now = false
is_over (some at) now = ltb at now

abbrev has_claimable_status : Time → DemandJob → Bool
has_claimable_status now job = elim job.status [
  | DemandStatus.pending ↦ true
  | DemandStatus.failed_retryable ↦ true
  | DemandStatus.running ↦ is_over job.lock_expires_at now
  | _ ↦ false
]

abbrev pub is_claimable : Time → DemandJob → Bool
is_claimable now job = leb job.scheduled_at now && has_claimable_status now job

-- `ORDER BY priority, scheduled_at`
abbrev pub no_later : DemandJob → DemandJob → Bool
no_later a b =
    ltb a.priority b.priority || (a.priority == b.priority && leb a.scheduled_at b.scheduled_at)

unfoldable pub insert_job : DemandJob → List DemandJob → List DemandJob
insert_job job [] = job ∷ []
insert_job job (x ∷ xs) =
    let later = x ∷ insert_job job xs in if no_later job x then job ∷ x ∷ xs else later

-- The rows of the query before its limit.
unfoldable pub due_ordered : Time → List DemandJob → List DemandJob
unfolding insert_job
due_ordered now [] = []
due_ordered now (job ∷ rest) =
    let sorted = due_ordered now rest in
    if is_claimable now job then insert_job job sorted else sorted

abbrev pub limited : ℕ → List DemandJob → List DemandJob
limited zero jobs = []
limited (suc n) [] = []
limited (suc n) (job ∷ rest) = job ∷ limited n rest

unfoldable pub lease_job : DemandSettings → Time → String → DemandJob → DemandJob
lease_job cfg now worker job = record job {
  status = DemandStatus.running;
  worker_id = some worker;
  started_at = some now;
  lock_expires_at = some (now + seconds cfg.lock_ttl_seconds);
  attempt_count = job.attempt_count + 1;
  updated_at = now;
}

abbrev pub keys_of : List DemandJob → List String
keys_of jobs = map (λ job. job.dedup_key) jobs

unfoldable pub lease_all :
    DemandSettings → Time → String → List String → List DemandJob → List DemandJob
unfolding lease_job
lease_all cfg now worker keys [] = []
lease_all cfg now worker keys (job ∷ rest) =
    (if member job.dedup_key keys then lease_job cfg now worker job else job)
    ∷ lease_all cfg now worker keys rest

-- `limit or settings.demand_scheduler_batch_size`
abbrev pub claim_limit : DemandSettings → ℕ → ℕ
claim_limit cfg limit = if limit == 0 then cfg.batch_size else limit

unfoldable pub chosen : DemandSettings → Time → ℕ → List DemandJob → List DemandJob
unfolding due_ordered
chosen cfg now limit jobs = limited (claim_limit cfg limit) (due_ordered now jobs)

-- The claimed jobs, leased, and the table.
unfoldable pub claim :
    DemandSettings → Time → String → ℕ → List DemandJob → List DemandJob × List DemandJob
unfolding chosen lease_job lease_all
claim cfg now worker limit jobs =
    let rows = chosen cfg now limit jobs in
    (map (lease_job cfg now worker) rows, lease_all cfg now worker (keys_of rows) jobs)
