-- ===== src/Crawl/Scheduler/Jobs/Claims.antt =====
-- Leases: a job goes to one worker, a pass stays within its limit, and only expired leases end.
use n_quark.Prelude.{
  ℕ, zero, suc, ◌≤◌, ◌≡◌, refl, String, Bool, true, false, ◌&&◌, List, [], ◌∷◌, map, arith, ◌==◌,
  if◌then◌else◌, length, count_if,
}
use n_quark.Prelude.Time.{Time}
use n_quark.Crawl.Scheduler.Store.{Job, Store, Settings, is_pending}
use n_quark.Crawl.Scheduler.Jobs.{
  has_expired, release, recover, recover_expired_locks, claim_row, claim_specific, claim_loop,
}

-- One attempt to claim: who, when, which job.
pub record Attempt : Type 0 where
  pub worker : String
  pub at : Time
  pub job_id : ℕ

-- The ids that were won by a sequence of attempts, in whatever order the workers' updates arrive.
unfoldable pub contend : Settings → List Attempt → Store → List ℕ × Store
unfolding claim_specific
contend cfg [] s = ([], s)
contend cfg (a ∷ rest) s =
    let (found, s') = claim_specific cfg a.at a.worker a.job_id s in
    let (won, s'') = contend cfg rest s' in ((if found then a.job_id ∷ won else won), s'')

-- Whether a row of that id is pending.
abbrev is_open : ℕ → List Job → Bool
is_open id [] = false
is_open id (job ∷ rest) = elim (job.id == id && is_pending job.status) [
  | true ↦ true
  | false ↦ is_open id rest
]

-- A claim is won exactly where a row is pending, and leaves no pending row of that id.
claim_row-is_open :
    (cfg : Settings) (now : Time) (worker : String) (id : ℕ) (jobs : List Job)
    → ((claim_row cfg now worker id jobs).0 ≡ is_open id jobs)
      × (is_open id (claim_row cfg now worker id jobs).1 ≡ false)
unfolding claim_row
claim_row-is_open cfg now worker id [] = (refl, refl)
claim_row-is_open cfg now worker id (job ∷ rest) =
    ground (arith, claim_row-is_open cfg now worker id rest)

-- It makes no row of another id pending.
claim_row-others :
    (cfg : Settings) (now : Time) (worker : String) (id other : ℕ) (jobs : List Job)
    → is_open other jobs ≡ false
    → is_open other (claim_row cfg now worker id jobs).1 ≡ false
unfolding claim_row
claim_row-others cfg now worker id other [] h = refl
claim_row-others cfg now worker id other (job ∷ rest) h =
    ground (arith, claim_row-others cfg now worker id other rest)

contend-closed :
    (cfg : Settings) (attempts : List Attempt) (s : Store) (id : ℕ)
    → is_open id s.jobs ≡ false
    → count_if (λ k. k == id) (contend cfg attempts s).0 ≡ 0
unfolding contend
contend-closed cfg [] s id h = refl
contend-closed cfg (a ∷ rest) s id h = ground (
  arith,
  claim_row-is_open cfg a.at a.worker a.job_id s.jobs,
  claim_row-others cfg a.at a.worker a.job_id id s.jobs h,
  contend-closed cfg rest (claim_specific cfg a.at a.worker a.job_id s).1 id,
)

-- Whatever workers try to claim whatever jobs in whatever order, no job is won more than once.
pub contend_once :
    (cfg : Settings) (attempts : List Attempt) (s : Store) (id : ℕ)
    → count_if (λ k. k == id) (contend cfg attempts s).0 ≤ 1
unfolding contend
contend_once cfg [] s id = omega arith
contend_once cfg (a ∷ rest) s id = ground (
  arith,
  claim_row-is_open cfg a.at a.worker a.job_id s.jobs,
  contend_once cfg rest (claim_specific cfg a.at a.worker a.job_id s).1 id,
  contend-closed cfg rest (claim_specific cfg a.at a.worker a.job_id s).1 id,
)

-- Recovery returns to PENDING exactly the running jobs whose lease is over, takes their worker and
-- lease away, leaves every other job as it is, and reports how many they were; none is left.
pub recover_expired_locks_lem :
    (now : Time) (s : Store)
    → let (n, s') = recover_expired_locks now s in
      (n ≡ count_if (has_expired now) s.jobs)
      × (s'.jobs ≡ map (λ job. if has_expired now job then release now job else job) s.jobs)
      × (count_if (has_expired now) s'.jobs ≡ 0)
unfolding recover_expired_locks
recover_expired_locks_lem now s = rows s.jobs
  where
    rows :
        (jobs : List Job)
        → ((recover now jobs).0 ≡ count_if (has_expired now) jobs)
          × ((recover now jobs).1
              ≡ map (λ job. if has_expired now job then release now job else job) jobs)
          × (count_if (has_expired now) (recover now jobs).1 ≡ 0)
    rows [] = (refl, refl, refl)
    rows (job ∷ rest) = ground (arith, rows rest)

pub claim_loop-length :
    (cfg : Settings) (now : Time) (worker : String) (limit : ℕ) (ids : List ℕ) (s : Store)
    → length (claim_loop cfg now worker limit ids s).0 ≤ limit
unfolding claim_loop
claim_loop-length cfg now worker zero ids s = omega arith
claim_loop-length cfg now worker (suc limit) [] s = omega arith
claim_loop-length cfg now worker (suc limit) (id ∷ ids) s = ground (
  arith,
  claim_loop-length cfg now worker limit ids (claim_specific cfg now worker id s).1,
  claim_loop-length cfg now worker (suc limit) ids (claim_specific cfg now worker id s).1,
)
