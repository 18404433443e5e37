-- ===== src/ArtistScheduler/Claim/Leases.antt =====
-- scheduler.py, `claim`: a live lease keeps a job from every other pass.
use n_quark.Prelude.{
  ℕ, zero, suc, ◌+◌, ◌≤◌, ◌≡◌, refl, ap, String, true, false, List, [], ◌∷◌, map, arith, if_ind,
  member, Every, Every-mono, eq_iff,
}
use n_quark.Prelude.Time.{Time, seconds}
use n_quark.ArtistScheduler.{DemandJob, DemandSettings}
use n_quark.ArtistScheduler.Claim.{
  is_claimable, due_ordered, limited, lease_job, lease_all, keys_of, claim_limit, chosen, claim,
}
use n_quark.ArtistScheduler.Claim.Order.{insert_job-Every}

due_ordered-Every :
    (Q : DemandJob → Type 0) (now : Time) (jobs : List DemandJob)
    → Every (λ x. is_claimable now x ≡ true → Q x) jobs
    → Every Q (due_ordered now jobs)
unfolding due_ordered
due_ordered-Every Q now [] h = tt
due_ordered-Every Q now (job ∷ rest) h =
    if_ind (Every Q) (is_claimable now job)
      (λ e.
        insert_job-Every Q job (due_ordered now rest) (h.0 e) (due_ordered-Every Q now rest h.1))
      (λ e. due_ordered-Every Q now rest h.1)

limited-Every :
    (Q : DemandJob → Type 0) (n : ℕ) (l : List DemandJob) → Every Q l → Every Q (limited n l)
limited-Every Q zero l h = tt
limited-Every Q (suc n) [] h = tt
limited-Every Q (suc n) (x ∷ xs) h = (h.0, limited-Every Q n xs h.1)

module _ (cfg : DemandSettings) (now : Time) (worker : String) where
  pub leased-keys : (l : List DemandJob) → keys_of (map (lease_job cfg now worker) l) ≡ keys_of l
  unfolding lease_job
  leased-keys [] = refl
  leased-keys (x ∷ xs) = ap (λ keys. x.dedup_key ∷ keys) (leased-keys xs)

  leased-unkeyed :
      (keys : List String) (l : List DemandJob)
      → Every (λ x. member x.dedup_key keys ≡ false) l
      → Every (λ x. member x.dedup_key keys ≡ false) (map (lease_job cfg now worker) l)
  unfolding lease_job
  leased-unkeyed keys [] h = tt
  leased-unkeyed keys (x ∷ xs) h = (h.0, leased-unkeyed keys xs h.1)

-- Until an instant, the rows that can be claimed have none of these keys.
abbrev AreHeld : List String → Time → List DemandJob → Type 0
AreHeld keys until jobs =
    Every
      (λ x. (at : Time) → at ≤ until → is_claimable at x ≡ true → member x.dedup_key keys ≡ false)
      jobs

module _ (cfg : DemandSettings) where
  -- The leases of a pass hold its rows.
  lease_all-AreHeld :
      (now : Time) (worker : String) (keys : List String) (jobs : List DemandJob)
      → AreHeld keys (now + seconds cfg.lock_ttl_seconds) (lease_all cfg now worker keys jobs)
  unfolding lease_all lease_job
  lease_all-AreHeld now worker keys [] = tt
  lease_all-AreHeld now worker keys (job ∷ rest) = (
    λ at live.
        if_ind (λ x. is_claimable at x ≡ true → member x.dedup_key keys ≡ false)
          (member job.dedup_key keys) (λ e h. ground arith) (λ e h. e),
    lease_all-AreHeld now worker keys rest,
  )

  -- A pass that claims none of the rows leaves them held.
  lease_all_keeps :
      (at until : Time) (worker : String) (keys own : List String) (jobs : List DemandJob)
      → ((k : String) → member k own ≡ true → member k keys ≡ false)
      → AreHeld keys until jobs
      → AreHeld keys until (lease_all cfg at worker own jobs)
  unfolding lease_all lease_job
  lease_all_keeps at until worker keys own [] apart h = tt
  lease_all_keeps at until worker keys own (job ∷ rest) apart h = (
    if_ind (λ x. (t : Time) → t ≤ until → is_claimable t x ≡ true → member x.dedup_key keys ≡ false)
        (member job.dedup_key own) (λ e t live claimable. apart job.dedup_key e) (λ e. h.0),
    lease_all_keeps at until worker keys own rest apart h.1,
  )

  apart_keys :
      (keys : List String) (rows : List DemandJob)
      → Every (λ x. member x.dedup_key keys ≡ false) rows
      → (k : String) → member k (keys_of rows) ≡ true
      → member k keys ≡ false
  apart_keys keys [] h k m = ground (arith, m)
  apart_keys keys (x ∷ rest) h k m =
      ground (arith, m, h.0, apart_keys keys rest h.1 k, eq_iff x.dedup_key k, eq_iff k x.dedup_key)

  -- Passes in turn, each at its instant, by its worker and with its limit, of which none claims a job
  -- with one of these keys.
  unfoldable pub NoneClaims : List String → List (Time × String × ℕ) → List DemandJob → Type 0
  NoneClaims keys [] jobs = Unit
  NoneClaims keys ((at, worker, limit) ∷ rest) jobs =
      let (claimed, jobs') = claim cfg at worker limit jobs in
      Every (λ job. member job.dedup_key keys ≡ false) claimed × NoneClaims keys rest jobs'

  held-NoneClaims :
      (keys : List String) (until : Time) (passes : List (Time × String × ℕ))
      (jobs : List DemandJob)
      → Every (λ p. p.0 ≤ until) passes
      → AreHeld keys until jobs
      → NoneClaims keys passes jobs
  unfolding NoneClaims claim chosen
  held-NoneClaims keys until [] jobs live held = tt
  held-NoneClaims keys until ((at, worker, limit) ∷ rest) jobs live held =
      let Apart : DemandJob → Type 0 = λ x. member x.dedup_key keys ≡ false in
      let rows = chosen cfg at limit jobs in
      let free = limited-Every Apart (claim_limit cfg limit) (due_ordered at jobs) (
        due_ordered-Every Apart at jobs
          (Every-mono _ _ jobs (λ x h claimable. h at live.0 claimable) held)) in
      (
        leased-unkeyed cfg at worker keys rows free,
        held-NoneClaims keys until rest (lease_all cfg at worker (keys_of rows) jobs) live.1 (
            lease_all_keeps at until worker keys (keys_of rows) jobs (apart_keys keys rows free)
              held),
      )

-- As long as the leases of one pass have not expired, no later pass claims any job that the first
-- one claimed, whatever passes there are in between, of whatever workers and limits and in whatever
-- order of their instants, while no job is executed.
pub claim_disjoint :
    (cfg : DemandSettings) (now : Time) (worker : String) (limit : ℕ)
    (passes : List (Time × String × ℕ)) (jobs : List DemandJob)
    → Every (λ p. p.0 ≤ now + seconds cfg.lock_ttl_seconds) passes
    → let (claimed, jobs') = claim cfg now worker limit jobs in
      NoneClaims cfg (keys_of claimed) passes jobs'
unfolding claim chosen
claim_disjoint cfg now worker limit passes jobs live =
    let rows = chosen cfg now limit jobs in
    rw (leased-keys cfg now worker rows) (
      held-NoneClaims cfg (keys_of rows) (now + seconds cfg.lock_ttl_seconds) passes
        (lease_all cfg now worker (keys_of rows) jobs) live
        (lease_all-AreHeld cfg now worker (keys_of rows) jobs))
