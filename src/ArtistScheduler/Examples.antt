-- ===== src/ArtistScheduler/Examples.antt =====
-- The theorems on the scheduler of artists at a concrete artist and its jobs.
use mathlib.Core.List.{Memᴰ}
use n_quark.Prelude.{
  ℕ, ◌+◌, ◌≤◌, ◌≡◌, refl, ◌⊎◌, inl, false, none, some, List, [], ◌∷◌, ◌++◌, arith, length, Every,
  ltb, if◌then◌else◌,
}
use n_quark.Prelude.Time.{Time, days}
use n_quark.ArtistCadence.{default_cadence, ahead, event_band_seconds}
use n_quark.ArtistScheduler.{
  JobType, DemandStatus, DemandJob, Identity, DemandSettings, Surroundings, new_job, detail_of,
}
use n_quark.ArtistScheduler.Enqueue.{enqueue_due}
use n_quark.ArtistScheduler.Enqueue.Refreshes.{IsServed, IsRefreshOf}
use n_quark.ArtistScheduler.Enqueue.Repeat.{enqueue_due_twice}
use n_quark.ArtistScheduler.Claim.{claim, claim_limit, lease_job, keys_of}
use n_quark.ArtistScheduler.Claim.Order.{IsNoLater, claim_order}
use n_quark.ArtistScheduler.Claim.Leases.{claim_disjoint, NoneClaims}
use n_quark.ArtistScheduler.Execute.{Request, Reply, execute, execute_all, next_refresh_for}
use n_quark.ArtistScheduler.Execute.Outcomes.{IsLeft, execute-IsLeft}
use n_quark.ArtistScheduler.Execute.Attempts.{attempts, attempts_end}
use n_quark.ArtistScheduler.Execute.Refresh.{NotLater, IsInBand, next_refresh_for_event}
use n_quark.ArtistScheduler.Execute.Passes.{AreIdle, execute_all-settles}

abbrev settings : DemandSettings
settings = record {
  channel_interval = 86400;
  video_interval = 43200;
  catalogue_interval = 86400;
  reattempt_ambiguous = 86400;
  reattempt_unresolved = 21600;
  batch_size = 20;
  lock_ttl_seconds = 300;
  max_attempts = 2;
  backoff_base_seconds = 300;
  backoff_max_seconds = 21600;
}

-- No evidence, no graph, no video.
abbrev outside : Surroundings
outside = record {
  digits = λ n. "window";
  cut = λ t. t;
  evidence_classes = λ a. none;
  paused = [];
  registry = none;
  event_proximity_days = λ a. none;
  observed_at = λ a. [];
  newest_video = λ a. none;
  ambiguous = λ a. false;
  near_reset = false;
}

abbrev resolved : Identity
resolved = record {
  id = "i";
  canonical_artist_id = "artist:lua";
  status = "RESOLVED";
  metadata_query = none;
}

abbrev discovery : DemandJob
discovery = new_job "k" "artist:lua" JobType.identity none 20 5 (detail_of (some "Lua") false)

-- The service finds the identity.
abbrev finds : Request → Reply
finds request = Reply.replied (record { status = some "RESOLVED"; identity_id = some "i" })

abbrev due_table : List DemandJob
due_table = elim (enqueue_due outside settings 5 (resolved ∷ []) []) [
  | none ↦ []
  | some (counts, all) ↦ all
]

enqueue_due_twice_example :
    Every (IsServed outside settings 5 due_table) (resolved ∷ [])
    × ((new : List DemandJob) × (due_table ≡ [] ++ new)
        × Every (IsRefreshOf outside settings 5 (resolved ∷ [])) new)
    × ((skipped : ℕ) × (enqueue_due outside settings 5 (resolved ∷ []) due_table
          ≡ some ((0, skipped), due_table)))
unfolding enqueue_due
enqueue_due_twice_example =
    enqueue_due_twice outside settings 5 (resolved ∷ []) [] due_table (3, 0) refl

claim_order_example :
    let claimed = (claim settings 6 "w" 1 (discovery ∷ [])).0 in
    (length claimed ≤ claim_limit settings 1)
    × (Memᴰ (lease_job settings 6 "w" discovery) claimed
        ⊎ ((length claimed ≡ claim_limit settings 1) × Every (λ c. IsNoLater c discovery) claimed))
unfolding new_job
claim_order_example = claim_order settings 6 "w" 1 (discovery ∷ []) discovery (Memᴰ.head refl) refl

claim_disjoint_example :
    let (claimed, jobs') = claim settings 6 "w" 1 (discovery ∷ []) in
    NoneClaims settings (keys_of claimed) ((7, "v", 1) ∷ (9, "w", 0) ∷ []) jobs'
claim_disjoint_example =
    claim_disjoint settings 6 "w" 1 ((7, "v", 1) ∷ (9, "w", 0) ∷ []) (discovery ∷ [])
      (omega arith, (omega arith, tt))

execute-IsLeft_example :
    IsLeft settings 6 discovery
      (execute outside default_cadence settings 6 finds (lease_job settings 6 "w" discovery) []).0
execute-IsLeft_example = execute-IsLeft outside default_cadence settings 6 "w" discovery finds []

-- A timeout, and six hours later a verification that is unavailable.
abbrev turns : List (Time × (Request → Reply))
turns =
    (6, λ q. Reply.raised "Timeout" "slow")
    ∷ (
      30000000000,
      λ q. Reply.replied (record { status = some "VERIFICATION_UNAVAILABLE"; identity_id = none }),
    )
    ∷ []

attempts_end_example :
    let job' = attempts outside default_cadence settings "w" [] turns discovery in
    (job'.attempt_count ≡ discovery.attempt_count + 2)
    × (job'.consecutive_failures ≡ discovery.consecutive_failures + 2)
    × (job'.status ≡ (
        if ltb (discovery.attempt_count + 2) settings.max_attempts
        then DemandStatus.failed_retryable
        else DemandStatus.failed_terminal))
unfolding new_job
attempts_end_example =
    attempts_end outside default_cadence settings "w" [] 6 (λ q. Reply.raised "Timeout" "slow")
      ((
        30000000000,
        λ q.
            Reply.replied (record { status = some "VERIFICATION_UNAVAILABLE"; identity_id = none }),
      )
        ∷ [])
      discovery refl (inl refl) (omega arith, (omega arith, tt)) ((λ q. tt), ((λ q. refl), tt))
      (omega arith)

next_refresh_for_event_example :
    NotLater
      (next_refresh_for outside default_cadence settings 6 JobType.channel "artist:lua"
        (some (ahead (days 2))))
      (next_refresh_for outside default_cadence settings 6 JobType.channel "artist:lua" none)
    × IsInBand settings 6 JobType.channel
        (event_band_seconds default_cadence (some (ahead (days 2))))
        (next_refresh_for outside default_cadence settings 6 JobType.channel "artist:lua"
          (some (ahead (days 2))))
next_refresh_for_event_example =
    next_refresh_for_event outside default_cadence settings 6 JobType.channel "artist:lua"
      (some (ahead (days 2)))
      (record { imminent_active = omega arith; imminent_standard = omega arith })

execute_all-settles_example :
    let (claimed, leased) = claim settings 6 "w" 1 (discovery ∷ []) in
    let (outcomes, after) = execute_all outside default_cadence settings 6 finds claimed leased in
    (length outcomes ≡ length claimed) × AreIdle (keys_of claimed) after
execute_all-settles_example =
    execute_all-settles outside default_cadence settings 6 finds "w" 1 (discovery ∷ [])
