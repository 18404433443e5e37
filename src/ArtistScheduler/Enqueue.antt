-- ===== src/ArtistScheduler/Enqueue.antt =====
-- scheduler.py: enqueue_due, enqueue_identity_discovery, enqueue_catalogue_backfill and
-- enqueue_identity_reattempts. The session does not flush by itself: the tests of a loop read the
-- rows that were there before it, and the flush after it fails on a key that is there already.
pub mod Refreshes
pub mod Repeat
use n_quark.Prelude.{
  ℕ, suc, ◌+◌, String, Bool, true, false, not, ◌&&◌, ◌||◌, Option, none, some, List, [], ◌∷◌, ◌++◌,
  append, str_eq, if◌then◌else◌, or_else, or_empty, truthy, member, leb, length, is_nil,
}
use n_quark.Prelude.Time.{Time}
use n_quark.ArtistCadence.{priority_for}
use n_quark.ArtistScheduler.{
  JobType, type_name, DemandJob, Identity, DemandSettings, Surroundings, window, key_exists,
  active_exists, new_job, detail_of,
}

-- `f"{artist}|{PROVIDER_YOUTUBE}|{job_type}"`
unfoldable pub key_of : String → JobType → String
key_of artist job_type = append artist (append "|YOUTUBE|" (type_name job_type))

unfoldable pub windowed_key : String → JobType → String → String
unfolding key_of
windowed_key artist job_type w = append (key_of artist job_type) (append "|" w)

-- `_artist_priority`: the days to an event are None here, and an error leaves one reference.
unfoldable artist_priority : Surroundings → String → ℕ
artist_priority out artist = elim (out.evidence_classes artist) [
  | none ↦ priority_for none 1 false false
  | some classes ↦
      priority_for none (if leb 2 (length classes) then 2 else 1)
        (member "CONFIRMED_LIVE_INDIA" classes || member "INDIA_DEMAND_OBSERVED" classes) false
]

-- The flush: unique index on `dedup_key`.
unfoldable pub flush : List DemandJob → List DemandJob → Option (List DemandJob)
unfolding key_exists
flush [] jobs = some jobs
flush (job ∷ new) jobs =
    let flushed = flush new (jobs ++ job ∷ []) in
    if key_exists job.dedup_key jobs then none else flushed

abbrev pub refresh_types : List JobType
refresh_types = JobType.channel ∷ JobType.video ∷ JobType.catalogue ∷ []

-- The row is added unless an active row of its kind or its key is there; whether it was.
unfoldable pub add_unless :
    Option Bool → Bool → DemandJob → List DemandJob → Option (Bool × List DemandJob)
add_unless none exists job jobs = none
add_unless (some active) exists job jobs =
    some (if active || exists then (false, jobs) else (true, jobs ++ job ∷ []))

module _ (out : Surroundings) (cfg : DemandSettings) (now : Time) where
  abbrev interval_of : JobType → ℕ
  interval_of JobType.channel = cfg.channel_interval
  interval_of JobType.video = cfg.video_interval
  interval_of _ = cfg.catalogue_interval

  unfoldable pub due_key : String → JobType → String
  unfolding windowed_key window
  due_key artist job_type = windowed_key artist job_type (window out now (interval_of job_type))

  unfoldable pub due_job : Identity → JobType → DemandJob
  unfolding due_key artist_priority new_job
  due_job ident job_type =
      new_job (due_key ident.canonical_artist_id job_type) ident.canonical_artist_id job_type
        (some ident.id) (artist_priority out ident.canonical_artist_id) now (detail_of none false)

  unfoldable pub due_jobs_for : List DemandJob → Identity → List JobType → List DemandJob
  unfolding due_job due_key key_exists
  due_jobs_for jobs ident [] = []
  due_jobs_for jobs ident (job_type ∷ rest) =
      let new = due_jobs_for jobs ident rest in
      if key_exists (due_key ident.canonical_artist_id job_type) jobs
      then new
      else due_job ident job_type ∷ new

  -- The loop over the RESOLVED identities: the new rows and how many artists are paused.
  unfoldable pub due_jobs : List DemandJob → List Identity → List DemandJob × ℕ
  unfolding due_jobs_for
  due_jobs jobs [] = ([], 0)
  due_jobs jobs (ident ∷ rest) =
      let (new, skipped) = due_jobs jobs rest in
      if not (str_eq ident.status "RESOLVED")
      then (new, skipped)
      else if member ident.canonical_artist_id out.paused
      then (new, suc skipped)
      else (due_jobs_for jobs ident refresh_types ++ new, skipped)

  -- How many jobs are made and how many artists are skipped; none where the flush raises.
  unfoldable pub enqueue_due : List Identity → List DemandJob → Option ((ℕ × ℕ) × List DemandJob)
  unfolding due_jobs flush
  enqueue_due identities jobs =
      let (new, skipped) = due_jobs jobs identities in
      elim (flush new jobs) [ none ↦ none | some all ↦ some ((length new, skipped), all) ]

  unfoldable enqueue_identity_discovery :
      String → String → ℕ → List DemandJob → Option (Bool × List DemandJob)
  unfolding key_of key_exists new_job active_exists add_unless
  enqueue_identity_discovery artist display_name priority jobs =
      let key = key_of artist JobType.identity in
      add_unless (active_exists artist JobType.identity jobs) (key_exists key jobs)
        (new_job key artist JobType.identity none priority now
          (detail_of (some display_name) false))
        jobs

  unfoldable pub enqueue_catalogue_backfill :
      String → Option String → ℕ → List DemandJob → Option (Bool × List DemandJob)
  unfolding due_key key_exists new_job active_exists add_unless
  enqueue_catalogue_backfill artist identity_id priority jobs =
      let key = due_key artist JobType.catalogue in
      add_unless (active_exists artist JobType.catalogue jobs) (key_exists key jobs)
        (new_job key artist JobType.catalogue identity_id priority now (detail_of none false)) jobs

  unfoldable reattempt_key : Identity → String
  unfolding windowed_key window
  reattempt_key ident = windowed_key ident.canonical_artist_id JobType.identity (
      append "reattempt|" (
        window out now (
          if str_eq ident.status "AMBIGUOUS"
          then cfg.reattempt_ambiguous
          else cfg.reattempt_unresolved)))

  -- `(ident.identity_metadata or {}).get("query") or art`
  unfoldable reattempt_job : Identity → DemandJob
  unfolding reattempt_key artist_priority new_job
  reattempt_job ident =
      new_job (reattempt_key ident) ident.canonical_artist_id JobType.identity none
        (artist_priority out ident.canonical_artist_id) now
        (detail_of
          (some (
            if truthy ident.metadata_query
            then or_empty ident.metadata_query
            else ident.canonical_artist_id))
          true)

  abbrev is_open_identity : Identity → Bool
  is_open_identity ident = str_eq ident.status "AMBIGUOUS" || str_eq ident.status "UNRESOLVED"

  -- The loop over the open identities: the new rows; none where `_active_exists` raises.
  unfoldable reattempts : List String → List DemandJob → List Identity → Option (List DemandJob)
  unfolding reattempt_job reattempt_key key_exists active_exists
  reattempts valid jobs [] = some []
  reattempts valid jobs (ident ∷ rest) =
      let new = reattempts valid jobs rest in
      if not (is_open_identity ident)
      then new
      else if not (member ident.canonical_artist_id valid)
      then new
      else if member ident.canonical_artist_id out.paused
      then new
      else elim (active_exists ident.canonical_artist_id JobType.identity jobs) [
        | none ↦ none
        | some active ↦ elim new [
          | none ↦ none
          | some more ↦ some (
              if active || key_exists (reattempt_key ident) jobs
              then more
              else reattempt_job ident ∷ more)
        ]
      ]

  -- Without a registry nothing is made: the loop fails closed.
  unfoldable pub enqueue_identity_reattempts :
      List Identity → List DemandJob → Option (List DemandJob)
  unfolding reattempts flush
  enqueue_identity_reattempts identities jobs = elim out.registry [
    | none ↦ some jobs
    | some valid ↦ elim (reattempts valid jobs identities) [
      | none ↦ none
      | some new ↦ flush new jobs
    ]
  ]
