-- ===== src/ArtistScheduler/Enqueue/Refreshes.antt =====
-- scheduler.py, `enqueue_due`: the rows it adds.
use mathlib.Core.List.{Memᴰ}
use n_quark.Prelude.{
  ℕ, ◌/◌, max, ◌≡◌, refl, ◌⊎◌, inl, inr, String, Bool, true, false, not, ◌&&◌, some, List, [], ◌∷◌,
  append, arith, if_ind, str_eq, member, Every, Every-mono, Every-append,
}
use n_quark.Prelude.Time.{Time}
use n_quark.ArtistScheduler.{
  JobType, DemandStatus, DemandJob, Identity, DemandSettings, Surroundings, key_exists, new_job,
  window,
}
use n_quark.ArtistScheduler.Enqueue.{
  key_of, windowed_key, due_key, due_job, due_jobs_for, due_jobs, refresh_types,
}

module _ (out : Surroundings) (cfg : DemandSettings) (now : Time) where
  -- Identities that are refreshed.
  abbrev pub is_refreshed : Identity → Bool
  is_refreshed ident =
      str_eq ident.status "RESOLVED" && not (member ident.canonical_artist_id out.paused)

  -- The key of a job: the artist, the provider, the kind of job, and the number of the window of
  -- this interval that the instant is in.
  abbrev pub stamp : String → String → ℕ → String
  stamp artist kind interval =
      append (append artist (append "|YOUTUBE|" kind))
        (append "|" (out.digits (now / 1000000 / max interval 1)))

  -- The table has a job for the channel, for the videos and for the catalogue of an artist in the
  -- windows of this instant.
  abbrev HasRefreshes : List DemandJob → String → Type 0
  HasRefreshes jobs artist =
      (key_exists (stamp artist "YOUTUBE_CHANNEL_SNAPSHOT" cfg.channel_interval) jobs ≡ true)
      × (key_exists (stamp artist "YOUTUBE_VIDEO_SNAPSHOT" cfg.video_interval) jobs ≡ true)
      × (key_exists (stamp artist "YOUTUBE_CATALOGUE_BACKFILL" cfg.catalogue_interval) jobs ≡ true)

  abbrev pub IsServed : List DemandJob → Identity → Type 0
  IsServed jobs ident = (is_refreshed ident ≡ false) ⊎ HasRefreshes jobs ident.canonical_artist_id

  -- The kind of a job and its key.
  abbrev HasKind : String → DemandJob → Type 0
  HasKind artist job =
      ((job.job_type ≡ JobType.channel)
        × (job.dedup_key ≡ stamp artist "YOUTUBE_CHANNEL_SNAPSHOT" cfg.channel_interval))
      ⊎ ((job.job_type ≡ JobType.video)
          × (job.dedup_key ≡ stamp artist "YOUTUBE_VIDEO_SNAPSHOT" cfg.video_interval))
      ⊎ ((job.job_type ≡ JobType.catalogue)
          × (job.dedup_key ≡ stamp artist "YOUTUBE_CATALOGUE_BACKFILL" cfg.catalogue_interval))

  -- A job that waits for its first attempt at the refresh of an identity.
  pub record IsRefresh (ident : Identity) (job : DemandJob) : Type 0 where
    pub refreshed : is_refreshed ident ≡ true
    pub artist : job.canonical_artist_id ≡ ident.canonical_artist_id
    pub identity : job.external_identity_id ≡ some ident.id
    pub kind : HasKind ident.canonical_artist_id job
    pub waits : job.status ≡ DemandStatus.pending
    pub due : job.scheduled_at ≡ now
    pub unattempted : job.attempt_count ≡ 0

  HasKind-IsRefresh :
      (ident : Identity) (ty : JobType)
      → is_refreshed ident ≡ true
      → HasKind ident.canonical_artist_id (due_job out cfg now ident ty)
      → IsRefresh ident (due_job out cfg now ident ty)
  unfolding due_job new_job
  HasKind-IsRefresh ident ty h k = record {
    refreshed = h;
    artist = refl;
    identity = refl;
    kind = k;
    waits = refl;
    due = refl;
    unattempted = refl;
  }

  due_job-IsRefresh :
      (ident : Identity)
      → is_refreshed ident ≡ true
      → Every (λ ty. IsRefresh ident (due_job out cfg now ident ty)) refresh_types
  unfolding due_job due_key windowed_key key_of window new_job
  due_job-IsRefresh ident h = (
    HasKind-IsRefresh ident JobType.channel h (inl (refl, refl)),
    (
      HasKind-IsRefresh ident JobType.video h (inr (inl (refl, refl))),
      (HasKind-IsRefresh ident JobType.catalogue h (inr (inr (refl, refl))), tt),
    ),
  )

  due_jobs_for-Every :
      (P : DemandJob → Type 0) (jobs : List DemandJob) (ident : Identity) (types : List JobType)
      → Every (λ ty. P (due_job out cfg now ident ty)) types
      → Every P (due_jobs_for out cfg now jobs ident types)
  unfolding due_jobs_for
  due_jobs_for-Every P jobs ident [] h = tt
  due_jobs_for-Every P jobs ident (ty ∷ rest) h =
      let more = due_jobs_for-Every P jobs ident rest h.1 in
      if_ind (Every P) (key_exists (due_key out cfg now ident.canonical_artist_id ty) jobs)
        (λ _. more) (λ _. (h.0, more))

  -- The job is the refresh of one of these identities.
  abbrev pub IsRefreshOf : List Identity → DemandJob → Type 0
  IsRefreshOf identities job = (ident : Identity) × Memᴰ ident identities × IsRefresh ident job

  pub due_jobs-IsRefreshOf :
      (jobs : List DemandJob) (identities : List Identity)
      → Every (IsRefreshOf identities) (due_jobs out cfg now jobs identities).0
  unfolding due_jobs
  due_jobs-IsRefreshOf jobs [] = tt
  due_jobs-IsRefreshOf jobs (ident ∷ rest) =
      let P : List DemandJob × ℕ → Type 0 = λ r. Every (IsRefreshOf (ident ∷ rest)) r.0 in
      let made = due_jobs_for out cfg now jobs ident refresh_types in
      let more =
        Every-mono (IsRefreshOf rest) (IsRefreshOf (ident ∷ rest)) _
          (λ job found. (found.0, Memᴰ.tail found.1, found.2)) (due_jobs-IsRefreshOf jobs rest) in
      if_ind P (not (str_eq ident.status "RESOLVED")) (λ _. more)
        (λ e.
          if_ind P (member ident.canonical_artist_id out.paused) (λ _. more)
            (λ e'.
              Every-append _ made _
                (Every-mono (IsRefresh ident) (IsRefreshOf (ident ∷ rest)) made
                  (λ job h. (ident, Memᴰ.head refl, h))
                  (due_jobs_for-Every (IsRefresh ident) jobs ident refresh_types
                    (due_job-IsRefresh ident (ground (arith, e, e')))))
                more))
