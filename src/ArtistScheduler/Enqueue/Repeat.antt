-- ===== src/ArtistScheduler/Enqueue/Repeat.antt =====
-- scheduler.py, `enqueue_due`: a window has its jobs after one pass, and a second pass adds none.
use mathlib.Core.List.{append_assoc, append-nil}
use n_quark.Prelude.{
  ℕ, ◌≡◌, refl, ap, sym, ◌∙◌, subst, ◌⊎◌, inl, inr, String, true, false, not, ◌||◌, Option, none,
  some, List, [], ◌∷◌, ◌++◌, arith, if_ind, length, str_eq, eq_refl, member, Every, Every-mono,
}
use n_quark.Prelude.Time.{Time}
use n_quark.ArtistScheduler.{
  JobType, DemandJob, Identity, DemandSettings, Surroundings, key_exists, new_job, window,
}
use n_quark.ArtistScheduler.Enqueue.Refreshes.{
  is_refreshed, IsServed, IsRefreshOf, due_jobs-IsRefreshOf,
}
use n_quark.ArtistScheduler.Enqueue.{
  key_of, windowed_key, due_key, due_job, due_jobs_for, due_jobs, refresh_types, flush, enqueue_due,
}

flush-append : (new jobs all : List DemandJob) → flush new jobs ≡ some all → all ≡ jobs ++ new
unfolding flush
flush-append [] jobs all h = ground (arith, append-nil jobs)
flush-append (job ∷ new) jobs all h =
    ground (arith, flush-append new (jobs ++ job ∷ []) all, append_assoc jobs (job ∷ []) new)

key_exists-append :
    (key : String) (xs ys : List DemandJob)
    → key_exists key (xs ++ ys) ≡ (key_exists key xs || key_exists key ys)
unfolding key_exists
key_exists-append key [] ys = refl
key_exists-append key (x ∷ xs) ys = ground (arith, key_exists-append key xs ys)

module _ (out : Surroundings) (cfg : DemandSettings) (now : Time) where
  -- The table has a job of each of these types for the artist in the present windows.
  abbrev HasTypes : List DemandJob → Identity → List JobType → Type 0
  HasTypes jobs ident types =
      Every (λ ty. key_exists (due_key out cfg now ident.canonical_artist_id ty) jobs ≡ true) types

  abbrev IsCovered : List DemandJob → Identity → Type 0
  IsCovered jobs ident =
      (is_refreshed out cfg now ident ≡ false) ⊎ HasTypes jobs ident refresh_types

  abbrev key_for : Identity → JobType → String
  key_for ident ty = due_key out cfg now ident.canonical_artist_id ty

  -- The same with the rows that a loop has made and not flushed yet.
  abbrev HasNew : List DemandJob → List DemandJob → Identity → List JobType → Type 0
  HasNew jobs new ident types =
      Every (λ ty. key_exists (key_for ident ty) jobs || key_exists (key_for ident ty) new ≡ true)
        types

  due_jobs_for-HasNew :
      (jobs : List DemandJob) (ident : Identity) (types : List JobType)
      → HasNew jobs (due_jobs_for out cfg now jobs ident types) ident types
  unfolding due_jobs_for due_job new_job key_exists
  due_jobs_for-HasNew jobs ident [] = tt
  due_jobs_for-HasNew jobs ident (ty ∷ rest) =
      let new = due_jobs_for out cfg now jobs ident rest in
      if_ind (λ l. HasNew jobs l ident (ty ∷ rest)) (key_exists (key_for ident ty) jobs)
        (λ e. (ground (arith, e), due_jobs_for-HasNew jobs ident rest))
        (λ e. (
          ground (arith, eq_refl (key_for ident ty)),
          Every-mono _ _ rest (λ ty' k. ground (arith, k)) (due_jobs_for-HasNew jobs ident rest),
        ))

  HasNew-left :
      (jobs new more : List DemandJob) (ident : Identity) (types : List JobType)
      → HasNew jobs new ident types
      → HasNew jobs (new ++ more) ident types
  HasNew-left jobs new more ident types h =
      Every-mono _ _ types
        (λ ty k. ground (arith, k, key_exists-append (key_for ident ty) new more)) h

  HasNew-right :
      (jobs new more : List DemandJob) (ident : Identity) (types : List JobType)
      → HasNew jobs new ident types
      → HasNew jobs (more ++ new) ident types
  HasNew-right jobs new more ident types h =
      Every-mono _ _ types
        (λ ty k. ground (arith, k, key_exists-append (key_for ident ty) more new)) h

  abbrev IsMade : List DemandJob → List DemandJob → Identity → Type 0
  IsMade jobs new ident =
      (is_refreshed out cfg now ident ≡ false) ⊎ HasNew jobs new ident refresh_types

  IsMade-right :
      (jobs new more : List DemandJob) (ident : Identity)
      → IsMade jobs new ident
      → IsMade jobs (more ++ new) ident
  IsMade-right jobs new more ident (inl h) = inl h
  IsMade-right jobs new more ident (inr h) = inr (HasNew-right jobs new more ident refresh_types h)

  due_jobs-IsMade :
      (jobs : List DemandJob) (identities : List Identity)
      → Every (IsMade jobs (due_jobs out cfg now jobs identities).0) identities
  unfolding due_jobs
  due_jobs-IsMade jobs [] = tt
  due_jobs-IsMade jobs (ident ∷ rest) =
      let (new, skipped) = due_jobs out cfg now jobs rest in
      let made = due_jobs_for out cfg now jobs ident refresh_types in
      if_ind (λ (r : List DemandJob × ℕ). Every (IsMade jobs r.0) (ident ∷ rest))
        (not (str_eq ident.status "RESOLVED"))
        (λ e. (inl (ground (arith, e)), due_jobs-IsMade jobs rest))
        (λ e.
          if_ind (λ (r : List DemandJob × ℕ). Every (IsMade jobs r.0) (ident ∷ rest))
            (member ident.canonical_artist_id out.paused)
            (λ e'. (inl (ground (arith, e, e')), due_jobs-IsMade jobs rest))
            (λ e'. (
              inr (
                  HasNew-left jobs made new ident refresh_types
                    (due_jobs_for-HasNew jobs ident refresh_types)),
              Every-mono _ _ rest (λ x h. IsMade-right jobs new made x h)
                  (due_jobs-IsMade jobs rest),
            )))

  IsMade-IsCovered :
      (jobs new : List DemandJob) (ident : Identity)
      → IsMade jobs new ident
      → IsCovered (jobs ++ new) ident
  IsMade-IsCovered jobs new ident (inl h) = inl h
  IsMade-IsCovered jobs new ident (inr h) = inr (
      Every-mono
        (λ ty. key_exists (key_for ident ty) jobs || key_exists (key_for ident ty) new ≡ true)
        (λ ty. key_exists (key_for ident ty) (jobs ++ new) ≡ true) refresh_types
        (λ ty k. key_exists-append (key_for ident ty) jobs new ∙ k) h)

  -- Where an artist has its jobs, nothing is added.
  due_jobs_for-none :
      (jobs : List DemandJob) (ident : Identity) (types : List JobType)
      → HasTypes jobs ident types
      → due_jobs_for out cfg now jobs ident types ≡ []
  unfolding due_jobs_for
  due_jobs_for-none jobs ident [] h = refl
  due_jobs_for-none jobs ident (ty ∷ rest) h = rw h.0 (due_jobs_for-none jobs ident rest h.1)

  covered_none :
      (jobs : List DemandJob) (identities : List Identity)
      → Every (IsCovered jobs) identities
      → (due_jobs out cfg now jobs identities).0 ≡ []
  unfolding due_jobs
  covered_none jobs [] h = refl
  covered_none jobs (ident ∷ rest) (inl h, more) = ground (arith, h, covered_none jobs rest more)
  covered_none jobs (ident ∷ rest) (inr h, more) =
      ground (arith, due_jobs_for-none jobs ident refresh_types h, covered_none jobs rest more)

  pub enqueued :
      (identities : List Identity) (jobs all : List DemandJob) (counts : ℕ × ℕ)
      → enqueue_due out cfg now identities jobs ≡ some (counts, all)
      → all ≡ jobs ++ (due_jobs out cfg now jobs identities).0
  unfolding enqueue_due
  enqueued identities jobs all counts e =
      ground (arith, flush-append (due_jobs out cfg now jobs identities).0 jobs all)

  IsCovered-IsServed :
      (jobs : List DemandJob) (ident : Identity)
      → IsCovered jobs ident
      → IsServed out cfg now jobs ident
  unfolding due_key windowed_key key_of window
  IsCovered-IsServed jobs ident (inl h) = inl h
  IsCovered-IsServed jobs ident (inr h) = inr (h.0, h.1.0, h.1.1.0)

  again :
      (identities : List Identity) (all : List DemandJob)
      → Every (IsCovered all) identities
      → enqueue_due out cfg now identities all
        ≡ some ((0, (due_jobs out cfg now all identities).1), all)
  unfolding enqueue_due flush
  again identities all covered =
      ap
        (λ new. elim (flush new all) as (λ _. Option ((ℕ × ℕ) × List DemandJob)) [
          | none ↦ none
          | some rows ↦ some ((length new, (due_jobs out cfg now all identities).1), rows)
        ])
        (covered_none all identities covered)

  -- After a pass that is not refused, every resolved identity whose artist is not paused has a job
  -- under the key of its channel, of its videos and of its catalogue in the windows of that instant;
  -- the jobs that were there stand as they were, each new job is of one of the three types, under the
  -- key of its type, for such an identity, and waits for its first attempt; and a second pass at that
  -- instant makes no job and changes nothing.
  pub enqueue_due_twice :
      (identities : List Identity) (jobs all : List DemandJob) (counts : ℕ × ℕ)
      → enqueue_due out cfg now identities jobs ≡ some (counts, all)
      → Every (IsServed out cfg now all) identities
        × ((new : List DemandJob) × (all ≡ jobs ++ new)
            × Every (IsRefreshOf out cfg now identities) new)
        × ((skipped : ℕ) × (enqueue_due out cfg now identities all ≡ some ((0, skipped), all)))
  unfolding enqueue_due flush
  enqueue_due_twice identities jobs all counts e =
      let new = (due_jobs out cfg now jobs identities).0 in
      let from = enqueued identities jobs all counts e in
      let covered =
        subst (λ l. Every (IsCovered l) identities) (sym from)
          (Every-mono _ _ identities (λ x h. IsMade-IsCovered jobs new x h)
            (due_jobs-IsMade jobs identities)) in
      (
        Every-mono _ _ identities (IsCovered-IsServed all) covered,
        (new, from, due_jobs-IsRefreshOf out cfg now jobs identities),
        ((due_jobs out cfg now all identities).1, again identities all covered),
      )
