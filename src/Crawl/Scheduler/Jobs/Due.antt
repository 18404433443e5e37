-- ===== src/Crawl/Scheduler/Jobs/Due.antt =====
-- claim_jobs: what a pass claims.
use n_quark.Prelude.{
  ℕ, zero, suc, ◌≤◌, ◌<◌, ◌≡◌, refl, inl, inr, String, Bool, true, false, not, ◌&&◌, List, [], ◌∷◌,
  arith, ◌==◌, leb, Bool-cases, length, count_if, Every, Every-mono,
}
use n_quark.Prelude.Time.{Time}
use n_quark.Crawl.Scheduler.Store.{Job, Store, Settings, is_pending}
use n_quark.Crawl.Scheduler.Jobs.{
  claim_specific, insert_ordered, pending_ordered, due_ids, claim_loop, claim_jobs,
}
use n_quark.Crawl.Scheduler.Jobs.Claims.{claim_loop-length}

-- A pending job of that id whose time has come.
abbrev is_ready : Time → ℕ → Job → Bool
is_ready now id job = job.id == id && is_pending job.status && leb job.scheduled_at now

count-insert_ordered :
    (p : Job → Bool) (job : Job) (l : List Job)
    → count_if p (insert_ordered job l) ≡ count_if p (job ∷ l)
unfolding insert_ordered
count-insert_ordered p job [] = refl
count-insert_ordered p job (x ∷ xs) = ground (arith, count-insert_ordered p job xs)

count-pending_ordered :
    (p : Job → Bool) (l : List Job) → count_if p (pending_ordered l) ≤ count_if p l
unfolding pending_ordered
count-pending_ordered p [] = omega arith
count-pending_ordered p (x ∷ xs) =
    ground (arith, count-pending_ordered p xs, count-insert_ordered p x (pending_ordered xs))

pending_ordered_pending :
    (l : List Job) → count_if (λ j. not (is_pending j.status)) (pending_ordered l) ≡ 0
unfolding pending_ordered
pending_ordered_pending [] = refl
pending_ordered_pending (x ∷ xs) = ground (
  arith,
  pending_ordered_pending xs,
  count-insert_ordered (λ j. not (is_pending j.status)) x (pending_ordered xs),
)

-- In a list of pending jobs, every due id has a ready job.
due_ids-ready :
    (now : Time) (l : List Job)
    → count_if (λ j. not (is_pending j.status)) l ≡ 0
    → Every (λ id. 0 < count_if (is_ready now id) l) (due_ids now l)
unfolding due_ids
due_ids-ready now [] h = tt
due_ids-ready now (x ∷ xs) h = elim (Bool-cases (leb x.scheduled_at now)) [
  | inl due ↦ rw due (
    ground arith,
    Every-mono _ _ (due_ids now xs) (λ n k. ground arith) (due_ids-ready now xs (ground arith)),
  )
  | inr late ↦
      rw late (
        Every-mono _ _ (due_ids now xs) (λ n k. ground arith) (due_ids-ready now xs (ground arith)))
]

claim_loop-Every :
    (P : ℕ → Type 0) (cfg : Settings) (now : Time) (worker : String) (limit : ℕ) (ids : List ℕ)
    (s : Store)
    → Every P ids
    → Every P (claim_loop cfg now worker limit ids s).0
unfolding claim_loop
claim_loop-Every P cfg now worker zero ids s h = tt
claim_loop-Every P cfg now worker (suc limit) [] s h = tt
claim_loop-Every P cfg now worker (suc limit) (id ∷ ids) s h =
    let (found, s') = claim_specific cfg now worker id s in
    let hit = claim_loop cfg now worker limit ids s' in
    let miss = claim_loop cfg now worker (suc limit) ids s' in
    elim found
      as (λ b.
        Every P (elim b as (λ x. List ℕ × Store) [ true ↦ (id ∷ hit.0, hit.1) | false ↦ miss ]).0) [
          | true ↦ (h.0, claim_loop-Every P cfg now worker limit ids s' h.1)
          | false ↦ claim_loop-Every P cfg now worker (suc limit) ids s' h.1
        ]

-- A pass of `claim_jobs` claims at most `limit` jobs, and each id that it claims has a row that was
-- pending with its scheduled instant reached.
claim_jobs_ready :
    (cfg : Settings) (now : Time) (worker : String) (limit : ℕ) (s : Store)
    → let claimed = (claim_jobs cfg now worker limit s).0 in
      (length claimed ≤ limit) × Every (λ id. 0 < count_if (is_ready now id) s.jobs) claimed
unfolding claim_jobs
claim_jobs_ready cfg now worker limit s =
    let l = pending_ordered s.jobs in
    (
      claim_loop-length cfg now worker limit (due_ids now l) s,
      claim_loop-Every (λ id. 0 < count_if (is_ready now id) s.jobs) cfg now worker limit
          (due_ids now l) s
          (Every-mono (λ id. 0 < count_if (is_ready now id) l)
            (λ id. 0 < count_if (is_ready now id) s.jobs) (due_ids now l)
            (λ id k. omega (arith, count-pending_ordered (is_ready now id) s.jobs))
            (due_ids-ready now l (pending_ordered_pending s.jobs))),
    )
