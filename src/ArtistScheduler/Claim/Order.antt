-- ===== src/ArtistScheduler/Claim/Order.antt =====
-- scheduler.py, `claim`: the most urgent jobs go first, and no due job is left while there is room.
use mathlib.Core.List.{Memᴰ}
use mathlib.Core.List.Memᴰ
use n_quark.Prelude.{
  ℕ, zero, suc, ◌<◌, ◌≤◌, ◌≡◌, refl, ap, sym, ◌∙◌, ◌⊎◌, inl, inr, String, true, false, List, [],
  ◌∷◌, map, arith, if_ind, length, Every, Every-mono, Every-Mem, Bool-cases, ltb,
}
use n_quark.Prelude.Time.{Time}
use n_quark.ArtistScheduler.{DemandJob, DemandSettings}
use n_quark.ArtistScheduler.Claim.{
  is_claimable, no_later, insert_job, due_ordered, limited, lease_job, claim_limit, chosen, claim,
}

-- No job of the list comes before an earlier one.
abbrev IsOrdered : List DemandJob → Type 0
IsOrdered [] = Unit
IsOrdered (x ∷ xs) = Every (λ y. no_later x y ≡ true) xs × IsOrdered xs

no_later_trans :
    (a b c : DemandJob) → no_later a b ≡ true → no_later b c ≡ true → no_later a c ≡ true
no_later_trans a b c h k = ground arith

no_later_total : (a b : DemandJob) → no_later a b ≡ false → no_later b a ≡ true
no_later_total a b h = ground arith

pub insert_job-Every :
    (P : DemandJob → Type 0) (job : DemandJob) (l : List DemandJob)
    → P job
    → Every P l
    → Every P (insert_job job l)
unfolding insert_job
insert_job-Every P job [] p h = (p, tt)
insert_job-Every P job (x ∷ xs) p h =
    if_ind (Every P) (no_later job x) (λ e. (p, h)) (λ e. (h.0, insert_job-Every P job xs p h.1))

insert_job-IsOrdered :
    (job : DemandJob) (l : List DemandJob) → IsOrdered l → IsOrdered (insert_job job l)
unfolding insert_job
insert_job-IsOrdered job [] h = (tt, tt)
insert_job-IsOrdered job (x ∷ xs) h =
    if_ind IsOrdered (no_later job x)
      (λ e. (
        (
          e,
          Every-mono (λ y. no_later x y ≡ true) (λ y. no_later job y ≡ true) xs
              (λ y k. no_later_trans job x y e k) h.0,
        ),
        h,
      ))
      (λ e. (
        insert_job-Every (λ y. no_later x y ≡ true) job xs (no_later_total job x e) h.0,
        insert_job-IsOrdered job xs h.1,
      ))

due_ordered-IsOrdered : (now : Time) (jobs : List DemandJob) → IsOrdered (due_ordered now jobs)
unfolding due_ordered
due_ordered-IsOrdered now [] = tt
due_ordered-IsOrdered now (job ∷ rest) =
    if_ind IsOrdered (is_claimable now job)
      (λ e. insert_job-IsOrdered job (due_ordered now rest) (due_ordered-IsOrdered now rest))
      (λ e. due_ordered-IsOrdered now rest)

insert_job-self : (job : DemandJob) (l : List DemandJob) → Memᴰ job (insert_job job l)
unfolding insert_job
insert_job-self job [] = Memᴰ.head refl
insert_job-self job (y ∷ ys) =
    if_ind (λ l. Memᴰ job l) (no_later job y) (λ e. Memᴰ.head refl)
      (λ e. Memᴰ.tail (insert_job-self job ys))

insert_job-Mem : (x job : DemandJob) (l : List DemandJob) → Memᴰ x l → Memᴰ x (insert_job job l)
unfolding insert_job
insert_job-Mem x job [] m = elim m [ ]
insert_job-Mem x job (y ∷ ys) (Memᴰ.head e) =
    if_ind (λ l. Memᴰ x l) (no_later job y) (λ _. Memᴰ.tail (Memᴰ.head e)) (λ _. Memᴰ.head e)
insert_job-Mem x job (y ∷ ys) (Memᴰ.tail m) =
    if_ind (λ l. Memᴰ x l) (no_later job y) (λ _. Memᴰ.tail (Memᴰ.tail m))
      (λ _. Memᴰ.tail (insert_job-Mem x job ys m))

-- Every due job is a row of the query.
due_ordered-Mem :
    (now : Time) (x : DemandJob) (jobs : List DemandJob)
    → Memᴰ x jobs
    → is_claimable now x ≡ true
    → Memᴰ x (due_ordered now jobs)
unfolding due_ordered
due_ordered-Mem now x [] m h = elim m [ ]
due_ordered-Mem now x (job ∷ rest) (Memᴰ.head e) h =
    rw (ap (is_claimable now) (sym e) ∙ h)
      (Memᴰ.cast e (insert_job-self job (due_ordered now rest)))
due_ordered-Mem now x (job ∷ rest) (Memᴰ.tail m) h =
    if_ind (λ l. Memᴰ x l) (is_claimable now job)
      (λ e. insert_job-Mem x job (due_ordered now rest) (due_ordered-Mem now x rest m h))
      (λ e. due_ordered-Mem now x rest m h)

limited-length : (n : ℕ) (l : List DemandJob) → length (limited n l) ≤ n
limited-length zero l = omega arith
limited-length (suc n) [] = omega arith
limited-length (suc n) (x ∷ xs) = omega (arith, limited-length n xs)

-- What a limit leaves out comes after all that it keeps, and only a full list leaves anything out.
limited-order :
    (x : DemandJob) (n : ℕ) (l : List DemandJob)
    → IsOrdered l
    → Memᴰ x l
    → Memᴰ x (limited n l)
      ⊎ ((length (limited n l) ≡ n) × Every (λ y. no_later y x ≡ true) (limited n l))
limited-order x zero l h m = inr (refl, tt)
limited-order x (suc n) [] h m = elim m [ ]
limited-order x (suc n) (y ∷ ys) h (Memᴰ.head e) = inl (Memᴰ.head e)
limited-order x (suc n) (y ∷ ys) h (Memᴰ.tail m) = elim (limited-order x n ys h.1 m) [
  | inl k ↦ inl (Memᴰ.tail k)
  | inr (full, later) ↦ inr (ap suc full, (Every-Mem (λ z. no_later y z ≡ true) x ys m h.0, later))
]

length-map : (f : DemandJob → DemandJob) (l : List DemandJob) → length (map f l) ≡ length l
length-map f [] = refl
length-map f (x ∷ xs) = ap suc (length-map f xs)

leased_no_later :
    (cfg : DemandSettings) (now : Time) (worker : String) (x : DemandJob) (l : List DemandJob)
    → Every (λ y. no_later y x ≡ true) l
    → Every (λ y. no_later y x ≡ true) (map (lease_job cfg now worker) l)
unfolding lease_job
leased_no_later cfg now worker x [] h = tt
leased_no_later cfg now worker x (y ∷ ys) h = (h.0, leased_no_later cfg now worker x ys h.1)

-- Before or at the place of a job in the order of priority, then scheduled instant.
abbrev pub IsNoLater : (c job : DemandJob) → Type 0
IsNoLater c job =
    (c.priority < job.priority)
    ⊎ ((c.priority ≡ job.priority) × (c.scheduled_at ≤ job.scheduled_at))

no_later-IsNoLater : (c job : DemandJob) → no_later c job ≡ true → IsNoLater c job
no_later-IsNoLater c job h = elim (Bool-cases (ltb c.priority job.priority)) [
  | inl less ↦ inl (ground (arith, less))
  | inr other ↦ inr (ground (arith, h, other), ground (arith, h, other))
]

-- A pass claims no more jobs than its limit. Of each due job that is in the table, the pass claims
-- it, or it claims as many as the limit allows and none of them comes after the job in the order of
-- priority and scheduled instant.
pub claim_order :
    (cfg : DemandSettings) (now : Time) (worker : String) (limit : ℕ) (jobs : List DemandJob)
    (job : DemandJob)
    → Memᴰ job jobs
    → is_claimable now job ≡ true
    → let claimed = (claim cfg now worker limit jobs).0 in
      (length claimed ≤ claim_limit cfg limit)
      × (Memᴰ (lease_job cfg now worker job) claimed
          ⊎ ((length claimed ≡ claim_limit cfg limit) × Every (λ c. IsNoLater c job) claimed))
unfolding claim chosen
claim_order cfg now worker limit jobs job m h =
    let rows = due_ordered now jobs in
    let n = claim_limit cfg limit in
    let counted = length-map (lease_job cfg now worker) (limited n rows) in
    (
      rw counted (limited-length n rows),
      elim (limited-order job n rows (due_ordered-IsOrdered now jobs)
          (due_ordered-Mem now job jobs m h)) [
            | inl k ↦ inl (Memᴰ.map (lease_job cfg now worker) k)
            | inr (full, later) ↦ inr (
              counted ∙ full,
              Every-mono _ _ (map (lease_job cfg now worker) (limited n rows))
                  (λ c. no_later-IsNoLater c job)
                  (leased_no_later cfg now worker job (limited n rows) later),
            )
          ],
    )
