-- ===== src/Crawl/Priority/Laws.antt =====
-- The priority: its range, what failures cost, and the reason that is given for it.
use mathlib.Core.List.{Memᴰ}
use n_quark.Prelude.{
  ℕ, ◌+◌, ◌≤◌, ◌≡◌, refl, ◌∙◌, ◌⊎◌, inl, inr, List, [], ◌∷◌, arith, ltb, if◌then◌else◌,
}
use n_quark.Prelude.Time.{Time}
use n_quark.Crawl.Priority.{
  Component, Signals, components, score_of, largest, dominant_of, compute_priority,
}

-- No entry is larger than `n`.
abbrev AtMost : ℕ → List (Component × ℕ) → Type 0
AtMost n [] = Unit
AtMost n ((c, k) ∷ rest) = (k ≤ n) × AtMost n rest

AtMost-mono : (m n : ℕ) (l : List (Component × ℕ)) → m ≤ n → AtMost m l → AtMost n l
AtMost-mono m n [] h a = tt
AtMost-mono m n ((c, k) ∷ rest) h a = (omega arith, AtMost-mono m n rest h a.1)

-- The entry kept by one round of `largest`.
pick-cases :
    (best c : Component × ℕ)
    → (((if ltb best.1 c.1 then c else best) ≡ c) × (best.1 ≤ c.1))
      ⊎ (((if ltb best.1 c.1 then c else best) ≡ best) × (c.1 ≤ best.1))
pick-cases best c = ground arith

largest-AtMost :
    (best : Component × ℕ) (l : List (Component × ℕ)) → AtMost (largest best l).1 (best ∷ l)
unfolding largest
largest-AtMost best [] = (omega arith, tt)
largest-AtMost best (c ∷ rest) =
    let next = if ltb best.1 c.1 then c else best in
    let h = largest-AtMost next rest in
    let kept : (best.1 ≤ next.1) × (c.1 ≤ next.1) = ground arith in
    (omega arith, (omega arith, h.1))

largest-mem : (best : Component × ℕ) (l : List (Component × ℕ)) → Memᴰ (largest best l) (best ∷ l)
unfolding largest
largest-mem best [] = Memᴰ.head refl
largest-mem best (c ∷ rest) =
    skip (pick-cases best c) (largest-mem (if ltb best.1 c.1 then c else best) rest)
  where
    skip :
        {next r : Component × ℕ}
        → ((next ≡ c) × (best.1 ≤ c.1)) ⊎ ((next ≡ best) × (c.1 ≤ best.1))
        → Memᴰ r (next ∷ rest)
        → Memᴰ r (best ∷ c ∷ rest)
    skip (inl p) (Memᴰ.head e) = Memᴰ.tail (Memᴰ.head (e ∙ p.0))
    skip (inr p) (Memᴰ.head e) = Memᴰ.head (e ∙ p.0)
    skip p (Memᴰ.tail m) = Memᴰ.tail (Memᴰ.tail m)

dominant_of_lem :
    (c : Component × ℕ) (rest : List (Component × ℕ))
    → (v : ℕ) × Memᴰ (dominant_of (c ∷ rest), v) (c ∷ rest) × AtMost v (c ∷ rest)
unfolding dominant_of
dominant_of_lem c rest = ((largest c rest).1, largest-mem c rest, largest-AtMost c rest)

-- The score lies between 0 and 100, and the reason given with it names an entry of the components
-- than which no positive entry is larger.
compute_priority_reason :
    (now : Time) (s : Signals)
    → let (score, reason, c) = compute_priority now s in
      (score ≤ 100) × ((v : ℕ) × Memᴰ (reason, v) c.positive × AtMost v c.positive)
unfolding compute_priority components score_of
compute_priority_reason now s = (omega arith, dominant_of_lem _ _)

abbrev with_failures : ℕ → Signals → Signals
with_failures n s = record s { consecutive_failures = n }

-- Failures alone never raise the score, and they cost at most 15 points, however many they are.
compute_priority_failures :
    (now : Time) (s : Signals) (m n : ℕ)
    → m ≤ n
    → ((compute_priority now (with_failures n s)).0 ≤ (compute_priority now (with_failures m s)).0)
      × ((compute_priority now (with_failures m s)).0
          ≤ (compute_priority now (with_failures n s)).0 + 15)
unfolding compute_priority components score_of
compute_priority_failures now s m n h = omega arith
