-- ===== src/Crawl/Priority.antt =====
-- services/crawl-service/crawl_service/priority.py: the explainable priority of a capture.
pub mod Laws
use n_quark.Prelude.{
  ℕ, ◌+◌, ◌-◌, ◌*◌, min, String, Bool, true, false, not, ◌&&◌, Option, none, some, List, [], ◌∷◌,
  ◌++◌, ltb, leb, ◌==◌, if◌then◌else◌, truthy, or_empty, is_nil, lowered_member, lower,
}
use n_quark.Prelude.Time.{Time, hours, days}
use n_quark.Crawl.Cadence.{in_onsale_burst}

pub data Component : Type 0 where
  urgency onsale_burst recent_transition priority_city : Component

pub record Signals : Type 0 where
  pub starts_at : Option Time
  pub on_sale_at : Option Time
  pub last_state_change_at : Option Time
  pub consecutive_failures : ℕ
  pub city : Option String
  pub city_allowlist : List String

-- The components dict: the positive entries in the order of insertion, and the size of the
-- negative `failure_penalty`, 0 where the dict has none.
pub record Components : Type 0 where
  pub positive : List (Component × ℕ)
  pub failure_penalty : ℕ

urgency_of : Option Time → Time → ℕ
urgency_of none now = 15
urgency_of (some start) now =
    if ltb start now
    then 20
    else if ltb start (now + days 1)
    then 50
    else if leb start (now + days 14)
    then 40
    else if leb start (now + days 30)
    then 25
    else 10

recently_changed : Option Time → Time → Bool
recently_changed none now = false
recently_changed (some changed) now = leb now (changed + days 7)

strategic_city : Option String → List String → Bool
unfolding lower
strategic_city city allow =
    truthy city && not (is_nil allow) && lowered_member (or_empty city) allow

abbrev entry : Bool → Component → ℕ → List (Component × ℕ)
entry true c n = (c, n) ∷ []
entry false c n = []

pub components : Time → Signals → Components
unfolding urgency_of recently_changed strategic_city
components now s = record {
  positive =
      (urgency, urgency_of s.starts_at now)
      ∷ (entry (in_onsale_burst s.on_sale_at now) onsale_burst 20
          ++ (entry (recently_changed s.last_state_change_at now) recent_transition 15
              ++ entry (strategic_city s.city s.city_allowlist) priority_city 10));
  failure_penalty = 5 * min s.consecutive_failures 3;
}

abbrev total : List (Component × ℕ) → ℕ
total [] = 0
total ((c, n) ∷ rest) = n + total rest

-- `max(0, min(100, sum))`; the subtraction stops at 0, as `max` does.
score_of : Components → ℕ
score_of c = min 100 (total c.positive - c.failure_penalty)

-- `max(...)` by value: the first of the largest, in the order of insertion.
largest : Component × ℕ → List (Component × ℕ) → Component × ℕ
largest best [] = best
largest best (c ∷ rest) = largest (if ltb best.1 c.1 then c else best) rest

dominant_of : List (Component × ℕ) → Component
unfolding largest
dominant_of [] = urgency
dominant_of (c ∷ rest) = (largest c rest).0

unfoldable pub compute_priority : Time → Signals → ℕ × Component × Components
unfolding components score_of dominant_of
compute_priority now s = let c = components now s in (score_of c, dominant_of c.positive, c)
