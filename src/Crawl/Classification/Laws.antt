-- ===== src/Crawl/Classification/Laws.antt =====
-- The retry policy: outcomes exclude one another, delays are bounded, and tries come to an end.
use native.Mathlib.Nat.{pow-suc}
use n_quark.Prelude.{
  ℕ, zero, suc, ◌-◌, ◌*◌, ◌^◌, ◌≤◌, min, max, ◌≡◌, ◌≢◌, ◌⊎◌, ◌↔◌, true, false, Option, none, some,
  arith,
}
use n_quark.Crawl.Classification.{
  ResultCode, success_record_absent, rate_limited, RetryDecision, Policy, backoff_seconds,
  decide_retry, ShadowStatus, shadow_capture_status,
}

-- A success, a retry after a delay, or a terminal failure, and nothing else at once.
abbrev IsOneOf : RetryDecision → Type 0
IsOneOf d =
    ((d.is_success ≡ true)
      × (d.should_retry ≡ false)
      × (d.terminal ≡ false)
      × (d.backoff_seconds ≡ none)
      × (d.needs_review ≡ false))
    ⊎ (((d.is_success ≡ false)
          × (d.should_retry ≡ true)
          × (d.terminal ≡ false)
          × (d.backoff_seconds ≢ none)
          × (d.needs_review ≡ false))
        ⊎ ((d.is_success ≡ false)
            × (d.should_retry ≡ false)
            × (d.terminal ≡ true)
            × (d.backoff_seconds ≡ none)))

-- Every result is exactly one of a success, a retry and a terminal failure; a delay is given
-- exactly for a retry, and manual review is asked for only at a terminal failure.
decide_retry-IsOneOf :
    (code : ResultCode) (attempt : ℕ) (p : Policy) (after : Option ℕ)
    → IsOneOf (decide_retry code attempt p after)
unfolding decide_retry
decide_retry-IsOneOf code attempt p after = ground arith

-- A failed request is never evidence of absence: exactly SUCCESS_RECORD_ABSENT is authoritative,
-- and of the results submitted to the Shadow Ledger exactly it is submitted as an absent record.
absence_needs_success :
    (code : ResultCode) (attempt : ℕ) (p : Policy) (after : Option ℕ)
    → (((decide_retry code attempt p after).is_authoritative_absence ≡ true)
        ↔ (code ≡ success_record_absent))
      × ((shadow_capture_status code ≡ some ShadowStatus.capture_success_record_absent)
          ↔ (code ≡ success_record_absent))
unfolding decide_retry shadow_capture_status
absence_needs_success code attempt p after = ground arith

pow_pos : (b : ℕ) → 1 ≤ 2 ^ b
pow_pos zero = omega arith
pow_pos (suc b) = omega (arith, pow-suc 2 b, pow_pos b)

pow_mono : (a b : ℕ) → a ≤ b → 2 ^ a ≤ 2 ^ b
pow_mono zero b h = pow_pos b
pow_mono (suc a) zero h = absurd (omega arith)
pow_mono (suc a) (suc b) h = omega (arith, pow-suc 2 a, pow-suc 2 b, pow_mono a b (omega arith))

mul_pow_mono : (base a b : ℕ) → a ≤ b → base * 2 ^ a ≤ base * 2 ^ b
mul_pow_mono base a b h = grind (arith, pow_mono a b h)

-- The backoff grows with the attempt, starts at the base (or the cap) and never passes the cap.
backoff_seconds_bounds :
    (a b base cap : ℕ)
    → a ≤ b
    → (backoff_seconds a base cap ≤ backoff_seconds b base cap)
      × (min base cap ≤ backoff_seconds a base cap)
      × (backoff_seconds a base cap ≤ cap)
unfolding backoff_seconds
backoff_seconds_bounds a b base cap h = (
  omega (arith, mul_pow_mono base (a - 1) (b - 1) (omega arith)),
  omega (arith, mul_pow_mono base 0 (a - 1) (omega arith)),
  omega arith,
)

-- A retry waits no longer than the cap, unless the source was rate limiting and named a delay of
-- its own, which is then the delay.
retry_delay :
    (code : ResultCode) (attempt : ℕ) (p : Policy) (after : Option ℕ) (delay : ℕ)
    → (decide_retry code attempt p after).backoff_seconds ≡ some delay
    → (delay ≤ p.backoff_cap) ⊎ ((code ≡ rate_limited) × (after ≡ some delay))
unfolding decide_retry backoff_seconds
retry_delay code attempt p after delay h = ground arith

-- From `max max_attempts parser_retry_limit` attempts on nothing is retried.
retries_end :
    (code : ResultCode) (attempt : ℕ) (p : Policy) (after : Option ℕ)
    → max p.max_attempts p.parser_retry_limit ≤ attempt
    → (decide_retry code attempt p after).should_retry ≡ false
unfolding decide_retry
retries_end code attempt p after h = ground arith
