-- ===== src/Media/History.antt =====
-- What a history of observations leaves behind: one state row and the log of its transitions.
use n_quark.Prelude.{
  ℕ, suc, ◌+◌, ◌≤◌, ◌≡◌, refl, Bool, true, false, not, Option, none, some, List, [], ◌∷◌, ◌++◌,
  arith, count_if, count_if-append,
}
use n_quark.Media.{
  MediaTransition, media_first_seen, media_content_changed, media_disappeared, media_reappeared,
  StateView, ObsFacts, Decision, detect,
}

abbrev is_first_seen : MediaTransition → Bool
is_first_seen media_first_seen = true
is_first_seen _ = false

abbrev is_content_changed : MediaTransition → Bool
is_content_changed media_content_changed = true
is_content_changed _ = false

abbrev is_disappeared : MediaTransition → Bool
is_disappeared media_disappeared = true
is_disappeared _ = false

abbrev is_reappeared : MediaTransition → Bool
is_reappeared media_reappeared = true
is_reappeared _ = false

-- The state row after a decision: a decision without a new state leaves the row alone.
abbrev pub stored : Option StateView → Decision → Option StateView
stored prev d = elim d.new_state [ none ↦ prev | some s ↦ some s ]

-- The row and the log after a list of observations, as MediaService._apply keeps them.
unfoldable pub replay :
    Option StateView
    → List MediaTransition
    → List ObsFacts
    → Option StateView × List MediaTransition
replay prev log [] = (prev, log)
replay prev log (obs ∷ rest) =
    replay (stored prev (detect prev obs)) (log ++ (detect prev obs).transitions) rest

abbrev pub one_if : Bool → ℕ
one_if true = 1
one_if false = 0

-- What the row says agrees with what the log counts.
abbrev pub Accounts : Option StateView → List MediaTransition → Type 0
Accounts none log = log ≡ []
Accounts (some s) log =
    (count_if is_first_seen log ≡ 1)
    × (s.version ≡ suc (count_if is_content_changed log))
    × (count_if is_disappeared log ≡ count_if is_reappeared log + one_if (not s.present))
    × (s.first_seen_at ≤ s.last_changed_at)
    × (s.last_changed_at ≤ s.last_observed_at)

module _ (log : List MediaTransition) (obs : ObsFacts) where
  first-Accounts :
      log ≡ [] → Accounts (stored none (detect none obs)) (log ++ (detect none obs).transitions)
  unfolding detect
  first-Accounts h = rw h (ground arith)

  later-Accounts :
      (prev : StateView)
      → Accounts (some prev) log
      → Accounts
          (stored (some prev) (detect (some prev) obs))
          (log ++ (detect (some prev) obs).transitions)
  unfolding detect
  later-Accounts prev h = ground (
    arith,
    count_if-append is_first_seen log (detect (some prev) obs).transitions,
    count_if-append is_content_changed log (detect (some prev) obs).transitions,
    count_if-append is_disappeared log (detect (some prev) obs).transitions,
    count_if-append is_reappeared log (detect (some prev) obs).transitions,
  )

detect-Accounts :
    (prev : Option StateView) (log : List MediaTransition) (obs : ObsFacts)
    → Accounts prev log
    → Accounts (stored prev (detect prev obs)) (log ++ (detect prev obs).transitions)
detect-Accounts none log obs h = first-Accounts log obs h
detect-Accounts (some s) log obs h = later-Accounts log obs s h

replay-Accounts :
    (prev : Option StateView) (log : List MediaTransition) (history : List ObsFacts)
    → Accounts prev log
    → Accounts (replay prev log history).0 (replay prev log history).1
unfolding replay
replay-Accounts prev log [] h = h
replay-Accounts prev log (obs ∷ rest) h =
    replay-Accounts (stored prev (detect prev obs)) (log ++ (detect prev obs).transitions) rest
      (detect-Accounts prev log obs h)

-- From no row and an empty log, after any observations in any order of arrival: either there is
-- no row and nothing is logged, or the log holds exactly one MEDIA_FIRST_SEEN, the version is one
-- more than the number of MEDIA_CONTENT_CHANGED, there are as many MEDIA_DISAPPEARED as
-- MEDIA_REAPPEARED (one more where the row is absent), and the row's instants are ordered.
pub history-Accounts :
    (history : List ObsFacts) → Accounts (replay none [] history).0 (replay none [] history).1
history-Accounts history = replay-Accounts none [] history refl

-- How recent the row is.
abbrev seen_until : Option StateView → ℕ
seen_until none = 0
seen_until (some s) = s.last_observed_at

seen_until-detect :
    (prev : Option StateView) (obs : ObsFacts)
    → seen_until prev ≤ seen_until (stored prev (detect prev obs))
unfolding detect
seen_until-detect none obs = ground arith
seen_until-detect (some s) obs = ground arith
