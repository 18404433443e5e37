-- ===== src/Media/Replay.antt =====
-- Single observations: idempotence, identity across URLs, and what a late or failed one does.

use n_quark.Prelude.{
  refl, ◌&&◌, ◌+◌, ◌≤◌, ◌≡◌, String, true, false, not, Option, none, some, [], ◌∷◌, arith, append,
  truthy, or_empty, opt_str_eq, str_eq, eq_iff, eq_refl,
}
use n_quark.Media.{
  media_content_changed, media_url_changed_same_content, StateView, ObsFacts, Kind, identity_key,
  detect,
}

-- A content id as the service makes them: not empty, and not of the form of a URL key.
abbrev pub IsContentId : String → Type 0
IsContentId a = (str_eq a "" ≡ false) × ((u : String) → str_eq a (append "url:" u) ≡ false)

-- The row `s` already says what `obs` says.
abbrev Says : StateView → ObsFacts → String → Type 0
Says s obs a =
    (s.present ≡ true)
    × (s.media_asset_id ≡ some a)
    × ((truthy obs.normalized_url && not (opt_str_eq obs.normalized_url s.normalized_url)) ≡ false)
    × (s.last_observed_at ≡ obs.observed_at)

opt_str_eq_refl : (t : Option String) → opt_str_eq t t ≡ true
opt_str_eq_refl none = refl
opt_str_eq_refl (some t) = eq_refl t

module _ (obs : ObsFacts) (a : String) (s : StateView) (k : obs.kind ≡ Kind.present)
    (has : obs.media_asset_id ≡ some a) (id : IsContentId a) where
  first-Says : (detect none obs).new_state ≡ some s → Says s obs a
  unfolding detect
  first-Says e = ground (arith, opt_str_eq_refl obs.normalized_url)

  later-Says : (p : StateView) → (detect (some p) obs).new_state ≡ some s → Says s obs a
  unfolding detect identity_key
  later-Says p e = ground (
    arith,
    opt_str_eq_refl obs.normalized_url,
    eq_iff a (or_empty p.media_asset_id),
    id.0,
    id.1 (or_empty p.normalized_url),
  )

  settled :
      Says s obs a
      → ((detect (some s) obs).transitions ≡ []) × ((detect (some s) obs).new_state ≡ some s)
  unfolding detect identity_key
  settled h = ground (arith, eq_refl a, id.0)

-- A present observation that carries a content id is idempotent: whatever the row was, from the
-- row that it leaves, observing the same again emits nothing and leaves that row.
detect-idem_content :
    (prev : Option StateView) (obs : ObsFacts) (a : String) (s : StateView)
    → obs.kind ≡ Kind.present
    → obs.media_asset_id ≡ some a
    → IsContentId a
    → (detect prev obs).new_state ≡ some s
    → ((detect (some s) obs).transitions ≡ []) × ((detect (some s) obs).new_state ≡ some s)
detect-idem_content none obs a s k has id e =
    settled obs a s k has id (first-Says obs a s k has id e)
detect-idem_content (some p) obs a s k has id e =
    settled obs a s k has id (later-Says obs a s k has id p e)

-- Content that is already current, seen at another URL, is a change of URL only: for a present row
-- with content id `a` and an observation of `a` that is not late, whose URL is known and differs,
-- exactly MEDIA_URL_CHANGED_SAME_CONTENT is emitted, the version stays and the URL is replaced.
detect-same_content :
    (prev : StateView) (obs : ObsFacts) (a : String)
    → obs.kind ≡ Kind.present
    → prev.present ≡ true
    → prev.media_asset_id ≡ some a
    → obs.media_asset_id ≡ some a
    → str_eq a "" ≡ false
    → prev.last_observed_at ≤ obs.observed_at
    → truthy obs.normalized_url ≡ true
    → opt_str_eq obs.normalized_url prev.normalized_url ≡ false
    → ((detect (some prev) obs).transitions ≡ media_url_changed_same_content ∷ [])
      × ((detect (some prev) obs).new_state
          ≡ some (record prev {
            normalized_url = obs.normalized_url;
            last_observed_at = obs.observed_at;
          }))
unfolding detect identity_key
detect-same_content prev obs a k p pa oa t l u n = ground (arith, eq_refl a)

-- A present observation of the current URL without a content id (fetching is off), of a present
-- row with a content id: MEDIA_CONTENT_CHANGED is emitted, the version grows and the content id is
-- lost, although neither the URL nor the content was seen to change.
detect-url_only :
    (prev : StateView) (obs : ObsFacts) (a : String)
    → obs.kind ≡ Kind.present
    → prev.present ≡ true
    → prev.media_asset_id ≡ some a
    → IsContentId a
    → obs.media_asset_id ≡ none
    → obs.normalized_url ≡ prev.normalized_url
    → prev.last_observed_at ≤ obs.observed_at
    → ((detect (some prev) obs).transitions ≡ media_content_changed ∷ [])
      × ((detect (some prev) obs).new_state
          ≡ some (record prev {
            media_asset_id = none;
            last_observed_at = obs.observed_at;
            last_changed_at = obs.observed_at;
            version = prev.version + 1;
          }))
unfolding detect identity_key
detect-url_only prev obs a k p pa id oa u l = ground (
  arith,
  eq_iff a (append "url:" (or_empty prev.normalized_url)),
  eq_iff (append "url:" (or_empty prev.normalized_url)) a,
  id.0,
  id.1 (or_empty prev.normalized_url),
)
