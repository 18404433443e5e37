-- ===== src/Media/Examples.antt =====
-- The theorems at concrete observations: a poster that is seen, moves to another URL and is lost.
use text.Mathlib.Text.{starts_with}
use text.Mathlib.TextPositions.{starts_with-append}
use n_quark.Prelude.{
  ap, ◌∙◌, append, str_eq, eq_iff, Bool-cases, inl, inr, ◌≡◌, refl, String, true, false, Option,
  none, some, arith,
}
use n_quark.Media.{StateView, ObsFacts, Kind, detect}
use n_quark.Media.Replay.{IsContentId}

abbrev poster : StateView
poster = record {
  present = true;
  media_asset_id = some "a1";
  normalized_url = some "http://x/1";
  first_seen_at = 10;
  last_observed_at = 20;
  last_changed_at = 10;
  version = 1;
}

abbrev seen_at : String → Option String → ObsFacts
seen_at url asset = record {
  kind = Kind.present;
  media_asset_id = asset;
  normalized_url = some url;
  observed_at = 30;
  authoritative_absence = false;
}

abbrev lost : ObsFacts
lost = record {
  kind = Kind.absent;
  media_asset_id = none;
  normalized_url = none;
  observed_at = 40;
  authoritative_absence = true;
}

not_url_key : (u : String) → str_eq "a1" (append "url:" u) ≡ false
not_url_key u = elim (Bool-cases (str_eq "a1" (append "url:" u))) [
  | inl same ↦
      let e : false ≡ true =
        ap (λ s. starts_with s "url:") ((eq_iff "a1" (append "url:" u)).0 same)
        ∙ starts_with-append "url:" u in
      absurd (ground arith)
  | inr other ↦ other
]

a1-IsContentId : IsContentId "a1"
a1-IsContentId = (refl, not_url_key)

abbrev moved : StateView
moved = record poster { normalized_url = some "http://x/2"; last_observed_at = 30 }

becomes_moved : (detect (some poster) (seen_at "http://x/2" (some "a1"))).new_state ≡ some moved
unfolding detect
becomes_moved = refl
