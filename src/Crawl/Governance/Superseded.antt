-- ===== src/Crawl/Governance/Superseded.antt =====
-- services/crawl-service/crawl_service/governance.py: superseded_map, whatever an operator does.
use n_quark.Prelude.{
  ◌≡◌, refl, String, Bool, false, Option, none, some, List, [], ◌∷◌, arith, if◌then◌else◌, str_eq,
  eq_iff,
}
use n_quark.Prelude.Time.{Time}
use n_quark.Crawl.Governance.{
  EntitySupersession, GovernanceTables, Network, GraphClient, Governed, decided,
}
use n_quark.Crawl.Governance.Accept.{accepted}
use n_quark.Crawl.Governance.Creation.{Normalizers}
use n_quark.Crawl.Governance.Artists.{register_external_artist}
use n_quark.Crawl.Governance.Supersede.{find_supersession, superseded_map}
use n_quark.Crawl.Governance.Legacy.{IsFunctional, UniqueLegacy, has_legacy}
use n_quark.Crawl.Governance.Commands.{Command, run, step}
use n_quark.Crawl.Governance.Changes.{
  Change, same, accepts, rejects, unresolves, reverses, registers, supersedes, next,
}
use n_quark.Crawl.Governance.Steps.{step-Change}

register-supersessions :
    (n : Normalizers) (id cid name : String) (now : Time) (t u : GovernanceTables) (added : Bool)
    → register_external_artist n id cid name now t ≡ some (added, u)
    → u.supersessions ≡ t.supersessions
unfolding register_external_artist
register-supersessions n id cid name now t u added made = ground (arith, made)

Change-IsFunctional :
    {r : Bool} (t u : GovernanceTables)
    → Change r t u
    → IsFunctional t.supersessions
    → IsFunctional u.supersessions
unfolding accepted decided
Change-IsFunctional t u same f = f
Change-IsFunctional t u (accepts i now c found free) f = f
Change-IsFunctional t u (rejects id reason now c found) f = f
Change-IsFunctional t u (unresolves id reason now c found) f = f
Change-IsFunctional t u (reverses i now c found allowed) f = f
Change-IsFunctional t u (registers n id cid name now added made) f =
    rw (register-supersessions n id cid name now t u added made) f
Change-IsFunctional t u (supersedes rows keep) f = keep f
Change-IsFunctional t u (next first second) f =
    Change-IsFunctional _ u second (Change-IsFunctional t _ first f)

-- The target that the map gives for a legacy id: that of its row, if that is active.
abbrev target_of : Option EntitySupersession → Option String
target_of none = none
target_of (some x) = if x.active then some x.canonical_entity_id else none

unfoldable pub target_in : String → List (String × String) → Option String
target_in legacy [] = none
target_in legacy ((a, b) ∷ rest) = if str_eq a legacy then some b else target_in legacy rest

not_listed :
    (legacy : String) (rows : List EntitySupersession)
    → has_legacy rows legacy ≡ false
    → target_in legacy (superseded_map rows) ≡ none
unfolding find_supersession superseded_map target_in
not_listed legacy [] h = refl
not_listed legacy (x ∷ rest) h = ground (arith, h, not_listed legacy rest)

target_in-map :
    (legacy : String) (rows : List EntitySupersession)
    → UniqueLegacy rows
    → target_in legacy (superseded_map rows) ≡ target_of (find_supersession legacy rows)
unfolding find_supersession superseded_map target_in
target_in-map legacy [] u = refl
target_in-map legacy (x ∷ rest) u = ground (
  arith,
  u,
  target_in-map legacy rest u.1,
  not_listed legacy rest,
  eq_iff x.legacy_entity_id legacy,
)

-- What `superseded_map` says of the rows.
pub record IsResolved (rows : List EntitySupersession) : Type 0 where
  pub by_row :
      (legacy : String)
      → target_in legacy (superseded_map rows) ≡ target_of (find_supersession legacy rows)
  pub functional : IsFunctional rows

module _ {V : Type 0} (n : Normalizers) (k : GraphClient V) where
  run-IsFunctional :
      (cs : List (Network × Time × Command V)) (w : Governed V)
      → IsFunctional w.tables.supersessions
      → IsFunctional (run n k cs w).tables.supersessions
  unfolding run
  run-IsFunctional [] w f = f
  run-IsFunctional ((net, now, c) ∷ rest) w f =
      run-IsFunctional rest (step n k net now c w)
        (Change-IsFunctional w.tables _ (step-Change n k net now c w) f)

  -- From supersessions with one row for a legacy id and none from an id to itself, any commands
  -- leave such rows, and for every id the map of supersessions gives the target of its one row
  -- while that is active, and otherwise none.
  pub run-IsResolved :
      (cs : List (Network × Time × Command V)) (w : Governed V)
      → IsFunctional w.tables.supersessions
      → IsResolved (run n k cs w).tables.supersessions
  run-IsResolved cs w f =
      let g = run-IsFunctional cs w f in
      record {
        by_row = λ legacy. target_in-map legacy (run n k cs w).tables.supersessions g.unique;
        functional = g;
      }
