-- ===== src/Crawl/Governance/Legacy.antt =====
-- services/crawl-service/crawl_service/governance.py: the rows of supersessions as a function from
-- legacy ids to canonical ones.
use n_quark.Prelude.{
  ◌≡◌, refl, subst, Bool-cases, inl, inr, String, Bool, true, false, not, ◌&&◌, Option, none, some,
  List, [], ◌∷◌, ◌++◌, arith, if◌then◌else◌, str_eq, is_some, eq_iff, Every, Every-append,
}
use n_quark.Prelude.Time.{Time}
use n_quark.Crawl.Governance.{EntitySupersession}
use n_quark.Crawl.Governance.Supersede.{
  SupersedeInput, find_supersession, put_supersession, supersede_found, unsupersede_found,
}

abbrev pub has_legacy : List EntitySupersession → String → Bool
has_legacy rows id = is_some (find_supersession id rows)

abbrev pub UniqueLegacy : List EntitySupersession → Type 0
UniqueLegacy [] = Unit
UniqueLegacy (x ∷ rest) = (has_legacy rest x.legacy_entity_id ≡ false) × UniqueLegacy rest

-- A legacy id has one row, and none leads to itself.
pub record IsFunctional (rows : List EntitySupersession) : Type 0 where
  pub unique : UniqueLegacy rows
  pub no_loop : Every (λ x. str_eq x.legacy_entity_id x.canonical_entity_id ≡ false) rows

has_legacy-append :
    (id : String) (rows : List EntitySupersession) (x : EntitySupersession)
    → has_legacy (rows ++ x ∷ []) id
      ≡ (if has_legacy rows id then true else str_eq x.legacy_entity_id id)
unfolding find_supersession
has_legacy-append id [] x = ground arith
has_legacy-append id (y ∷ rest) x = ground (arith, has_legacy-append id rest x)

has_legacy-put :
    (id : String) (x : EntitySupersession) (rows : List EntitySupersession)
    → has_legacy (put_supersession x rows) id ≡ has_legacy rows id
unfolding find_supersession put_supersession
has_legacy-put id x [] = refl
has_legacy-put id x (y ∷ rest) =
    ground (arith, has_legacy-put id x rest, eq_iff y.legacy_entity_id x.legacy_entity_id)

UniqueLegacy-append :
    (rows : List EntitySupersession) (x : EntitySupersession)
    → UniqueLegacy rows
    → has_legacy rows x.legacy_entity_id ≡ false
    → UniqueLegacy (rows ++ x ∷ [])
unfolding find_supersession
UniqueLegacy-append [] x u h = (refl, tt)
UniqueLegacy-append (y ∷ rest) x u h = ground (
  arith,
  UniqueLegacy-append rest x u.1,
  has_legacy-append y.legacy_entity_id rest x,
  eq_iff y.legacy_entity_id x.legacy_entity_id,
  eq_iff x.legacy_entity_id y.legacy_entity_id,
)

IsFunctional-put :
    (x : EntitySupersession) (rows : List EntitySupersession)
    → str_eq x.legacy_entity_id x.canonical_entity_id ≡ false
    → IsFunctional rows
    → IsFunctional (put_supersession x rows)
unfolding put_supersession
IsFunctional-put x [] h f = f
IsFunctional-put x (y ∷ rest) h f = ground (
  arith,
  IsFunctional-put x rest h (record { unique = f.unique.1; no_loop = f.no_loop.1 }),
  f.unique,
  f.no_loop,
  has_legacy-put y.legacy_entity_id x rest,
  eq_iff y.legacy_entity_id x.legacy_entity_id,
)

found_no_loop :
    (id : String) (rows : List EntitySupersession) (x : EntitySupersession)
    → find_supersession id rows ≡ some x
    → Every (λ y. str_eq y.legacy_entity_id y.canonical_entity_id ≡ false) rows
    → (x.legacy_entity_id ≡ id) × (str_eq x.legacy_entity_id x.canonical_entity_id ≡ false)
unfolding find_supersession
found_no_loop id [] x h e = cc
found_no_loop id (y ∷ rest) x h e =
    ground (arith, found_no_loop id rest x, h, e, eq_iff y.legacy_entity_id id)

some_eq :
    {a b : List EntitySupersession}
    → ◌≡◌ {A = Option (List EntitySupersession)} (some a) (some b)
    → a ≡ b
some_eq h = cc

pair_eq :
    {c d : String} {a b : List EntitySupersession}
    → ◌≡◌ {A = Option (String × List EntitySupersession)} (some (c, a)) (some (d, b))
    → a ≡ b
pair_eq h = ground (arith, h)

pub supersede_found-IsFunctional :
    (i : SupersedeInput) (now : Time) (o : Option EntitySupersession)
    (rows rows' : List EntitySupersession)
    → find_supersession i.legacy_entity_id rows ≡ o
    → str_eq i.legacy_entity_id i.canonical_entity_id ≡ false
    → supersede_found i now o rows ≡ some rows'
    → IsFunctional rows
    → IsFunctional rows'
unfolding supersede_found
supersede_found-IsFunctional i now none rows rows' h ne made f =
    subst IsFunctional (some_eq made) (record {
      unique = UniqueLegacy-append rows _ f.unique (rw h);
      no_loop = Every-append _ rows _ f.no_loop (ne, tt);
    })
supersede_found-IsFunctional i now (some x) rows rows' h ne made f =
    elim (Bool-cases (x.active && not (str_eq x.canonical_entity_id i.canonical_entity_id))) [
      | inl b ↦ cc (rw b at made)
      | inr b ↦ subst IsFunctional (some_eq (rw b at made)) (
          IsFunctional-put _ rows (rw ((found_no_loop i.legacy_entity_id rows x h f.no_loop).0) ne)
            f)
    ]

pub unsupersede_found-IsFunctional :
    (legacy : String) (now : Time) (o : Option EntitySupersession) (canonical : String)
    (rows rows' : List EntitySupersession)
    → find_supersession legacy rows ≡ o
    → unsupersede_found now o rows ≡ some (canonical, rows')
    → IsFunctional rows
    → IsFunctional rows'
unfolding unsupersede_found
unsupersede_found-IsFunctional legacy now none canonical rows rows' h made f = cc
unsupersede_found-IsFunctional legacy now (some x) canonical rows rows' h made f =
    elim (Bool-cases x.active) [
      | inl b ↦
          subst IsFunctional (pair_eq (rw b at made))
            (IsFunctional-put _ rows ((found_no_loop legacy rows x h f.no_loop).1) f)
      | inr b ↦ cc (rw b at made)
    ]
