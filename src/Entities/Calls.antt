-- ===== src/Entities/Calls.antt =====
-- The calls of repository.py that go through the others: artists, Spotify ids and the two lookups.
use mathlib.Core.Option.{some_inj}
use n_quark.Prelude.{
  Every, ◌≡◌, refl, ◌∙◌, sym, inl, inr, String, Bool, true, false, Option, none, some, List, [],
  ◌∷◌, arith, append, str_eq, is_some, eq_iff, subst, Bool-cases, Option-cases,
}
use n_quark.Prelude.Time.{Time}
use n_quark.Entities.{
  EntityRecord, EntityAliasRecord, Tables, entity_not_found, Result, ok, failed, Naming, EntityRead,
  to_entity_read, EntityResolve, EntityResolveResponse, find_alias, find_entity, create_entity,
  resolve_entity,
}
use n_quark.Entities.Laws.{IsConsistent, resolve_entity-IsStep, find_entity_key}
use n_quark.Entities.Resolution.{resolve_entity-IsAnswered}

pub record ArtistCreate (M : Type 0) : Type 0 where
  pub display_name : String
  pub slug : Option String
  pub metadata : M
  pub aliases : List String
  pub alias_source : String

find_alias-Every :
    (P : EntityAliasRecord → Type 0) (key : String) (rows : List EntityAliasRecord)
    (a : EntityAliasRecord)
    → find_alias key rows ≡ some a
    → Every P rows
    → P a
unfolding find_alias
find_alias-Every P key [] a h all = ground arith
find_alias-Every P key (x ∷ rows) a h all = elim (Bool-cases (str_eq x.alias_key key)) [
  | inl hit ↦ subst P (some_inj.0 (rw hit at h)) all.0
  | inr miss ↦ find_alias-Every P key rows a (rw miss at h) all.1
]

module _ {M : Type 0} where
  create_artist :
      Naming → ArtistCreate M → Time → Tables M → Result (EntityRead M × Bool × Tables M)
  create_artist n c now t =
      create_entity n
        (record {
          entity_type = "artist";
          display_name = c.display_name;
          metadata = c.metadata;
          aliases = c.aliases;
          alias_source = c.alias_source;
          slug = c.slug;
        })
        now t

  -- `spotify_metadata` makes the dict of the Spotify id.
  resolve_spotify_artist :
      Naming
      → (spotify_metadata : String → M) → String
      → String
      → Time
      → Tables M
      → Result (EntityResolveResponse × Tables M)
  resolve_spotify_artist n spotify_metadata spotify_id display_name now t =
      resolve_entity n
        (record {
          alias = append "artist:spotify:" spotify_id;
          entity_type = "artist";
          display_name = some display_name;
          source = "spotify";
          metadata = spotify_metadata spotify_id;
          create_if_missing = true;
        })
        now t

  read_found : Tables M → Option (EntityRecord M) → Result (EntityRead M)
  read_found t none = failed entity_not_found
  read_found t (some e) = ok (to_entity_read t e)

  unfoldable get_entity : String → Tables M → Result (EntityRead M)
  unfolding read_found
  get_entity id t = read_found t (find_entity id t.entities)

  -- `alias.entity`: the row that the foreign key names.
  read_alias : Tables M → Option EntityAliasRecord → Result (EntityRead M)
  unfolding read_found
  read_alias t none = failed entity_not_found
  read_alias t (some a) = read_found t (find_entity a.canonical_id t.entities)

  unfoldable get_entity_by_alias : String → Tables M → Result (EntityRead M)
  unfolding read_alias
  get_entity_by_alias key t = read_alias t (find_alias key t.aliases)

  -- From consistent tables, after a resolution of an alias, not empty, that succeeds, looking up
  -- the alias and looking up the canonical id of the reply give the same entity, and its id is the
  -- canonical id.
  get_entity_by_alias_resolved :
      (n : Naming) (r : EntityResolve M) (now : Time) (t t' : Tables M)
      (reply : EntityResolveResponse)
      → IsConsistent t
      → str_eq r.alias "" ≡ false
      → resolve_entity n r now t ≡ ok (reply, t')
      → (e : EntityRead M) × ((get_entity_by_alias r.alias t' ≡ ok e)
          × (get_entity reply.canonical_id t' ≡ ok e)
          × (e.entity.id ≡ reply.canonical_id))
  unfolding get_entity_by_alias get_entity read_alias read_found
  get_entity_by_alias_resolved n r now t t' reply h named done =
      let (a, (found, same)) = rw done at (resolve_entity-IsAnswered n r now t named) in
      let step = rw done at (resolve_entity-IsStep n r now t) in
      let own =
        find_alias-Every (λ x. is_some (find_entity x.canonical_id t'.entities) ≡ true) r.alias
          t'.aliases a found (step.consistent h).owned in
      elim (Option-cases (find_entity a.canonical_id t'.entities)) [
        | inl missing ↦ ground (arith, own, missing)
        | inr (e, entity) ↦ (
          to_entity_read t' e,
          (
            rw found (rw entity refl),
            rw (sym same) (rw entity refl),
            (eq_iff e.id a.canonical_id).0 (find_entity_key a.canonical_id t'.entities e entity)
                ∙ same,
          ),
        )
      ]
