-- ===== src/Entities/Examples.antt =====
-- The theorems at a registry with one artist and two aliases, with ℕ for the metadata.
use n_quark.Prelude.{ℕ, ◌≡◌, refl, Bool, true, false, arith, none, some, [], ◌∷◌}
use n_quark.Entities.{
  EntityRecord, EntityAliasRecord, EntityRead, Tables, Result, ok, failed, Naming, EntityCreate,
  EntityResolve, EntityResolveResponse, find_alias, find_entity, create_entity, add_aliases,
  resolve_entity, unique_entity_id, link_aliases, new_aliases,
}
use n_quark.Entities.Laws.{IsConsistent, create_entity-IsConsistent, KeepsAliases}
use n_quark.Entities.Resolution.{resolve_entity_again}

abbrev naming : Naming
naming = record { slugify = λ s. s; suffix = λ k. "0a1b2c3d" }

abbrev artist : EntityRecord ℕ
artist = record {
  id = "artist:aud";
  entity_type = "artist";
  display_name = "aud";
  entity_metadata = 0;
  created_at = 1;
  updated_at = 1;
}

abbrev tables : Tables ℕ
tables = record {
  entities = artist ∷ [];
  aliases =
      record { alias_key = "src:1"; canonical_id = "artist:aud"; source = "s"; created_at = 1 }
      ∷ [];
}

abbrev created : EntityCreate ℕ
created = record {
  entity_type = "artist";
  display_name = "aud";
  metadata = 0;
  aliases = "src:2" ∷ [];
  alias_source = "s";
  slug = none;
}

abbrev request : EntityResolve ℕ
request = record {
  alias = "src:1";
  entity_type = "artist";
  display_name = none;
  source = "s";
  metadata = 0;
  create_if_missing = true;
}

abbrev reply : EntityResolveResponse
reply = record { canonical_id = "artist:aud"; created = false; alias_linked = false }

first_lem : resolve_entity naming request 5 tables ≡ ok (reply, tables)
unfolding resolve_entity find_alias
first_lem = refl

resolve_entity_again_example : resolve_entity naming request 9 tables ≡ ok (reply, tables)
resolve_entity_again_example =
    resolve_entity_again naming request request 5 9 tables tables reply refl first_lem refl

own_lem : find_entity "artist:aud" tables.entities ≡ some artist
unfolding find_entity
own_lem = refl

missing_lem : find_alias "mbid:1" tables.aliases ≡ none
unfolding find_alias
missing_lem = refl

tables-IsConsistent : IsConsistent tables
unfolding find_entity
tables-IsConsistent = record {
  one_entity = λ id. ground arith;
  one_alias = λ key. ground arith;
  owned = (refl, tt);
}

abbrev first_alias : EntityAliasRecord
first_alias = record {
  alias_key = "src:1";
  canonical_id = "artist:aud";
  source = "s";
  created_at = 1;
}

alias_lem : find_alias "src:1" tables.aliases ≡ some first_alias
unfolding find_alias
alias_lem = refl

abbrev created_result : Result (EntityRead ℕ × Bool × Tables ℕ)
created_result = create_entity naming created 5 tables

abbrev created_read : EntityRead ℕ
created_read = elim created_result [
  | ok (e, new, t) ↦ e
  | failed x ↦ record { entity = artist; aliases = [] }
]

abbrev created_tables : Tables ℕ
created_tables = elim created_result [ ok (e, new, t) ↦ t | failed x ↦ tables ]

created_lem : create_entity naming created 5 tables ≡ ok (created_read, true, created_tables)
unfolding create_entity find_entity find_alias unique_entity_id link_aliases new_aliases
created_lem = refl

create_entity-IsConsistent_example :
    IsConsistent created_tables × KeepsAliases tables created_tables × (true ≡ true)
create_entity-IsConsistent_example =
    create_entity-IsConsistent naming created 5 tables created_tables created_read true
      tables-IsConsistent created_lem

abbrev added_result : Result (EntityRead ℕ × Tables ℕ)
added_result = add_aliases "artist:aud" ("mbid:1" ∷ []) "s" 5 tables

abbrev added_read : EntityRead ℕ
added_read = elim added_result [
  | ok (e, t) ↦ e
  | failed x ↦ record { entity = artist; aliases = [] }
]

abbrev added_tables : Tables ℕ
added_tables = elim added_result [ ok (e, t) ↦ t | failed x ↦ tables ]

added_lem : add_aliases "artist:aud" ("mbid:1" ∷ []) "s" 5 tables ≡ ok (added_read, added_tables)
unfolding add_aliases find_entity find_alias link_aliases new_aliases
added_lem = refl
