-- ===== src/Entities/Resolution.antt =====
-- resolve_entity: an alias that was resolved once always resolves to the same entity.
use n_quark.Prelude.{
  ◌≡◌, refl, inl, inr, String, false, not, Option, none, some, List, [], ◌∷◌, ◌++◌, arith, str_eq,
  eq_refl, truthy, if_ind, Option-cases,
}
use n_quark.Prelude.Time.{Time}
use n_quark.Entities.{
  EntityRecord, EntityAliasRecord, Tables, ok, failed, integrity, Naming, EntityResolve,
  EntityResolveResponse, find_alias, find_entity, unique_entity_id, new_aliases, place_alias,
  with_alias, insert_aliases, insert_rows, committed, link_aliases, read_linked, create_at,
  create_under, create_entity, wanted, add_aliases, read_added, add_to, resolved_new, resolve_alias,
  resolve_entity,
}
use n_quark.Entities.Aliases.{Holds}

abbrev row : String → String → String → Time → EntityAliasRecord
row key id source now = record {
  alias_key = key;
  canonical_id = id;
  source = source;
  created_at = now;
}

find_alias-new :
    (key id source : String) (now : Time) (rows : List EntityAliasRecord)
    → find_alias key rows ≡ none
    → find_alias key (rows ++ row key id source now ∷ []) ≡ some (row key id source now)
unfolding find_alias
find_alias-new key id source now [] h = ground (arith, eq_refl key)
find_alias-new key id source now (x ∷ rows) h =
    ground (arith, find_alias-new key id source now rows)

module _ {M : Type 0} where
  -- One new alias is one new row.
  link_one :
      (t : Tables M) (key id source : String) (now : Time)
      → str_eq key "" ≡ false
      → find_alias key t.aliases ≡ none
      → link_aliases t id source now (key ∷ [])
        ≡ ok (record t { aliases = t.aliases ++ row key id source now ∷ [] })
  unfolding link_aliases new_aliases place_alias with_alias insert_rows insert_aliases committed
  link_one t key id source now named missing = rw named (rw missing (rw missing refl))

  -- The reply names the entity of the alias's row.
  abbrev IsAnswered : String → EntityResolveResponse × Tables M → Type 0
  IsAnswered key (reply, t) =
      (a : EntityAliasRecord) × ((find_alias key t.aliases ≡ some a)
        × (a.canonical_id ≡ reply.canonical_id))

  create_at-IsAnswered :
      (r : EntityResolve M) (now : Time) (id : String) (e : Option (EntityRecord M)) (t : Tables M)
      → str_eq r.alias "" ≡ false
      → find_alias r.alias t.aliases ≡ none
      → Holds (IsAnswered r.alias) (resolved_new (create_at (wanted r) now id e t))
  unfolding create_at read_linked resolved_new
  create_at-IsAnswered r now id none t named missing =
      let e : EntityRecord M = record {
        id = id;
        entity_type = r.entity_type;
        display_name = (wanted r).display_name;
        entity_metadata = r.metadata;
        created_at = now;
        updated_at = now;
      } in
      let t' : Tables M = record t { entities = t.entities ++ e ∷ [] } in
      rw (link_one t' r.alias id r.source now named missing) (
        row r.alias id r.source now,
        (find_alias-new r.alias id r.source now t.aliases missing, refl),
      )
  create_at-IsAnswered r now id (some e) t named missing =
      rw (link_one t r.alias e.id r.source now named missing) (
        row r.alias e.id r.source now,
        (find_alias-new r.alias e.id r.source now t.aliases missing, refl),
      )

  create_entity-IsAnswered :
      (n : Naming) (r : EntityResolve M) (now : Time) (t : Tables M)
      → str_eq r.alias "" ≡ false
      → find_alias r.alias t.aliases ≡ none
      → Holds (IsAnswered r.alias) (resolved_new (create_entity n (wanted r) now t))
  unfolding create_entity create_under resolved_new
  create_entity-IsAnswered n r now t named missing =
      elim (Option-cases
        (unique_entity_id n t.entities r.entity_type (wanted r).display_name none)) [
          | inl exhausted ↦ rw exhausted tt
          | inr (id, found) ↦
              rw found (create_at-IsAnswered r now id (find_entity id t.entities) t named missing)
        ]

  pub resolve_entity-IsAnswered :
      (n : Naming) (r : EntityResolve M) (now : Time) (t : Tables M)
      → str_eq r.alias "" ≡ false
      → Holds (IsAnswered r.alias) (resolve_entity n r now t)
  unfolding resolve_entity resolve_alias
  resolve_entity-IsAnswered n r now t named = elim (Option-cases (find_alias r.alias t.aliases)) [
    | inl missing ↦ rw missing (
        if_ind (Holds (IsAnswered r.alias)) (not r.create_if_missing) (λ _. tt)
          (λ _.
            if_ind (Holds (IsAnswered r.alias)) (not (truthy r.display_name)) (λ _. tt)
              (λ _. create_entity-IsAnswered n r now t named missing)))
    | inr (a, found) ↦ rw found (a, (found, refl))
  ]

  -- An alias, not empty, that was resolved once resolves from then on, whatever else the request
  -- says, to the same canonical id; nothing is created or linked and the tables stay as they are.
  pub resolve_entity_again :
      (n : Naming) (r again : EntityResolve M) (now later : Time) (t t' : Tables M)
      (reply : EntityResolveResponse)
      → str_eq r.alias "" ≡ false
      → resolve_entity n r now t ≡ ok (reply, t')
      → again.alias ≡ r.alias
      → resolve_entity n again later t'
        ≡ ok (
          record { canonical_id = reply.canonical_id; created = false; alias_linked = false },
          t',
        )
  unfolding resolve_entity resolve_alias
  resolve_entity_again n r again now later t t' reply named first same =
      let (a, (found, e)) = rw first at (resolve_entity-IsAnswered n r now t named) in
      rw same (rw found (rw e refl))

  -- A list that holds one new alias twice is refused by the primary key, although linking an alias
  -- again in a later call does nothing.
  add_aliases_twice :
      (e : EntityRecord M) (key id source : String) (now : Time) (t : Tables M)
      → find_entity id t.entities ≡ some e
      → str_eq key "" ≡ false
      → find_alias key t.aliases ≡ none
      → add_aliases id (key ∷ key ∷ []) source now t ≡ failed integrity
  unfolding add_aliases add_to read_added link_aliases new_aliases place_alias with_alias
      insert_rows insert_aliases committed
  add_aliases_twice e key id source now t own named missing = rw own (
      rw named
        (rw missing (rw missing (rw (find_alias-new key e.id source now t.aliases missing) refl))))
