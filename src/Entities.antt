-- ===== src/Entities.antt =====
-- services/entity-service/entity_service/repository.py over the two tables of models.py: canonical
-- entities and the aliases that point to them. A call that raises commits nothing.
pub mod Aliases
pub mod Laws
pub mod Resolution
pub mod Calls
mod Examples
use n_quark.Prelude.{
  ℕ, zero, suc, String, Bool, true, false, not, ◌&&◌, ◌||◌, Option, none, some, List, [], ◌∷◌, ◌++◌,
  if◌then◌else◌, append, str_eq, truthy, or_empty, is_some,
}
use n_quark.Prelude.Time.{Time}

-- `M` stands for the JSON dict of metadata.
pub record EntityRecord (M : Type 0) : Type 0 where
  pub id : String
  pub entity_type : String
  pub display_name : String
  pub entity_metadata : M
  pub created_at : Time
  pub updated_at : Time

pub record EntityAliasRecord : Type 0 where
  pub alias_key : String
  pub canonical_id : String
  pub source : String
  pub created_at : Time

pub record Tables (M : Type 0) : Type 0 where
  pub entities : List (EntityRecord M)
  pub aliases : List EntityAliasRecord

-- EntityNotFoundError, the three EntityResolutionErrors, and the driver's IntegrityError.
pub data EntityError : Type 0 where
  entity_not_found alias_conflict ids_exhausted display_name_required : EntityError
  integrity : EntityError

pub data Result {ℓ} (A : Type ℓ) : Type ℓ where
  ok : A → Result A
  failed : EntityError → Result A

-- What the allocation of ids takes from text processing and from uuid4, the candidates of one call
-- in their order.
pub record Naming : Type 0 where
  pub slugify : String → String
  pub suffix : ℕ → String

unfoldable pub find_alias : String → List EntityAliasRecord → Option EntityAliasRecord
find_alias key [] = none
find_alias key (a ∷ rest) = if str_eq a.alias_key key then some a else find_alias key rest

unfoldable pub find_entity : {M : Type 0} → String → List (EntityRecord M) → Option (EntityRecord M)
find_entity id [] = none
find_entity id (e ∷ rest) = if str_eq e.id id then some e else find_entity id rest

-- `record.aliases`
unfoldable pub aliases_of : String → List EntityAliasRecord → List EntityAliasRecord
aliases_of id [] = []
aliases_of id (a ∷ rest) =
    let found = aliases_of id rest in if str_eq a.canonical_id id then a ∷ found else found

pub record EntityRead (M : Type 0) : Type 0 where
  pub entity : EntityRecord M
  pub aliases : List EntityAliasRecord

-- `db.refresh(record)` and `_to_entity_read`.
abbrev pub to_entity_read : {M : Type 0} → Tables M → EntityRecord M → EntityRead M
to_entity_read t e = record { entity = e; aliases = aliases_of e.id t.aliases }

module _ (n : Naming) where
  canonical_id : String → String → Option String → String
  canonical_id entity_type display_name suffix =
      let base = append (n.slugify entity_type) (append ":" (n.slugify display_name)) in
      if truthy suffix then append base (append "-" (or_empty suffix)) else base

  candidate_id : String → String → Option String → String
  unfolding canonical_id
  candidate_id entity_type display_name slug =
      if truthy slug
      then append (n.slugify entity_type) (append ":" (n.slugify (or_empty slug)))
      else canonical_id entity_type display_name none

  -- The attempts with a suffix: `left` are left, `k` is the next one.
  pub allocate :
      {M : Type 0} → List (EntityRecord M) → String → String → (left k : ℕ) → Option String
  unfolding canonical_id
  allocate entities entity_type display_name zero k = none
  allocate entities entity_type display_name (suc left) k =
      let candidate = canonical_id entity_type display_name (some (n.suffix k)) in
      let rest = allocate entities entity_type display_name left (suc k) in
      if is_some (find_entity candidate entities) then rest else some candidate

  pub unique_entity_id :
      {M : Type 0} → List (EntityRecord M) → String → String → Option String → Option String
  unfolding candidate_id allocate
  unique_entity_id entities entity_type display_name slug =
      let candidate = candidate_id entity_type display_name slug in
      let rest = allocate entities entity_type display_name 10 0 in
      if is_some (find_entity candidate entities) then rest else some candidate

pub with_alias :
    EntityAliasRecord → Result (List EntityAliasRecord) → Result (List EntityAliasRecord)
with_alias a (ok rows) = ok (a ∷ rows)
with_alias a (failed e) = failed e

-- One key: a row of another entity is a conflict, one of the same entity is left.
pub place_alias :
    EntityAliasRecord
    → Option EntityAliasRecord
    → Result (List EntityAliasRecord)
    → Result (List EntityAliasRecord)
place_alias a (some old) later =
    if str_eq old.canonical_id a.canonical_id then later else failed alias_conflict
place_alias a none later = with_alias a later

-- The rows that `_link_aliases` adds. The session does not flush by itself, so it reads the rows
-- that were there before the call.
pub new_aliases :
    List EntityAliasRecord → String → String → Time → List String → Result (List EntityAliasRecord)
unfolding place_alias with_alias
new_aliases old id source now [] = ok []
new_aliases old id source now (key ∷ rest) =
    let later = new_aliases old id source now rest in
    let row : EntityAliasRecord = record {
      alias_key = key;
      canonical_id = id;
      source = source;
      created_at = now;
    } in
    if str_eq key "" then later else place_alias row (find_alias key old) later

-- The flush: `alias_key` is the primary key.
pub insert_aliases :
    List EntityAliasRecord → List EntityAliasRecord → Option (List EntityAliasRecord)
insert_aliases [] all = some all
insert_aliases (a ∷ new) all =
    let inserted = insert_aliases new (all ++ a ∷ []) in
    if is_some (find_alias a.alias_key all) then none else inserted

pub record EntityCreate (M : Type 0) : Type 0 where
  pub entity_type : String
  pub display_name : String
  pub metadata : M
  pub aliases : List String
  pub alias_source : String
  pub slug : Option String

pub record EntityResolve (M : Type 0) : Type 0 where
  pub alias : String
  pub entity_type : String
  pub display_name : Option String
  pub source : String
  pub metadata : M
  pub create_if_missing : Bool

-- The response less the rendered entity.
pub record EntityResolveResponse : Type 0 where
  pub canonical_id : String
  pub created : Bool
  pub alias_linked : Bool

module _ {M : Type 0} where
  pub committed : Tables M → Option (List EntityAliasRecord) → Result (Tables M)
  committed t none = failed integrity
  committed t (some all) = ok (record t { aliases = all })

  pub insert_rows : Tables M → Result (List EntityAliasRecord) → Result (Tables M)
  unfolding committed insert_aliases
  insert_rows t (failed e) = failed e
  insert_rows t (ok new) = committed t (insert_aliases new t.aliases)

  -- `_link_aliases` and the commit.
  pub link_aliases : Tables M → String → String → Time → List String → Result (Tables M)
  unfolding insert_rows
  link_aliases t id source now keys = insert_rows t (new_aliases t.aliases id source now keys)

  pub read_linked :
      EntityRecord M → Bool → Result (Tables M) → Result (EntityRead M × Bool × Tables M)
  read_linked e created (failed x) = failed x
  read_linked e created (ok t) = ok (to_entity_read t e, created, t)

  -- An id that is taken links the aliases to its entity, a new one inserts the entity first.
  pub create_at :
      EntityCreate M
      → Time
      → String
      → Option (EntityRecord M)
      → Tables M
      → Result (EntityRead M × Bool × Tables M)
  unfolding read_linked
  create_at c now id (some existing) t =
      read_linked existing false (link_aliases t existing.id c.alias_source now c.aliases)
  create_at c now id none t =
      let e : EntityRecord M = record {
        id = id;
        entity_type = c.entity_type;
        display_name = c.display_name;
        entity_metadata = c.metadata;
        created_at = now;
        updated_at = now;
      } in
      let t' = record t { entities = t.entities ++ e ∷ [] } in
      read_linked e true (link_aliases t' id c.alias_source now c.aliases)

  pub create_under :
      EntityCreate M → Time → Option String → Tables M → Result (EntityRead M × Bool × Tables M)
  unfolding create_at
  create_under c now none t = failed ids_exhausted
  create_under c now (some id) t = create_at c now id (find_entity id t.entities) t

  unfoldable pub create_entity :
      Naming → EntityCreate M → Time → Tables M → Result (EntityRead M × Bool × Tables M)
  unfolding create_under
  create_entity n c now t =
      create_under c now (unique_entity_id n t.entities c.entity_type c.display_name c.slug) t

  pub read_added : EntityRecord M → Result (Tables M) → Result (EntityRead M × Tables M)
  read_added e (failed x) = failed x
  read_added e (ok t) = ok (to_entity_read t e, t)

  pub add_to :
      List String
      → String
      → Time
      → Option (EntityRecord M)
      → Tables M
      → Result (EntityRead M × Tables M)
  unfolding read_added
  add_to keys source now none t = failed entity_not_found
  add_to keys source now (some e) t = read_added e (link_aliases t e.id source now keys)

  unfoldable pub add_aliases :
      String → List String → String → Time → Tables M → Result (EntityRead M × Tables M)
  unfolding add_to
  add_aliases id keys source now t = add_to keys source now (find_entity id t.entities) t

  abbrev pub wanted : EntityResolve M → EntityCreate M
  wanted r = record {
    entity_type = r.entity_type;
    display_name = or_empty r.display_name;
    metadata = r.metadata;
    aliases = r.alias ∷ [];
    alias_source = r.source;
    slug = none;
  }

  pub resolved_new :
      Result (EntityRead M × Bool × Tables M) → Result (EntityResolveResponse × Tables M)
  resolved_new (failed x) = failed x
  resolved_new (ok (e, created, t)) =
      ok (record { canonical_id = e.entity.id; created = created; alias_linked = true }, t)

  pub resolve_alias :
      Naming
      → EntityResolve M
      → Time
      → Option EntityAliasRecord
      → Tables M
      → Result (EntityResolveResponse × Tables M)
  unfolding resolved_new
  resolve_alias n r now (some a) t =
      ok (record { canonical_id = a.canonical_id; created = false; alias_linked = false }, t)
  resolve_alias n r now none t =
      if not r.create_if_missing
      then failed entity_not_found
      else if not (truthy r.display_name)
      then failed display_name_required
      else resolved_new (create_entity n (wanted r) now t)

  unfoldable pub resolve_entity :
      Naming → EntityResolve M → Time → Tables M → Result (EntityResolveResponse × Tables M)
  unfolding resolve_alias
  resolve_entity n r now t = resolve_alias n r now (find_alias r.alias t.aliases) t
