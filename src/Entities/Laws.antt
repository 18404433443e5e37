-- ===== src/Entities/Laws.antt =====
-- The registry: unique ids and keys, aliases that are owned and never move, idempotent resolution.
use n_quark.Prelude.{
  Every, Every-append, Every-mono, ℕ, zero, suc, ◌≡◌, refl, ◌∙◌, ap, ◌≤◌, inl, inr, String, Bool,
  true, not, Option, none, some, List, [], ◌∷◌, ◌++◌, arith, str_eq, eq_iff, eq_refl, is_some,
  truthy, if_ind, Option-cases, count_if, count_if-append,
}
use n_quark.Prelude.Time.{Time}
use n_quark.Entities.{
  EntityRecord, EntityAliasRecord, Tables, Result, ok, failed, Naming, EntityRead, EntityCreate,
  EntityResolve, EntityResolveResponse, find_alias, find_entity, allocate, unique_entity_id,
  new_aliases, insert_aliases, insert_rows, committed, link_aliases, read_linked, create_at,
  create_under, create_entity, read_added, add_to, add_aliases, wanted, resolved_new, resolve_alias,
  resolve_entity,
}
use n_quark.Entities.Aliases.{
  find_alias-append, IsKeyed, insert_aliases-append, insert_aliases-IsKeyed, Holds,
  new_aliases-Every,
}

Holds-mono {ℓ} :
    {A : Type ℓ} (P Q : A → Type 0) (r : Result A) → ((a : A) → P a → Q a) → Holds P r → Holds Q r
Holds-mono P Q (ok a) f h = f a h
Holds-mono P Q (failed e) f h = tt

-- A row that was found is found.
abbrev Stays : (before after : Option EntityAliasRecord) → Type 0
Stays none after = Unit
Stays (some a) after = after ≡ some a

module _ {M : Type 0} where
  find_entity-append :
      (id : String) (rows more : List (EntityRecord M))
      → is_some (find_entity id rows) ≡ true
      → is_some (find_entity id (rows ++ more)) ≡ true
  unfolding find_entity
  find_entity-append id [] more h = ground arith
  find_entity-append id (x ∷ rows) more h = ground (arith, find_entity-append id rows more)

  find_entity-new :
      (e : EntityRecord M) (rows : List (EntityRecord M))
      → is_some (find_entity e.id (rows ++ e ∷ [])) ≡ true
  unfolding find_entity
  find_entity-new e [] = ground (arith, eq_refl e.id)
  find_entity-new e (x ∷ rows) = ground (arith, find_entity-new e rows)

  count_of_missing :
      (id : String) (rows : List (EntityRecord M))
      → find_entity id rows ≡ none
      → count_if (λ e. str_eq e.id id) rows ≡ 0
  unfolding find_entity
  count_of_missing id [] h = refl
  count_of_missing id (x ∷ rows) h = ground (arith, count_of_missing id rows)

  -- One entity to an id, one alias to a key, and every alias is of an entity that exists.
  pub record IsConsistent (t : Tables M) : Type 0 where
    pub one_entity : (id : String) → count_if (λ e. str_eq e.id id) t.entities ≤ 1
    pub one_alias : IsKeyed t.aliases
    pub owned : Every (λ a. is_some (find_entity a.canonical_id t.entities) ≡ true) t.aliases

  -- What an operation that succeeds does to tables: they stay consistent, and aliases stay.
  pub record IsStep (t t' : Tables M) : Type 0 where
    pub consistent : IsConsistent t → IsConsistent t'
    pub aliases :
        (key : String) (a : EntityAliasRecord)
        → find_alias key t.aliases ≡ some a
        → find_alias key t'.aliases ≡ some a

  insert_rows-IsStep :
      (t : Tables M) (id : String) (new : Result (List EntityAliasRecord))
      → is_some (find_entity id t.entities) ≡ true
      → Holds (Every (λ a. a.canonical_id ≡ id)) new
      → Holds (λ t'. IsStep t t') (insert_rows t new)
  unfolding insert_rows committed
  insert_rows-IsStep t id (failed e) own h = tt
  insert_rows-IsStep t id (ok new) own h = elim (Option-cases (insert_aliases new t.aliases)) [
    | inl clash ↦ rw clash tt
    | inr (all, done) ↦
        let grown = insert_aliases-append new t.aliases all done in
        rw done (record {
          consistent = λ c. record {
            one_entity = c.one_entity;
            one_alias = insert_aliases-IsKeyed new t.aliases all done c.one_alias;
            owned =
                rw grown
                  (Every-append _ t.aliases new c.owned (Every-mono _ _ new (λ a e. rw e own) h));
          };
          aliases = λ key a found. rw grown (find_alias-append key t.aliases new a found);
        })
  ]

  link_aliases-IsStep :
      (t : Tables M) (id source : String) (now : Time) (keys : List String)
      → is_some (find_entity id t.entities) ≡ true
      → Holds (λ t'. IsStep t t') (link_aliases t id source now keys)
  unfolding link_aliases
  link_aliases-IsStep t id source now keys own =
      insert_rows-IsStep t id (new_aliases t.aliases id source now keys) own
        (new_aliases-Every t.aliases id source now keys)

  with_entity : Tables M → EntityRecord M → Tables M
  with_entity t e = record t { entities = t.entities ++ e ∷ [] }

  with_entity-IsStep :
      (t : Tables M) (e : EntityRecord M)
      → find_entity e.id t.entities ≡ none
      → IsStep t (with_entity t e)
  unfolding with_entity
  with_entity-IsStep t e missing = record {
    consistent = λ c. record {
      one_entity = λ id. ground (
        arith,
        c.one_entity id,
        count_if-append (λ x. str_eq x.id id) t.entities (e ∷ []),
        count_of_missing e.id t.entities missing,
        eq_iff e.id id,
      );
      one_alias = c.one_alias;
      owned =
          Every-mono _ _ t.aliases
            (λ a own. find_entity-append a.canonical_id t.entities (e ∷ []) own) c.owned;
    };
    aliases = λ key a found. found;
  }

  IsStep-trans : (t u v : Tables M) → IsStep t u → IsStep u v → IsStep t v
  IsStep-trans t u v p q = record {
    consistent = λ c. q.consistent (p.consistent c);
    aliases = λ key a found. q.aliases key a (p.aliases key a found);
  }

  read_linked-Holds :
      (P : Tables M → Type 0) (e : EntityRecord M) (created : Bool) (r : Result (Tables M))
      → Holds P r
      → Holds (λ x. P x.2 × (x.1 ≡ created)) (read_linked e created r)
  unfolding read_linked
  read_linked-Holds P e created (failed x) h = tt
  read_linked-Holds P e created (ok t) h = (h, refl)

  -- The id that is allocated is free.
  allocate-free :
      (n : Naming) (rows : List (EntityRecord M)) (entity_type display_name : String) (left k : ℕ)
      (id : String)
      → allocate n rows entity_type display_name left k ≡ some id
      → find_entity id rows ≡ none
  unfolding allocate
  allocate-free n rows ty name zero k id h = ground arith
  allocate-free n rows ty name (suc left) k id h =
      ground (arith, allocate-free n rows ty name left (suc k) id)

  unique_entity_id-free :
      (n : Naming) (rows : List (EntityRecord M)) (entity_type display_name : String)
      (slug : Option String) (id : String)
      → unique_entity_id n rows entity_type display_name slug ≡ some id
      → find_entity id rows ≡ none
  unfolding unique_entity_id
  unique_entity_id-free n rows ty name slug id h =
      ground (arith, allocate-free n rows ty name 10 0 id)

  create_at-IsStep :
      (c : EntityCreate M) (now : Time) (id : String) (t : Tables M)
      → find_entity id t.entities ≡ none
      → Holds (λ x. IsStep t x.2 × (x.1 ≡ true)) (create_at c now id none t)
  unfolding create_at with_entity
  create_at-IsStep c now id t free =
      let e : EntityRecord M = record {
        id = id;
        entity_type = c.entity_type;
        display_name = c.display_name;
        entity_metadata = c.metadata;
        created_at = now;
        updated_at = now;
      } in
      let linked = link_aliases (with_entity t e) id c.alias_source now c.aliases in
      read_linked-Holds (λ t'. IsStep t t') e true linked
        (Holds-mono (IsStep (with_entity t e)) (IsStep t) linked
          (λ t'. IsStep-trans t (with_entity t e) t' (with_entity-IsStep t e free))
          (link_aliases-IsStep (with_entity t e) id c.alias_source now c.aliases
            (find_entity-new e t.entities)))

  create_entity-IsStep :
      (n : Naming) (c : EntityCreate M) (now : Time) (t : Tables M)
      → Holds (λ x. IsStep t x.2 × (x.1 ≡ true)) (create_entity n c now t)
  unfolding create_entity create_under
  create_entity-IsStep n c now t =
      elim (Option-cases (unique_entity_id n t.entities c.entity_type c.display_name c.slug)) [
        | inl exhausted ↦ rw exhausted tt
        | inr (id, found) ↦
            let free =
              unique_entity_id-free n t.entities c.entity_type c.display_name c.slug id found in
            rw found (rw free (create_at-IsStep c now id t free))
      ]

  pub find_entity_key :
      (id : String) (rows : List (EntityRecord M)) (e : EntityRecord M)
      → find_entity id rows ≡ some e
      → str_eq e.id id ≡ true
  unfolding find_entity
  find_entity_key id [] e h = ground arith
  find_entity_key id (x ∷ rows) e h = ground (arith, find_entity_key id rows e)

  found_own :
      (id : String) (rows : List (EntityRecord M)) (e : EntityRecord M)
      → find_entity id rows ≡ some e
      → is_some (find_entity e.id rows) ≡ true
  found_own id rows e h =
      ap (λ k. is_some (find_entity k rows)) ((eq_iff e.id id).0 (find_entity_key id rows e h))
      ∙ ap is_some h

  read_added-Holds :
      (P : Tables M → Type 0) (e : EntityRecord M) (r : Result (Tables M))
      → Holds P r
      → Holds (λ x. P x.1) (read_added e r)
  unfolding read_added
  read_added-Holds P e (failed x) h = tt
  read_added-Holds P e (ok t) h = h

  resolved_new-Holds :
      (P : Tables M → Type 0) (r : Result (EntityRead M × Bool × Tables M))
      → Holds (λ x. P x.2 × (x.1 ≡ true)) r
      → Holds (λ x. P x.1) (resolved_new r)
  unfolding resolved_new
  resolved_new-Holds P (failed x) h = tt
  resolved_new-Holds P (ok x) h = h.0

  add_to-IsStep :
      (keys : List String) (source : String) (now : Time) (t : Tables M) (id : String)
      (e : Option (EntityRecord M))
      → find_entity id t.entities ≡ e
      → Holds (λ x. IsStep t x.1) (add_to keys source now e t)
  unfolding add_to
  add_to-IsStep keys source now t id none h = tt
  add_to-IsStep keys source now t id (some e) h =
      read_added-Holds (IsStep t) e (link_aliases t e.id source now keys)
        (link_aliases-IsStep t e.id source now keys (found_own id t.entities e h))

  add_aliases-IsStep :
      (id : String) (keys : List String) (source : String) (now : Time) (t : Tables M)
      → Holds (λ x. IsStep t x.1) (add_aliases id keys source now t)
  unfolding add_aliases
  add_aliases-IsStep id keys source now t = add_to-IsStep keys source now t id _ refl

  resolve_alias-IsStep :
      (n : Naming) (r : EntityResolve M) (now : Time) (found : Option EntityAliasRecord)
      (t : Tables M)
      → Holds (λ x. IsStep t x.1) (resolve_alias n r now found t)
  unfolding resolve_alias
  resolve_alias-IsStep n r now (some a) t = record { consistent = λ c. c; aliases = λ key b h. h }
  resolve_alias-IsStep n r now none t =
      let P : Result (EntityResolveResponse × Tables M) → Type 0 = Holds (λ x. IsStep t x.1) in
      if_ind P (not r.create_if_missing) (λ _. tt)
        (λ _.
          if_ind P (not (truthy r.display_name)) (λ _. tt)
            (λ _.
              resolved_new-Holds (IsStep t) (create_entity n (wanted r) now t)
                (create_entity-IsStep n (wanted r) now t)))

  pub resolve_entity-IsStep :
      (n : Naming) (r : EntityResolve M) (now : Time) (t : Tables M)
      → Holds (λ x. IsStep t x.1) (resolve_entity n r now t)
  unfolding resolve_entity
  resolve_entity-IsStep n r now t = resolve_alias-IsStep n r now _ t

  -- Every key that had an alias has it still.
  abbrev pub KeepsAliases : Tables M → Tables M → Type 0
  KeepsAliases t t' = (key : String) → Stays (find_alias key t.aliases) (find_alias key t'.aliases)

  IsStep-KeepsAliases : (t t' : Tables M) → IsStep t t' → KeepsAliases t t'
  IsStep-KeepsAliases t t' step key = elim (Option-cases (find_alias key t.aliases)) [
    | inl missing ↦ rw missing tt
    | inr (a, found) ↦ rw found (step.aliases key a found)
  ]

  -- From consistent tables (one entity to an id, one alias to a key, every alias of an entity that
  -- exists), with aliases or without, an entity that is created leaves consistent tables, every
  -- alias with the row it had, and is always reported as new: an id that is taken is never used, so
  -- the branch for an existing entity is not reached.
  pub create_entity-IsConsistent :
      (n : Naming) (c : EntityCreate M) (now : Time) (t t' : Tables M) (e : EntityRead M)
      (created : Bool)
      → IsConsistent t
      → create_entity n c now t ≡ ok (e, created, t')
      → IsConsistent t' × KeepsAliases t t' × (created ≡ true)
  create_entity-IsConsistent n c now t t' e created h done =
      let (step, new) = rw done at (create_entity-IsStep n c now t) in
      (step.consistent h, IsStep-KeepsAliases t t' step, new)

  -- From consistent tables, aliases that are folded onto an entity leave consistent tables and
  -- every alias with the row it had.
  add_aliases-IsConsistent :
      (id : String) (keys : List String) (source : String) (now : Time) (t t' : Tables M)
      (e : EntityRead M)
      → IsConsistent t
      → add_aliases id keys source now t ≡ ok (e, t')
      → IsConsistent t' × KeepsAliases t t'
  add_aliases-IsConsistent id keys source now t t' e h done =
      let step = rw done at (add_aliases-IsStep id keys source now t) in
      (step.consistent h, IsStep-KeepsAliases t t' step)

  -- From consistent tables, a resolution that succeeds leaves consistent tables and every alias
  -- with the row it had.
  resolve_entity-IsConsistent :
      (n : Naming) (r : EntityResolve M) (now : Time) (t t' : Tables M)
      (reply : EntityResolveResponse)
      → IsConsistent t
      → resolve_entity n r now t ≡ ok (reply, t')
      → IsConsistent t' × KeepsAliases t t'
  resolve_entity-IsConsistent n r now t t' reply h done =
      let step = rw done at (resolve_entity-IsStep n r now t) in
      (step.consistent h, IsStep-KeepsAliases t t' step)
