-- ===== src/Entities/Aliases.antt =====
-- The alias table: lookups after an insertion, and what the keys of a call may add.
use mathlib.Core.List.{append_assoc, append-nil}
use mathlib.Core.Option.{some_inj}
use n_quark.Prelude.{
  ◌≡◌, refl, subst, inl, inr, ◌≤◌, String, Option, none, some, List, [], ◌∷◌, ◌++◌, arith, str_eq,
  eq_iff, if_ind, Option-cases, count_if, count_if-append, Every,
}
use n_quark.Prelude.Time.{Time}
use n_quark.Entities.{
  EntityAliasRecord, Result, ok, failed, find_alias, place_alias, with_alias, new_aliases,
  insert_aliases,
}

-- A row that is found stays found, whatever is appended.
pub find_alias-append :
    (key : String) (rows more : List EntityAliasRecord) (a : EntityAliasRecord)
    → find_alias key rows ≡ some a
    → find_alias key (rows ++ more) ≡ some a
unfolding find_alias
find_alias-append key [] more a h = ground arith
find_alias-append key (x ∷ rows) more a h = ground (arith, find_alias-append key rows more a)

has_key_count :
    (key : String) (rows : List EntityAliasRecord)
    → find_alias key rows ≡ none
    → count_if (λ a. str_eq a.alias_key key) rows ≡ 0
unfolding find_alias
has_key_count key [] h = refl
has_key_count key (x ∷ rows) h = ground (arith, has_key_count key rows)

-- At most one row to each key.
abbrev pub IsKeyed : List EntityAliasRecord → Type 0
IsKeyed rows = (key : String) → count_if (λ a. str_eq a.alias_key key) rows ≤ 1

-- An insertion appends its rows, and keeps the keys unique.
pub insert_aliases-append :
    (new rows all : List EntityAliasRecord) → insert_aliases new rows ≡ some all → all ≡ rows ++ new
unfolding insert_aliases
insert_aliases-append [] rows all h = ground (arith, append-nil rows)
insert_aliases-append (a ∷ new) rows all h =
    ground (arith, insert_aliases-append new (rows ++ a ∷ []) all, append_assoc rows (a ∷ []) new)

IsKeyed-append :
    (rows : List EntityAliasRecord) (a : EntityAliasRecord)
    → find_alias a.alias_key rows ≡ none
    → IsKeyed rows
    → IsKeyed (rows ++ a ∷ [])
IsKeyed-append rows a missing one key = ground (
  arith,
  one key,
  count_if-append (λ x. str_eq x.alias_key key) rows (a ∷ []),
  has_key_count a.alias_key rows missing,
  eq_iff a.alias_key key,
)

pub insert_aliases-IsKeyed :
    (new rows all : List EntityAliasRecord)
    → insert_aliases new rows ≡ some all
    → IsKeyed rows
    → IsKeyed all
unfolding insert_aliases
insert_aliases-IsKeyed [] rows all h one = subst IsKeyed (some_inj.0 h) one
insert_aliases-IsKeyed (a ∷ new) rows all h one =
    elim (Option-cases (find_alias a.alias_key rows)) [
      | inl missing ↦
          insert_aliases-IsKeyed new (rows ++ a ∷ []) all (rw missing at h)
            (IsKeyed-append rows a missing one)
      | inr (b, found) ↦ ground (arith, found)
    ]

-- What holds of a result that is not an error.
abbrev pub Holds {ℓ} : {A : Type ℓ} → (A → Type 0) → Result A → Type 0
Holds P (ok a) = P a
Holds P (failed e) = Unit

place_alias-Every :
    (P : EntityAliasRecord → Type 0) (a : EntityAliasRecord) (found : Option EntityAliasRecord)
    (later : Result (List EntityAliasRecord))
    → P a
    → Holds (Every P) later
    → Holds (Every P) (place_alias a found later)
unfolding place_alias with_alias
place_alias-Every P a (some old) later p h =
    if_ind (Holds (Every P)) (str_eq old.canonical_id a.canonical_id) (λ _. h) (λ _. tt)
place_alias-Every P a none (ok rows) p h = (p, h)
place_alias-Every P a none (failed e) p h = tt

-- The rows of a call belong to its entity.
pub new_aliases-Every :
    (old : List EntityAliasRecord) (id source : String) (now : Time) (keys : List String)
    → Holds (Every (λ a. a.canonical_id ≡ id)) (new_aliases old id source now keys)
unfolding new_aliases
new_aliases-Every old id source now [] = tt
new_aliases-Every old id source now (key ∷ rest) =
    let h = new_aliases-Every old id source now rest in
    if_ind (Holds (Every (λ a. a.canonical_id ≡ id))) (str_eq key "") (λ _. h)
      (λ _.
        place_alias-Every (λ a. a.canonical_id ≡ id) _ (find_alias key old)
          (new_aliases old id source now rest) refl h)
