-- ===== src/Crawl/Governance/Supersede.antt =====
-- services/crawl-service/crawl_service/governance.py: supersede_legacy, unsupersede,
-- governance_counts and superseded_map.
use n_quark.Prelude.{
  ℕ, String, Bool, true, false, not, ◌&&◌, Option, none, some, List, [], ◌∷◌, ◌++◌, if◌then◌else◌,
  length, str_eq, truthy, or_empty, member,
}
use n_quark.Prelude.Time.{Time}
use n_quark.Graph.{EdgeWrite}
use n_quark.Crawl.Governance.{
  EntityResolutionCandidate, EntitySupersession, GovernanceTables, GovernanceResult, done, refused,
  Network, GraphClient, Governed, node_exists, write_graph, same_node, target_entity_not_found,
  legacy_already_superseded,
}

unfoldable pub find_supersession : String → List EntitySupersession → Option EntitySupersession
find_supersession legacy [] = none
find_supersession legacy (x ∷ rest) =
    if str_eq x.legacy_entity_id legacy then some x else find_supersession legacy rest

unfoldable pub put_supersession :
    EntitySupersession → List EntitySupersession → List EntitySupersession
put_supersession x [] = []
put_supersession x (y ∷ rest) =
    let later = y ∷ put_supersession x rest in
    if str_eq y.legacy_entity_id x.legacy_entity_id then x ∷ rest else later

pub record SupersedeInput : Type 0 where
  pub entity_type : String
  pub legacy_entity_id : String
  pub canonical_entity_id : String
  pub decision_ref : Option String

-- The transaction of `supersede_legacy`; `none` is its conflict.
unfoldable pub supersede_found :
    SupersedeInput
    → Time
    → Option EntitySupersession
    → List EntitySupersession
    → Option (List EntitySupersession)
unfolding put_supersession
supersede_found i now none rows = some (
    rows
    ++ record {
      entity_type = i.entity_type;
      legacy_entity_id = i.legacy_entity_id;
      canonical_entity_id = i.canonical_entity_id;
      decision_ref = i.decision_ref;
      active = true;
      created_at = now;
      updated_at = now;
    }
      ∷ [])
supersede_found i now (some x) rows =
    if x.active && not (str_eq x.canonical_entity_id i.canonical_entity_id)
    then none
    else some (
        put_supersession
          (record x {
            canonical_entity_id = i.canonical_entity_id;
            active = true;
            decision_ref = i.decision_ref;
            updated_at = now;
          })
          rows)

unfoldable pub unsupersede_found :
    Time
    → Option EntitySupersession
    → List EntitySupersession
    → Option (String × List EntitySupersession)
unfolding put_supersession
unsupersede_found now none rows = none
unsupersede_found now (some x) rows =
    if x.active
    then some (
      x.canonical_entity_id,
      put_supersession (record x { active = false; updated_at = now }) rows,
    )
    else none

-- `superseded_map`: the active rows.
unfoldable pub superseded_map : List EntitySupersession → List (String × String)
superseded_map [] = []
superseded_map (x ∷ rest) =
    let later = superseded_map rest in
    if x.active then (x.legacy_entity_id, x.canonical_entity_id) ∷ later else later

-- The ids of resolved candidates, each once, less those that are superseded.
unfoldable resolved_ids : List EntityResolutionCandidate → List String → List String
resolved_ids [] seen = []
resolved_ids (c ∷ rest) seen =
    let cid = or_empty c.candidate_canonical_entity_id in
    let is_new =
      str_eq c.resolution_status "RESOLVED"
      && truthy c.candidate_canonical_entity_id
      && not (member cid seen) in
    let later = resolved_ids rest (if is_new then cid ∷ seen else seen) in
    if is_new then cid ∷ later else later

unfoldable pub without : List String → List String → List String
without gone [] = []
without gone (x ∷ rest) =
    let later = without gone rest in if member x gone then later else x ∷ later

abbrev legacy_ids : List (String × String) → List String
legacy_ids [] = []
legacy_ids ((a, b) ∷ rest) = a ∷ legacy_ids rest

-- How many canonical entities there are, and how many are superseded.
unfoldable governance_counts : GovernanceTables → ℕ × ℕ
unfolding superseded_map resolved_ids without
governance_counts t =
    let superseded = legacy_ids (superseded_map t.supersessions) in
    (length (without superseded (resolved_ids t.candidates [])), length superseded)

module _ {V : Type 0} (k : GraphClient V) where
  abbrev superseded_by : String → String → Bool → EdgeWrite V
  superseded_by legacy canonical manual = record {
    source = legacy;
    relationship = "SUPERSEDED_BY";
    target = canonical;
    properties = if manual then ("manual", k.truth true) ∷ [] else ("active", k.truth false) ∷ [];
  }

  unfoldable pub supersede_commit :
      Network
      → SupersedeInput
      → Time
      → Option (List EntitySupersession)
      → Governed V
      → GovernanceResult (Unit {0}) × Governed V
  unfolding write_graph
  supersede_commit net i now none w = (refused legacy_already_superseded, w)
  supersede_commit net i now (some rows) w =
      write_graph k net now [] (superseded_by i.legacy_entity_id i.canonical_entity_id true ∷ []) tt
        (record w { tables = record w.tables { supersessions = rows } })

  unfoldable pub supersede_target :
      Network
      → SupersedeInput
      → Time
      → GovernanceResult (Bool × Option String)
      → Governed V
      → GovernanceResult (Unit {0}) × Governed V
  unfolding supersede_commit supersede_found find_supersession
  supersede_target net i now (refused e) w = (refused e, w)
  supersede_target net i now (done (found, type)) w =
      let rows = w.tables.supersessions in
      if found
      then supersede_commit net i now
          (supersede_found i now (find_supersession i.legacy_entity_id rows) rows) w
      else (refused target_entity_not_found, w)

  unfoldable pub supersede_legacy :
      Network → SupersedeInput → Time → Governed V → GovernanceResult (Unit {0}) × Governed V
  unfolding supersede_target node_exists
  supersede_legacy net i now w =
      if str_eq i.legacy_entity_id i.canonical_entity_id
      then (refused same_node, w)
      else supersede_target net i now (node_exists net i.canonical_entity_id w.graph) w

  unfoldable pub unsupersede_commit :
      Network
      → String
      → Time
      → Option (String × List EntitySupersession)
      → Governed V
      → GovernanceResult Bool × Governed V
  unfolding write_graph
  unsupersede_commit net legacy now none w = (done false, w)
  unsupersede_commit net legacy now (some (canonical, rows)) w =
      write_graph k net now [] (superseded_by legacy canonical false ∷ []) true
        (record w { tables = record w.tables { supersessions = rows } })

  -- Whether a supersession was active.
  unfoldable pub unsupersede :
      Network → String → Time → Governed V → GovernanceResult Bool × Governed V
  unfolding unsupersede_commit unsupersede_found find_supersession
  unsupersede net legacy now w =
      let rows = w.tables.supersessions in
      unsupersede_commit net legacy now (unsupersede_found now (find_supersession legacy rows) rows)
        w
