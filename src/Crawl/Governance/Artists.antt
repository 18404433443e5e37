-- ===== src/Crawl/Governance/Artists.antt =====
-- services/crawl-service/crawl_service/governance.py: create_artist and reconcile_graph_artists.
use n_quark.Prelude.{
  ℕ, suc, String, Bool, true, false, not, ◌&&◌, ◌||◌, Option, none, some, List, [], ◌∷◌, ◌++◌,
  if◌then◌else◌, str_eq, opt_str_eq, is_some, append,
}
use n_quark.Prelude.Time.{Time}
use n_quark.Graph.{Node, Properties, list_nodes}
use n_quark.Crawl.Governance.{
  EntityResolutionCandidate, EntityResolutionHistory, EntityType, GovernanceTables,
  GovernanceResult, done, refused, Network, GraphClient, Governed, artist, node_exists, write_graph,
  find_candidate, integrity, empty_name, generic_name,
}
use n_quark.Crawl.Governance.Accept.{gov_version}
use n_quark.Crawl.Governance.Creation.{Normalizers, is_generic, entity_cid}

-- The row of an artist that was found outside, resolved from the start.
abbrev pub external_candidate :
    Normalizers → String → String → String → Time → EntityResolutionCandidate
external_candidate n id cid name now = record {
  id = id;
  entity_type = artist;
  source = "external_discovery";
  source_record_id = cid;
  canonical_event_id = none;
  source_entity_handle = append "external:" cid;
  raw_name = name;
  normalized_name = n.slug name;
  candidate_canonical_entity_id = some cid;
  resolution_status = "RESOLVED";
  reason_code = some "EXTERNAL_DISCOVERY";
  source_url = none;
  resolver_version = gov_version;
  updated_at = now;
}

abbrev is_artist : EntityType → Bool
is_artist artist = true
is_artist _ = false

unfoldable pub is_registered : String → List EntityResolutionCandidate → Bool
is_registered cid [] = false
is_registered cid (c ∷ rest) =
    is_artist c.entity_type && opt_str_eq c.candidate_canonical_entity_id (some cid)
    || is_registered cid rest

abbrev pub first_row : String → String → Time → EntityResolutionHistory
first_row id cid now = record {
  candidate_id = id;
  previous_status = none;
  new_status = "RESOLVED";
  previous_canonical_entity_id = none;
  new_canonical_entity_id = some cid;
  reason_code = "EXTERNAL_DISCOVERY";
  created_at = now;
}

-- `_register_external_artist` with the id that it draws; whether a row was written. `none`: the
-- primary key is taken.
unfoldable pub register_external_artist :
    Normalizers
    → String
    → String
    → String
    → Time
    → GovernanceTables
    → Option (Bool × GovernanceTables)
unfolding is_registered find_candidate
register_external_artist n id cid name now t =
    if is_registered cid t.candidates
    then some (false, t)
    else if is_some (find_candidate id t.candidates)
    then none
    else some (
      true,
      record t {
        candidates = t.candidates ++ external_candidate n id cid name now ∷ [];
        history = t.history ++ first_row id cid now ∷ [];
      },
    )

pub record ArtistReply : Type 0 where
  pub canonical_entity_id : String
  pub created : Bool
  pub registry_registered : Bool

module _ {V : Type 0} (n : Normalizers) (k : GraphClient V) where
  -- An artist whose node is there is matched, and only registered.
  unfoldable pub finish_artist :
      Network
      → String
      → Option String
      → Option V
      → String
      → Time
      → Bool
      → Option (Bool × GovernanceTables)
      → Governed V
      → GovernanceResult ArtistReply × Governed V
  unfolding write_graph
  finish_artist net name source provenance cid now found none w = (refused integrity, w)
  finish_artist net name source provenance cid now found (some (registered, t)) w =
      let reply : ArtistReply = record {
        canonical_entity_id = cid;
        created = not found;
        registry_registered = registered;
      } in
      let shown_source : V = elim source [ none ↦ k.null | some s ↦ k.text s ] in
      let extra : Properties V = elim provenance [
        | none ↦ []
        | some p ↦ ("external_provenance", p) ∷ []
      ] in
      let node : Node V = record {
        id = cid;
        type = "artist";
        properties =
            ("display_name", k.text name)
            ∷ ("origin", k.text "EXTERNAL_DISCOVERY")
            ∷ ("origin_source", shown_source)
            ∷ extra;
      } in
      if found
      then (done reply, record w { tables = t })
      else write_graph k net now (node ∷ []) [] reply (record w { tables = t })

  unfoldable pub create_artist_at :
      Network
      → String
      → String
      → Option String
      → Option V
      → String
      → Time
      → GovernanceResult (Bool × Option String)
      → Governed V
      → GovernanceResult ArtistReply × Governed V
  unfolding register_external_artist finish_artist
  create_artist_at net id name source provenance cid now (refused e) w = (refused e, w)
  create_artist_at net id name source provenance cid now (done (found, type)) w =
      let made = register_external_artist n id cid name now w.tables in
      finish_artist net name source provenance cid now found made w

  -- `provenance` is given only where it is not empty.
  unfoldable pub create_artist :
      Network
      → String
      → String
      → Option String
      → Option V
      → Time
      → Governed V
      → GovernanceResult ArtistReply × Governed V
  unfolding create_artist_at entity_cid node_exists
  create_artist net id name source provenance now w =
      let cid = entity_cid n "artist" (n.spaced (n.slug name)) none in
      if str_eq (n.slug name) ""
      then (refused empty_name, w)
      else if is_generic (n.base name)
      then (refused generic_name, w)
      else create_artist_at net id name source provenance cid now (node_exists net cid w.graph) w

  unfoldable pub property : String → Properties V → Option V
  property key [] = none
  property key ((j, v) ∷ rest) = if str_eq j key then some v else property key rest

  unfoldable pub node_name : Node V → String
  unfolding property
  node_name node = elim (property "display_name" node.properties) [
    | none ↦ node.id
    | some v ↦ elim (k.shown v) [ none ↦ node.id | some name ↦ name ]
  ]

  abbrev pub tallied :
      (ℕ × ℕ → GovernanceTables → GovernanceResult (ℕ × ℕ) × GovernanceTables)
      → ℕ × ℕ
      → GovernanceTables
      → Option (Bool × GovernanceTables)
      → GovernanceResult (ℕ × ℕ) × GovernanceTables
  tallied later counts t none = (refused integrity, t)
  tallied later (examined, registered) t (some (added, t')) =
      later (suc examined, if added then suc registered else registered) t'

  -- Each node in its turn: how many were looked at, how many registered.
  unfoldable pub reconcile_nodes :
      (ℕ → String)
      → Time
      → List (Node V)
      → ℕ × ℕ
      → GovernanceTables
      → GovernanceResult (ℕ × ℕ) × GovernanceTables
  unfolding register_external_artist node_name
  reconcile_nodes uuid now [] counts t = (done counts, t)
  reconcile_nodes uuid now (node ∷ rest) counts t =
      let later = reconcile_nodes uuid now rest in
      let made = register_external_artist n (uuid counts.0) node.id (node_name node) now t in
      if str_eq node.id "" then later counts t else tallied later counts t made

  -- A graph that cannot be read is reported, and nothing changes.
  unfoldable pub reconcile_graph_artists :
      Network
      → (ℕ → String)
      → ℕ
      → Time
      → Governed V
      → Option (GovernanceResult (ℕ × ℕ)) × Governed V
  unfolding reconcile_nodes list_nodes
  reconcile_graph_artists net uuid limit now w =
      let (counts, t) =
        reconcile_nodes uuid now (list_nodes (some "artist") limit w.graph) (0, 0) w.tables in
      if net.reads then (some counts, record w { tables = t }) else (none, w)
