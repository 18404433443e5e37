-- ===== src/Crawl/Governance.antt =====
-- services/crawl-service/crawl_service/governance.py over its tables in models.py: the governed
-- commands on resolved entities. The tables are written in one transaction, then the graph in one
-- batch, which is that of Graph. Ids of rows that nothing refers to are left out, and of a
-- candidate's evidence only the URL is kept.
pub mod Accept
pub mod Withdraw
pub mod Creation
pub mod Artists
pub mod Series
pub mod Supersede
pub mod Legacy
pub mod Commands
pub mod Changes
pub mod Steps
pub mod Superseded
pub mod Audit
pub mod Owners
pub mod Reversal
pub mod Retry
pub mod Published
mod Examples
use n_quark.Prelude.{
  ℕ, String, Bool, true, false, not, ◌&&◌, ◌||◌, Option, none, some, List, [], ◌∷◌, ◌++◌,
  if◌then◌else◌, str_eq, opt_str_eq, truthy, is_some, is_nil,
}
use n_quark.Prelude.Time.{Time}
use n_quark.Graph.{Node, EdgeWrite, GraphStore, get_node, upsert_batch}

pub data EntityType : Type 0 where
  artist venue organizer event_series : EntityType

pub record EntityResolutionCandidate : Type 0 where
  pub id : String
  pub entity_type : EntityType
  pub source : String
  pub source_record_id : String
  pub canonical_event_id : Option String
  pub source_entity_handle : String
  pub raw_name : String
  pub normalized_name : String
  pub candidate_canonical_entity_id : Option String
  pub resolution_status : String
  pub reason_code : Option String
  pub source_url : Option String
  pub resolver_version : String
  pub updated_at : Time

pub record EntitySourceHandle : Type 0 where
  pub entity_type : EntityType
  pub source : String
  pub source_entity_handle : String
  pub source_url : Option String
  pub canonical_entity_id : String
  pub resolution_method : String
  pub first_seen : Time
  pub last_seen : Time

pub record EntityResolutionHistory : Type 0 where
  pub candidate_id : String
  pub previous_status : Option String
  pub new_status : String
  pub previous_canonical_entity_id : Option String
  pub new_canonical_entity_id : Option String
  pub reason_code : String
  pub created_at : Time

pub record EntitySupersession : Type 0 where
  pub entity_type : String
  pub legacy_entity_id : String
  pub canonical_entity_id : String
  pub decision_ref : Option String
  pub active : Bool
  pub created_at : Time
  pub updated_at : Time

pub record GovernanceTables : Type 0 where
  pub candidates : List EntityResolutionCandidate
  pub handles : List EntitySourceHandle
  pub history : List EntityResolutionHistory
  pub supersessions : List EntitySupersession

-- GovernanceError and GovernanceConflict by their codes, an error of the HTTP client, and the
-- IntegrityError of a primary key.
pub data GovernanceError : Type 0 where
  candidate_not_found stale_preview target_entity_not_found entity_type_mismatch : GovernanceError
  handle_already_linked bad_entity_type empty_name generic_name : GovernanceError
  venue_requires_city same_node legacy_already_superseded no_series_to_unlink : GovernanceError
  series_name_required generic_series_requires_organizer series_target_required : GovernanceError
  bad_mode unreachable integrity : GovernanceError

pub data GovernanceResult (A : Type 0) : Type 0 where
  done : A → GovernanceResult A
  refused : GovernanceError → GovernanceResult A

-- Whether the graph service answers to the read of a command, and to its write.
pub record Network : Type 0 where
  pub reads : Bool
  pub writes : Bool

-- The JSON values that the commands write, `str` of a value that is true, and what the graph service
-- needs: `isoformat`, and the stripped upper case of a relationship.
pub record GraphClient (V : Type 0) : Type 0 where
  pub text : String → V
  pub truth : Bool → V
  pub full_confidence : V
  pub null : V
  pub shown : V → Option String
  pub iso : Time → V
  pub canon : String → String

-- The tables of the crawl service and the graph of the graph service.
pub record Governed (V : Type 0) : Type 0 where
  pub tables : GovernanceTables
  pub graph : GraphStore V

pub node_type : EntityType → String
node_type artist = "artist"
node_type venue = "venue"
node_type organizer = "organizer"
node_type event_series = "event_series"

pub rel_of : EntityType → String
rel_of artist = "FEATURES"
rel_of venue = "OCCURS_AT"
rel_of organizer = "ORGANIZED_BY"
rel_of event_series = "PART_OF_SERIES"

unfoldable pub find_candidate :
    String → List EntityResolutionCandidate → Option EntityResolutionCandidate
find_candidate id [] = none
find_candidate id (c ∷ rest) = if str_eq c.id id then some c else find_candidate id rest

unfoldable pub put_candidate :
    EntityResolutionCandidate → List EntityResolutionCandidate → List EntityResolutionCandidate
put_candidate c [] = []
put_candidate c (x ∷ rest) =
    let later = x ∷ put_candidate c rest in if str_eq x.id c.id then c ∷ rest else later

abbrev pub is_handle : String → String → EntitySourceHandle → Bool
is_handle source handle h = str_eq h.source source && str_eq h.source_entity_handle handle

unfoldable pub find_handle : String → String → List EntitySourceHandle → Option EntitySourceHandle
find_handle source handle [] = none
find_handle source handle (h ∷ rest) =
    if is_handle source handle h then some h else find_handle source handle rest

unfoldable pub put_handle : EntitySourceHandle → List EntitySourceHandle → List EntitySourceHandle
put_handle h [] = []
put_handle h (x ∷ rest) =
    let later = x ∷ put_handle h rest in
    if is_handle h.source h.source_entity_handle x then h ∷ rest else later

unfoldable pub delete_handle : String → String → List EntitySourceHandle → List EntitySourceHandle
delete_handle source handle [] = []
delete_handle source handle (x ∷ rest) =
    let later = x ∷ delete_handle source handle rest in
    if is_handle source handle x then rest else later

abbrev owner_found : Option EntitySourceHandle → Option String
owner_found none = none
owner_found (some h) = some h.canonical_entity_id

unfoldable pub handle_owner : String → String → List EntitySourceHandle → Option String
unfolding find_handle
handle_owner source handle handles = owner_found (find_handle source handle handles)

unfoldable pub register_found :
    EntityResolutionCandidate
    → String
    → Time
    → String
    → Option EntitySourceHandle
    → List EntitySourceHandle
    → List EntitySourceHandle
unfolding put_handle
register_found c cid now method none handles =
    handles
    ++ record {
      entity_type = c.entity_type;
      source = c.source;
      source_entity_handle = c.source_entity_handle;
      source_url = c.source_url;
      canonical_entity_id = cid;
      resolution_method = method;
      first_seen = now;
      last_seen = now;
    }
      ∷ []
register_found c cid now method (some h) handles =
    put_handle (record h { canonical_entity_id = cid; resolution_method = method; last_seen = now })
      handles

unfoldable pub register_handle :
    EntityResolutionCandidate
    → String
    → Time
    → String
    → List EntitySourceHandle
    → List EntitySourceHandle
unfolding register_found find_handle
register_handle c cid now method handles =
    register_found c cid now method (find_handle c.source c.source_entity_handle handles) handles

-- A candidate gets a new status, canonical entity and reason, and `_history` a row: `logged` is the
-- canonical entity that the row says.
unfoldable pub decided :
    EntityResolutionCandidate
    → String
    → Option String
    → Option String
    → String
    → Time
    → GovernanceTables
    → GovernanceTables
unfolding put_candidate
decided c status canonical logged reason now t = record t {
  candidates =
      put_candidate
        (record c {
          resolution_status = status;
          candidate_canonical_entity_id = canonical;
          reason_code = some reason;
          updated_at = now;
        })
        t.candidates;
  history =
      t.history
      ++ record {
        candidate_id = c.id;
        previous_status = some c.resolution_status;
        new_status = status;
        previous_canonical_entity_id = c.candidate_canonical_entity_id;
        new_canonical_entity_id = logged;
        reason_code = reason;
        created_at = now;
      }
        ∷ [];
}

-- What a command replies of a candidate before and after it.
pub record CandidateReply : Type 0 where
  pub candidate : EntityResolutionCandidate
  pub idempotent : Bool
  pub previous_status : String
  pub previous_canonical_entity_id : Option String

module _ {V : Type 0} where
  abbrev existing_type : Option (Node V) → Bool × Option String
  existing_type none = (false, none)
  existing_type (some n) = (true, some n.type)

  -- `_node_exists`
  unfoldable pub node_exists :
      Network → String → GraphStore V → GovernanceResult (Bool × Option String)
  node_exists net id g =
      if net.reads then done (existing_type (get_node id g)) else refused unreachable

  -- `_write`, and what the command replies if the batch went through.
  unfoldable pub write_graph :
      {A : Type 0}
      → GraphClient V
      → Network
      → Time
      → List (Node V)
      → List (EdgeWrite V)
      → A
      → Governed V
      → GovernanceResult A × Governed V
  write_graph k net now nodes edges a w =
      if is_nil nodes && is_nil edges
      then (done a, w)
      else if net.writes
      then (done a, record w { graph = upsert_batch k.iso k.canon now nodes edges w.graph })
      else (refused unreachable, w)

  -- A transaction that ends in a reply or an error, which commits nothing.
  abbrev pub transacted :
      {A : Type 0}
      → Governed V
      → GovernanceResult (A × GovernanceTables)
      → GovernanceResult A × Governed V
  transacted w (refused e) = (refused e, w)
  transacted w (done (a, t)) = (done a, record w { tables = t })
