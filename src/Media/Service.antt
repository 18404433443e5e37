-- ===== src/Media/Service.antt =====
-- services/media-service/media_service/service.py: MediaService.observe over the four tables of
-- models.py. The fetcher, SHA-256 with metadata.extract, normalize_url, the storage and the ids of new
-- rows are parameters; the graph link comes after the commit and cannot fail an observation.
pub mod Observe
pub mod Refines
pub mod History
mod Examples
use n_quark.Prelude.{
  ℕ, suc, ◌+◌, String, Bool, true, false, not, ◌&&◌, ◌||◌, Option, none, some, List, [], ◌∷◌, ◌++◌,
  map, ◌==◌, if◌then◌else◌, is_some, or_else, or_empty, truthy, str_eq, opt_str_eq, codes, upper,
  same_codes,
}
use n_quark.Prelude.Time.{Time}
use n_quark.Media.{MediaTransition, StateView, Kind, ObsFacts, Decision, detect}

pub record ObserveInput : Type 0 where
  pub canonical_event_id : String
  pub source : String
  pub asset_url : Option String
  pub asset_role : Option String
  pub source_record_id : Option String
  pub observed_at : Option Time
  pub trace_id : Option String
  pub authoritative : Bool

-- The bytes of a response, as `content_sha256`, `metadata.extract` and the storage see them.
pub record Payload : Type 0 where
  pub content_sha256 : String
  pub mime_type : Option String
  pub byte_size : ℕ
  pub width : Option ℕ
  pub height : Option ℕ
  pub image_format : Option String
  pub storage_key : Option String

pub record FetchResult : Type 0 where
  pub ok : Bool
  pub status : String
  pub http_status : Option ℕ
  pub content_type : Option String
  pub payload : Option Payload

pub record MediaAsset : Type 0 where
  pub id : String
  pub content_sha256 : String
  pub mime_type : Option String
  pub byte_size : ℕ
  pub width : Option ℕ
  pub height : Option ℕ
  pub image_format : Option String
  pub storage_key : Option String
  pub fetch_status : String
  pub first_seen_at : Time
  pub last_seen_at : Time

-- The unique key of a state: event, source and role.
pub record MediaKey : Type 0 where
  pub canonical_event_id : String
  pub source : String
  pub asset_role : String

pub record MediaObservation : Type 0 where
  pub id : String
  pub key : MediaKey
  pub source_record_id : Option String
  pub asset_url : String
  pub normalized_url : String
  pub media_asset_id : Option String
  pub observed_at : Time
  pub fetch_status : String
  pub http_status : Option ℕ
  pub content_type : Option String
  pub error_class : Option String
  pub trace_id : Option String

pub record EventMediaState : Type 0 where
  pub key : MediaKey
  pub current_media_asset_id : Option String
  pub current_observation_id : String
  pub current_normalized_url : Option String
  pub present : Bool
  pub first_seen_at : Time
  pub last_observed_at : Time
  pub last_changed_at : Time
  pub version : ℕ

pub record TransitionRow : Type 0 where
  pub key : MediaKey
  pub transition_type : MediaTransition
  pub from_media_asset_id : Option String
  pub to_media_asset_id : Option String
  pub from_normalized_url : Option String
  pub to_normalized_url : Option String
  pub observation_id : String
  pub out_of_order : Bool
  pub detected_at : Time

-- `fresh` counts the ids that were given.
pub record MediaTables : Type 0 where
  pub assets : List MediaAsset
  pub observations : List MediaObservation
  pub states : List EventMediaState
  pub transitions : List TransitionRow
  pub fresh : ℕ

abbrev pub same_key : MediaKey → MediaKey → Bool
same_key a b =
    str_eq a.canonical_event_id b.canonical_event_id
    && str_eq a.source b.source
    && str_eq a.asset_role b.asset_role

abbrev is_role : String → String → Bool
is_role t role = same_codes (map upper (codes t)) (codes role)

-- `_role`: the name of a known role, in whatever case, else UNKNOWN.
pub role_of : Option String → String
unfolding upper
role_of none = "UNKNOWN"
role_of (some t) =
    if is_role t "POSTER"
    then "POSTER"
    else if is_role t "THUMBNAIL"
    then "THUMBNAIL"
    else if is_role t "HERO_IMAGE"
    then "HERO_IMAGE"
    else if is_role t "LISTING_IMAGE"
    then "LISTING_IMAGE"
    else "UNKNOWN"

pub find_asset : String → List MediaAsset → Option MediaAsset
find_asset sha [] = none
find_asset sha (a ∷ rest) = if str_eq a.content_sha256 sha then some a else find_asset sha rest

-- An asset that is seen again; a storage key is only filled in.
abbrev seen_again : Payload → Time → MediaAsset → MediaAsset
seen_again p now a = record a {
  last_seen_at = now;
  storage_key =
      if truthy p.storage_key && not (truthy a.storage_key) then p.storage_key else a.storage_key;
}

pub touch_asset : Payload → Time → List MediaAsset → List MediaAsset
touch_asset p now [] = []
touch_asset p now (a ∷ rest) =
    (if str_eq a.content_sha256 p.content_sha256 then seen_again p now a else a)
    ∷ touch_asset p now rest

pub find_state : MediaKey → List EventMediaState → Option EventMediaState
find_state key [] = none
find_state key (row ∷ rest) = if same_key row.key key then some row else find_state key rest

pub put_state : EventMediaState → List EventMediaState → List EventMediaState
put_state row [] = []
put_state row (x ∷ rest) = if same_key x.key row.key then row ∷ rest else x ∷ put_state row rest

pub find_observation : MediaKey → String → Time → List MediaObservation → Option MediaObservation
find_observation key url at [] = none
find_observation key url at (o ∷ rest) =
    if same_key o.key key && str_eq o.normalized_url url && o.observed_at == at
    then some o
    else find_observation key url at rest

abbrev pub view_of : EventMediaState → StateView
view_of row = record {
  present = row.present;
  media_asset_id = row.current_media_asset_id;
  normalized_url = row.current_normalized_url;
  first_seen_at = row.first_seen_at;
  last_observed_at = row.last_observed_at;
  last_changed_at = row.last_changed_at;
  version = row.version;
}

abbrev pub view_found : Option EventMediaState → Option StateView
view_found none = none
view_found (some row) = some (view_of row)

-- The rows that `_apply` adds for the transitions of a decision.
pub transition_rows :
    MediaKey
    → Option StateView
    → ObsFacts
    → String
    → Bool
    → List MediaTransition
    → List TransitionRow
transition_rows key prev facts obs_id late [] = []
transition_rows key prev facts obs_id late (t ∷ ts) =
    record {
      key = key;
      transition_type = t;
      from_media_asset_id = elim prev [ none ↦ none | some s ↦ s.media_asset_id ];
      to_media_asset_id = facts.media_asset_id;
      from_normalized_url = elim prev [ none ↦ none | some s ↦ s.normalized_url ];
      to_normalized_url = facts.normalized_url;
      observation_id = obs_id;
      out_of_order = late;
      detected_at = facts.observed_at;
    }
    ∷ transition_rows key prev facts obs_id late ts

abbrev pub new_state : MediaKey → String → StateView → EventMediaState
new_state key obs_id s = record {
  key = key;
  current_media_asset_id = s.media_asset_id;
  current_observation_id = obs_id;
  current_normalized_url = s.normalized_url;
  present = s.present;
  first_seen_at = s.first_seen_at;
  last_observed_at = s.last_observed_at;
  last_changed_at = s.last_changed_at;
  version = s.version;
}

abbrev pub changed_state : String → StateView → EventMediaState → EventMediaState
changed_state obs_id s row = record row {
  current_media_asset_id = s.media_asset_id;
  current_observation_id = obs_id;
  current_normalized_url = s.normalized_url;
  present = s.present;
  last_observed_at = s.last_observed_at;
  last_changed_at = s.last_changed_at;
  version = s.version;
}

-- A new row, or the changed row; the first sighting of a row is not written again.
pub write_state :
    MediaKey
    → String
    → Option EventMediaState
    → Option StateView
    → List EventMediaState
    → List EventMediaState
unfolding put_state
write_state key obs_id found none states = states
write_state key obs_id none (some s) states = states ++ new_state key obs_id s ∷ []
write_state key obs_id (some row) (some s) states = put_state (changed_state obs_id s row) states

-- `_apply`
pub apply_facts : MediaKey → ObsFacts → String → MediaTables → MediaTables
unfolding find_state write_state transition_rows
apply_facts key facts obs_id t =
    let found = find_state key t.states in
    let decision = detect (view_found found) facts in
    record t {
      states = write_state key obs_id found decision.new_state t.states;
      transitions =
          t.transitions
          ++ transition_rows key (view_found found) facts obs_id decision.out_of_order
              decision.transitions;
    }
