-- ===== src/Media.antt =====
-- services/media-service/media_service/transitions.py and identity.py: the creative-transition
-- detector over one (event, source, role) state.
pub mod History
pub mod Replay
pub mod Service
mod Examples
use n_quark.Prelude.{
  ℕ, ◌+◌, String, Bool, true, false, not, ◌&&◌, Option, none, some, List, [], ◌∷◌, ltb,
  if◌then◌else◌, append, truthy, or_empty, str_eq, opt_str_eq, or_text,
}
use n_quark.Prelude.Time.{Time}

pub data MediaTransition : Type 0 where
  media_first_seen media_content_changed media_url_changed_same_content : MediaTransition
  media_role_changed media_disappeared media_reappeared : MediaTransition

pub record StateView : Type 0 where
  pub present : Bool
  pub media_asset_id : Option String
  pub normalized_url : Option String
  pub first_seen_at : Time
  pub last_observed_at : Time
  pub last_changed_at : Time
  pub version : ℕ

pub data Kind : Type 0 where
  present absent : Kind

pub record ObsFacts : Type 0 where
  pub kind : Kind
  pub media_asset_id : Option String
  pub normalized_url : Option String
  pub observed_at : Time
  pub authoritative_absence : Bool

pub record Decision : Type 0 where
  pub transitions : List MediaTransition
  pub new_state : Option StateView
  pub out_of_order : Bool
  pub changed : Bool

-- The content identity when it is known, else the normalized URL.
pub identity_key : Option String → String → String
identity_key asset_id url = if truthy asset_id then or_empty asset_id else append "url:" url

abbrev pub noop : Decision
noop = record { transitions = []; new_state = none; out_of_order = false; changed = false }

abbrev changed_to : List MediaTransition → StateView → Decision
changed_to ts s = record {
  transitions = ts;
  new_state = some s;
  out_of_order = false;
  changed = true;
}

-- `obs.kind == "ABSENT"`
detect_absent : Option StateView → ObsFacts → Decision
detect_absent none obs = noop
detect_absent (some prev) obs =
    if not obs.authoritative_absence
    then noop
    else if not prev.present
    then noop
    else changed_to (media_disappeared ∷ []) (record prev {
      present = false;
      last_observed_at = obs.observed_at;
      last_changed_at = obs.observed_at;
    })

-- A present observation of a state that was absent.
reappear : StateView → ObsFacts → Decision
reappear prev obs =
    let content_changed =
      truthy obs.media_asset_id
      && truthy prev.media_asset_id
      && not (opt_str_eq obs.media_asset_id prev.media_asset_id) in
    changed_to (media_reappeared ∷ (if content_changed then media_content_changed ∷ [] else []))
      (record prev {
        present = true;
        media_asset_id = or_text obs.media_asset_id prev.media_asset_id;
        normalized_url = or_text obs.normalized_url prev.normalized_url;
        last_observed_at = obs.observed_at;
        last_changed_at = obs.observed_at;
        version = if content_changed then prev.version + 1 else prev.version;
      })

-- A present observation of a state that was present.
update_present : StateView → ObsFacts → Decision
unfolding identity_key
update_present prev obs =
    if str_eq (identity_key obs.media_asset_id (or_empty obs.normalized_url))
      (identity_key prev.media_asset_id (or_empty prev.normalized_url))
    then (if truthy obs.media_asset_id
          && truthy obs.normalized_url
          && not (opt_str_eq obs.normalized_url prev.normalized_url)
        then changed_to (media_url_changed_same_content ∷ []) (record prev {
          normalized_url = obs.normalized_url;
          last_observed_at = obs.observed_at;
        })
        else record {
          transitions = [];
          new_state = some (record prev { last_observed_at = obs.observed_at });
          out_of_order = false;
          changed = false;
        })
    else changed_to (media_content_changed ∷ []) (record prev {
      media_asset_id = obs.media_asset_id;
      normalized_url = obs.normalized_url;
      last_observed_at = obs.observed_at;
      last_changed_at = obs.observed_at;
      version = prev.version + 1;
    })

first_seen : ObsFacts → Decision
first_seen obs = changed_to (media_first_seen ∷ []) (record {
  present = true;
  media_asset_id = obs.media_asset_id;
  normalized_url = obs.normalized_url;
  first_seen_at = obs.observed_at;
  last_observed_at = obs.observed_at;
  last_changed_at = obs.observed_at;
  version = 1;
})

detect_present : Option StateView → ObsFacts → Decision
unfolding first_seen reappear update_present
detect_present none obs = first_seen obs
detect_present (some prev) obs =
    if not prev.present then reappear prev obs else update_present prev obs

abbrev is_late : Option StateView → ObsFacts → Bool
is_late none obs = false
is_late (some prev) obs = ltb obs.observed_at prev.last_observed_at

by_kind : Kind → Option StateView → ObsFacts → Decision
unfolding detect_absent detect_present
by_kind Kind.absent prev obs = detect_absent prev obs
by_kind Kind.present prev obs = detect_present prev obs

pub detect : Option StateView → ObsFacts → Decision
unfolding by_kind
detect prev obs =
    if is_late prev obs
    then record { transitions = []; new_state = none; out_of_order = true; changed = false }
    else by_kind obs.kind prev obs
