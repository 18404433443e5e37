-- ===== src/Media/Service/Observe.antt =====
-- service.py: `observe` with `_upsert_asset`. The asset is written before the transaction of the
-- observation, so a repeated observation still touches it.
use n_quark.Prelude.{
  ℕ, suc, String, Bool, true, false, not, ◌&&◌, Option, none, some, List, [], ◌∷◌, ◌++◌,
  if◌then◌else◌, is_some, or_else, or_empty, truthy, str_eq,
}
use n_quark.Prelude.Time.{Time}
use n_quark.Media.{MediaTransition, StateView, Kind, ObsFacts, detect}
use n_quark.Media.Service.{
  ObserveInput, Payload, FetchResult, MediaKey, MediaObservation, MediaTables, role_of, find_asset,
  touch_asset, find_observation, find_state, view_found, apply_facts,
}

-- What the fetch phase leaves.
pub record Fetched : Type 0 where
  pub media_asset_id : Option String
  pub fetch_status : String
  pub http_status : Option ℕ
  pub content_type : Option String
  pub error_class : Option String

abbrev url_only : Fetched
url_only = record {
  media_asset_id = none;
  fetch_status = "URL_ONLY";
  http_status = none;
  content_type = none;
  error_class = none;
}

pub record MediaReply : Type 0 where
  pub observation_id : String
  pub media_asset_id : Option String
  pub fetch_status : String
  pub transitions : List MediaTransition
  pub out_of_order : Bool
  pub idempotent : Bool
  pub state : Option StateView

abbrev pub key_of : ObserveInput → MediaKey
key_of inp = record {
  canonical_event_id = inp.canonical_event_id;
  source = inp.source;
  asset_role = role_of inp.asset_role;
}

-- `not inp.asset_url and inp.authoritative`
abbrev pub is_absent : ObserveInput → Bool
is_absent inp = not (truthy inp.asset_url) && inp.authoritative

-- The facts that a recorded observation is detected with; none for a failed fetch, and where there
-- is neither a URL nor an authoritative absence.
unfoldable pub facts_of : ObserveInput → (url : String) → Time → Fetched → Option ObsFacts
facts_of inp url at f =
    if is_absent inp
    then some (record {
      kind = Kind.absent;
      media_asset_id = none;
      normalized_url = some url;
      observed_at = at;
      authoritative_absence = true;
    })
    else if truthy inp.asset_url
        && not (not (is_some f.media_asset_id) && not (str_eq f.fetch_status "URL_ONLY"))
    then some (record {
      kind = Kind.present;
      media_asset_id = f.media_asset_id;
      normalized_url = some url;
      observed_at = at;
      authoritative_absence = false;
    })
    else none

module _ (new_id : ℕ → String) (normalize : String → String) (fetch : String → FetchResult)
    (fetch_enabled : Bool) (now : Time) where
  unfoldable pub upsert_asset : Payload → Option String → Time → MediaTables → String × MediaTables
  unfolding find_asset touch_asset
  upsert_asset p content_type at t = elim (find_asset p.content_sha256 t.assets) [
    | some a ↦ (a.id, record t { assets = touch_asset p at t.assets })
    | none ↦ (
      new_id t.fresh,
      record t {
        assets =
            t.assets
            ++ record {
              id = new_id t.fresh;
              content_sha256 = p.content_sha256;
              mime_type = elim p.mime_type [ none ↦ content_type | some m ↦ some m ];
              byte_size = p.byte_size;
              width = p.width;
              height = p.height;
              image_format = p.image_format;
              storage_key = p.storage_key;
              fetch_status = "FETCHED";
              first_seen_at = at;
              last_seen_at = at;
            }
              ∷ [];
        fresh = suc t.fresh;
      },
    )
  ]

  -- A response that is fine gives an asset; any other keeps the state and names its error.
  unfoldable pub fetched_with :
      FetchResult → Option Payload → Time → MediaTables → Fetched × MediaTables
  unfolding upsert_asset
  fetched_with res none at t = (
    record {
      media_asset_id = none;
      fetch_status = res.status;
      http_status = res.http_status;
      content_type = res.content_type;
      error_class = some res.status;
    },
    t,
  )
  fetched_with res (some p) at t =
      let (id, t') = upsert_asset p res.content_type at t in
      (
        record {
          media_asset_id = some id;
          fetch_status = res.status;
          http_status = res.http_status;
          content_type = res.content_type;
          error_class = none;
        },
        t',
      )

  unfoldable pub fetch_phase : ObserveInput → Time → MediaTables → Fetched × MediaTables
  unfolding fetched_with
  fetch_phase inp at t =
      let res = fetch (or_empty inp.asset_url) in
      if truthy inp.asset_url && fetch_enabled
      then fetched_with res (if res.ok then res.payload else none) at t
      else (url_only, t)

  abbrev pub observed : ObserveInput → Time
  observed inp = or_else inp.observed_at now

  abbrev pub url_of : ObserveInput → String
  url_of inp = if truthy inp.asset_url then normalize (or_empty inp.asset_url) else ""

  observation_of : ObserveInput → Fetched → ℕ → MediaObservation
  observation_of inp f id = record {
    id = new_id id;
    key = key_of inp;
    source_record_id = inp.source_record_id;
    asset_url = or_empty inp.asset_url;
    normalized_url = url_of inp;
    media_asset_id = f.media_asset_id;
    observed_at = observed inp;
    fetch_status = if is_absent inp then "ABSENT" else f.fetch_status;
    http_status = f.http_status;
    content_type = f.content_type;
    error_class = f.error_class;
    trace_id = inp.trace_id;
  }

  unfoldable pub with_facts : MediaKey → String → Option ObsFacts → MediaTables → MediaTables
  unfolding apply_facts
  with_facts key obs_id none t = t
  with_facts key obs_id (some facts) t = apply_facts key facts obs_id t

  abbrev transitions_of : Option StateView → Option ObsFacts → List MediaTransition × Bool
  transitions_of prev none = ([], false)
  transitions_of prev (some facts) =
      let decision = detect prev facts in (decision.transitions, decision.out_of_order)

  -- The transaction: a repeated observation changes nothing.
  unfoldable pub record_observation :
      ObserveInput → Fetched → Option MediaObservation → MediaTables → MediaReply × MediaTables
  unfolding with_facts observation_of
  record_observation inp f (some o) t = (
    record {
      observation_id = o.id;
      media_asset_id = o.media_asset_id;
      fetch_status = o.fetch_status;
      transitions = [];
      out_of_order = false;
      idempotent = true;
      state = view_found (find_state (key_of inp) t.states);
    },
    t,
  )
  record_observation inp f none t =
      let o = observation_of inp f t.fresh in
      let added : MediaTables = record t {
        observations = t.observations ++ o ∷ [];
        fresh = suc t.fresh;
      } in
      let facts = facts_of inp (url_of inp) (observed inp) f in
      let t' = with_facts (key_of inp) o.id facts added in
      let (ts, late) = transitions_of (view_found (find_state (key_of inp) t.states)) facts in
      (
        record {
          observation_id = o.id;
          media_asset_id = f.media_asset_id;
          fetch_status = o.fetch_status;
          transitions = ts;
          out_of_order = late;
          idempotent = false;
          state = view_found (find_state (key_of inp) t'.states);
        },
        t',
      )

  unfoldable pub observe : ObserveInput → MediaTables → MediaReply × MediaTables
  unfolding fetch_phase record_observation
  observe inp t =
      let (f, t') = fetch_phase inp (observed inp) t in
      record_observation inp f
        (find_observation (key_of inp) (url_of inp) (observed inp) t'.observations) t'
