-- ===== src/Media/Service/Examples.antt =====
-- The theorems on the observation service at a poster whose fetch fails and whose content changes.
use n_quark.Prelude.{
  ℕ, ◌≡◌, refl, String, true, false, none, some, List, [], ◌∷◌, length, ◌==◌, if◌then◌else◌,
}
use n_quark.Media.History.{Accounts}
use n_quark.Media.{detect}
use n_quark.Media.Service.{
  ObserveInput, FetchResult, MediaTables, find_state, find_observation, role_of,
}
use n_quark.Media.Service.Observe.{key_of, observe, facts_of}
use n_quark.Media.Service.Refines.{view, log_of}
use n_quark.Media.Service.History.{Call, log, observe_all, observe_all-Accounts}

abbrev poster : ObserveInput
poster = record {
  canonical_event_id = "event:1";
  source = "ticketing";
  asset_url = some "http://x/1.png";
  asset_role = some "poster";
  source_record_id = none;
  observed_at = some 10;
  trace_id = none;
  authoritative = false;
}

abbrev image : String → String → FetchResult
image digest url = record {
  ok = true;
  status = "FETCHED";
  http_status = some 200;
  content_type = some "image/png";
  payload = some (record {
    content_sha256 = digest;
    mime_type = some "image/png";
    byte_size = 100;
    width = some 10;
    height = some 10;
    image_format = some "PNG";
    storage_key = none;
  });
}

abbrev refused : String → FetchResult
refused url = record {
  ok = false;
  status = "HTTP_ERROR";
  http_status = some 503;
  content_type = none;
  payload = none;
}

abbrev empty_tables : MediaTables
empty_tables = record { assets = []; observations = []; states = []; transitions = []; fresh = 0 }

abbrev numbered : ℕ → String
numbered n = if n == 0 then "id0" else if n == 1 then "id1" else if n == 2 then "id2" else "id3"

abbrev same_url : String → String
same_url url = url

-- The fetch fails, then it succeeds, then the URL has another content.
abbrev calls : List Call
calls =
    record { input = poster; fetch = refused; fetch_enabled = true; now = 12 }
    ∷ record {
      input = record poster { observed_at = some 20 };
      fetch = image "ab";
      fetch_enabled = true;
      now = 21;
    }
    ∷ record {
      input = record poster { observed_at = some 30 };
      fetch = image "cd";
      fetch_enabled = true;
      now = 31;
    }
    ∷ []

-- The failed fetch leaves nothing; the other two are a first sighting and a change of content.
calls-log : length (log (key_of poster) (observe_all numbered same_url calls empty_tables)) ≡ 2
unfolding observe_all observe log_of find_state detect find_observation facts_of role_of
calls-log = refl

observe_all-Accounts_example :
    Accounts
      (view (key_of poster) (observe_all numbered same_url calls empty_tables))
      (log (key_of poster) (observe_all numbered same_url calls empty_tables))
observe_all-Accounts_example =
    observe_all-Accounts numbered same_url (key_of poster) calls empty_tables refl refl
