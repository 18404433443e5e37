-- ===== src/ArtistScheduler.antt =====
-- services/artist-intelligence-service/artist_intelligence_service/scheduler.py: the rows of
-- demand_refresh_job, the settings, and what the scheduler asks of other parts. A row is known by its
-- unique key; its id, a digest of the key and the instant, is left out, and so is the provider, which
-- is the same in every row.
pub mod Enqueue
pub mod Claim
pub mod Execute
mod Examples
use n_quark.Prelude.{
  ℕ, ◌+◌, ◌/◌, String, Bool, true, false, ◌&&◌, ◌||◌, Option, none, some, List, [], ◌∷◌, ◌++◌, max,
  append, str_eq, if◌then◌else◌, opt_str_eq,
}
use n_quark.Prelude.Time.{Time}
use n_quark.ArtistCadence.{Days}

pub data JobType : Type 0 where
  channel video identity catalogue : JobType
  other : (name : String) → JobType

abbrev pub type_name : JobType → String
type_name JobType.channel = "YOUTUBE_CHANNEL_SNAPSHOT"
type_name JobType.video = "YOUTUBE_VIDEO_SNAPSHOT"
type_name JobType.identity = "YOUTUBE_IDENTITY_DISCOVERY"
type_name JobType.catalogue = "YOUTUBE_CATALOGUE_BACKFILL"
type_name (JobType.other name) = name

pub data DemandStatus : Type 0 where
  pending running succeeded failed_retryable failed_terminal : DemandStatus

-- What a service call returns, as far as the scheduler reads it.
pub record Result : Type 0 where
  pub status : Option String
  pub identity_id : Option String

-- The keys of `detail`.
pub record Detail : Type 0 where
  pub display_name : Option String
  pub reattempt : Bool
  pub last_result : Option Result
  pub last_error : Option String

pub record DemandJob : Type 0 where
  pub dedup_key : String
  pub canonical_artist_id : String
  pub job_type : JobType
  pub external_identity_id : Option String
  pub status : DemandStatus
  pub scheduled_at : Time
  pub started_at : Option Time
  pub completed_at : Option Time
  pub next_refresh_at : Option Time
  pub attempt_count : ℕ
  pub consecutive_failures : ℕ
  pub last_error_code : Option String
  pub result_code : Option String
  pub worker_id : Option String
  pub lock_expires_at : Option Time
  pub priority : ℕ
  pub detail : Detail
  pub created_at : Time
  pub updated_at : Time

-- A row of artist_external_identity of provider YOUTUBE and type CHANNEL_ID.
pub record Identity : Type 0 where
  pub id : String
  pub canonical_artist_id : String
  pub status : String
  pub metadata_query : Option String

pub record DemandSettings : Type 0 where
  pub channel_interval : ℕ
  pub video_interval : ℕ
  pub catalogue_interval : ℕ
  pub reattempt_ambiguous : ℕ
  pub reattempt_unresolved : ℕ
  pub batch_size : ℕ
  pub lock_ttl_seconds : ℕ
  pub max_attempts : ℕ
  pub backoff_base_seconds : ℕ
  pub backoff_max_seconds : ℕ

-- What the scheduler reads elsewhere: `digits` is `str` of an integer and `cut` is `text[:500]`; the
-- evidence classes of an artist (none where the query raises), the paused artists, the crawl registry
-- (none where it cannot be reached), the nearest event from the graph, the observations of an artist
-- and its newest video.
pub record Surroundings : Type 0 where
  pub digits : ℕ → String
  pub cut : String → String
  pub evidence_classes : String → Option (List String)
  pub paused : List String
  pub registry : Option (List String)
  pub event_proximity_days : String → Option Days
  pub observed_at : String → List Time
  pub newest_video : String → Option Time
  pub ambiguous : String → Bool
  pub near_reset : Bool

-- `_window`: the number of the refresh window, `interval` in seconds.
unfoldable pub window : Surroundings → Time → ℕ → String
window out now interval = out.digits (now / 1000000 / max interval 1)

-- `_exists`
unfoldable pub key_exists : String → List DemandJob → Bool
key_exists key [] = false
key_exists key (job ∷ rest) = str_eq job.dedup_key key || key_exists key rest

abbrev same_type : JobType → JobType → Bool
same_type a b = str_eq (type_name a) (type_name b)

-- PENDING, RUNNING or FAILED_RETRYABLE
abbrev pub is_active : DemandStatus → Bool
is_active DemandStatus.succeeded = false
is_active DemandStatus.failed_terminal = false
is_active _ = true

abbrev is_active_of : String → JobType → DemandJob → Bool
is_active_of artist job_type job =
    str_eq job.canonical_artist_id artist && same_type job.job_type job_type && is_active job.status

-- `_active_exists`: `scalar_one_or_none` raises where more than one row matches.
unfoldable active_rows : String → JobType → List DemandJob → List DemandJob
active_rows artist job_type [] = []
active_rows artist job_type (job ∷ rest) =
    let rows = active_rows artist job_type rest in
    if is_active_of artist job_type job then job ∷ rows else rows

unfoldable pub active_exists : String → JobType → List DemandJob → Option Bool
unfolding active_rows
active_exists artist job_type jobs = elim (active_rows artist job_type jobs) [
  | [] ↦ some false
  | job ∷ rows ↦ elim rows [ [] ↦ some true | _ ↦ none ]
]

-- The detail of a new job.
abbrev pub detail_of : Option String → Bool → Detail
detail_of display_name reattempt = record {
  display_name = display_name;
  reattempt = reattempt;
  last_result = none;
  last_error = none;
}

-- The row that `_add_job` adds.
unfoldable pub new_job :
    String → String → JobType → Option String → (priority : ℕ) → Time → Detail → DemandJob
new_job key artist job_type identity_id priority now detail = record {
  dedup_key = key;
  canonical_artist_id = artist;
  job_type = job_type;
  external_identity_id = identity_id;
  status = DemandStatus.pending;
  scheduled_at = now;
  started_at = none;
  completed_at = none;
  next_refresh_at = none;
  attempt_count = 0;
  consecutive_failures = 0;
  last_error_code = none;
  result_code = none;
  worker_id = none;
  lock_expires_at = none;
  priority = priority;
  detail = detail;
  created_at = now;
  updated_at = now;
}
