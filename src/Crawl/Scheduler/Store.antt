-- ===== src/Crawl/Scheduler/Store.antt =====
-- The two tables of services/crawl-service/crawl_service/models.py, the settings that the scheduler
-- reads and the lookups by source and record id.
use n_quark.Prelude.{
  ℕ, String, Bool, true, false, ◌&&◌, ◌||◌, Option, none, some, List, [], ◌∷◌, ◌==◌, if◌then◌else◌,
  str_eq,
}
use n_quark.Prelude.Time.{Time}
use n_quark.Crawl.Classification.{ResultCode, Policy}
use n_quark.Crawl.Cadence.{CadenceReason, TrackingStatus, CadenceConfig, Timing}
use n_quark.Crawl.Priority.{Component, Components}

pub data JobStatus : Type 0 where
  pending running succeeded failed_retryable failed_terminal skipped : JobStatus

pub record TrackedEvent : Type 0 where
  pub id : ℕ
  pub source : String
  pub source_record_id : String
  pub canonical_event_id : Option String
  pub city : Option String
  pub starts_at : Option Time
  pub ends_at : Option Time
  pub event_date : Option String
  pub source_timezone : Option String
  pub on_sale_at : Option Time
  pub tracking_status : TrackingStatus
  pub first_tracked_at : Time
  pub last_attempt_at : Option Time
  pub last_success_at : Option Time
  pub last_record_present_at : Option Time
  pub last_state_change_at : Option Time
  pub next_capture_at : Option Time
  pub cadence_reason : Option CadenceReason
  pub priority : ℕ
  pub priority_reason : Option (Component × Components)
  pub consecutive_failures : ℕ
  pub consecutive_absences : ℕ
  pub capture_count : ℕ
  pub distinct_state_count : ℕ
  pub transition_count : ℕ
  pub last_capture_status : Option ResultCode
  pub created_at : Time
  pub updated_at : Time
  pub event_status : Option String
  pub region_id : Option String
  pub source_on_sale_at : Option Time
  pub first_ticket_state_seen_at : Option Time
  pub last_enriched_at : Option Time
  pub enrichment_status : Option String

pub record Job : Type 0 where
  pub id : ℕ
  pub dedup_key : String
  pub source : String
  pub source_record_id : String
  pub canonical_event_id : Option String
  pub status : JobStatus
  pub priority : ℕ
  pub scheduled_at : Time
  pub started_at : Option Time
  pub completed_at : Option Time
  pub next_capture_at : Option Time
  pub attempt_count : ℕ
  pub consecutive_failures : ℕ
  pub last_error_code : Option ResultCode
  pub result_code : Option ResultCode
  pub worker_id : Option String
  pub lock_expires_at : Option Time
  pub created_at : Time
  pub updated_at : Time

-- `fresh` stands for `uuid4`: the next id that no row has.
pub record Store : Type 0 where
  pub tracked : List TrackedEvent
  pub jobs : List Job
  pub fresh : ℕ

pub record Settings : Type 0 where
  pub capture_sources : List String
  pub city_allowlist : List String
  pub max_tracked : ℕ
  pub max_jobs : ℕ
  pub lock_ttl_seconds : ℕ
  pub policy : Policy
  pub cadence : CadenceConfig

abbrev pub is_event : String → String → TrackedEvent → Bool
is_event source sid te = str_eq te.source source && str_eq te.source_record_id sid

unfoldable pub find_tracked : String → String → List TrackedEvent → Option TrackedEvent
find_tracked source sid [] = none
find_tracked source sid (te ∷ rest) =
    if is_event source sid te then some te else find_tracked source sid rest

-- Writes the row of one event; (source, source_record_id) is a unique index.
unfoldable pub put_tracked : TrackedEvent → List TrackedEvent → List TrackedEvent
put_tracked row [] = []
put_tracked row (te ∷ rest) =
    (if is_event row.source row.source_record_id te then row else te) ∷ put_tracked row rest

unfoldable pub find_job : ℕ → List Job → Option Job
find_job id [] = none
find_job id (job ∷ rest) = if job.id == id then some job else find_job id rest

unfoldable pub put_job : Job → List Job → List Job
put_job row [] = []
put_job row (job ∷ rest) = (if job.id == row.id then row else job) ∷ put_job row rest

unfoldable pub has_key : String → List Job → Bool
has_key key [] = false
has_key key (job ∷ rest) = str_eq job.dedup_key key || has_key key rest

abbrev pub is_active : JobStatus → Bool
is_active JobStatus.pending = true
is_active JobStatus.running = true
is_active _ = false

abbrev pub is_pending : JobStatus → Bool
is_pending JobStatus.pending = true
is_pending _ = false

abbrev pub is_running : JobStatus → Bool
is_running JobStatus.running = true
is_running _ = false

-- The keyword arguments that the scheduler gives to `compute_cadence` for a row.
abbrev pub timing_of : TrackedEvent → Timing
timing_of te = record {
  starts_at = te.starts_at;
  ends_at = te.ends_at;
  event_date = te.event_date;
  local_timezone = te.source_timezone;
  on_sale_at = te.on_sale_at;
  tracking_status = te.tracking_status;
  provider_lifecycle = te.event_status;
  lifecycle_observed_at = te.last_state_change_at;
}
