-- ===== src/ArtistQuota.antt =====
-- services/artist-intelligence-service/artist_intelligence_service/quota.py: the meter of a provider's
-- calls. The children fold a meter into the tables, compare the tables with the budgets and report.
pub mod Tables
pub mod Budget
pub mod Snapshot
pub mod Charges
pub mod Ledger
pub mod Unique
pub mod Spending
mod Examples
use n_quark.Prelude.{ℕ, String, Bool, true, false, ◌&&◌, Option, none, List, [], ◌∷◌, ◌++◌, str_eq}

pub data Kind : Type 0 where
  search read video_batch : Kind

-- The names of the buckets; `search_for p` is `f"{BUCKET_SEARCH}:{p}"`.
pub data Bucket : Type 0 where
  search general_read video_stats_batch : Bucket
  search_for : (purpose : String) → Bucket

abbrev pub same_bucket : Bucket → Bucket → Bool
same_bucket Bucket.search Bucket.search = true
same_bucket Bucket.general_read Bucket.general_read = true
same_bucket Bucket.video_stats_batch Bucket.video_stats_batch = true
same_bucket (Bucket.search_for p) (Bucket.search_for q) = str_eq p q
same_bucket _ _ = false

pub record QuotaCall : Type 0 where
  pub kind : Kind
  pub bucket : Bucket
  pub units : ℕ
  pub ok : Bool
  pub quota_error : Bool
  pub purpose : Option String

-- `QuotaMeter.calls`
abbrev pub QuotaMeter : Type 0
QuotaMeter = List QuotaCall

abbrev yt_search_units : ℕ
yt_search_units = 1

unfoldable pub record_call : Kind → ℕ → Bucket → Bool → Bool → QuotaMeter → QuotaMeter
record_call kind units bucket ok quota_error calls =
    calls
    ++ record {
      kind = kind;
      bucket = bucket;
      units = units;
      ok = ok;
      quota_error = quota_error;
      purpose = none;
    }
      ∷ []

unfoldable pub read_call : ℕ → Bool → QuotaMeter → QuotaMeter
unfolding record_call
read_call units ok calls = record_call Kind.read units Bucket.general_read ok false calls

-- The call that `search` appends.
unfoldable pub search_of : Bool → Bool → Option String → QuotaCall
search_of ok quota_error purpose = record {
  kind = Kind.search;
  bucket = Bucket.search;
  units = yt_search_units;
  ok = ok;
  quota_error = quota_error;
  purpose = purpose;
}

unfoldable pub search_call : Bool → Bool → Option String → QuotaMeter → QuotaMeter
unfolding search_of
search_call ok quota_error purpose calls = calls ++ search_of ok quota_error purpose ∷ []

unfoldable pub video_batch_call : ℕ → Bool → QuotaMeter → QuotaMeter
unfolding record_call
video_batch_call units ok calls =
    record_call Kind.video_batch units Bucket.video_stats_batch ok false calls

-- The calls, and the meter that is left.
unfoldable pub drain : QuotaMeter → QuotaMeter × QuotaMeter
drain calls = (calls, [])
