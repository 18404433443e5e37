-- ===== src/Crawl/Scheduler.antt =====
-- services/crawl-service/crawl_service/service.py: selection, leases, retries and health of the
-- scheduled captures. A transaction that fails leaves the store as it was.
pub mod Store
pub mod Enrollment
pub mod Jobs
pub mod Process
pub mod Runs
pub mod Enrichment
mod Examples
