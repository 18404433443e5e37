-- ===== src/Crawl.antt =====
-- services/crawl-service/crawl_service: the deterministic policies and the capture scheduler.
pub mod Lifecycle
pub mod Classification
pub mod Cadence
pub mod Priority
pub mod Scheduler
mod Examples
pub mod Governance
