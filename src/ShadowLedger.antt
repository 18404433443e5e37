-- ===== src/ShadowLedger.antt =====
-- services/graph-service/graph_service: the Shadow Ledger, an append-only record of the commercial
-- states of events with the transitions between them.
pub mod Fields
pub mod Detect
pub mod Rows
pub mod Observe
mod Examples
