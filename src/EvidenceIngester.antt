-- ===== src/EvidenceIngester.antt =====
-- go/evidence_ingester: the service to which the gateway sends its evidence records.
pub mod Domain
pub mod Storage
pub mod Paths
pub mod Handlers
pub mod Laws
pub mod Deliveries
pub mod Queries
pub mod Timestamps
pub mod Status
pub mod Counted
