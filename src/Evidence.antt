-- ===== src/Evidence.antt =====
-- app/evidence: the audit record of a request, the service that keeps it and the producer that sends
-- it to the ingester.
pub mod Models
pub mod Producer
pub mod Service
