-- ===== src/Providers.antt =====
-- app/providers: the taxonomy of enrichment, the providers and their registry.
pub mod Base
pub mod Registry
pub mod Stubs
