-- ===== src/Workflow.antt =====
-- app/workflow: the request model, the event bus, the engine and the demonstration scenarios.
pub mod RequestMetadata
pub mod Events
pub mod Setup
pub mod Messages
pub mod Endings
pub mod Engine
pub mod Concurrent
pub mod Scenarios
