-- ===== src/Jobs.antt =====
-- The chat jobs: the queue, its worker and what they keep (langgraph-python/app/jobs, app/platform).
pub mod Json
pub mod Request
pub mod Platform
pub mod Worker
pub mod Broker
pub mod Envelope
pub mod Publish
pub mod Store
pub mod Endpoint
pub mod Tests
