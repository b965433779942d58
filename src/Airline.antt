-- ===== src/Airline.antt =====
-- The airline domain (langgraph-python/app/airline).
pub mod Snapshot
pub mod Errors
pub mod Models
pub mod Schemas
pub mod Validation
pub mod Database
pub mod Rebooking
pub mod Service
pub mod Lookup
pub mod Sql
pub mod View
pub mod Access
pub mod Details
