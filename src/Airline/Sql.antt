-- ===== src/Airline/Sql.antt =====
-- The repositories over plain statements (langgraph-python/app/airline/repository/sql).
pub mod Totals
pub mod Queries
pub mod Rebooking
pub mod Reading
pub mod Agreement
pub mod Refinement
pub mod Verification
pub mod Seats
pub mod Lookup
pub mod Details
pub mod Reservations
mod Tests
