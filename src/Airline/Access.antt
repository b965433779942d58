-- ===== src/Airline/Access.antt =====
-- The choice of the data access at the start (`lifespan` of langgraph-python/app/main.py).
pub mod Refinement
pub mod Failure
mod Tests
use agents_at_scale.Prelude.{String, if◌then◌else◌}
use agents_at_scale.Prelude.Eq.{◌==◌, string_eq}
use agents_at_scale.Airline.Service.{RebookingRepository, orm}
use agents_at_scale.Airline.Rebooking
use agents_at_scale.Airline.Sql.Rebooking as Sql
use agents_at_scale.Airline.Sql.Rebooking.{sql}

-- The repository of the rebookings: `sql_rebooking` for asyncpg, and that of the ORM for any other.
unfoldable pub rebookings : String → Rebooking.Inputs → Sql.Inputs → RebookingRepository
rebookings data_access orm_inputs sql_inputs =
    if data_access == "asyncpg" then sql sql_inputs else orm orm_inputs
