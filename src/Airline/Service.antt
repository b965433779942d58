-- ===== src/Airline/Service.antt =====
-- The rebooking half of `Service` (langgraph-python/app/airline/service.py), over either of the two
-- repositories that main.py may give it.
use agents_at_scale.Prelude.{ℕ, Option, none, some}
use agents_at_scale.Airline.Errors.{Error, Result, err, runtime_error, ◌>>=◌}
use agents_at_scale.Airline.Models.{TravelCredit}
use agents_at_scale.Airline.Schemas.{Selection, Snapshot, Validation, RebookingResult}
use agents_at_scale.Airline.Database.{Database}
use agents_at_scale.Airline.Validation.{validate_rebooking_selection}
use agents_at_scale.Airline.Rebooking
use agents_at_scale.Airline.Snapshot
use agents_at_scale.Airline.Rebooking.{Inputs, Validate}

-- What the service calls of `app.airline.repository.rebooking` or `app.airline.repository.sql.rebooking`.
pub record RebookingRepository : Type 0 where
  pub get_snapshot : Selection → Database → Result (Snapshot × Option TravelCredit)
  pub execute : Validate → Selection → Database → Result RebookingResult × Database
  pub verify : Selection → Database → Result RebookingResult

abbrev pub orm : Inputs → RebookingRepository
orm inputs = record {
  get_snapshot = Snapshot.get_snapshot;
  execute = Rebooking.execute inputs;
  verify = Rebooking.verify;
}

-- The validation as a callback; `now` is the time at which it runs.
abbrev pub validate_at : ℕ → Validate
validate_at now sel snap credit = validate_rebooking_selection sel snap credit now

abbrev pub missing : Error
missing = runtime_error "rebooking repository is required"

unfoldable pub validate_rebooking :
    Option RebookingRepository → ℕ → Selection → Database → Result Validation
validate_rebooking none now sel db = err missing
validate_rebooking (some repository) now sel db = do
  seen ← repository.get_snapshot sel db
  validate_rebooking_selection sel seen.0 seen.1 now

unfoldable pub execute_rebooking :
    Option RebookingRepository → ℕ → Selection → Database → Result RebookingResult × Database
execute_rebooking none now sel db = (err missing, db)
execute_rebooking (some repository) now sel db = repository.execute (validate_at now) sel db

unfoldable pub verify_rebooking :
    Option RebookingRepository → Selection → Database → Result RebookingResult
verify_rebooking none sel db = err missing
verify_rebooking (some repository) sel db = repository.verify sel db
