-- ===== src/Airline/Access/Tests.antt =====
-- Alice's rebooking under both data accesses.
use agents_at_scale.Prelude.{◌≡◌, ◌↔◌, ◌⊎◌, refl, none, some, [], ◌∷◌, arith, find}
use agents_at_scale.Prelude.Eq.{nat_eq, string_eq}
use agents_at_scale.Prelude.Int.{pos, int_eq, ◌+ℤ◌, ◌-ℤ◌}
use agents_at_scale.Airline.Errors.{ok, err, rebooking_rule}
use agents_at_scale.Airline.Models.{FlightFare, Reservation}
use agents_at_scale.Airline.Schemas.{Selection, Validation, RebookingResult}
use agents_at_scale.Airline.Database.{Database}
use agents_at_scale.Airline.Validation.{
  check_segment, check_target, check_credit, invalid_credit, difference, amount_due, quote,
  validate_rebooking_selection,
}
use agents_at_scale.Airline.Service.{orm, validate_rebooking, execute_rebooking, verify_rebooking}
use agents_at_scale.Airline.Snapshot.{is_fare, is_reservation, flight_of, fare_class_of}
use agents_at_scale.Airline.Rebooking.Seats.{total}
use agents_at_scale.Airline.Rebooking.Tests.{fare, inputs, selection, mock_data}
use agents_at_scale.Airline.Sql.Queries.{
  count_passengers, join_segment, get_rebooking_segment, join_target, get_rebooking_target,
  get_travel_credit,
}
use agents_at_scale.Airline.Sql.Rebooking as Sql
use agents_at_scale.Airline.Sql.Rebooking.{
  sql, fill_snapshot, selected_credit, snapshot, get_snapshot, new_change, move_seats,
  rebook_segment, spend, result_of, change_booking, execute, segment_of, verified, verify,
}
use agents_at_scale.Airline.Sql.Agreement.{IsSound, validate_rebooking-agree}
use agents_at_scale.Airline.Sql.Verification.{sql_verify-execute}
use agents_at_scale.Airline.Sql.Seats.{sql_execute-total}
use agents_at_scale.Airline.View.{view, rebook}
use agents_at_scale.Airline.Access.{rebookings}
use agents_at_scale.Airline.Access.Failure.{execute_rebooking_fails}
use agents_at_scale.Airline.Access.Refinement.{MeetsSchema, execute_rebooking_refines}

abbrev sql_inputs : Sql.Inputs
sql_inputs = record { change_id = 77; now = 10 }

abbrev priced : Validation
priced = record {
  selection = selection;
  reservation_id = 1;
  customer_id = 1;
  old_flight_id = 1;
  old_fare_class_id = 1;
  new_flight_id = 2;
  new_fare_class_id = 1;
  new_price = pos 33000;
  fare_difference = pos 3000;
  change_fee = pos 2500;
  amount_due = pos 5500;
  travel_credit_used = pos 5500;
  currency = "USD";
  passenger_count = pos 1;
}

mock_data-IsSound : IsSound mock_data
mock_data-IsSound = record { known = (refl, tt); distinct = ground arith }

mock_data-MeetsSchema : MeetsSchema mock_data
mock_data-MeetsSchema = record { sound = mock_data-IsSound; distinct_fares = ground arith }

sql-priced : validate_rebooking (some (sql sql_inputs)) 100 selection mock_data ≡ ok priced
unfolding validate_rebooking get_snapshot snapshot fill_snapshot selected_credit
    get_rebooking_segment join_segment count_passengers get_rebooking_target join_target
    get_travel_credit flight_of fare_class_of validate_rebooking_selection check_segment
    check_target check_credit invalid_credit difference amount_due quote ◌+ℤ◌ ◌-ℤ◌
sql-priced = refl

abbrev rebooked : Database
rebooked = (execute_rebooking (some (sql sql_inputs)) 100 selection mock_data).1

abbrev sql_result : RebookingResult
sql_result = result_of selection priced (new_change sql_inputs selection priced)

sql-rebooked :
    execute_rebooking (some (sql sql_inputs)) 100 selection mock_data ≡ (ok sql_result, rebooked)
unfolding execute_rebooking execute change_booking snapshot fill_snapshot selected_credit
    get_rebooking_segment join_segment count_passengers get_rebooking_target join_target
    get_travel_credit flight_of fare_class_of validate_rebooking_selection check_segment
    check_target check_credit invalid_credit difference amount_due quote ◌+ℤ◌ ◌-ℤ◌ move_seats
    rebook_segment spend result_of new_change
sql-rebooked = refl

validate_rebooking-agree_example :
    (validate_rebooking (some (orm inputs)) 100 selection mock_data ≡ ok priced)
    ↔ (validate_rebooking (some (sql sql_inputs)) 100 selection mock_data ≡ ok priced)
validate_rebooking-agree_example =
    validate_rebooking-agree inputs sql_inputs 100 selection mock_data priced mock_data-IsSound

execute_rebooking_refines_example :
    (r : RebookingResult) × (db' : Database) × (execute_rebooking
        (some (rebookings "asyncpg" inputs sql_inputs))
        100
        selection
        mock_data
      ≡ (ok r, db'))
    × (view db' ≡ rebook selection priced (view mock_data))
unfolding rebookings
execute_rebooking_refines_example =
    execute_rebooking_refines "asyncpg" inputs sql_inputs 100 selection mock_data priced
      mock_data-MeetsSchema refl sql-priced

sql_verify-execute_example :
    (found : Reservation) × (find
        (is_reservation sql_result.segment.reservation_id)
        mock_data.reservations
      ≡ some found)
    × (sql_result.booking_reference ≡ "")
    × (verify_rebooking (some (sql sql_inputs)) selection rebooked
        ≡ ok (record {
          change = none;
          segment = record sql_result.segment { created_at = 0; updated_at = 0 };
          booking_reference = found.booking_reference;
        }))
sql_verify-execute_example =
    sql_verify-execute sql_inputs 100 selection mock_data rebooked sql-rebooked

-- The same booking, when the fare of AS100 is no longer on file.
abbrev withdrawn : Database
withdrawn = record mock_data { flight_fares = fare 2 33000 100 ∷ [] }

abbrev lost : Database
lost = (execute_rebooking (some (sql sql_inputs)) 100 selection withdrawn).1

withdrawn-priced : validate_rebooking (some (sql sql_inputs)) 100 selection withdrawn ≡ ok priced
unfolding validate_rebooking get_snapshot snapshot fill_snapshot selected_credit
    get_rebooking_segment join_segment count_passengers get_rebooking_target join_target
    get_travel_credit flight_of fare_class_of validate_rebooking_selection check_segment
    check_target check_credit invalid_credit difference amount_due quote ◌+ℤ◌ ◌-ℤ◌
withdrawn-priced = refl

withdrawn_rebooked :
    execute_rebooking (some (sql sql_inputs)) 100 selection withdrawn ≡ (ok sql_result, lost)
unfolding execute_rebooking execute change_booking snapshot fill_snapshot selected_credit
    get_rebooking_segment join_segment count_passengers get_rebooking_target join_target
    get_travel_credit flight_of fare_class_of validate_rebooking_selection check_segment
    check_target check_credit invalid_credit difference amount_due quote ◌+ℤ◌ ◌-ℤ◌ move_seats
    rebook_segment spend result_of new_change
withdrawn_rebooked = refl

sql_execute-total_example :
    (r : RebookingResult) × (db' : Database) × (execute_rebooking
        (some (sql sql_inputs))
        100
        selection
        withdrawn
      ≡ (ok r, db'))
    × (((old_fare : FlightFare) × (find (is_fare 1 1) withdrawn.flight_fares ≡ some old_fare)
          × (total db'.flight_fares ≡ total withdrawn.flight_fares))
        ⊎ ((find (is_fare 1 1) withdrawn.flight_fares ≡ none)
            × (total db'.flight_fares +ℤ pos 1 ≡ total withdrawn.flight_fares)))
sql_execute-total_example =
    sql_execute-total sql_inputs 100 selection withdrawn priced (ground arith) withdrawn-priced

abbrev underpaid : Selection
underpaid = record selection { travel_credit_amount = pos 5400 }

underpaid_refused :
    validate_rebooking (some (rebookings "asyncpg" inputs sql_inputs)) 100 underpaid mock_data
    ≡ err (rebooking_rule "travel credit amount does not match amount due")
unfolding rebookings validate_rebooking get_snapshot snapshot fill_snapshot selected_credit
    get_rebooking_segment join_segment count_passengers get_rebooking_target join_target
    get_travel_credit flight_of fare_class_of validate_rebooking_selection check_segment
    check_target check_credit invalid_credit difference amount_due quote ◌+ℤ◌ ◌-ℤ◌
underpaid_refused = refl

execute_rebooking_fails_example :
    execute_rebooking (some (rebookings "asyncpg" inputs sql_inputs)) 100 underpaid mock_data
    ≡ (err (rebooking_rule "travel credit amount does not match amount due"), mock_data)
execute_rebooking_fails_example =
    execute_rebooking_fails "asyncpg" inputs sql_inputs 100 underpaid mock_data underpaid_refused
