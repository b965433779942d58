-- ===== src/Airline/Rebooking/Tests.antt =====
-- Alice's rebooking, over rows of langgraph-python/db/mock_data.sql: from AS100 to AS101, for 30.00 more
-- and a fee of 25.00, which her travel credit of 100.00 pays.
use agents_at_scale.Prelude.{ℕ, String, ◌≡◌, ◌↔◌, inl, refl, true, none, some, [], ◌∷◌, arith, ◌+◌}
use agents_at_scale.Prelude.Eq.{nat_eq, string_eq}
use agents_at_scale.Prelude.Int.{pos, int_eq, ◌+ℤ◌, ◌-ℤ◌, int_laws}
use agents_at_scale.Airline.Errors.{Result, ok, err, rebooking_rule, segment_not_found}
use agents_at_scale.Airline.Models.{
  Customer, Passenger, ReservationStatus, Reservation, FlightStatus, Flight, FareClass, FlightFare,
  SegmentStatus, ReservationSegment, TravelCreditStatus, TravelCredit,
}
use agents_at_scale.Airline.Schemas.{Selection, Validation, RebookingResult}
use agents_at_scale.Airline.Database.{Database, Session}
use agents_at_scale.Airline.Validation.{
  check_segment, check_target, check_credit, invalid_credit, difference, amount_due, quote,
  validate_rebooking_selection,
}
use agents_at_scale.Airline.Validation.Decision.{IsAllowed, validate-iff-IsAllowed}
use agents_at_scale.Airline.Service.{orm, validate_at, execute_rebooking, verify_rebooking}
use agents_at_scale.Airline.Rebooking.{
  Inputs, key_ltb, key_beq, lock_keys, lock_all, lock_fares, set_seats, move_seats, rebooked,
  rebook_segment, spend, flight_change, record_change, apply_change, change_booking, execute,
}
use agents_at_scale.Airline.Snapshot.{
  flight_of, fare_class_of, passenger_count, find_target, snapshot_fields, fill_snapshot,
  find_credit, selected_credit, snapshot, get_snapshot,
}
use agents_at_scale.Airline.Rebooking.Reading.{Rows, fields_of}
use agents_at_scale.Airline.Rebooking.Seats.{
  total, DistinctIds, IsStocked, execute-total, execute_rebooking-IsStocked,
}
use agents_at_scale.Airline.Rebooking.Money.{
  Charged, execute_rebooking-Charged, Spent, execute_rebooking-Spent,
}
use agents_at_scale.Airline.Rebooking.Repeat.{verify-execute, execute-execute}
use agents_at_scale.Airline.Rebooking.Locks.{In, Waits, change_booking_deadlock_free}
use agents_at_scale.Airline.Rebooking.Held.{fares, first_locks, locked_fares}

abbrev pub alice : Customer
alice = record {
  id = 1;
  first_name = "Alice";
  last_name = "Gomez";
  email = "alice@example.test";
  phone = some "+1-555-0101";
  created_at = 0;
  updated_at = 0;
}

abbrev traveller : Passenger
traveller = record {
  id = 1;
  first_name = "Alice";
  last_name = "Gomez";
  document_number = "DOC-ALICE-1";
  created_at = 0;
}

abbrev pub economy : FareClass
economy = record {
  id = 1;
  code = "ECO";
  name = "Economy";
  change_allowed = true;
  cancellation_allowed = true;
  change_fee = pos 2500;
  cancellation_fee = pos 5000;
  created_at = 0;
}

abbrev pub flight : ℕ → String → ℕ → Flight
flight id number departure_at = record {
  id = id;
  flight_number = number;
  origin_airport = "JFK";
  destination_airport = "LAX";
  departure_at = departure_at;
  arrival_at = departure_at + 4;
  status = FlightStatus.scheduled;
  capacity = pos 180;
  created_at = 0;
  updated_at = 0;
}

abbrev pub fare : ℕ → ℕ → ℕ → FlightFare
fare id price seats = record {
  id = id;
  flight_id = id;
  fare_class_id = 1;
  price = pos price;
  currency = "USD";
  available_seats = pos seats;
}

abbrev pub reservation : Reservation
reservation = record {
  id = 1;
  booking_reference = "ABC123";
  customer_id = 1;
  status = ReservationStatus.confirmed;
  total_amount = pos 30000;
  currency = "USD";
  created_at = 0;
  updated_at = 0;
}

abbrev pub segment : ReservationSegment
segment = record {
  id = 1;
  reservation_id = 1;
  flight_id = 1;
  fare_class_id = 1;
  status = SegmentStatus.confirmed;
  price_paid = pos 30000;
  currency = "USD";
  created_at = 0;
  updated_at = 0;
}

abbrev pub credit : TravelCredit
credit = record {
  id = 1;
  customer_id = 1;
  original_amount = pos 10000;
  remaining_amount = pos 10000;
  currency = "USD";
  status = TravelCreditStatus.available;
  expires_at = 900;
  created_at = 0;
}

abbrev pub mock_data : Database
mock_data = record {
  customers = alice ∷ [];
  passengers = traveller ∷ [];
  reservation_passengers = record { reservation_id = 1; passenger_id = 1 } ∷ [];
  reservations = reservation ∷ [];
  flights = flight 1 "AS100" 200 ∷ flight 2 "AS101" 224 ∷ [];
  fare_classes = economy ∷ [];
  flight_fares = fare 1 30000 179 ∷ fare 2 33000 100 ∷ [];
  reservation_segments = segment ∷ [];
  travel_credits = credit ∷ [];
  flight_changes = [];
}

abbrev pub inputs : Inputs
inputs = record {
  segment_updated_at = 10;
  reservation_updated_at = 11;
  change_id = 77;
  change_created_at = 12;
}

abbrev pub selection : Selection
selection = record {
  segment_id = 1;
  new_flight_id = 2;
  new_fare_class_id = 1;
  travel_credit_id = some 1;
  travel_credit_amount = pos 5500;
}

abbrev unknown_segment : Selection
unknown_segment = record selection { segment_id = 9 }

abbrev underpaid : Selection
underpaid = record selection { travel_credit_amount = pos 5400 }

alice_rows : Rows selection mock_data
unfolding flight_of fare_class_of
alice_rows = record {
  segment = segment;
  target = fare 2 33000 100;
  reservation = reservation;
  flight = flight 1 "AS100" 200;
  fare_class = economy;
  target_flight = flight 2 "AS101" 224;
  target_class = economy;
  segment_found = refl;
  target_found = refl;
  reservation_found = refl;
  flight_found = refl;
  fare_class_found = refl;
  target_flight_found = refl;
  target_class_found = refl;
}

abbrev priced : Validation
priced = quote selection (fields_of alice_rows)

abbrev alice_result : RebookingResult
alice_result = record {
  change = some (flight_change inputs selection priced);
  segment = rebooked inputs priced segment;
  booking_reference = "ABC123";
}

abbrev after : Database
after = (execute_rebooking (some (orm inputs)) 100 selection mock_data).1

alice_rebooked :
    execute_rebooking (some (orm inputs)) 100 selection mock_data ≡ (ok alice_result, after)
unfolding execute_rebooking execute change_booking snapshot find_target find_credit selected_credit
    fill_snapshot snapshot_fields flight_of fare_class_of passenger_count lock_fares lock_all
    lock_keys key_ltb key_beq set_seats move_seats rebook_segment spend flight_change record_change
    apply_change validate_rebooking_selection check_segment check_target check_credit invalid_credit
    difference amount_due quote alice_rows ◌+ℤ◌ ◌-ℤ◌
alice_rebooked = refl

mock_data-DistinctIds : DistinctIds mock_data.flight_fares
mock_data-DistinctIds = ground arith

mock_data-IsStocked : IsStocked mock_data
mock_data-IsStocked = record {
  distinct = mock_data-DistinctIds;
  seated = (omega int_laws, omega int_laws);
}

alice_IsAllowed : IsAllowed selection (fields_of alice_rows) (some credit) 100
unfolding validate_rebooking_selection check_segment check_target check_credit invalid_credit
    difference amount_due quote alice_rows passenger_count ◌+ℤ◌ ◌-ℤ◌
alice_IsAllowed = (validate-iff-IsAllowed selection (fields_of alice_rows) (some credit) 100).0 refl

validate-iff-IsAllowed_example :
    (validate_rebooking_selection selection (fields_of alice_rows) (some credit) 100 ≡ ok priced)
    ↔ IsAllowed selection (fields_of alice_rows) (some credit) 100
validate-iff-IsAllowed_example =
    validate-iff-IsAllowed selection (fields_of alice_rows) (some credit) 100

execute-total_example : total after.flight_fares ≡ total mock_data.flight_fares
unfolding execute_rebooking
execute-total_example =
    execute-total inputs (validate_at 100) selection mock_data mock_data-DistinctIds

execute_rebooking-IsStocked_example : IsStocked after
execute_rebooking-IsStocked_example =
    execute_rebooking-IsStocked inputs 100 selection mock_data mock_data-IsStocked

execute_rebooking-Charged_example :
    (rows : Rows selection mock_data) × Charged rows.segment.reservation_id
      (pos 5500)
      rows.segment.price_paid
      rows.target.price
      rows.target_class.change_fee
      mock_data
      after
execute_rebooking-Charged_example =
    execute_rebooking-Charged inputs 100 selection mock_data after alice_rebooked

execute_rebooking-Spent_example : Spent 1 (pos 5500) mock_data after
execute_rebooking-Spent_example =
    execute_rebooking-Spent inputs 100 selection mock_data after 1 refl alice_rebooked

underpaid_seen : get_snapshot underpaid mock_data ≡ ok (fields_of alice_rows, some credit)
unfolding get_snapshot snapshot find_target find_credit selected_credit fill_snapshot
    snapshot_fields flight_of fare_class_of alice_rows passenger_count
underpaid_seen = refl

underpaid_refused :
    validate_at 100 underpaid (fields_of alice_rows) (some credit)
    ≡ err (rebooking_rule "travel credit amount does not match amount due")
unfolding validate_rebooking_selection check_segment check_target check_credit invalid_credit
    difference amount_due quote alice_rows passenger_count ◌+ℤ◌ ◌-ℤ◌
underpaid_refused = refl

unknown_segment_unread :
    get_snapshot unknown_segment mock_data ≡ err (segment_not_found "reservation segment not found")
unfolding get_snapshot snapshot
unknown_segment_unread = refl

verify-execute_example :
    verify_rebooking (some (orm inputs)) selection after
    ≡ ok (record { change = none; segment = alice_result.segment; booking_reference = "ABC123" })
verify-execute_example = verify-execute inputs 100 selection mock_data after alice_rebooked

execute-execute_example :
    execute_rebooking (some (orm inputs)) 200 selection after
    ≡ (err (rebooking_rule "rebooking was already applied"), after)
execute-execute_example =
    execute-execute inputs inputs 100 200 selection mock_data after alice_rebooked

abbrev left : Result (RebookingResult × Session) → Session
left (ok (r, s)) = s
left (err e) = record { db = mock_data; locks = [] }

abbrev locked : Session
locked =
    left (change_booking inputs (validate_at 100) selection (record { db = mock_data; locks = [] }))

alice_locked :
    change_booking inputs (validate_at 100) selection (record { db = mock_data; locks = [] })
    ≡ ok (alice_result, locked)
unfolding change_booking snapshot find_target find_credit selected_credit fill_snapshot
    snapshot_fields flight_of fare_class_of passenger_count lock_fares lock_all lock_keys key_ltb
    key_beq set_seats move_seats rebook_segment spend flight_change record_change apply_change
    validate_rebooking_selection check_segment check_target check_credit invalid_credit difference
    amount_due quote alice_rows ◌+ℤ◌ ◌-ℤ◌
alice_locked = refl

in_order : locked_fares locked ≡ (1, 1) ∷ (2, 1) ∷ []
unfolding change_booking snapshot find_target find_credit selected_credit fill_snapshot
    snapshot_fields flight_of fare_class_of passenger_count lock_fares lock_all lock_keys key_ltb
    key_beq set_seats move_seats rebook_segment spend flight_change record_change apply_change
    validate_rebooking_selection check_segment check_target check_credit invalid_credit difference
    amount_due quote alice_rows ◌+ℤ◌ ◌-ℤ◌ fares first_locks
in_order = refl

Waits-in_order : Waits (1, 1) (2, 1) (locked_fares locked)
unfolding Waits In
Waits-in_order = rw in_order (inl (refl, inl refl))

change_booking_deadlock_free_example : ¬ Waits (2, 1) (1, 1) (locked_fares locked)
change_booking_deadlock_free_example =
    change_booking_deadlock_free inputs inputs 100 100 selection selection mock_data mock_data
      locked locked (1, 1) (2, 1) alice_locked alice_locked Waits-in_order
